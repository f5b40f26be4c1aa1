-- ===== src/Source/Adapters/ChannelMap/Maximum.antt =====
-- source/src/adapters/duplicate/channel_map.rs: every channel that `max_channel` allows is mapped to a
-- channel of the source.
use cozal.Prelude.{
  ℕ, zero, suc, ◌+◌, ◌-◌, ◌*◌, ◌/◌, ◌%◌, ◌==◌, ◌≤◌, ◌<◌, ◌≡◌, refl, ◌∙◌, ap, Bool-cases, true,
  if◌then◌else◌, ltb, leb, arith, ◌⊎◌, inl, inr, none, some, >>=-ok, ◌>>=◌, Outcome, ok,
}
use cozal.Source.Adapters.ChannelMap
use cozal.Source.Adapters.ChannelMap.{
  word, fits, minus, checked_mul, half_product, max_duplicates, last_b, max_channel, non_zero,
}
use cozal.Source.Adapters.ChannelMap.Sqrt.{mul_mono, int_sqrt_lem}
use cozal.Source.Adapters.ChannelMap.Bounds.{
  triangle, triangle_mono, twice-triangle, half_even, half_odd, half_product_lem, half_product-ok,
  map_lem,
}

-- With the root `r` of `2 * n`, one of `r` and `r - 1` is the last row that starts at or before `n`.
row_after : (n r : ℕ) → 2 * n < (r + 1) * (r + 1) → n < triangle (suc r)
row_after n r up =
    let e = twice-triangle (suc r) in
    let le : (r + 1) * (r + 1) ≤ suc r * (suc r + 1) = grind arith in omega (arith, e, le, up)

row_before : (n r : ℕ) → suc r * suc r ≤ 2 * n → triangle r ≤ n
row_before n r lower =
    let e = twice-triangle r in
    let le : r * (r + 1) ≤ suc r * suc r = grind arith in omega (arith, e, le, lower)

finish_max_lem :
    (n r : ℕ)
    → n < word
    → r * r ≤ 2 * n
    → 2 * n < (r + 1) * (r + 1)
    → (m : ℕ) × (ChannelMap.finish_max n r
          (if ltb (triangle r) word then some (triangle r) else none)
        ≡ ok m)
      × (triangle m ≤ n)
      × (n < triangle (suc m))
unfolding triangle
finish_max_lem n zero small lower upper = (0, ground arith, omega arith, row_after n 0 upper)
finish_max_lem n (suc r) small lower upper = elim (Bool-cases (leb (triangle (suc r)) n)) [
  | inl le ↦ (suc r, ground (arith, le, small), ground (arith, le), row_after n (suc r) upper)
  | inr gt ↦ (r, ground (arith, gt), row_before n r lower, ground (arith, gt))
]

product_is_triangle :
    (r : ℕ)
    → (if r % 2 == 0 then checked_mul (r / 2) (r + 1) else checked_mul r ((r + 1) / 2))
      ≡ (if ltb (triangle r) word then some (triangle r) else none)
product_is_triangle r = elim (Bool-cases (r % 2 == 0)) [
  | inl even ↦ rw (even, half_even r even) refl
  | inr odd ↦ rw (odd, half_odd r odd) refl
]

root_fits : (n r : ℕ) → n < word → r * r ≤ 2 * n → r + 1 < word
root_fits n r small lower = elim (Bool-cases (ltb r 8589934592)) [
  | inl less ↦ ground (arith, less)
  | inr more ↦
      let square = mul_mono 8589934592 r (ground (arith, more)) in
      absurd (omega (arith, square, small, lower))
]

-- `max_duplicates` returns the last row of the triangle that starts at or before `n`.
pub max_duplicates_lem :
    (n : ℕ)
    → n < word
    → (m : ℕ) × (max_duplicates n ≡ ok m) × (triangle m ≤ n) × (n < triangle (suc m))
unfolding max_duplicates
max_duplicates_lem n small =
    let (r, e, lower, upper, lt) = int_sqrt_lem (2 * n) (omega (arith, small)) in
    let (m, at_m, le, above) = finish_max_lem n r small lower upper in
    let fit : ltb (r + 1) word ≡ true = ground (arith, root_fits n r small lower) in
    (m, rw (max_duplicates, e, ◌>>=◌, fit, product_is_triangle r) at_m, le, above)

minus-ok : (a b r : ℕ) → minus a b ≡ ok r → a ≡ r + b
minus-ok a b r h = elim (Bool-cases (leb b a)) [
  | inl le ↦ ground (arith, h, le)
  | inr gt ↦ absurd (ground (arith, h, gt))
]

last_b_lem : (n m b : ℕ) → max_duplicates n ≡ ok m → last_b n ≡ ok b → n ≡ b + triangle m
unfolding last_b
last_b_lem n m b e h =
    let (p, e', h₁) = >>=-ok (half_product m) _ _ (rw (◌>>=◌, e) at h) in
    minus-ok n p b h₁ ∙ ap (λ k. b + k) (half_product-ok m p e')

abbrev last_of : ℕ → ℕ → Outcome ℕ
last_of max_b b = (if ltb b max_b then minus max_b 1 else ok max_b) >>= non_zero

last_of-ok : (max_b b k : ℕ) → last_of max_b b ≡ ok k → (suc k ≤ max_b) ⊎ ((k ≤ max_b) × (k ≤ b))
last_of-ok max_b b k h = elim (Bool-cases (ltb b max_b)) [
  | inl less ↦
      let (j, e, h₁) = >>=-ok (minus max_b 1) non_zero k (rw less at h) in
      let e' = minus-ok max_b 1 j e in inl (ground (arith, e', h₁))
  | inr more ↦ inr (ground (arith, more, h), ground (arith, more, h))
]

within :
    (m d c k b max_b : ℕ)
    → m ≡ max_b + d
    → (suc k ≤ max_b) ⊎ ((k ≤ max_b) × (k ≤ b))
    → c ≤ k
    → triangle (d + c) + c ≤ b + triangle m
unfolding triangle
within m d c k b max_b e (inl less) le =
    let up = triangle_mono (suc (d + c)) m (omega (arith, e, less, le)) in omega (arith, up)
within m d c k b max_b e (inr (le_max, le_b)) le =
    let up = triangle_mono (d + c) m (omega (arith, e, le_max, le)) in omega (arith, up, le_b, le)

max_channel-map :
    (channels duplicate channel k : ℕ)
    → channels < word
    → max_channel channels duplicate ≡ ok k
    → channel ≤ k
    → (r : ℕ) × (ChannelMap.map duplicate channel ≡ ok r) × (r ≤ channels)
unfolding max_channel
max_channel-map n d c k small h le =
    let (m, e, lower, upper) = max_duplicates_lem n small in
    let (max_b, e₁, h₁) = >>=-ok (minus m d) _ _ (rw e at h) in
    let (b, e₂, h₂) = >>=-ok (last_b n) _ _ h₁ in
    let total = last_b_lem n m b e e₂ in
    let bound : triangle (d + c) + c ≤ n =
      rw total (within m d c k b max_b (minus-ok m d max_b e₁) (last_of-ok max_b b k h₂) le) in
    (triangle (d + c) + c, map_lem d c (omega (arith, bound, small)), bound)

minus_ok : (a b : ℕ) → b ≤ a → minus a b ≡ ok (a - b)
minus_ok a b le = ground (arith, le)

last_of_total : (max_b b : ℕ) → 2 ≤ max_b → (k : ℕ) × (last_of max_b b ≡ ok k)
last_of_total max_b b two = elim (Bool-cases (ltb b max_b)) [
  | inl less ↦ (max_b - 1, ground (arith, less, two))
  | inr more ↦ (max_b, ground (arith, more, two))
]

enough_duplicates : (n d m : ℕ) → triangle (d + 2) ≤ n → n < triangle (suc m) → d + 2 ≤ m
enough_duplicates n d m room upper = elim (Bool-cases (leb (d + 2) m)) [
  | inl le ↦ ground (arith, le)
  | inr gt ↦
      let up = triangle_mono (suc m) (d + 2) (ground (arith, gt)) in
      absurd (omega (arith, up, room, upper))
]

-- The source has at least `0 + 1 + … + (duplicate + 2)` channels after its first one. `max_channel`
-- returns, and every channel of the duplicate up to what it returns is mapped, without an overflow, to a
-- channel of the source up to its last one, `channels`.
pub max_channel_total :
    (channels duplicate : ℕ)
    → channels < word
    → triangle (duplicate + 2) ≤ channels
    → (k : ℕ) × (max_channel channels duplicate ≡ ok k)
      × ((channel : ℕ)
          → channel ≤ k
          → (r : ℕ) × (ChannelMap.map duplicate channel ≡ ok r) × (r ≤ channels))
unfolding max_channel last_b
max_channel_total n d small room =
    let (m, e, lower, upper) = max_duplicates_lem n small in
    let enough = enough_duplicates n d m room upper in
    let (k, at_k) = last_of_total (m - d) (n - triangle m) (omega (arith, enough)) in
    let returns : max_channel n d ≡ ok k =
      rw
        (
          max_channel,
          last_b,
          e,
          ◌>>=◌,
          minus_ok m d (omega (arith, enough)),
          half_product_lem m (omega (arith, lower, small)),
          minus_ok n (triangle m) lower,
        )
        at_k in
    (k, returns, λ c le. max_channel-map n d c k small returns le)
