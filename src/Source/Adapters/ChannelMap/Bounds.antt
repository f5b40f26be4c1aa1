-- ===== src/Source/Adapters/ChannelMap/Bounds.antt =====
-- source/src/adapters/duplicate/channel_map.rs: no two channels of the duplicates share a channel of the
-- source.
use cozal.Prelude.{
  ℕ, zero, suc, ◌+◌, ◌*◌, ◌/◌, ◌%◌, ◌==◌, ◌≤◌, ◌<◌, ◌≡◌, refl, sym, ◌∙◌, ap, Bool-cases, true,
  false, ltb, leb, arith, inl, inr, >>=-ok, ◌>>=◌, ok,
}
use cozal.Source.Adapters.ChannelMap
use cozal.Source.Adapters.ChannelMap.{
  word, fits, minus, checked_mul, half_product, max_duplicates, last_b, max_channel,
}

-- `0 + 1 + … + n`
unfoldable pub triangle : ℕ → ℕ
triangle zero = 0
triangle (suc n) = suc n + triangle n

pub triangle_mono : (a b : ℕ) → a ≤ b → triangle a ≤ triangle b
unfolding triangle
triangle_mono a zero h = grind (arith, h)
triangle_mono a (suc b) h = elim (Bool-cases (leb a b)) [
  | inl le ↦ grind (arith, triangle_mono a b (ground (arith, le)))
  | inr gt ↦ let e : a ≡ suc b = ground (arith, gt, h) in rw e (omega arith)
]

le-triangle : (n : ℕ) → n ≤ triangle n
unfolding triangle
le-triangle zero = omega arith
le-triangle (suc n) = omega arith

pub twice-triangle : (n : ℕ) → 2 * triangle n ≡ n * (n + 1)
unfolding triangle
twice-triangle zero = refl
twice-triangle (suc n) = grind (arith, twice-triangle n)

double_cancel : (a b : ℕ) → 2 * a ≡ 2 * b → a ≡ b
double_cancel a b e = omega (arith, e)

pub half_even : (n : ℕ) → (n % 2 == 0) ≡ true → n / 2 * (n + 1) ≡ triangle n
half_even n even =
    let e : 2 * (n / 2) ≡ n = ground (arith, even) in
    double_cancel (n / 2 * (n + 1)) (triangle n)
      (grind (arith, ap (λ k. k * (n + 1)) e, twice-triangle n))

pub half_odd : (n : ℕ) → (n % 2 == 0) ≡ false → n * ((n + 1) / 2) ≡ triangle n
half_odd n odd =
    let e : 2 * ((n + 1) / 2) ≡ n + 1 = ground (arith, odd) in
    double_cancel (n * ((n + 1) / 2)) (triangle n)
      (grind (arith, ap (λ k. n * k) e, twice-triangle n))

pub successor_fits : (s : ℕ) → triangle s < word → s + 1 < word
unfolding triangle
successor_fits zero h = omega arith
successor_fits (suc n) h = omega (arith, le-triangle n, h)

-- The halves are multiplied without an overflow wherever the result fits.
pub half_product_lem : (s : ℕ) → triangle s < word → half_product s ≡ ok (triangle s)
unfolding half_product
half_product_lem s h = elim (Bool-cases (s % 2 == 0)) [
  | inl even ↦
      let fit : ltb (s + 1) word ≡ true = ground (arith, successor_fits s h) in
      let fit' : ltb (s / 2 * (s + 1)) word ≡ true = rw (half_even s even) (ground (arith, h)) in
      rw (half_product, even, ◌>>=◌, fit, fit') (ap ok (half_even s even))
  | inr odd ↦
      let fit : ltb (s + 1) word ≡ true = ground (arith, successor_fits s h) in
      let fit' : ltb (s * ((s + 1) / 2)) word ≡ true = rw (half_odd s odd) (ground (arith, h)) in
      rw (half_product, odd, ◌>>=◌, fit, fit') (ap ok (half_odd s odd))
]

fits-ok : (n r : ℕ) → fits n ≡ ok r → (r ≡ n) × (n < word)
fits-ok n r h = elim (Bool-cases (ltb n word)) [
  | inl small ↦ (ground (arith, h, small), ground (arith, small))
  | inr large ↦ absurd (ground (arith, h, large))
]

pub half_product-ok : (s p : ℕ) → half_product s ≡ ok p → (p ≡ triangle s)
unfolding half_product
half_product-ok s p h = elim (Bool-cases (s % 2 == 0)) [
  | inl even ↦
      let (t, e, h₁) = >>=-ok (fits (s + 1)) _ _ (rw even at h) in
      let (at_t, _) = fits-ok (s + 1) t e in
      let (at_p, _) = fits-ok (s / 2 * t) p h₁ in at_p ∙ ap (λ k. s / 2 * k) at_t ∙ half_even s even
  | inr odd ↦
      let (t, e, h₁) = >>=-ok (fits (s + 1)) _ _ (rw odd at h) in
      let (at_t, _) = fits-ok (s + 1) t e in
      let (at_p, _) = fits-ok (s * (t / 2)) p h₁ in
      at_p ∙ ap (λ k. s * (k / 2)) at_t ∙ half_odd s odd
]

pub map_lem :
    (d c : ℕ) → triangle (d + c) + c < word → ChannelMap.map d c ≡ ok (triangle (d + c) + c)
unfolding ChannelMap.map
map_lem d c h =
    let fit : ltb (d + c) word ≡ true = ground (arith, le-triangle (d + c), h) in
    let fit' : ltb (triangle (d + c) + c) word ≡ true = ground (arith, h) in
    rw (ChannelMap.map, ◌>>=◌, fit, half_product_lem (d + c) (omega (arith, h)), fit') refl

map-ok : (d c r : ℕ) → ChannelMap.map d c ≡ ok r → r ≡ triangle (d + c) + c
unfolding ChannelMap.map
map-ok d c r h =
    let (s, e, h₁) = >>=-ok (fits (d + c)) _ _ h in
    let (p, e', h₂) = >>=-ok (half_product s) _ _ h₁ in
    let (at_s, _) = fits-ok (d + c) s e in
    let (at_r, _) = fits-ok (p + c) r h₂ in
    at_r ∙ ap (λ k. k + c) (half_product-ok s p e' ∙ ap triangle at_s)

-- A number stands in one row of the triangle.
row : (s c s' c' : ℕ) → c ≤ s → triangle s + c ≡ triangle s' + c' → s' ≤ s
unfolding triangle
row s c s' c' h e = elim (Bool-cases (leb s' s)) [
  | inl le ↦ ground (arith, le)
  | inr gt ↦
      let up = triangle_mono (suc s) s' (ground (arith, gt)) in absurd (omega (arith, up, h, e))
]

-- Two channels of duplicates that are mapped to the same channel of the source are the same channel of
-- the same duplicate.
pub map_injective :
    (d c d' c' r : ℕ)
    → ChannelMap.map d c ≡ ok r
    → ChannelMap.map d' c' ≡ ok r
    → (d ≡ d') × (c ≡ c')
map_injective d c d' c' r h h' =
    let e : triangle (d + c) + c ≡ triangle (d' + c') + c' =
      sym (map-ok d c r h) ∙ map-ok d' c' r h' in
    let le = row (d + c) c (d' + c') c' (omega arith) e in
    let ge = row (d' + c') c' (d + c) c (omega arith) (sym e) in
    let same : d + c ≡ d' + c' = omega (arith, le, ge) in
    let same_c : c ≡ c' = omega (arith, e, ap triangle same) in
    (omega (arith, same, same_c), same_c)
