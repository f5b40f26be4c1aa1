-- ===== src/Source/Adapters/ChannelMap/Sqrt.antt =====
-- source/src/adapters/duplicate/channel_map.rs: `int_sqrt` ends, with the root rounded down.
use cozal.Prelude.{
  ℕ, zero, suc, ◌+◌, ◌-◌, ◌*◌, ◌/◌, ◌==◌, ◌≤◌, ◌<◌, ◌≡◌, refl, Bool-cases, ltb, leb, arith, inl,
  inr, ok,
}
use cozal.Source.Adapters.ChannelMap.{word, newton, int_sqrt}

pub mul_mono : (a b : ℕ) → a ≤ b → a * a ≤ b * b
mul_mono a b h = grind arith

-- The product of two numbers is not above the square of their mean.
mean_from : (x k : ℕ) → 4 * (x * (x + k)) ≤ (x + (x + k)) * (x + (x + k))
mean_from x k = grind arith

mean_to : (m k : ℕ) → 4 * ((m + k) * m) ≤ ((m + k) + m) * ((m + k) + m)
mean_to m k = grind arith

mean : (x m : ℕ) → 4 * (x * m) ≤ (x + m) * (x + m)
mean x m = elim (Bool-cases (leb x m)) [
  | inl le ↦ let e : m ≡ x + (m - x) = ground (arith, le) in rw e (mean_from x (m - x))
  | inr gt ↦ let e : x ≡ m + (x - m) = ground (arith, gt) in rw e (mean_to m (x - m))
]

-- The next guess is not below the root.
above : (a x q y : ℕ) → a < x * (q + 1) → y ≡ (x + q) / 2 → a < (y + 1) * (y + 1)
above a x q y h e =
    let half : x + (q + 1) ≤ 2 * (y + 1) = omega (arith, e) in
    let square = mul_mono (x + (q + 1)) (2 * (y + 1)) half in
    grind (arith, mean x (q + 1), square, h)

division : (a x : ℕ) → 1 ≤ x → (x * (a / x) ≤ a) × (a < x * (a / x + 1))
division a x h = (grind arith, grind arith)

below_word : (a x : ℕ) → a < 2 * word → x * x ≤ a → x < word
below_word a x h le = elim (Bool-cases (ltb x word)) [
  | inl lt ↦ ground (arith, lt)
  | inr ge ↦ absurd (ground (arith, mul_mono word x (ground (arith, ge)), h, le))
]

positive : (a y : ℕ) → 2 ≤ a → a < (y + 1) * (y + 1) → 1 ≤ y
positive a zero two up = absurd (omega (arith, two, up))
positive a (suc y) two up = omega arith

square_le : (a x q : ℕ) → x ≤ q → x * q ≤ a → x * x ≤ a
square_le a x q h le = grind arith

first_guess : (a : ℕ) → 1 ≤ a / 2 → a < (a / 2 + 1) * (a / 2 + 1)
first_guess a h =
    let lt : a < 2 * (a / 2) + 2 = omega arith in
    let square : 1 * 1 ≤ a / 2 * (a / 2) = mul_mono 1 (a / 2) h in grind (arith, lt, square)

small_root : (a : ℕ) → a ≤ 1 → (a * a ≤ a) × (a < (a + 1) * (a + 1))
small_root zero h = (omega arith, omega arith)
small_root (suc zero) h = (omega arith, omega arith)
small_root (suc (suc a)) h = absurd (omega (arith, h))

-- The loop ends within `x0` rounds.
newton_lem :
    (n a x0 : ℕ)
    → 1 ≤ x0
    → x0 ≤ n
    → 2 ≤ a
    → a < 2 * word
    → a < (x0 + 1) * (x0 + 1)
    → (r : ℕ) × (newton n a x0 ≡ ok r) × (r * r ≤ a) × (a < (r + 1) * (r + 1)) × (r < word)
unfolding newton
newton_lem zero a x0 pos le two small up = absurd (omega (arith, pos, le))
newton_lem (suc n) a x0 pos le two small up =
    let q = a / x0 in
    let x1 = (x0 + q) / 2 in
    let (q_le, lt_q) = division a x0 pos in
    let up' : a < (x1 + 1) * (x1 + 1) = above a x0 q x1 lt_q refl in
    elim (Bool-cases (ltb x1 x0)) [
      | inl less ↦
          let pos' : 1 ≤ x1 = positive a x1 two up' in
          let (r, e, lower, upper, lt) =
            newton_lem n a x1 pos' (ground (arith, less, le)) two small up' in
          (r, rw (newton, less) e, lower, upper, lt)
      | inr done ↦
          let le' : x0 ≤ q = ground (arith, done) in
          let square : x0 * x0 ≤ a = square_le a x0 q le' q_le in
          let lt = below_word a x0 small square in
          (x0, rw (newton, done) (ground (arith, lt)), square, up, lt)
    ]

-- `int_sqrt` of a number below `2 ^ 65` returns: its loop ends, with the root rounded down.
pub int_sqrt_lem :
    (a : ℕ)
    → a < 2 * word
    → (r : ℕ) × (int_sqrt a ≡ ok r) × (r * r ≤ a) × (a < (r + 1) * (r + 1)) × (r < word)
unfolding int_sqrt
int_sqrt_lem a small = elim (Bool-cases (a / 2 == 0)) [
  | inl zero_half ↦
      let le : a ≤ 1 = ground (arith, zero_half) in
      let (lower, upper) = small_root a le in
      (a, ground (arith, zero_half, le), lower, upper, ground (arith, le))
  | inr more ↦
      let pos : 1 ≤ a / 2 = ground (arith, more) in
      let two : 2 ≤ a = omega (arith, pos) in
      let up : a < (a / 2 + 1) * (a / 2 + 1) = first_guess a pos in
      let (r, e, lower, upper, lt) = newton_lem (a / 2) a (a / 2) pos (omega arith) two small up in
      (r, rw more e, lower, upper, lt)
]
