-- ===== src/Source/Adapters/ChannelMap.antt =====
-- source/src/adapters/duplicate/channel_map.rs: the channels of the duplicates of a source, as channels
-- of the source. A `usize` has 64 bits; where an operation overflows the code panics.
pub mod Sqrt
pub mod Bounds
pub mod Maximum
use cozal.Prelude.{
  ℕ, zero, suc, ◌+◌, ◌-◌, ◌*◌, ◌/◌, ◌%◌, ◌==◌, Option, none, some, Bool, true, false, if◌then◌else◌,
  ltb, leb, Outcome, ok, panic, out_of_fuel, ◌>>=◌,
}

-- `2 ^ 64`
abbrev pub word : ℕ
word = 18446744073709551616

abbrev pub fits : ℕ → Outcome ℕ
fits n = if ltb n word then ok n else panic

abbrev pub minus : ℕ → ℕ → Outcome ℕ
minus a b = if leb b a then ok (a - b) else panic

abbrev pub checked_mul : ℕ → ℕ → Option ℕ
checked_mul a b = if ltb (a * b) word then some (a * b) else none

-- `s * (s + 1) / 2`, halving the even one of the factors first.
unfoldable pub half_product : ℕ → Outcome ℕ
half_product s =
    if s % 2 == 0
    then (fits (s + 1) >>= λ t. fits (s / 2 * t))
    else (fits (s + 1) >>= λ t. fits (s * (t / 2)))

unfoldable pub map : ℕ → ℕ → Outcome ℕ
map duplicate channel = do s ← fits (duplicate + channel); p ← half_product s; fits (p + channel)

-- The rounds of the loop that are left, then `a` and `x0`.
unfoldable pub newton : ℕ → ℕ → ℕ → Outcome ℕ
newton zero a x0 = out_of_fuel
newton (suc n) a x0 =
    let x1 = (x0 + a / x0) / 2 in elim (ltb x1 x0) [ true ↦ newton n a x1 | false ↦ ok (x0 % word) ]

-- On a `u128`; the root is cut to a `usize`.
unfoldable pub int_sqrt : ℕ → Outcome ℕ
int_sqrt a = let x0 = a / 2 in if x0 == 0 then ok (a % word) else newton x0 a x0

abbrev pub finish_max : ℕ → ℕ → Option ℕ → Outcome ℕ
finish_max channels sqrt none = minus sqrt 1
finish_max channels sqrt (some m) = if leb m channels then ok sqrt else minus sqrt 1

unfoldable pub max_duplicates : ℕ → Outcome ℕ
max_duplicates channels = do
  sqrt ← int_sqrt (2 * channels)
  t ← fits (sqrt + 1)
  let p = if sqrt % 2 == 0 then checked_mul (sqrt / 2) t else checked_mul sqrt (t / 2)
  finish_max channels sqrt p

unfoldable pub last_b : ℕ → Outcome ℕ
last_b n = do a ← max_duplicates n; p ← half_product a; minus n p

-- `NonZeroUsize::new(…).unwrap()`
abbrev pub non_zero : ℕ → Outcome ℕ
non_zero n = if n == 0 then panic else ok n

unfoldable pub max_channel : ℕ → ℕ → Outcome ℕ
max_channel channels duplicate = do
  a ← max_duplicates channels
  max_b ← minus a duplicate
  b ← last_b channels
  max_b' ← (if ltb b max_b then minus max_b 1 else ok max_b)
  non_zero max_b'
