-- ===== src/Prelude/Results.antt =====
use mathlib.Core.Option.{Option, none, some}
use mathlib.Core.Path.{◌≡◌, refl}
use native.Mathlib.Omega.{arith}

-- What a call of the program can end in: a value, the `Err(())` of the step storage, a panic
-- (`unwrap` on an empty value, `panic!`, an arithmetic underflow), or no end within the rounds that
-- the model grants a loop.
pub data Outcome {ℓ} (A : Type ℓ) : Type ℓ where
  ok : A → Outcome A
  err : Outcome A
  panic : Outcome A
  out_of_fuel : Outcome A

infixl 5 ◌>>=◌
abbrev pub ◌>>=◌ {ℓ κ} : {A : Type ℓ} {B : Type κ} → Outcome A → (A → Outcome B) → Outcome B
ok a >>= f = f a
err >>= f = err
panic >>= f = panic
out_of_fuel >>= f = out_of_fuel

-- What `do` binds before a value was a value.
pub >>=-ok {ℓ κ} :
    {A : Type ℓ} {B : Type κ} (x : Outcome A) (f : A → Outcome B) (b : B)
    → (x >>= f) ≡ ok b
    → (a : A) × (x ≡ ok a) × (f a ≡ ok b)
>>=-ok (ok a) f b h = (a, refl, h)
>>=-ok err f b h = absurd (cc)
>>=-ok panic f b h = absurd (cc)
>>=-ok out_of_fuel f b h = absurd (cc)

-- What a value that is returned holds.
pub ok_inj : {A : Type 0} (a b : A) → Outcome.ok a ≡ Outcome.ok b → a ≡ b
ok_inj a b e = ground (arith, e)

pub ok_pair :
    {A C : Type 0} (a : A) (c : C) (a' : A) (c' : C)
    → ◌≡◌ {A = Outcome (A × C)} (ok (a, c)) (ok (a', c'))
    → c ≡ c'
ok_pair a c a' c' e = ground (arith, e)

-- `option.unwrap()`.
abbrev pub unwrap {ℓ} : {A : Type ℓ} → Option A → Outcome A
unwrap none = panic
unwrap (some a) = ok a

pub unwrap-some : {A : Type 0} (o : Option A) (a : A) → unwrap o ≡ ok a → o ≡ some a
unwrap-some none a h = absurd (cc)
unwrap-some (some b) a h = ground (arith, h)

-- `result.unwrap()`, on an `Err(())` of the step storage.
abbrev pub unwrap_ok {ℓ} : {A : Type ℓ} → Outcome A → Outcome A
unwrap_ok (ok a) = ok a
unwrap_ok err = panic
unwrap_ok panic = panic
unwrap_ok out_of_fuel = out_of_fuel

pub unwrap_ok-ok : {A : Type 0} (x : Outcome A) (a : A) → unwrap_ok x ≡ ok a → x ≡ ok a
unwrap_ok-ok (ok b) a h = h
unwrap_ok-ok err a h = absurd (cc)
unwrap_ok-ok panic a h = absurd (cc)
unwrap_ok-ok out_of_fuel a h = absurd (cc)
