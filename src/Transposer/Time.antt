-- ===== src/Transposer/Time.antt =====
-- transposer/src/step/time.rs, transposer/src/expire_handle.rs and
-- transposer/src/step/expire_handle_factory.rs. A `T::Time` is a natural number.
use cozal.Prelude.{ℕ, ◌+◌, ◌≡◌, Ordering, compare, Bool, true, false, arith}

-- A total order, as `Ord` of the language promises it.
pub record Ord {ℓ} (K : Type ℓ) : Type ℓ where
  pub cmp : K → K → Ordering
  pub cmp_refl : (a : K) → cmp a a ≡ Ordering.eq
  pub eq_of_cmp : (a b : K) → cmp a b ≡ Ordering.eq → a ≡ b
  pub cmp_flip : (a b : K) → cmp a b ≡ Ordering.gt → cmp b a ≡ Ordering.lt
  pub cmp_trans :
      (a b c : K) → cmp a b ≡ Ordering.lt → cmp b c ≡ Ordering.lt → cmp a c ≡ Ordering.lt

-- The test `a == b` of an ordered type.
abbrev pub same {ℓ} : {K : Type ℓ} ⦃o : Ord K⦄ → K → K → Bool
same ⦃o⦄ a b = elim (o.cmp a b) [ Ordering.eq ↦ true | _ ↦ false ]

pub record SubStepTime : Type 0 where
  pub index : ℕ
  pub time : ℕ

pub record ScheduledTime : Type 0 where
  pub time : ℕ
  pub parent_index : ℕ
  pub emission_index : ℕ

abbrev pub ExpireHandle : Type 0
ExpireHandle = ℕ

-- `Ordering::then`, by which a derived `Ord` goes through the fields.
abbrev pub then_with : Ordering → Ordering → Ordering
then_with Ordering.eq second = second
then_with first _ = first

-- The derived order: the fields in the order of their declaration.
abbrev pub cmp_scheduled : ScheduledTime → ScheduledTime → Ordering
cmp_scheduled a b =
    then_with (compare a.time b.time) (
      then_with (compare a.parent_index b.parent_index) (compare a.emission_index b.emission_index))

pub cmp_scheduled_refl : (a : ScheduledTime) → cmp_scheduled a a ≡ Ordering.eq
cmp_scheduled_refl a = ground arith

pub eq_of_cmp_scheduled : (a b : ScheduledTime) → cmp_scheduled a b ≡ Ordering.eq → a ≡ b
eq_of_cmp_scheduled a b h = ground arith

pub cmp_scheduled_flip :
    (a b : ScheduledTime) → cmp_scheduled a b ≡ Ordering.gt → cmp_scheduled b a ≡ Ordering.lt
cmp_scheduled_flip a b h = ground arith

pub cmp_scheduled_trans :
    (a b c : ScheduledTime)
    → cmp_scheduled a b ≡ Ordering.lt
    → cmp_scheduled b c ≡ Ordering.lt
    → cmp_scheduled a c ≡ Ordering.lt
cmp_scheduled_trans a b c h k = ground arith

instance abbrev pub scheduled_ord : Ord ScheduledTime
scheduled_ord = record {
  cmp = cmp_scheduled;
  cmp_refl = cmp_scheduled_refl;
  eq_of_cmp = eq_of_cmp_scheduled;
  cmp_flip = cmp_scheduled_flip;
  cmp_trans = cmp_scheduled_trans;
}

pub nat_cmp_refl : (a : ℕ) → compare a a ≡ Ordering.eq
nat_cmp_refl a = ground arith

pub eq_of_nat_cmp : (a b : ℕ) → compare a b ≡ Ordering.eq → a ≡ b
eq_of_nat_cmp a b h = ground arith

pub nat_cmp_flip : (a b : ℕ) → compare a b ≡ Ordering.gt → compare b a ≡ Ordering.lt
nat_cmp_flip a b h = ground arith

pub nat_cmp_trans :
    (a b c : ℕ) → compare a b ≡ Ordering.lt → compare b c ≡ Ordering.lt → compare a c ≡ Ordering.lt
nat_cmp_trans a b c h k = ground arith

instance abbrev pub nat_ord : Ord ℕ
nat_ord = record {
  cmp = compare;
  cmp_refl = nat_cmp_refl;
  eq_of_cmp = eq_of_nat_cmp;
  cmp_flip = nat_cmp_flip;
  cmp_trans = nat_cmp_trans;
}

-- `SubStepTime::new_init`
abbrev pub new_init : ℕ → SubStepTime
new_init time = record { index = 0; time = time }

-- `SubStepTime::spawn_scheduled`
abbrev pub spawn_scheduled : SubStepTime → ℕ → ℕ → ScheduledTime
spawn_scheduled self time emission_index = record {
  time = time;
  parent_index = self.index;
  emission_index = emission_index;
}

-- `ExpireHandleFactory`, and `next`: the handle, and the factory that follows.
pub record ExpireHandleFactory : Type 0 where
  pub next_handle : ℕ

abbrev pub next : ExpireHandleFactory → ExpireHandle × ExpireHandleFactory
next self = (self.next_handle, record { next_handle = self.next_handle + 1 })
