-- ===== src/Source/Adapters/Advanced.antt =====
-- source/src/adapters/duplicate/advanced.rs: up to when all duplicates of a source have advanced.
pub mod Drift
use cozal.Prelude.{
  ℕ, ◌+◌, ◌-◌, ◌≡◌, refl, ap, Bool, true, false, Option, none, some, List, [], ◌∷◌, ltb, leb,
  if◌then◌else◌, Ordering, compare, Outcome, ok, panic, ◌>>=◌,
}
use cozal.Transposer.Time.{Ord, nat_ord, nat_cmp_refl, eq_of_nat_cmp, nat_cmp_flip, nat_cmp_trans}
use cozal.Transposer.Storage.{lookup, insert_entry, without, least}

-- The order of `Option`: `None` is the least.
abbrev pub cmp_option : Option ℕ → Option ℕ → Ordering
cmp_option none none = Ordering.eq
cmp_option none (some _) = Ordering.lt
cmp_option (some _) none = Ordering.gt
cmp_option (some a) (some b) = compare a b

pub cmp_option_refl : (a : Option ℕ) → cmp_option a a ≡ Ordering.eq
cmp_option_refl none = refl
cmp_option_refl (some a) = nat_cmp_refl a

pub eq_of_cmp_option : (a b : Option ℕ) → cmp_option a b ≡ Ordering.eq → a ≡ b
eq_of_cmp_option none none h = refl
eq_of_cmp_option none (some b) h = absurd (cc)
eq_of_cmp_option (some a) none h = absurd (cc)
eq_of_cmp_option (some a) (some b) h = ap some (eq_of_nat_cmp a b h)

pub cmp_option_flip : (a b : Option ℕ) → cmp_option a b ≡ Ordering.gt → cmp_option b a ≡ Ordering.lt
cmp_option_flip none none h = absurd (cc)
cmp_option_flip none (some b) h = absurd (cc)
cmp_option_flip (some a) none h = refl
cmp_option_flip (some a) (some b) h = nat_cmp_flip a b h

pub cmp_option_trans :
    (a b c : Option ℕ)
    → cmp_option a b ≡ Ordering.lt
    → cmp_option b c ≡ Ordering.lt
    → cmp_option a c ≡ Ordering.lt
cmp_option_trans none none none h k = h
cmp_option_trans none (some b) none h k = absurd (cc)
cmp_option_trans none b (some c) h k = refl
cmp_option_trans (some a) none c h k = absurd (cc)
cmp_option_trans (some a) (some b) none h k = absurd (cc)
cmp_option_trans (some a) (some b) (some c) h k = nat_cmp_trans a b c h k

instance abbrev pub option_ord : Ord (Option ℕ)
option_ord = record {
  cmp = cmp_option;
  cmp_refl = cmp_option_refl;
  eq_of_cmp = eq_of_cmp_option;
  cmp_flip = cmp_option_flip;
  cmp_trans = cmp_option_trans;
}

pub record Advanced : Type 0 where
  pub time_count : List (Option ℕ × ℕ)
  pub index_map : List (ℕ × Option ℕ)

abbrev pub new : Advanced
new = record { time_count = []; index_map = [] }

abbrev pub time_of_first : Option (Option ℕ × ℕ) → Option ℕ
time_of_first none = none
time_of_first (some (k, _)) = k

unfoldable pub current_aggregate_advancement : Advanced → Option ℕ
current_aggregate_advancement self = time_of_first (least ⦃o = option_ord⦄ self.time_count)

abbrev pub one_more : Option ℕ → ℕ
one_more none = 1
one_more (some t) = t + 1

unfoldable pub increment_time : Option ℕ → Advanced → Advanced
increment_time time self = record self {
  time_count =
      insert_entry ⦃o = option_ord⦄ time (one_more (lookup ⦃o = option_ord⦄ time self.time_count))
        self.time_count;
}

unfoldable pub decrement_time : Option ℕ → Advanced → Advanced
decrement_time time self = elim (lookup ⦃o = option_ord⦄ time self.time_count) [
  | none ↦ self
  | some t ↦
      if leb t 1
      then record self { time_count = without ⦃o = option_ord⦄ time self.time_count }
      else record self { time_count = insert_entry ⦃o = option_ord⦄ time (t - 1) self.time_count }
]

unfoldable pub register_new_duplicate : ℕ → Advanced → Option ℕ × Advanced
unfolding increment_time
register_new_duplicate index self =
    let advanced = current_aggregate_advancement self in
    let counted = increment_time advanced self in
    (
      advanced,
      record counted { index_map = insert_entry ⦃o = nat_ord⦄ index advanced counted.index_map },
    )

-- Whether the duplicate has advanced to `time` or further already.
abbrev pub is_advanced : Option ℕ → ℕ → Bool
is_advanced none time = false
is_advanced (some prev_time) time = leb time prev_time

-- What all duplicates have advanced to now, if that is later than before.
abbrev pub advanced_from : Option ℕ → ℕ → Option ℕ
advanced_from none after = some after
advanced_from (some before) after = if ltb before after then some after else none

abbrev pub unwrap_time : Option ℕ → Outcome ℕ
unwrap_time none = panic
unwrap_time (some t) = ok t

abbrev pub recount : Option ℕ → ℕ → Advanced → Outcome (Option ℕ × Advanced)
recount prev_time time self = do
  let before = current_aggregate_advancement self
  let self' = increment_time (some time) (decrement_time prev_time self)
  after ← unwrap_time (current_aggregate_advancement self')
  ok (advanced_from before after, self')

abbrev pub advance_from : Option (Option ℕ) → ℕ → Advanced → Outcome (Option ℕ × Advanced)
advance_from none time self = panic
advance_from (some prev_time) time self =
    if is_advanced prev_time time then ok (none, self) else recount prev_time time self

-- `index_map` keeps the time of the registration.
unfoldable pub advance : ℕ → ℕ → Advanced → Outcome (Option ℕ × Advanced)
advance time index self = advance_from (lookup ⦃o = nat_ord⦄ index self.index_map) time self
