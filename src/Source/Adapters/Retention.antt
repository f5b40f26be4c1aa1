-- ===== src/Source/Adapters/Retention.antt =====
-- source/src/adapters/transpose/retention_policy.rs: up to when a transposed source keeps its history.
use cozal.Prelude.{
  ℕ, ◌+◌, ◌≡◌, ◌≤◌, sym, subst, Bool-cases, inl, inr, Bool, true, false, not, ◌==◌, leb,
  if◌then◌else◌, Outcome, ok, panic, arith,
}

pub record RetentionPolicy : Type 0 where
  pub source_last_finalized : ℕ
  pub caller_last_advanced : ℕ

abbrev pub new : ℕ → RetentionPolicy
new initial = record { source_last_finalized = initial; caller_last_advanced = initial }

unfoldable pub get_retain_after : RetentionPolicy → ℕ
get_retain_after self =
    if leb self.source_last_finalized self.caller_last_advanced
    then self.source_last_finalized
    else self.caller_last_advanced

-- Whether the time to retain after is another one, with the new policy.
abbrev pub changed : RetentionPolicy → RetentionPolicy → Outcome (Bool × RetentionPolicy)
changed old new = ok (not (get_retain_after old == get_retain_after new), new)

unfoldable pub source_finalize : ℕ → RetentionPolicy → Outcome (Bool × RetentionPolicy)
unfolding get_retain_after
source_finalize time self =
    if leb self.source_last_finalized time
    then changed self (record self { source_last_finalized = time })
    else panic

unfoldable pub caller_advance : ℕ → RetentionPolicy → Outcome (Bool × RetentionPolicy)
unfolding get_retain_after
caller_advance time self =
    if leb self.caller_last_advanced time
    then changed self (record self { caller_last_advanced = time })
    else panic

-- A time to retain after that is told to be the same is, and one that is told to change goes up.
abbrev pub Raises : RetentionPolicy → Bool → RetentionPolicy → Type 0
Raises old true new = (get_retain_after old + 1) ≤ get_retain_after new
Raises old false new = get_retain_after old ≡ get_retain_after new

changed-Raises :
    (old new : RetentionPolicy)
    → get_retain_after old ≤ get_retain_after new
    → Raises old (not (get_retain_after old == get_retain_after new)) new
changed-Raises old new le = elim (Bool-cases (get_retain_after old == get_retain_after new)) [
  | inl e ↦ subst (λ b. Raises old (not b) new) (sym e) (ground (arith, e))
  | inr e ↦ subst (λ b. Raises old (not b) new) (sym e) (ground (arith, e, le))
]

-- A finalized time and an advance that do not go back are taken, the other is kept, and what the calls
-- return says whether the time to retain after has gone up or is the same.
pub source_finalize-caller_advance :
    (self : RetentionPolicy) (time : ℕ)
    → self.source_last_finalized ≤ time
    → self.caller_last_advanced ≤ time
    → ((b : Bool) × (source_finalize time self
          ≡ ok (b, record self { source_last_finalized = time }))
        × Raises self b (record self { source_last_finalized = time }))
      × ((b : Bool) × (caller_advance time self
            ≡ ok (b, record self { caller_last_advanced = time }))
          × Raises self b (record self { caller_last_advanced = time }))
unfolding source_finalize caller_advance
source_finalize-caller_advance self time le le' =
    let finalized = record self { source_last_finalized = time } in
    let advanced = record self { caller_last_advanced = time } in
    (
      (
        not (get_retain_after self == get_retain_after finalized),
        ground (arith, le),
        changed-Raises self finalized (ground (arith, le)),
      ),
      (
        not (get_retain_after self == get_retain_after advanced),
        ground (arith, le'),
        changed-Raises self advanced (ground (arith, le')),
      ),
    )
