-- ===== src/Tests/Entries.antt =====
-- util/src/extended_entry on maps with the keys 0, 1 and 3.
use cozal.Prelude.{ℕ, ◌≡◌, ◌<◌, refl, none, some, List, [], ◌∷◌, ok, arith}
use cozal.Transposer.Time.{nat_ord}
use cozal.Transposer.Storage.{lookup}
use cozal.Util.Entry.{OccupiedExtEntry, VacantExtEntry}
use cozal.Util.Entry.BTree
use cozal.Util.Entry.BTree.{get_first_vacant}
use cozal.Util.Entry.Trips.{IsAscending, occupy-vacate}
use cozal.Util.Entry.Vacant.{get_first_vacant_total}

abbrev letters : List (ℕ × ℕ)
letters = (0, 10) ∷ (1, 11) ∷ (3, 13) ∷ []

get_first_vacant_total_example :
    (i : ℕ) × (get_first_vacant letters ≡ ok (record { map = letters; key = i }))
    × (lookup ⦃o = nat_ord⦄ i letters ≡ none)
    × ((j : ℕ) → j < i → (v : ℕ) × (lookup ⦃o = nat_ord⦄ j letters ≡ some v))
get_first_vacant_total_example =
    get_first_vacant_total letters (omega arith, (omega arith, (omega arith, tt)))

abbrev at_one : OccupiedExtEntry ℕ ℕ
at_one = record { map = letters; key = 1 }

one_held : BTree.get_value ⦃o = nat_ord⦄ at_one ≡ ok 11
unfolding BTree.get_value lookup
one_held = refl

occupy-vacate_example :
    (free : VacantExtEntry ℕ ℕ) × (BTree.vacate ⦃o = nat_ord⦄ at_one ≡ ok (free, 11))
    × IsAscending ⦃o = nat_ord⦄ free.map
    × (lookup ⦃o = nat_ord⦄ 1 free.map ≡ none)
    × (BTree.occupy ⦃o = nat_ord⦄ 11 free ≡ ok at_one)
occupy-vacate_example =
    occupy-vacate ⦃o = nat_ord⦄ at_one 11 ((refl, (refl, tt)), ((refl, tt), (tt, tt))) one_held
