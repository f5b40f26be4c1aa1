-- ===== src/Tests/Duplicates.antt =====
-- source/src/adapters/duplicate on a source that counts its polls, with two duplicates.
use cozal.Prelude.{ℕ, ◌+◌, ◌≡◌, ◌≢◌, refl, false, some, none, [], ◌∷◌, ok, arith}
use cozal.Transposer.Time.{nat_ord}
use cozal.Transposer.Storage.{lookup}
use cozal.Source.Adapters.ChannelMap
use cozal.Source.Adapters.Advanced
use cozal.Source.Adapters.Rollback
use cozal.Source.Adapters.Rollback.{event, is_later}
use cozal.Source.Adapters.Duplicate
use cozal.Source.Adapters.Duplicate.{Src, PollFn, Original, emitted}
use cozal.Source.Adapters.Duplicate.Shares.{poll-shares}
use cozal.Source.Adapters.Duplicate.Fresh.{from_original_lem}
use cozal.Util.Entry.Vacant.{IsAscendingFrom}

abbrev counting : Src
counting = record {
  Self = ℕ;
  Event = ℕ;
  State = ℕ;
  Error = ℕ;
  advance = λ _ n. n;
  max_channel = λ _. 9;
}

-- The value 7, at the time 5.
abbrev seven : PollFn counting
seven n time channel = (emitted 7 5, n + 1)

abbrev two : Original counting
two = record { source = 0; children = (0, some []) ∷ (1, some []) ∷ []; advanced = Advanced.new }

channel_of_first : ChannelMap.map 0 2 ≡ ok 5
unfolding ChannelMap.map ChannelMap.half_product
channel_of_first = refl

channel_of_second : ChannelMap.map 1 2 ≡ ok 8
unfolding ChannelMap.map ChannelMap.half_product
channel_of_second = refl

first_child : lookup ⦃o = nat_ord⦄ 0 two.children ≡ some (some [])
unfolding lookup
first_child = refl

second_child : lookup ⦃o = nat_ord⦄ 1 two.children ≡ some (some [])
unfolding lookup
second_child = refl

nothing_kept : (Rollback.poll_previously_emitted {Event = ℕ} 6 []).0 ≡ none
unfolding Rollback.poll_previously_emitted
nothing_kept = refl

not_later : is_later {Event = ℕ} 8 (event 5 7) ≡ false
unfolding is_later
not_later = refl

poll-shares_example :
    (self' self'' : Original counting) × (Duplicate.poll counting seven 6 2 0 two
      ≡ ok (emitted 7 5, self'))
    × (Duplicate.poll counting seven 8 2 1 self' ≡ ok (emitted 7 5, self''))
    × (self''.source ≡ 1)
    × (lookup ⦃o = nat_ord⦄ 1 self''.children ≡ some (some []))
poll-shares_example =
    poll-shares counting seven 6 8 2 2 5 8 0 1 two [] (event 5 7) (emitted 7 5) 1 (omega arith)
      channel_of_first channel_of_second first_child second_child nothing_kept refl refl not_later

-- A third duplicate of the source.
from_original_lem_example :
    let (index, original') = Duplicate.from_original counting two in
    (lookup ⦃o = nat_ord⦄ index two.children ≡ none)
    × (lookup ⦃o = nat_ord⦄ index original'.children ≡ some (some []))
    × ((j : ℕ)
        → index ≢ j
        → lookup ⦃o = nat_ord⦄ j original'.children ≡ lookup ⦃o = nat_ord⦄ j two.children)
    × IsAscendingFrom 0 original'.children
from_original_lem_example = from_original_lem counting two (omega arith, (omega arith, tt))
