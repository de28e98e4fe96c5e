-- ===== src/Matchmaking/Examples.antt =====
-- Runs of the matchmaking queue at concrete entries.
use sui_comabts.Prelude.{
  ℕ, ◌≡◌, refl, false, ◌||◌, ◌&&◌, List, [], ◌∷◌, none, Text, units, All, Text-discrete,
}
use sui_comabts.Types.{ranked, FightType-discrete}
use sui_comabts.Matchmaking.{
  QueueEntry, try_match_players, add_to_queue, remove_from_queue, is_in_queue, match_queue,
  match_groups, try_group, match_entries, try_entry, find_partner, can_match, by_type, add_to_type,
}
use sui_comabts.Matchmaking.Groups.{Distinct}
use sui_comabts.Matchmaking.Pass.{
  in_pairs, DistinctPairs, Compatible, try_match_players-Compatible, try_match_players-partition,
}
use sui_comabts.Matchmaking.Fair.{NoneWaits, try_match_players-NoneWaits}
use sui_comabts.Matchmaking.Queue.{adds, removes, run, Call, queue_calls_lem, Removes, Adds}

abbrev entry : Text → ℕ → ℕ → QueueEntry
entry w rating joined = record {
  wallet_address = w;
  character_id = w;
  fight_type = ranked;
  rating = rating;
  joined_at = joined;
  wager_amount = none;
  wager_match_id = none;
}

abbrev ann : QueueEntry
ann = entry (units "0xa") 1000 0

abbrev ben : QueueEntry
ben = entry (units "0xb") 1500 5000

abbrev cid : QueueEntry
cid = entry (units "0xc") 1190 5000

abbrev waiting : List QueueEntry
waiting = ann ∷ ben ∷ cid ∷ []

pass_at_6000 : try_match_players 6000 waiting ≡ (ben ∷ [], (ann, cid) ∷ [])
unfolding try_match_players match_queue match_groups try_group match_entries try_entry find_partner
    can_match by_type add_to_type Text-discrete FightType-discrete
pass_at_6000 = refl

waiting-Distinct : Distinct waiting
unfolding is_in_queue Text-discrete
waiting-Distinct = (refl, (refl, (refl, tt)))

try_match_players-Compatible_example :
    All (λ p. Compatible 6000 p.0 p.1) (try_match_players 6000 waiting).1
try_match_players-Compatible_example = try_match_players-Compatible 6000 waiting waiting-Distinct

try_match_players-partition_example :
    let (rest, pairs) = try_match_players 6000 waiting in
    ((w : Text)
      → (is_in_queue w waiting ≡ (is_in_queue w rest || in_pairs w pairs))
        × ((is_in_queue w rest && in_pairs w pairs) ≡ false))
    × DistinctPairs pairs
try_match_players-partition_example = try_match_players-partition 6000 waiting waiting-Distinct

try_match_players-NoneWaits_example : NoneWaits 6000 (try_match_players 6000 waiting).0
try_match_players-NoneWaits_example = try_match_players-NoneWaits 6000 waiting

abbrev history : List (ℕ × Call)
history = (0, adds ann) ∷ (5, adds ann) ∷ (9, removes (units "0xb")) ∷ []

queue_calls_lem_example :
    Distinct (run [] history)
    × Removes (units "0xb") (run [] history) (remove_from_queue (units "0xb") (run [] history))
    × Adds ben (run [] history) (add_to_queue ben 6000 (run [] history))
queue_calls_lem_example = queue_calls_lem history (units "0xb") ben 6000
