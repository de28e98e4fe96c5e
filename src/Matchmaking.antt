-- ===== src/Matchmaking.antt =====
-- server/src/game/matchmaking.ts: the matchmaking queue and its matching pass. The clock is an
-- argument, and the calls of `onMatchFound` are returned as the list of pairs, in order.
pub mod Queue
pub mod Groups
pub mod Pass
pub mod Fair
mod Examples
use sui_comabts.Prelude.{
  ℕ, ◌+◌, ◌-◌, ◌*◌, ◌/◌, Bool, true, false, ◌&&◌, not, List, [], ◌∷◌, ◌++◌, Option, none, some,
  Text, ◌===◌, leb, ltb, ◌==◌, if◌then◌else◌, any, find, select, length, min, is_some,
}
use sui_comabts.Types.{FightType, friendly, wager, FightType-discrete}
use sui_comabts.Config.{
  matchmaking_initial_range, matchmaking_expand_amount, matchmaking_expand_interval_ms,
}

pub record QueueEntry : Type 0 where
  pub wallet_address : Text
  pub character_id : Text
  pub fight_type : FightType
  pub rating : ℕ
  pub joined_at : ℕ
  pub wager_amount : Option ℕ
  pub wager_match_id : Option Text

abbrev pub same_type : FightType → FightType → Bool
same_type s t = elim (FightType-discrete s t) [ yes _ ↦ true | no _ ↦ false ]

-- `a === b` on optional amounts.
abbrev pub same_amount : Option ℕ → Option ℕ → Bool
same_amount none none = true
same_amount none (some _) = false
same_amount (some _) none = false
same_amount (some a) (some b) = a == b

abbrev pub distance : ℕ → ℕ → ℕ
distance a b = (a - b) + (b - a)

-- `ratingDiff <= allowedRange`. The longer wait is that of the earlier `joinedAt`; if even that
-- lies ahead of `now`, the source's floored quotient is negative and narrows the range.
unfoldable pub within_range : ℕ → ℕ → ℕ → Bool
within_range rating_diff earliest now =
    if leb earliest now
    then leb rating_diff (
        matchmaking_initial_range
        + (now - earliest) / matchmaking_expand_interval_ms * matchmaking_expand_amount)
    else leb
        (rating_diff
          + (earliest - now + (matchmaking_expand_interval_ms - 1))
            / matchmaking_expand_interval_ms
            * matchmaking_expand_amount)
        matchmaking_initial_range

unfoldable pub can_match : QueueEntry → QueueEntry → FightType → ℕ → Bool
unfolding within_range
can_match a b fight_type now =
    if not (same_type a.fight_type b.fight_type)
    then false
    else if same_type fight_type wager && not (same_amount a.wager_amount b.wager_amount)
    then false
    else if same_type fight_type friendly
    then true
    else within_range (distance a.rating b.rating) (min a.joined_at b.joined_at) now

-- The `matched` set of wallets and the pairs handed to `onMatchFound` so far.
pub record Matching : Type 0 where
  pub matched : List Text
  pub pairs : List (QueueEntry × QueueEntry)

abbrev pub has : Text → List Text → Bool
has w = any (λ v. v === w)

-- The loop over `j`: the first later entry that is not matched and fits.
unfoldable pub find_partner :
    FightType → ℕ → List Text → QueueEntry → List QueueEntry → Option QueueEntry
find_partner t now matched a = find λ b. not (has b.wallet_address matched) && can_match a b t now

abbrev pub add_pair : QueueEntry → Option QueueEntry → Matching → Matching
add_pair a none s = s
add_pair a (some b) s = record {
  matched = b.wallet_address ∷ a.wallet_address ∷ s.matched;
  pairs = s.pairs ++ (a, b) ∷ [];
}

-- One round of the loop over `i`.
unfoldable pub try_entry : FightType → ℕ → QueueEntry → List QueueEntry → Matching → Matching
try_entry t now a later s =
    if has a.wallet_address s.matched
    then s
    else add_pair a (find_partner t now s.matched a later) s

unfoldable pub match_entries : FightType → ℕ → List QueueEntry → Matching → Matching
match_entries t now [] s = s
match_entries t now (a ∷ later) s = match_entries t now later (try_entry t now a later s)

-- `byType`: a map from fight types to their entries, in the order of first appearance.
unfoldable pub add_to_type :
    QueueEntry → List (FightType × List QueueEntry) → List (FightType × List QueueEntry)
add_to_type e [] = (e.fight_type, e ∷ []) ∷ []
add_to_type e ((t, l) ∷ groups) =
    let rest = add_to_type e groups in
    if same_type t e.fight_type then (t, l ++ e ∷ []) ∷ groups else (t, l) ∷ rest

unfoldable pub by_type :
    List QueueEntry → List (FightType × List QueueEntry) → List (FightType × List QueueEntry)
by_type [] groups = groups
by_type (e ∷ es) groups = by_type es (add_to_type e groups)

-- One round of the loop over `byType`.
unfoldable pub try_group : ℕ → FightType × List QueueEntry → Matching → Matching
try_group now (t, l) s = if ltb (length l) 2 then s else match_entries t now l s

unfoldable pub match_groups : ℕ → List (FightType × List QueueEntry) → Matching → Matching
match_groups now [] s = s
match_groups now (g ∷ groups) s = match_groups now groups (try_group now g s)

-- `tryMatchPlayers`: the new queue and the pairs handed to `onMatchFound`.
abbrev pub no_matches : Matching
no_matches = record { matched = []; pairs = [] }

unfoldable pub match_queue : ℕ → List QueueEntry → Matching
match_queue now queue = match_groups now (by_type queue []) no_matches

abbrev pub unmatched : Matching → QueueEntry → Bool
unmatched s e = not (has e.wallet_address s.matched)

unfoldable pub try_match_players :
    ℕ → List QueueEntry → List QueueEntry × List (QueueEntry × QueueEntry)
try_match_players now queue = let s = match_queue now queue in (select (unmatched s) queue, s.pairs)

unfoldable pub is_in_queue : Text → List QueueEntry → Bool
is_in_queue w = any λ e. e.wallet_address === w

-- `addToQueue`: the new queue, the pairs found at once, and the value returned.
unfoldable pub add_to_queue :
    QueueEntry → ℕ → List QueueEntry → List QueueEntry × List (QueueEntry × QueueEntry) × Bool
unfolding is_in_queue
add_to_queue entry now queue =
    if is_in_queue entry.wallet_address queue
    then (queue, [], false)
    else (let (q, pairs) = try_match_players now (queue ++ entry ∷ []) in (q, pairs, true))

-- `removeFromQueue`: the first entry of the wallet is cut out and returned.
unfoldable pub remove_from_queue : Text → List QueueEntry → List QueueEntry × Option QueueEntry
remove_from_queue w [] = ([], none)
remove_from_queue w (e ∷ es) =
    let rest = remove_from_queue w es in
    if e.wallet_address === w then (es, some e) else (e ∷ rest.0, rest.1)
