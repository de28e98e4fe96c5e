-- ===== src/Matchmaking/Queue.antt =====
-- server/src/game/matchmaking.ts: the queue over any history of its calls.
use sui_comabts.Prelude.{
  Option, ℕ, ◌≡◌, refl, Bool, true, false, ◌||◌, not, List, [], ◌∷◌, ◌++◌, arith, Text, ◌===◌,
  if◌then◌else◌, select, is_some, Bool-cases, inl, inr,
}
use sui_comabts.Matchmaking.{
  QueueEntry, match_queue, unmatched, try_match_players, is_in_queue, add_to_queue,
  remove_from_queue,
}
use sui_comabts.Matchmaking.Groups.{Distinct, Distinct-snoc, is_in_queue-append}
use sui_comabts.Matchmaking.Pass.{in_pairs, try_match_players-partition}

is_in_queue_one : (v : Text) (e : QueueEntry) → is_in_queue v (e ∷ []) ≡ (e.wallet_address === v)
unfolding is_in_queue
is_in_queue_one v e = ground arith

-- The calls that change the queue, with the clock of each: `addToQueue`, `removeFromQueue` and the
-- two-second interval's `tryMatchPlayers`.
pub data Call : Type 0 where
  adds : QueueEntry → Call
  removes : Text → Call
  tick : Call

unfoldable pub step : List QueueEntry → ℕ × Call → List QueueEntry
step queue (now, adds e) = (add_to_queue e now queue).0
step queue (now, removes w) = (remove_from_queue w queue).0
step queue (now, tick) = (try_match_players now queue).0

unfoldable pub run : List QueueEntry → List (ℕ × Call) → List QueueEntry
run queue [] = queue
run queue (c ∷ cs) = run (step queue c) cs

absent-select :
    (w : Text) (p : QueueEntry → Bool) (es : List QueueEntry)
    → is_in_queue w es ≡ false
    → is_in_queue w (select p es) ≡ false
unfolding is_in_queue
absent-select w p [] h = refl
absent-select w p (e ∷ es) h = ground (arith, absent-select w p es)

Distinct-select :
    (p : QueueEntry → Bool) (es : List QueueEntry) → Distinct es → Distinct (select p es)
Distinct-select p [] d = tt
Distinct-select p (e ∷ es) d = elim (Bool-cases (p e)) [
  | inl h ↦ rw h (absent-select e.wallet_address p es d.0, Distinct-select p es d.1)
  | inr h ↦ rw h (Distinct-select p es d.1)
]

try_match_players-Distinct :
    (now : ℕ) (queue : List QueueEntry) → Distinct queue → Distinct (try_match_players now queue).0
unfolding try_match_players
try_match_players-Distinct now queue d = Distinct-select (unmatched (match_queue now queue)) queue d

add_to_queue-Distinct :
    (e : QueueEntry) (now : ℕ) (queue : List QueueEntry)
    → Distinct queue
    → Distinct (add_to_queue e now queue).0
unfolding add_to_queue
add_to_queue-Distinct e now queue d =
    ground (arith, Distinct-snoc queue e d, try_match_players-Distinct now (queue ++ e ∷ []))

absent-remove :
    (w v : Text) (es : List QueueEntry)
    → is_in_queue v es ≡ false
    → is_in_queue v (remove_from_queue w es).0 ≡ false
unfolding is_in_queue remove_from_queue
absent-remove w v [] h = refl
absent-remove w v (e ∷ es) h = ground (arith, absent-remove w v es)

remove_from_queue-Distinct :
    (w : Text) (es : List QueueEntry) → Distinct es → Distinct (remove_from_queue w es).0
unfolding remove_from_queue
remove_from_queue-Distinct w [] d = tt
remove_from_queue-Distinct w (e ∷ es) d =
    ground (arith, absent-remove w e.wallet_address es d.0, remove_from_queue-Distinct w es d.1)

step-Distinct : (queue : List QueueEntry) (c : ℕ × Call) → Distinct queue → Distinct (step queue c)
unfolding step
step-Distinct queue (now, adds e) d = add_to_queue-Distinct e now queue d
step-Distinct queue (now, removes w) d = remove_from_queue-Distinct w queue d
step-Distinct queue (now, tick) d = try_match_players-Distinct now queue d

run_from-Distinct :
    (queue : List QueueEntry) (cs : List (ℕ × Call)) → Distinct queue → Distinct (run queue cs)
unfolding run
run_from-Distinct queue [] d = d
run_from-Distinct queue (c ∷ cs) d = run_from-Distinct (step queue c) cs (step-Distinct queue c d)

run-Distinct : (cs : List (ℕ × Call)) → Distinct (run [] cs)
run-Distinct cs = run_from-Distinct [] cs tt

-- `removeFromQueue` of a wallet: it is no longer queued, every other wallet is queued as before, and
-- an entry is returned exactly if the wallet was queued.
abbrev pub Removes : Text → List QueueEntry → List QueueEntry × Option QueueEntry → Type 0
Removes w queue (rest, removed) =
    ((v : Text) → is_in_queue v rest ≡ (if v === w then false else is_in_queue v queue))
    × (is_some removed ≡ is_in_queue w queue)

-- `addToQueue` of an entry: it is accepted exactly if its wallet was not queued; a refused call
-- changes nothing and matches nobody; after an accepted one the queue and the pairs hold the players
-- queued before and the new one, and no other.
abbrev pub Adds :
    QueueEntry → List QueueEntry → List QueueEntry × List (QueueEntry × QueueEntry) × Bool → Type 0
Adds e queue (rest, pairs, added) =
    (added ≡ not (is_in_queue e.wallet_address queue))
    × (added ≡ false → (rest ≡ queue) × (pairs ≡ []))
    × (added ≡ true
        → (v : Text)
        → (is_in_queue v rest || in_pairs v pairs)
          ≡ (is_in_queue v queue || (e.wallet_address === v)))

remove_from_queue-Removes :
    (w : Text) (queue : List QueueEntry)
    → Distinct queue
    → Removes w queue (remove_from_queue w queue)
unfolding remove_from_queue is_in_queue
remove_from_queue-Removes w [] d = (λ v. ground arith, refl)
remove_from_queue-Removes w (e ∷ es) d =
    let (others, found) = remove_from_queue-Removes w es d.1 in
    (λ v. ground (arith, others v, d.0), ground (arith, found))

add_to_queue-Adds :
    (e : QueueEntry) (now : ℕ) (queue : List QueueEntry)
    → Distinct queue
    → Adds e queue (add_to_queue e now queue)
unfolding add_to_queue
add_to_queue-Adds e now queue d = elim (Bool-cases (is_in_queue e.wallet_address queue)) [
  | inl h ↦ rw h (refl, λ _. (refl, refl), λ f. cc)
  | inr h ↦ rw h (
    refl,
    λ f. cc,
    λ _ v. ground (
      arith,
      (try_match_players-partition now (queue ++ e ∷ []) (Distinct-snoc queue e d h)).0 v,
      is_in_queue-append v queue (e ∷ []),
      is_in_queue_one v e,
    ),
  )
]

-- After any history of calls from the empty queue, no wallet is queued twice. There, a wallet that is
-- taken out with `removeFromQueue` is no longer queued, every other wallet is queued as before, and
-- an entry is returned exactly if the wallet was queued. `addToQueue` returns `true` exactly if the
-- wallet was not queued; a refused call changes nothing and matches nobody; an accepted one leaves, in
-- the queue or in the pairs found at once, the players queued before and the new one, and no other.
pub queue_calls_lem :
    (cs : List (ℕ × Call)) (w : Text) (e : QueueEntry) (now : ℕ)
    → let queue = run [] cs in
      Distinct queue
      × Removes w queue (remove_from_queue w queue)
      × Adds e queue (add_to_queue e now queue)
queue_calls_lem cs w e now = (
  run-Distinct cs,
  remove_from_queue-Removes w (run [] cs) (run-Distinct cs),
  add_to_queue-Adds e now (run [] cs) (run-Distinct cs),
)
