-- ===== src/FightRequests/Examples.antt =====
-- Runs of the fight requests at concrete players.
use sui_comabts.Prelude.{
  ℕ, ◌≤◌, ◌≡◌, ◌↔◌, refl, false, List, [], ◌∷◌, Option, none, some, Text, units, length, get, set,
  Text-discrete, to_lower_case, starts_with, first_units,
}
use sui_comabts.BigInts.{BigInt, big_int, trim, trim_end, digits}
use sui_comabts.FightRequests.{
  ok, FightRequestStatus, FightRequest, wager, declined, expired, CreateInput, CreateContext,
  evaluate_create, decline, evaluate_transition, is_authorized, stake_allowed,
}
use sui_comabts.FightRequests.Decisions.{Acceptable, IsOpen, Leads, decisions_lem}
use sui_comabts.FightRequests.Store.{
  no_requests, get_request, add, pending_among, index_insert, index_remove, get_pending_from_sender,
  find_duplicate_pending_for_pair, create_decision, create_request, new_request, transition_request,
  Call, creates, transitions, sweeps, step, run, resolved, insert_by_created_at, sort_by_created_at,
  sweep_expired,
}
use sui_comabts.FightRequests.Run.{run-limit, run-settled}
use sui_comabts.FightRequests.Sweep.{sweep_expired_lem}

hexadecimal : big_int (units " 0x1f ") ≡ some (BigInt.plus 31)
unfolding big_int trim trim_end digits
hexadecimal = refl

no_number : big_int (units "1.5") ≡ none
unfolding big_int trim trim_end digits
no_number = refl

abbrev duel : CreateInput
duel = record {
  request_type = wager;
  from_wallet = units "0xA1";
  to_wallet = units "0xb2";
  stake_mist = some (units "200000000");
  message = none;
}

abbrev idle : CreateContext
idle = record { pending_from_sender_count = 0; has_duplicate_pending_for_pair = false }

abbrev identifier : ℕ → Text
identifier n = n ∷ []

identifier_distinct : (i j : ℕ) → identifier i ≡ identifier j → i ≡ j
identifier_distinct i j e = cc

abbrev nobody : Text → Option Text
nobody w = none

duel_accepted : evaluate_create duel idle ≡ none
unfolding evaluate_create stake_allowed big_int trim trim_end digits to_lower_case starts_with
    Text-discrete
duel_accepted = refl

abbrev sent : FightRequest
sent = new_request nobody (identifier 0) 1000 duel

decisions_lem_example :
    ((evaluate_create duel idle ≡ none) ↔ Acceptable duel idle)
    × ((st : FightRequestStatus)
        → (evaluate_transition (some sent) decline (some (units "0xB2")) 2000 ≡ ok st)
          ↔ (IsOpen sent decline 2000 × Leads sent decline (some (units "0xB2")) st))
decisions_lem_example = decisions_lem duel idle sent decline (some (units "0xB2")) 2000

abbrev history : List (ℕ × Call)
history =
    (1000, creates duel)
    ∷ (1001, creates duel)
    ∷ (2000, transitions (identifier 0) decline (some (units "0xB2")))
    ∷ []

-- One request of the sender is pending.
run-limit_example :
    (length (identifier 0 ∷ []) ≤ 5)
    × (length (
          get_pending_from_sender
            (units "0xa1")
            (run nobody identifier (no_requests, 0) ((1000, creates duel) ∷ [])).0)
        ≤ 5)
unfolding run step create_request create_decision get_pending_from_sender
    find_duplicate_pending_for_pair evaluate_create stake_allowed big_int trim trim_end digits
    to_lower_case starts_with Text-discrete no_requests index_insert add get set new_request
    pending_among first_units sort_by_created_at insert_by_created_at
run-limit_example =
    run-limit nobody identifier identifier_distinct ((1000, creates duel) ∷ []) (units "0xa1")
      (identifier 0 ∷ []) (refl, tt) ((sent, refl, refl, refl), tt)

run-settled_example :
    get_request
      (identifier 0)
      (run nobody identifier
        (run nobody identifier (no_requests, 0) history)
        ((100000, sweeps) ∷ [])).0
    ≡ some (resolved sent declined 2000)
unfolding run step create_request create_decision get_pending_from_sender
    find_duplicate_pending_for_pair evaluate_create stake_allowed big_int trim trim_end digits
    to_lower_case starts_with Text-discrete no_requests index_insert index_remove add get set
    transition_request evaluate_transition is_authorized new_request pending_among first_units
    sort_by_created_at insert_by_created_at
run-settled_example =
    run-settled nobody identifier identifier_distinct history ((100000, sweeps) ∷ []) (identifier 0)
      (resolved sent declined 2000) refl refl

sweep_expired_lem_example :
    get_request
      (identifier 0)
      (sweep_expired 91001 (run nobody identifier (no_requests, 0) ((1000, creates duel) ∷ [])).0).0
    ≡ some (resolved sent expired 91001)
unfolding run step create_request create_decision get_pending_from_sender
    find_duplicate_pending_for_pair evaluate_create stake_allowed big_int trim trim_end digits
    to_lower_case starts_with Text-discrete no_requests index_insert add get set new_request
    pending_among first_units sort_by_created_at insert_by_created_at
sweep_expired_lem_example =
    sweep_expired_lem nobody identifier ((1000, creates duel) ∷ []) 91001 (identifier 0) sent refl
