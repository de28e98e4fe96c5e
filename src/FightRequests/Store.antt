-- ===== src/FightRequests/Store.antt =====
-- server/src/data/fight-requests.ts: the three maps of the module and the calls that read and
-- change them. The writes to the database are left out. The names of the characters, which
-- `getCharacterByWallet` finds, the new identifier of `uuidv4` and the clock are arguments.
use sui_comabts.Prelude.{
  ℕ, suc, ◌+◌, Bool, ◌&&◌, not, List, [], ◌∷◌, ◌++◌, Option, none, some, Text, units, ◌===◌,
  to_lower_case, first_units, leb, ltb, if◌then◌else◌, length, any, select, or_else, Map, get, set,
}
use sui_comabts.FightRequests.{
  FightRequest, FightRequestType, FightRequestStatus, wager, pending, is_pending, ttl_ms,
  message_max, CreateInput, CreateRejection, evaluate_create, TransitionAction, expire,
  TransitionRejection, TransitionDecision, ok, refused, evaluate_transition,
}

pub record Store : Type 0 where
  pub requests_by_id : Map FightRequest
  pub pending_by_target : Map (List Text)
  pub pending_by_sender : Map (List Text)

unfoldable pub no_requests : Store
no_requests = record { requests_by_id = []; pending_by_target = []; pending_by_sender = [] }

abbrev pub has : Text → List Text → Bool
has i ids = any (λ j. j === i) ids

unfoldable pub add : Text → List Text → List Text
add i ids = if has i ids then ids else ids ++ i ∷ []

abbrev pub add_at : Text → Text → Map (List Text) → Map (List Text)
add_at wallet i m = set wallet (add i (or_else (get wallet m) [])) m

unfoldable pub index_insert : FightRequest → Store → Store
index_insert req s = if not (is_pending req.status) then s else record {
  requests_by_id = s.requests_by_id;
  pending_by_target = add_at req.to_wallet req.id s.pending_by_target;
  pending_by_sender = add_at req.from_wallet req.id s.pending_by_sender;
}

abbrev pub without : Text → List Text → List Text
without i ids = select (λ j. not (j === i)) ids

abbrev pub set_without : Text → Text → Option (List Text) → Map (List Text) → Map (List Text)
set_without wallet i none m = m
set_without wallet i (some ids) m = set wallet (without i ids) m

abbrev pub remove_at : Text → Text → Map (List Text) → Map (List Text)
remove_at wallet i m = set_without wallet i (get wallet m) m

unfoldable pub index_remove : FightRequest → Store → Store
index_remove req s = record {
  requests_by_id = s.requests_by_id;
  pending_by_target = remove_at req.to_wallet req.id s.pending_by_target;
  pending_by_sender = remove_at req.from_wallet req.id s.pending_by_sender;
}

abbrev pub get_request : Text → Store → Option FightRequest
get_request i s = get i s.requests_by_id

abbrev pub cons_pending : Option FightRequest → List FightRequest → List FightRequest
cons_pending none out = out
cons_pending (some req) out = if is_pending req.status then req ∷ out else out

-- The pending requests among the identifiers, in their order.
unfoldable pub pending_among : Map FightRequest → List Text → List FightRequest
pending_among m [] = []
pending_among m (i ∷ ids) = cons_pending (get i m) (pending_among m ids)

-- The stable sort by the time of creation.
unfoldable pub insert_by_created_at : FightRequest → List FightRequest → List FightRequest
insert_by_created_at a [] = a ∷ []
insert_by_created_at a (b ∷ bs) =
    let rest = insert_by_created_at a bs in
    if leb a.created_at b.created_at then a ∷ b ∷ bs else b ∷ rest

unfoldable pub sort_by_created_at : List FightRequest → List FightRequest
sort_by_created_at [] = []
sort_by_created_at (a ∷ rest) = insert_by_created_at a (sort_by_created_at rest)

unfoldable pub get_pending_for_target : Text → Store → List FightRequest
get_pending_for_target to s =
    sort_by_created_at (pending_among s.requests_by_id (or_else (get to s.pending_by_target) []))

unfoldable pub get_pending_from_sender : Text → Store → List FightRequest
get_pending_from_sender from s =
    sort_by_created_at (pending_among s.requests_by_id (or_else (get from s.pending_by_sender) []))

unfoldable pub find_duplicate_pending_for_pair : Text → Text → Store → Bool
find_duplicate_pending_for_pair from to s =
    any (λ req. to_lower_case req.to_wallet === to_lower_case to)
      (pending_among s.requests_by_id (or_else (get from s.pending_by_sender) []))

pub data CreateResult : Type 0 where
  request : FightRequest → CreateResult
  error : CreateRejection → CreateResult

abbrev pub short : Text → Text
short wallet = first_units 8 wallet ++ units "..."

abbrev pub stake_of : FightRequestType → Option Text → Option Text
stake_of wager stake = stake
stake_of _ stake = none

abbrev pub cut : Option Text → Option Text
cut none = none
cut (some m) = some (first_units message_max m)

-- The request that `createRequest` stores.
unfoldable pub new_request : (Text → Option Text) → Text → ℕ → CreateInput → FightRequest
new_request name_of uuid now input =
    let from = to_lower_case input.from_wallet in
    let to = to_lower_case input.to_wallet in
    record {
      id = uuid;
      request_type = input.request_type;
      from_wallet = from;
      from_name = or_else (name_of from) (short from);
      to_wallet = to;
      to_name = or_else (name_of to) (short to);
      stake_mist = stake_of input.request_type input.stake_mist;
      message = cut input.message;
      status = pending;
      expires_at = now + ttl_ms;
      resolved_at = none;
      created_at = now;
    }

abbrev pub put : FightRequest → Store → Store
put req s = record {
  requests_by_id = set req.id req s.requests_by_id;
  pending_by_target = s.pending_by_target;
  pending_by_sender = s.pending_by_sender;
}

abbrev pub store_unless : Option CreateRejection → FightRequest → Store → Store × CreateResult
store_unless none req s = (index_insert req (put req s), request req)
store_unless (some reason) req s = (s, error reason)

-- The decision of `createRequest`, on the lower-cased addresses and the indexes.
unfoldable pub create_decision : CreateInput → Store → Option CreateRejection
create_decision input s =
    let from = to_lower_case input.from_wallet in
    let to = to_lower_case input.to_wallet in
    evaluate_create
      record {
        request_type = input.request_type;
        from_wallet = from;
        to_wallet = to;
        stake_mist = input.stake_mist;
        message = input.message;
      }
      record {
        pending_from_sender_count = length (get_pending_from_sender from s);
        has_duplicate_pending_for_pair = find_duplicate_pending_for_pair from to s;
      }

unfoldable pub create_request :
    (Text → Option Text) → Text → ℕ → CreateInput → Store → Store × CreateResult
create_request name_of uuid now input s =
    store_unless (create_decision input s) (new_request name_of uuid now input) s

pub data TransitionResult : Type 0 where
  moved : FightRequest → TransitionResult
  rejected : TransitionRejection → TransitionResult

abbrev pub resolved : FightRequest → FightRequestStatus → ℕ → FightRequest
resolved req status now = record {
  id = req.id;
  request_type = req.request_type;
  from_wallet = req.from_wallet;
  from_name = req.from_name;
  to_wallet = req.to_wallet;
  to_name = req.to_name;
  stake_mist = req.stake_mist;
  message = req.message;
  status = status;
  expires_at = req.expires_at;
  resolved_at = some now;
  created_at = req.created_at;
}

abbrev pub put_at : Text → FightRequest → Store → Store
put_at i req s = record {
  requests_by_id = set i req s.requests_by_id;
  pending_by_target = s.pending_by_target;
  pending_by_sender = s.pending_by_sender;
}

abbrev pub apply_decision :
    Text → Option FightRequest → TransitionDecision → ℕ → Store → Store × TransitionResult
apply_decision i (some req) (ok status) now s =
    (index_remove req (put_at i (resolved req status now) s), moved (resolved req status now))
apply_decision i none (ok status) now s = (s, rejected TransitionRejection.not_found)
apply_decision i _ (refused reason) now s = (s, rejected reason)

unfoldable pub transition_request :
    Text → TransitionAction → Option Text → ℕ → Store → Store × TransitionResult
transition_request i action actor now s =
    let req = get i s.requests_by_id in
    apply_decision i req (evaluate_transition req action actor now) now s

abbrev pub cons_moved : TransitionResult → List FightRequest → List FightRequest
cons_moved (moved req) out = req ∷ out
cons_moved (rejected reason) out = out

-- The loop of `sweepExpired` over the requests of the map, with the calls of `onExpired` as a list.
unfoldable pub sweep_all : ℕ → List (Text × FightRequest) → Store → Store × List FightRequest
sweep_all now [] s = (s, [])
sweep_all now ((k, req) ∷ m) s =
    let once = transition_request req.id expire none now s in
    let swept = sweep_all now m once.0 in
    let skipped = sweep_all now m s in
    if is_pending req.status && ltb req.expires_at now
    then (swept.0, cons_moved once.1 swept.1)
    else skipped

unfoldable pub sweep_expired : ℕ → Store → Store × List FightRequest
sweep_expired now s = sweep_all now s.requests_by_id s

-- The calls that change the store, with the clock of each. A creation takes the next identifier.
pub data Call : Type 0 where
  creates : CreateInput → Call
  transitions : Text → TransitionAction → Option Text → Call
  sweeps : Call

-- The store, with the number of identifiers used.
unfoldable pub step : (Text → Option Text) → (ℕ → Text) → Store × ℕ → ℕ × Call → Store × ℕ
step name_of uuid (s, n) (now, creates input) =
    ((create_request name_of (uuid n) now input s).0, suc n)
step name_of uuid (s, n) (now, transitions i action actor) =
    ((transition_request i action actor now s).0, n)
step name_of uuid (s, n) (now, sweeps) = ((sweep_expired now s).0, n)

unfoldable pub run : (Text → Option Text) → (ℕ → Text) → Store × ℕ → List (ℕ × Call) → Store × ℕ
run name_of uuid s [] = s
run name_of uuid s (c ∷ cs) = run name_of uuid (step name_of uuid s c) cs
