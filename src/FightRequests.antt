-- ===== src/FightRequests.antt =====
-- server/src/data/fight-requests.ts: challenges from one player to another. Here its types and the
-- decisions `evaluateCreate` and `evaluateTransition`.
pub mod Store
pub mod Guards
pub mod Decisions
pub mod Indexes
pub mod Limit
pub mod Settled
pub mod Keyed
pub mod Complete
pub mod Count
pub mod Sweep
pub mod Run
mod Examples
use sui_comabts.Prelude.{
  ℕ, ◌+◌, ◌*◌, ◌-◌, Bool, true, false, ◌&&◌, ◌||◌, not, List, [], ◌∷◌, Option, none, some, Text,
  units, ◌===◌, to_lower_case, starts_with, leb, ltb, ◌==◌, if◌then◌else◌, length, any,
}
use sui_comabts.BigInts.{BigInt, below, big_int}

-- `unlisted` is a value outside the type, which `evaluateCreate` refuses.
pub data FightRequestType : Type 0 where
  friendly : FightRequestType
  wager : FightRequestType
  unlisted : Text → FightRequestType

pub data FightRequestStatus : Type 0 where
  pending accepted declined canceled expired : FightRequestStatus

pub record FightRequest : Type 0 where
  pub id : Text
  pub request_type : FightRequestType
  pub from_wallet : Text
  pub from_name : Text
  pub to_wallet : Text
  pub to_name : Text
  pub stake_mist : Option Text
  pub message : Option Text
  pub status : FightRequestStatus
  pub expires_at : ℕ
  pub resolved_at : Option ℕ
  pub created_at : ℕ

abbrev pub ttl_ms : ℕ
ttl_ms = 90000

abbrev pub message_max : ℕ
message_max = 280

abbrev pub min_stake_mist : ℕ
min_stake_mist = 100000000

abbrev pub max_pending_per_sender : ℕ
max_pending_per_sender = 5

abbrev pub is_pending : FightRequestStatus → Bool
is_pending pending = true
is_pending _ = false

pub data CreateRejection : Type 0 where
  self_target invalid_target invalid_stake message_too_long : CreateRejection
  over_limit duplicate_pending invalid_request_type : CreateRejection

pub record CreateInput : Type 0 where
  pub request_type : FightRequestType
  pub from_wallet : Text
  pub to_wallet : Text
  pub stake_mist : Option Text
  pub message : Option Text

pub record CreateContext : Type 0 where
  pub pending_from_sender_count : ℕ
  pub has_duplicate_pending_for_pair : Bool

abbrev pub stake_parsed : Option BigInt → Bool
stake_parsed none = false
stake_parsed (some n) = not (below n min_stake_mist)

unfoldable pub stake_allowed : Option Text → Bool
stake_allowed none = false
stake_allowed (some s) = if length s == 0 then false else stake_parsed (big_int s)

abbrev pub refuses_stake : FightRequestType → Option Text → Bool
refuses_stake wager stake = not (stake_allowed stake)
refuses_stake _ stake = false

abbrev pub is_listed : FightRequestType → Bool
is_listed (unlisted t) = false
is_listed _ = true

abbrev pub too_long : Option Text → Bool
too_long none = false
too_long (some m) = ltb message_max (length m)

-- `evaluateCreate`; `none` is `{ ok: true }`.
unfoldable pub evaluate_create : CreateInput → CreateContext → Option CreateRejection
evaluate_create input ctx =
    let from = to_lower_case input.from_wallet in
    let to = to_lower_case input.to_wallet in
    if not (is_listed input.request_type)
    then some invalid_request_type
    else if (length from == 0)
        || (length to == 0)
        || not (starts_with from (units "0x"))
        || not (starts_with to (units "0x"))
    then some invalid_target
    else if from === to
    then some self_target
    else if too_long input.message
    then some message_too_long
    else if refuses_stake input.request_type input.stake_mist
    then some invalid_stake
    else if leb max_pending_per_sender ctx.pending_from_sender_count
    then some over_limit
    else if ctx.has_duplicate_pending_for_pair
    then some duplicate_pending
    else none

pub data TransitionAction : Type 0 where
  accept decline cancel expire : TransitionAction

pub data TransitionRejection : Type 0 where
  not_found not_pending not_authorized has_expired : TransitionRejection

pub data TransitionDecision : Type 0 where
  ok : FightRequestStatus → TransitionDecision
  refused : TransitionRejection → TransitionDecision

abbrev pub next_status : TransitionAction → FightRequestStatus
next_status accept = accepted
next_status decline = declined
next_status cancel = canceled
next_status expire = expired

abbrev pub is_expire : TransitionAction → Bool
is_expire expire = true
is_expire _ = false

-- `a && a === wallet.toLowerCase()` for the optional `a = actor?.toLowerCase()`.
abbrev pub is_actor : Option Text → Text → Bool
is_actor none wallet = false
is_actor (some a) wallet =
    not (length (to_lower_case a) == 0) && (to_lower_case a === to_lower_case wallet)

unfoldable pub is_authorized : FightRequest → TransitionAction → Option Text → Bool
is_authorized req accept actor = is_actor actor req.to_wallet
is_authorized req decline actor = is_actor actor req.to_wallet
is_authorized req cancel actor = is_actor actor req.from_wallet
is_authorized req expire actor = true

unfoldable pub evaluate_transition :
    Option FightRequest → TransitionAction → Option Text → ℕ → TransitionDecision
evaluate_transition none action actor now = refused not_found
evaluate_transition (some req) action actor now =
    if not (is_pending req.status)
    then refused not_pending
    else if ltb req.expires_at now && not (is_expire action)
    then refused has_expired
    else if not (is_authorized req action actor)
    then refused not_authorized
    else ok (next_status action)
