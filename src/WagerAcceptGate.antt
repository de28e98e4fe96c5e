-- ===== src/WagerAcceptGate.antt =====
-- server/src/ws/wager-accept-gate.ts: what the server does when a client reports that a wager was
-- accepted, and who the second player of the fight is. Messages to the user are constructors.
pub mod Outcome
mod Examples
use sui_comabts.Prelude.{
  ℕ, Bool, true, false, ◌&&◌, ◌||◌, not, Option, none, some, Text, ◌===◌, to_lower_case, ◌==◌,
  if◌then◌else◌, length, is_some,
}

-- The status of a wager on the chain.
abbrev pub status_waiting : ℕ
status_waiting = 0

abbrev pub status_active : ℕ
status_active = 1

abbrev pub status_settled : ℕ
status_settled = 2

abbrev pub status_pending_approval : ℕ
status_pending_approval = 3

pub record LobbyWager : Type 0 where
  pub creator_wallet : Text
  pub wager_match_id : Text

pub record AcceptArgs : Type 0 where
  pub caller_wallet : Text
  pub target_wager_id : Text
  pub target_chain_status : ℕ
  pub caller_own_wager_in_lobby : Option LobbyWager
  pub target_in_lobby : Option LobbyWager
  pub caller_in_matchmaking_queue : Option Bool

pub data RejectReason : Type 0 where
  not_in_lobby own_target has_open_wager is_queued : RejectReason
  not_active : ℕ → RejectReason

-- What the message of a rollback says of the caller.
pub data OwnTag : Type 0 where
  had_own_wager was_queued : OwnTag

pub record Rollback : Type 0 where
  pub target : Text
  pub caller_own_wager_id : Option Text
  pub remove_from_matchmaking_queue : Bool
  pub own_tag : OwnTag

pub data AcceptOutcome : Type 0 where
  proceed : AcceptOutcome
  reject : RejectReason → AcceptOutcome
  auto_rollback : Rollback → AcceptOutcome

abbrev pub same_wallet : Text → Text → Bool
same_wallet a b = to_lower_case a === to_lower_case b

abbrev pub is_true : Option Bool → Bool
is_true (some true) = true
is_true _ = false

-- The caller's own wager, if it is not the target.
unfoldable pub different_own : Text → Option LobbyWager → Option Text
different_own target none = none
different_own target (some own) =
    if own.wager_match_id === target then none else some own.wager_match_id

abbrev pub tag_of : Option Text → OwnTag
tag_of (some i) = had_own_wager
tag_of none = was_queued

abbrev pub busy_reason : Option Text → RejectReason
busy_reason (some i) = has_open_wager
busy_reason none = is_queued

-- Steps 2 to 5, with the entry of the target.
unfoldable pub decide_listed : AcceptArgs → LobbyWager → AcceptOutcome
decide_listed args target =
    let active = args.target_chain_status == status_active in
    let queued = is_true args.caller_in_matchmaking_queue in
    let own = different_own args.target_wager_id args.caller_own_wager_in_lobby in
    if not active && same_wallet target.creator_wallet args.caller_wallet
    then reject own_target
    else if is_some own || queued
    then (if active
        then auto_rollback record {
          target = args.target_wager_id;
          caller_own_wager_id = own;
          remove_from_matchmaking_queue = queued;
          own_tag = tag_of own;
        }
        else reject (busy_reason own))
    else if not active
    then reject (not_active args.target_chain_status)
    else proceed

abbrev pub decide_target : AcceptArgs → Option LobbyWager → AcceptOutcome
decide_target args none = reject not_in_lobby
decide_target args (some target) = decide_listed args target

unfoldable pub decide_accept_outcome : AcceptArgs → AcceptOutcome
decide_accept_outcome args = decide_target args args.target_in_lobby

pub data Flow : Type 0 where
  v5_1_legacy v5_2_approve : Flow

pub data ChallengerOutcome : Type 0 where
  resolved : Text → Flow → ChallengerOutcome
  unresolved : ChallengerOutcome

abbrev pub approved_challenger : Option Text → ChallengerOutcome
approved_challenger none = unresolved
approved_challenger (some wallet) =
    if length wallet == 0 then unresolved else resolved wallet v5_2_approve

unfoldable pub resolve_challenger_wallet : Text → Text → Option Text → ChallengerOutcome
resolve_challenger_wallet caller creator pending =
    if not (same_wallet caller creator)
    then resolved caller v5_1_legacy
    else approved_challenger pending
