-- ===== src/WagerAcceptGate/Outcome.antt =====
-- server/src/ws/wager-accept-gate.ts: when a fight starts, and what is rolled back.
use sui_comabts.Prelude.{
  ◌≡◌, ◌≢◌, ◌↔◌, ◌⊎◌, Bool, to_lower_case, ===→≡, ===_refl, inl, inr, refl, ap, sym, ◌∙◌, subst,
  ==_iff, ◌&&◌, true, false, not, Option, none, some, arith, Text, ◌===◌, ◌==◌, length, is_some,
  or_else, [], ◌||◌, Bool-cases, Option-cases,
}
use sui_comabts.WagerAcceptGate.{
  LobbyWager, AcceptArgs, proceed, reject, own_target, auto_rollback, Rollback, is_true, tag_of,
  different_own, decide_listed, decide_target, decide_accept_outcome, same_wallet, resolved,
  unresolved, Flow, v5_1_legacy, v5_2_approve, resolve_challenger_wallet,
}

abbrev pub id_of : Option LobbyWager → Option Text
id_of none = none
id_of (some own) = some own.wager_match_id

-- An own wager in the lobby is the target.
abbrev pub OnlyTarget : Text → Option LobbyWager → Type 0
OnlyTarget t none = Unit
OnlyTarget t (some own) = (own.wager_match_id === t) ≡ true

different_own-none :
    (t : Text) (o : Option LobbyWager) → (is_some (different_own t o) ≡ false) ↔ OnlyTarget t o
unfolding different_own
different_own-none t none = (λ h. tt, λ h. refl)
different_own-none t (some own) = ground arith

different_own-some :
    (t i : Text) (o : Option LobbyWager)
    → different_own t o ≡ some i
    → (id_of o ≡ some i) × ((i === t) ≡ false)
unfolding different_own
different_own-some t i none h = cc
different_own-some t i (some own) h = elim (Bool-cases (own.wager_match_id === t)) [
  | inl e ↦ ground (arith, h)
  | inr e ↦ let q : own.wager_match_id ≡ i = ground (arith, h) in (ap some q, rw (sym q) e)
]

-- The conditions of a fight: the target is in the lobby and active on the chain, and its caller has
-- no other wager in the lobby and is not reported to be in the queue.
abbrev pub Startable : AcceptArgs → Type 0
Startable args =
    (is_some args.target_in_lobby ≡ true)
    × (args.target_chain_status ≡ 1)
    × OnlyTarget args.target_wager_id args.caller_own_wager_in_lobby
    × ((args.caller_in_matchmaking_queue ≡ none) ⊎ (args.caller_in_matchmaking_queue ≡ some false))

queue_rule : (q : Option Bool) → (is_true q ≡ false) ↔ ((q ≡ none) ⊎ (q ≡ some false))
queue_rule none = ground arith
queue_rule (some true) = ground arith
queue_rule (some false) = ground arith

same_wallet_iff : (a b : Text) → (same_wallet a b ≡ true) ↔ (to_lower_case a ≡ to_lower_case b)
same_wallet_iff a b =
    (===→≡ (to_lower_case a) (to_lower_case b), λ e. rw e (===_refl (to_lower_case b)))

own_target_iff :
    (args : AcceptArgs) (target : LobbyWager)
    → (decide_listed args target ≡ reject own_target) ↔ (
        (args.target_chain_status ≢ 1)
        × (to_lower_case target.creator_wallet ≡ to_lower_case args.caller_wallet))
unfolding decide_listed
own_target_iff args target =
    let same = same_wallet_iff target.creator_wallet args.caller_wallet in
    let own = different_own args.target_wager_id args.caller_own_wager_in_lobby in
    elim (Option-cases own) [
      | inl e ↦ ground (arith, same, e)
      | inr (i, e) ↦ ground (arith, same, e)
    ]

-- `decideAcceptOutcome` starts the fight exactly if the target is in the lobby and active on the
-- chain, the caller has no other wager in the lobby, and the flag of the matchmaking queue is absent
-- or false; whether the caller created the target makes no difference to that. For a target in the
-- lobby, it refuses with the reason of an own wager exactly if the target is not active on the chain
-- and the caller's wallet created it.
pub decide_accept_outcome-Startable :
    (args : AcceptArgs)
    → ((decide_accept_outcome args ≡ proceed) ↔ Startable args)
      × ((target : LobbyWager)
          → args.target_in_lobby ≡ some target
          → (decide_accept_outcome args ≡ reject own_target) ↔ (
              (args.target_chain_status ≢ 1)
              × (to_lower_case target.creator_wallet ≡ to_lower_case args.caller_wallet)))
unfolding decide_accept_outcome decide_listed
decide_accept_outcome-Startable args = (
  elim (Option-cases args.target_in_lobby) [
    | inl e ↦ rw e ground arith
    | inr (target, e) ↦ rw e (
        ground (
          arith,
          different_own-none args.target_wager_id args.caller_own_wager_in_lobby,
          queue_rule args.caller_in_matchmaking_queue,
        ))
  ],
  λ target e. rw e (own_target_iff args target),
)

queued_iff : (q : Option Bool) → (is_true q ≡ true) ↔ (q ≡ some true)
queued_iff none = ground arith
queued_iff (some true) = ground arith
queued_iff (some false) = ground arith

abbrev RolledBack : AcceptArgs → Rollback → Type 0
RolledBack args r =
    (r.target ≡ args.target_wager_id)
    × (args.target_chain_status ≡ 1)
    × (r.remove_from_matchmaking_queue ≡ is_true args.caller_in_matchmaking_queue)
    × ((is_some r.caller_own_wager_id || r.remove_from_matchmaking_queue) ≡ true)
    × ((i : Text)
        → r.caller_own_wager_id ≡ some i
        → (id_of args.caller_own_wager_in_lobby ≡ some i) × ((i === args.target_wager_id) ≡ false))
    × ((r.remove_from_matchmaking_queue ≡ true) ↔ (args.caller_in_matchmaking_queue ≡ some true))

abbrev rollback_of : AcceptArgs → Rollback
rollback_of args =
    let own = different_own args.target_wager_id args.caller_own_wager_in_lobby in
    record {
      target = args.target_wager_id;
      caller_own_wager_id = own;
      remove_from_matchmaking_queue = is_true args.caller_in_matchmaking_queue;
      own_tag = tag_of own;
    }

decide_listed-RolledBack :
    (args : AcceptArgs) (target : LobbyWager) (r : Rollback)
    → decide_listed args target ≡ auto_rollback r
    → RolledBack args r
unfolding decide_listed
decide_listed-RolledBack args target r h =
    elim (Bool-cases (
      not (args.target_chain_status == 1)
      && same_wallet target.creator_wallet args.caller_wallet)) [
        | inl e ↦ ground (arith, h)
        | inr e ↦
            elim (Bool-cases (
              is_some (different_own args.target_wager_id args.caller_own_wager_in_lobby)
              || is_true args.caller_in_matchmaking_queue)) [
                | inl b ↦ elim (Bool-cases (args.target_chain_status == 1)) [
                  | inl a ↦
                      let same : decide_listed args target ≡ auto_rollback (rollback_of args) =
                        rw (e, b, a) refl in
                      let q : rollback_of args ≡ r = cc in
                      subst (RolledBack args) q (
                        refl,
                        (==_iff args.target_chain_status 1).0 a,
                        refl,
                        b,
                        λ i k.
                            different_own-some args.target_wager_id i args.caller_own_wager_in_lobby
                              k,
                        queued_iff args.caller_in_matchmaking_queue,
                      )
                  | inr a ↦ ground (arith, h)
                ]
                | inr b ↦ ground (arith, h)
              ]
      ]

-- `decideAcceptOutcome` rolls back only what is in conflict: the target, if the chain has made it
-- active, for a caller who has another wager or a place in the queue. The caller's wager that goes
-- with it is one of the lobby and never the target itself, and the caller leaves the queue exactly
-- if he was in it.
pub decide_accept_outcome-auto_rollback :
    (args : AcceptArgs) (r : Rollback)
    → decide_accept_outcome args ≡ auto_rollback r
    → (r.target ≡ args.target_wager_id)
      × (args.target_chain_status ≡ 1)
      × (r.remove_from_matchmaking_queue ≡ is_true args.caller_in_matchmaking_queue)
      × ((is_some r.caller_own_wager_id || r.remove_from_matchmaking_queue) ≡ true)
      × ((i : Text)
          → r.caller_own_wager_id ≡ some i
          → (id_of args.caller_own_wager_in_lobby ≡ some i)
            × ((i === args.target_wager_id) ≡ false))
      × ((r.remove_from_matchmaking_queue ≡ true) ↔ (args.caller_in_matchmaking_queue ≡ some true))
unfolding decide_accept_outcome decide_listed
decide_accept_outcome-auto_rollback args r h = elim (Option-cases args.target_in_lobby) [
  | inl e ↦ ground (arith, h)
  | inr (target, e) ↦ decide_listed-RolledBack args target r (ap (decide_target args) (sym e) ∙ h)
]

-- The second player that `resolveChallengerWallet` finds is the caller, unless the caller created
-- the wager: then it is the challenger of the lobby's entry, and the call fails exactly if the
-- entry has none.
pub resolve_challenger_wallet_lem :
    (caller creator : Text) (pending : Option Text)
    → ((w : Text) (f : Flow)
        → resolve_challenger_wallet caller creator pending ≡ resolved w f
        → ((f ≡ v5_1_legacy) × (w ≡ caller) × (same_wallet w creator ≡ false))
          ⊎ ((f ≡ v5_2_approve) × (pending ≡ some w) × (same_wallet caller creator ≡ true)))
      × ((resolve_challenger_wallet caller creator pending ≡ unresolved)
          ↔ ((same_wallet caller creator ≡ true) × (length (or_else pending []) ≡ 0)))
unfolding resolve_challenger_wallet
resolve_challenger_wallet_lem caller creator pending =
    elim (Bool-cases (same_wallet caller creator)) [
      | inl e ↦ elim (Option-cases pending) [
        | inl q ↦ (λ w f h. ground (arith, h), ground arith)
        | inr (x, q) ↦ (λ w f h. ground (arith, h), ground arith)
      ]
      | inr e ↦ (
        λ w f h.
            let q : caller ≡ w = ground (arith, h) in inl (ground (arith, h), sym q, rw (sym q) e),
        ground arith,
      )
    ]
