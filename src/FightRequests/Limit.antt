-- ===== src/FightRequests/Limit.antt =====
-- server/src/data/fight-requests.ts: each call keeps the indexes within the store and the pending
-- requests of a sender within the bound.
use sui_comabts.Prelude.{
  ℕ, ◌≤◌, ◌<◌, ◌≡◌, refl, sym, inl, inr, true, false, ◌&&◌, [], ◌∷◌, Option, none, some, arith,
  Text, ===_refl, to_lower_case, length, is_some, Map, get, set, get-set, All-select, Bool-cases,
  Option-cases, ltb,
}
use sui_comabts.FightRequests.{
  FightRequest, FightRequestStatus, is_pending, CreateInput, TransitionAction, expire,
  TransitionDecision, ok, refused, evaluate_transition,
}
use sui_comabts.FightRequests.Decisions.{
  evaluate_create_lem, evaluate_transition_lem, next_status-settled,
}
use sui_comabts.FightRequests.Store.{
  Store, pending_among, put, index_insert, index_remove, get_pending_from_sender, create_decision,
  create_request, new_request, transition_request, sweep_all, resolved, put_at, apply_decision,
}
use sui_comabts.FightRequests.Indexes.{
  ids_of, Known, length-sort, Known-set, pending_among-fresh, pending_among-done,
  pending_among-without, pending_among-add, Known-add, ids_of-add_at, ids_of-remove_at,
}

-- Every identifier in the index of a sender has a request, and at most five of them are pending.
pub record Inv (s : Store) : Type 0 where
  pub known : (w : Text) → Known s.requests_by_id (ids_of w s.pending_by_sender)
  pub limit :
      (w : Text) → length (pending_among s.requests_by_id (ids_of w s.pending_by_sender)) ≤ 5

move-Inv :
    (i : Text) (req done : FightRequest) (s : Store)
    → is_pending done.status ≡ false
    → Inv s
    → Inv (index_remove req (put_at i done s))
unfolding index_remove
move-Inv i req done s f v =
    let m = s.requests_by_id in
    let m' = set i done m in
    let ids = ids_of req.from_wallet s.pending_by_sender in
    record {
      known = λ w. elim (ids_of-remove_at w req.from_wallet req.id s.pending_by_sender) [
        | inl e ↦ rw e (All-select _ _ ids (Known-set i done m ids (v.known req.from_wallet)))
        | inr e ↦ rw e (Known-set i done m _ (v.known w))
      ];
      limit = λ w. elim (ids_of-remove_at w req.from_wallet req.id s.pending_by_sender) [
        | inl e ↦ rw e (
            ground (
              arith,
              pending_among-without req.id m' ids,
              pending_among-done i done m ids f,
              v.limit req.from_wallet,
            ))
        | inr e ↦ rw e (
            ground (arith, pending_among-done i done m (ids_of w s.pending_by_sender) f, v.limit w))
      ];
    }

apply_decision-Inv :
    (i : Text) (req : FightRequest) (d : TransitionDecision) (now : ℕ) (s : Store)
    → ((st : FightRequestStatus) → d ≡ ok st → is_pending st ≡ false)
    → Inv s
    → Inv (apply_decision i (some req) d now s).0
apply_decision-Inv i req (ok st) now s h v = move-Inv i req (resolved req st now) s (h st refl) v
apply_decision-Inv i req (refused reason) now s h v = v

pub transition_request-Inv :
    (i : Text) (a : TransitionAction) (actor : Option Text) (now : ℕ) (s : Store)
    → Inv s
    → Inv (transition_request i a actor now s).0
unfolding transition_request evaluate_transition
transition_request-Inv i a actor now s v = elim (Option-cases (get i s.requests_by_id)) [
  | inl e ↦ rw e v
  | inr (req, e) ↦ rw e (
      apply_decision-Inv i req (evaluate_transition (some req) a actor now) now s
        (λ st q. rw ((evaluate_transition_lem req a actor now st).0 q).2 (next_status-settled a)) v)
]

put-Inv :
    (req : FightRequest) (s : Store)
    → is_some (get req.id s.requests_by_id) ≡ false
    → length (pending_among s.requests_by_id (ids_of req.from_wallet s.pending_by_sender)) < 5
    → Inv s
    → Inv (index_insert req (put req s))
unfolding index_insert
put-Inv req s f few v =
    let m = s.requests_by_id in
    let m' = set req.id req m in
    let ids = ids_of req.from_wallet s.pending_by_sender in
    let here : is_some (get req.id m') ≡ true =
      rw (get-set req.id req.id req m, ===_refl req.id) refl in
    let fresh =
      λ (w : Text). pending_among-fresh req.id req m (ids_of w s.pending_by_sender) f (v.known w) in
    let kept = λ (w : Text). Known-set req.id req m (ids_of w s.pending_by_sender) (v.known w) in
    elim (Bool-cases (is_pending req.status)) [
      | inl p ↦ rw p record {
        known = λ w. elim (ids_of-add_at w req.from_wallet req.id s.pending_by_sender) [
          | inl e ↦ rw e (Known-add req.id m' ids (kept req.from_wallet) here)
          | inr e ↦ rw e (kept w)
        ];
        limit = λ w. elim (ids_of-add_at w req.from_wallet req.id s.pending_by_sender) [
          | inl e ↦ rw e (ground (arith, pending_among-add req.id m' ids, fresh req.from_wallet))
          | inr e ↦ rw (e, fresh w) (v.limit w)
        ];
      }
      | inr p ↦ rw p record { known = kept; limit = λ w. rw (fresh w) (v.limit w) }
    ]

pub create_request-Inv :
    (name_of : Text → Option Text) (i : Text) (now : ℕ) (input : CreateInput) (s : Store)
    → is_some (get i s.requests_by_id) ≡ false
    → Inv s
    → Inv (create_request name_of i now input s).0
unfolding create_request create_decision get_pending_from_sender new_request
create_request-Inv name_of i now input s f v = elim (Option-cases (create_decision input s)) [
  | inl e ↦ rw e (
      put-Inv (new_request name_of i now input) s f
        (rw
          (sym (
            length-sort (
              pending_among s.requests_by_id
                (ids_of (to_lower_case input.from_wallet) s.pending_by_sender))))
          ((evaluate_create_lem _ _).0 e).6)
        v)
  | inr (reason, e) ↦ rw e v
]

pub sweep_all-Inv : (now : ℕ) (m : Map FightRequest) (s : Store) → Inv s → Inv (sweep_all now m s).0
unfolding sweep_all
sweep_all-Inv now [] s v = v
sweep_all-Inv now ((k, req) ∷ m) s v =
    elim (Bool-cases (is_pending req.status && ltb req.expires_at now)) [
      | inl e ↦ rw e (sweep_all-Inv now m _ (transition_request-Inv req.id expire none now s v))
      | inr e ↦ rw e (sweep_all-Inv now m s v)
    ]
