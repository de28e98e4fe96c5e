-- ===== src/FightRequests/Settled.antt =====
-- server/src/data/fight-requests.ts: what a settled request keeps through each call.
use sui_comabts.Prelude.{
  ℕ, ◌≡◌, refl, ap, inl, inr, false, ◌&&◌, [], ◌∷◌, Option, none, some, arith, Text, ◌===◌, ===→≡,
  is_some, Map, get, get-set, Bool-cases, Option-cases, ltb,
}
use sui_comabts.FightRequests.{
  FightRequest, is_pending, CreateInput, TransitionAction, expire, TransitionDecision, ok, refused,
  evaluate_transition,
}
use sui_comabts.FightRequests.Store.{
  Store, index_insert, index_remove, create_decision, create_request, new_request,
  transition_request, sweep_all, resolved, apply_decision,
}

-- The request of the identifier, settled.
abbrev pub Settled : Text → FightRequest → Store → Type 0
Settled i r s = (get i s.requests_by_id ≡ some r) × (is_pending r.status ≡ false)

apply_decision-Settled :
    (i j : Text) (r req : FightRequest) (d : TransitionDecision) (now : ℕ) (s : Store)
    → (j === i) ≡ false
    → Settled i r s
    → Settled i r (apply_decision j (some req) d now s).0
unfolding index_remove
apply_decision-Settled i j r req (ok st) now s h (e, f) =
    (rw (get-set j i (resolved req st now) s.requests_by_id, h) e, f)
apply_decision-Settled i j r req (refused reason) now s h d = d

pub transition_request-Settled :
    (i j : Text) (r : FightRequest) (a : TransitionAction) (actor : Option Text) (now : ℕ)
    (s : Store)
    → Settled i r s
    → Settled i r (transition_request j a actor now s).0
unfolding transition_request evaluate_transition
transition_request-Settled i j r a actor now s (e, f) = elim (Bool-cases (j === i)) [
  | inl h ↦ rw (===→≡ j i h, e, f) (e, refl)
  | inr h ↦ elim (Option-cases (get j s.requests_by_id)) [
    | inl q ↦ rw q (e, f)
    | inr (req, q) ↦ rw q (
        apply_decision-Settled i j r req (evaluate_transition (some req) a actor now) now s h
          (e, f))
  ]
]

pub sweep_all-Settled :
    (i : Text) (r : FightRequest) (now : ℕ) (m : Map FightRequest) (s : Store)
    → Settled i r s
    → Settled i r (sweep_all now m s).0
unfolding sweep_all
sweep_all-Settled i r now [] s d = d
sweep_all-Settled i r now ((k, req) ∷ m) s d =
    elim (Bool-cases (is_pending req.status && ltb req.expires_at now)) [
      | inl e ↦ rw e (
          sweep_all-Settled i r now m (transition_request req.id expire none now s).0
            (transition_request-Settled i req.id r expire none now s d))
      | inr e ↦ rw e (sweep_all-Settled i r now m s d)
    ]

pub create_request-Settled :
    (name_of : Text → Option Text) (i u : Text) (r : FightRequest) (now : ℕ) (input : CreateInput)
    (s : Store)
    → is_some (get u s.requests_by_id) ≡ false
    → Settled i r s
    → Settled i r (create_request name_of u now input s).0
unfolding create_request index_insert new_request
create_request-Settled name_of i u r now input s f (e, d) = elim (Bool-cases (u === i)) [
  | inl h ↦ ground (arith, e, f, ap (λ x. get x s.requests_by_id) (===→≡ u i h))
  | inr h ↦ elim (Option-cases (create_decision input s)) [
    | inl q ↦ rw q (rw (get-set u i (new_request name_of u now input) s.requests_by_id, h) e, d)
    | inr (reason, q) ↦ rw q (e, d)
  ]
]
