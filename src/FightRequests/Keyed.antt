-- ===== src/FightRequests/Keyed.antt =====
-- server/src/data/fight-requests.ts: every request stands under its identifier, once.
use sui_comabts.Prelude.{
  ℕ, suc, ◌≡◌, refl, sym, ap, ◌∙◌, inl, inr, ◌&&◌, List, [], ◌∷◌, Option, none, some, arith, Text,
  ◌===◌, ===→≡, Map, get, set, get-set, IsMap, set-IsMap, Bool-cases, Option-cases, ltb,
}
use sui_comabts.FightRequests.{
  FightRequest, FightRequestStatus, is_pending, CreateInput, TransitionAction, expire,
  TransitionDecision, ok, refused, evaluate_transition,
}
use sui_comabts.FightRequests.Store.{
  Store, no_requests, put_at, index_insert, index_remove, create_decision, create_request,
  new_request, transition_request, sweep_all, sweep_expired, resolved, apply_decision, Call,
  creates, transitions, sweeps, step, run,
}

-- The requests stand under their identifiers, each once.
pub record Keyed (s : Store) : Type 0 where
  pub distinct : IsMap s.requests_by_id
  pub keyed : (k : Text) (r : FightRequest) → get k s.requests_by_id ≡ some r → r.id ≡ k

set-Keyed :
    (i : Text) (req : FightRequest) (s t : Store)
    → req.id ≡ i
    → t.requests_by_id ≡ set i req s.requests_by_id
    → Keyed s
    → Keyed t
set-Keyed i req s t e q v = record {
  distinct = rw q (set-IsMap i req s.requests_by_id v.distinct);
  keyed = λ k r h. elim (Bool-cases (i === k)) [
    | inl a ↦ ground (arith, e, h, q, ===→≡ i k a, get-set i k req s.requests_by_id)
    | inr a ↦
        let same : get k (set i req s.requests_by_id) ≡ get k s.requests_by_id =
          rw (get-set i k req s.requests_by_id, a) refl in
        v.keyed k r (sym same ∙ sym (ap (λ m. get k m) q) ∙ h)
  ];
}

moved-Keyed :
    (i : Text) (req : FightRequest) (st : FightRequestStatus) (now : ℕ) (s : Store)
    → req.id ≡ i
    → Keyed s
    → Keyed (index_remove req (put_at i (resolved req st now) s))
unfolding index_remove
moved-Keyed i req st now s q v = set-Keyed i (resolved req st now) s _ q refl v

pub none-Keyed : Keyed no_requests
unfolding no_requests get
none-Keyed = record { distinct = tt; keyed = λ k r e. cc }

pub transition_request-Keyed :
    (i : Text) (a : TransitionAction) (actor : Option Text) (now : ℕ) (s : Store)
    → Keyed s
    → Keyed (transition_request i a actor now s).0
unfolding transition_request evaluate_transition
transition_request-Keyed i a actor now s v = elim (Option-cases (get i s.requests_by_id)) [
  | inl e ↦ rw e v
  | inr (req, e) ↦ rw e (go req (v.keyed i req e) (evaluate_transition (some req) a actor now))
]
  where
    go :
        (req : FightRequest)
        → req.id ≡ i
        → (d : TransitionDecision) → Keyed (apply_decision i (some req) d now s).0
    go req q (ok st) = moved-Keyed i req st now s q v
    go req q (refused reason) = v

pub sweep_all-Keyed :
    (now : ℕ) (m : Map FightRequest) (s : Store) → Keyed s → Keyed (sweep_all now m s).0
unfolding sweep_all
sweep_all-Keyed now [] s v = v
sweep_all-Keyed now ((k, req) ∷ m) s v =
    elim (Bool-cases (is_pending req.status && ltb req.expires_at now)) [
      | inl e ↦ rw e (
          sweep_all-Keyed now m (transition_request req.id expire none now s).0
            (transition_request-Keyed req.id expire none now s v))
      | inr e ↦ rw e (sweep_all-Keyed now m s v)
    ]

pub create_request-Keyed :
    (name_of : Text → Option Text) (i : Text) (now : ℕ) (input : CreateInput) (s : Store)
    → Keyed s
    → Keyed (create_request name_of i now input s).0
unfolding create_request index_insert new_request
create_request-Keyed name_of i now input s v = elim (Option-cases (create_decision input s)) [
  | inl e ↦ rw e (set-Keyed i (new_request name_of i now input) s _ refl refl v)
  | inr (reason, e) ↦ rw e v
]

pub run-Keyed :
    (name_of : Text → Option Text) (uuid : ℕ → Text) (s : Store × ℕ) (cs : List (ℕ × Call))
    → Keyed s.0
    → Keyed (run name_of uuid s cs).0
unfolding run step sweep_expired
run-Keyed name_of uuid s [] v = v
run-Keyed name_of uuid (s, n) ((now, creates input) ∷ cs) v =
    run-Keyed name_of uuid ((create_request name_of (uuid n) now input s).0, suc n) cs
      (create_request-Keyed name_of (uuid n) now input s v)
run-Keyed name_of uuid (s, n) ((now, transitions i a actor) ∷ cs) v =
    run-Keyed name_of uuid ((transition_request i a actor now s).0, n) cs
      (transition_request-Keyed i a actor now s v)
run-Keyed name_of uuid (s, n) ((now, sweeps) ∷ cs) v =
    run-Keyed name_of uuid ((sweep_all now s.requests_by_id s).0, n) cs
      (sweep_all-Keyed now s.requests_by_id s v)
