-- ===== src/FightRequests/Complete.antt =====
-- server/src/data/fight-requests.ts: the index of the senders lists every pending request.
use sui_comabts.Prelude.{
  ℕ, suc, ◌≡◌, refl, ap, sym, ◌∙◌, inl, inr, true, false, ◌&&◌, List, [], ◌∷◌, ◌++◌, Option, none,
  some, arith, Text, ◌===◌, ===→≡, ===_refl, Map, get, get-set, Bool-cases, Option-cases, ltb,
  or_else,
}
use sui_comabts.FightRequests.{
  FightRequest, FightRequestStatus, is_pending, CreateInput, TransitionAction, expire,
  TransitionDecision, ok, refused, evaluate_transition,
}
use sui_comabts.FightRequests.Decisions.{evaluate_transition_lem, next_status-settled}
use sui_comabts.FightRequests.Store.{
  Store, no_requests, has, add, without, add_at, remove_at, put, put_at, index_insert, index_remove,
  create_decision, create_request, new_request, transition_request, sweep_all, sweep_expired,
  resolved, apply_decision, Call, creates, transitions, sweeps, step, run,
}
use sui_comabts.FightRequests.Indexes.{ids_of}
use sui_comabts.FightRequests.Keyed.{
  Keyed, create_request-Keyed, transition_request-Keyed, sweep_all-Keyed,
}

-- Every pending request is in the index of its sender.
abbrev pub Complete : Store → Type 0
Complete s =
    (k : Text) (r : FightRequest)
    → get k s.requests_by_id ≡ some r
    → is_pending r.status ≡ true
    → has k (ids_of r.from_wallet s.pending_by_sender) ≡ true

has-snoc : (k i : Text) (ids : List Text) → has k (ids ++ i ∷ []) ≡ has k (i ∷ ids)
has-snoc k i [] = refl
has-snoc k i (j ∷ ids) = ground (arith, has-snoc k i ids)

has-add : (k i : Text) (ids : List Text) → has k (add i ids) ≡ has k (i ∷ ids)
unfolding add
has-add k i ids = elim (Bool-cases (has i ids)) [
  | inl e ↦ rw e (elim (Bool-cases (i === k)) [
    | inl q ↦ rw (q, sym (===→≡ i k q), e) refl
    | inr q ↦ rw q refl
  ])
  | inr e ↦ rw e (has-snoc k i ids)
]

pub has-without :
    (k i : Text) (ids : List Text)
    → (i === k) ≡ false
    → has k ids ≡ true
    → has k (without i ids) ≡ true
has-without k i [] n h = cc
has-without k i (j ∷ ids) n h = elim (Bool-cases (j === k)) [
  | inl e ↦ ground (arith, n, e, ===→≡ j k e)
  | inr e ↦ ground (arith, e, has-without k i ids n)
]

has-add_at :
    (k i w v : Text) (m : Map (List Text))
    → has k (ids_of w m) ≡ true
    → has k (ids_of w (add_at v i m)) ≡ true
has-add_at k i w v m h = elim (Bool-cases (v === w)) [
  | inl e ↦
      let c : ids_of v m ≡ ids_of w m = ap (λ x. ids_of x m) (===→≡ v w e) in
      let t : has k (add i (ids_of v m)) ≡ true =
        ground (arith, has-add k i (ids_of v m), ap (λ x. has k x) c, h) in
      rw (get-set v w _ m, e) t
  | inr e ↦ rw (get-set v w _ m, e) h
]

has-add_self : (i w : Text) (m : Map (List Text)) → has i (ids_of w (add_at w i m)) ≡ true
has-add_self i w m =
    rw (get-set w w (add i (ids_of w m)) m, ===_refl w)
      (rw (has-add i i (ids_of w m), ===_refl i) refl)

has-remove_at :
    (k i w v : Text) (m : Map (List Text))
    → (i === k) ≡ false
    → has k (ids_of w m) ≡ true
    → has k (ids_of w (remove_at v i m)) ≡ true
has-remove_at k i w v m n h = elim (Option-cases (get v m)) [
  | inl e ↦ rw e h
  | inr (ids, e) ↦ elim (Bool-cases (v === w)) [
    | inl q ↦
        let c : get w m ≡ some ids = ap (λ x. get x m) (sym (===→≡ v w q)) ∙ e in
        let t : has k ids ≡ true = sym (ap (λ o. has k (or_else o [])) c) ∙ h in
        rw e (rw (get-set v w _ m, q) (has-without k i ids n t))
    | inr q ↦ rw e (rw (get-set v w _ m, q) h)
  ]
]

moved-Complete :
    (i : Text) (req done : FightRequest) (s : Store)
    → req.id ≡ i
    → is_pending done.status ≡ false
    → Complete s
    → Complete (index_remove req (put_at i done s))
unfolding index_remove
moved-Complete i req done s q f c k r = elim (Bool-cases (i === k)) [
  | inl e ↦
      rw (get-set i k done s.requests_by_id, e)
        (λ h p.
          let same : done ≡ r = cc in
          absurd (ground (arith, f, p, ap (λ x. is_pending x.status) same)))
  | inr e ↦
      rw (get-set i k done s.requests_by_id, e)
        (λ h p.
          has-remove_at k req.id r.from_wallet req.from_wallet s.pending_by_sender (rw q e)
            (c k r h p))
]

put-Complete :
    (req : FightRequest) (s : Store) → Complete s → Complete (index_insert req (put req s))
unfolding index_insert
put-Complete req s c = elim (Bool-cases (is_pending req.status)) [
  | inl p ↦ rw p (λ k r. elim (Bool-cases (req.id === k)) [
    | inl e ↦
        rw (get-set req.id k req s.requests_by_id, e)
          (λ h t.
            let same : r ≡ req = cc in
            rw (same, sym (===→≡ req.id k e))
              (has-add_self req.id req.from_wallet s.pending_by_sender))
    | inr e ↦
        rw (get-set req.id k req s.requests_by_id, e)
          (λ h t. has-add_at k req.id r.from_wallet req.from_wallet s.pending_by_sender (c k r h t))
  ])
  | inr p ↦ rw p (λ k r. elim (Bool-cases (req.id === k)) [
    | inl e ↦
        rw (get-set req.id k req s.requests_by_id, e)
          (λ h t.
            let same : req ≡ r = cc in
            absurd (ground (arith, p, t, ap (λ x. is_pending x.status) same)))
    | inr e ↦ rw (get-set req.id k req s.requests_by_id, e) (c k r)
  ])
]

apply_decision-Complete :
    (i : Text) (req : FightRequest) (d : TransitionDecision) (now : ℕ) (s : Store)
    → req.id ≡ i
    → ((st : FightRequestStatus) → d ≡ ok st → is_pending st ≡ false)
    → Complete s
    → Complete (apply_decision i (some req) d now s).0
apply_decision-Complete i req (ok st) now s q h c =
    moved-Complete i req (resolved req st now) s q (h st refl) c
apply_decision-Complete i req (refused reason) now s q h c = c

transition_request-Complete :
    (i : Text) (a : TransitionAction) (actor : Option Text) (now : ℕ) (s : Store)
    → Keyed s
    → Complete s
    → Complete (transition_request i a actor now s).0
unfolding transition_request evaluate_transition
transition_request-Complete i a actor now s v c = elim (Option-cases (get i s.requests_by_id)) [
  | inl e ↦ rw e c
  | inr (req, e) ↦ rw e (
      apply_decision-Complete i req (evaluate_transition (some req) a actor now) now s
        (v.keyed i req e)
        (λ st q. rw ((evaluate_transition_lem req a actor now st).0 q).2 (next_status-settled a)) c)
]

sweep_all-Complete :
    (now : ℕ) (m : Map FightRequest) (s : Store)
    → Keyed s
    → Complete s
    → Complete (sweep_all now m s).0
unfolding sweep_all
sweep_all-Complete now [] s v c = c
sweep_all-Complete now ((k, req) ∷ m) s v c =
    elim (Bool-cases (is_pending req.status && ltb req.expires_at now)) [
      | inl e ↦ rw e (
          sweep_all-Complete now m (transition_request req.id expire none now s).0
            (transition_request-Keyed req.id expire none now s v)
            (transition_request-Complete req.id expire none now s v c))
      | inr e ↦ rw e (sweep_all-Complete now m s v c)
    ]

create_request-Complete :
    (name_of : Text → Option Text) (i : Text) (now : ℕ) (input : CreateInput) (s : Store)
    → Complete s
    → Complete (create_request name_of i now input s).0
unfolding create_request
create_request-Complete name_of i now input s c = elim (Option-cases (create_decision input s)) [
  | inl e ↦ rw e (put-Complete (new_request name_of i now input) s c)
  | inr (reason, e) ↦ rw e c
]

pub run-Complete :
    (name_of : Text → Option Text) (uuid : ℕ → Text) (s : Store × ℕ) (cs : List (ℕ × Call))
    → Keyed s.0
    → Complete s.0
    → Complete (run name_of uuid s cs).0
unfolding run step sweep_expired
run-Complete name_of uuid s [] v c = c
run-Complete name_of uuid (s, n) ((now, creates input) ∷ cs) v c =
    run-Complete name_of uuid ((create_request name_of (uuid n) now input s).0, suc n) cs
      (create_request-Keyed name_of (uuid n) now input s v)
      (create_request-Complete name_of (uuid n) now input s c)
run-Complete name_of uuid (s, n) ((now, transitions i a actor) ∷ cs) v c =
    run-Complete name_of uuid ((transition_request i a actor now s).0, n) cs
      (transition_request-Keyed i a actor now s v) (transition_request-Complete i a actor now s v c)
run-Complete name_of uuid (s, n) ((now, sweeps) ∷ cs) v c =
    run-Complete name_of uuid ((sweep_all now s.requests_by_id s).0, n) cs
      (sweep_all-Keyed now s.requests_by_id s v) (sweep_all-Complete now s.requests_by_id s v c)

pub none-Complete : Complete no_requests
unfolding no_requests get
none-Complete k r e p = cc
