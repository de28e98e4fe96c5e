-- ===== src/FightRequests/Sweep.antt =====
-- server/src/data/fight-requests.ts: what a sweep leaves of every stored request.
use sui_comabts.Prelude.{
  ℕ, ◌≡◌, refl, sym, subst, ap, ◌∙◌, inl, inr, Bool, true, false, ◌&&◌, List, [], ◌∷◌, Option, none,
  some, arith, Text, ◌===◌, ===→≡, ===_refl, if◌then◌else◌, Map, get, set, get-set, has_key, IsMap,
  get_absent, Bool-cases, Option-cases, ltb,
}
use sui_comabts.FightRequests.{
  FightRequest, expired, is_pending, TransitionAction, expire, TransitionDecision, ok, refused,
  evaluate_transition, is_authorized,
}
use sui_comabts.FightRequests.Store.{
  Store, no_requests, get_request, index_remove, transition_request, sweep_all, sweep_expired,
  resolved, apply_decision, Call, run,
}
use sui_comabts.FightRequests.Keyed.{none-Keyed, run-Keyed}

-- Pending past its time.
abbrev pub overdue : ℕ → FightRequest → Bool
overdue now r = is_pending r.status && ltb r.expires_at now

-- The request as a sweep leaves it.
abbrev pub swept : ℕ → FightRequest → FightRequest
swept now r = if overdue now r then resolved r expired now else r

get-other :
    (i k : Text) (a : TransitionAction) (actor : Option Text) (now : ℕ) (s : Store)
    → (i === k) ≡ false
    → get k (transition_request i a actor now s).0.requests_by_id ≡ get k s.requests_by_id
unfolding transition_request evaluate_transition index_remove
get-other i k a actor now s h = elim (Option-cases (get i s.requests_by_id)) [
  | inl e ↦ rw e refl
  | inr (req, e) ↦ rw e (go req (evaluate_transition (some req) a actor now))
]
  where
    go :
        (req : FightRequest) (d : TransitionDecision)
        → get k (apply_decision i (some req) d now s).0.requests_by_id ≡ get k s.requests_by_id
    go req (ok st) = rw (get-set i k (resolved req st now) s.requests_by_id, h) refl
    go req (refused reason) = refl

get-expired :
    (k : Text) (r : FightRequest) (now : ℕ) (s : Store)
    → get k s.requests_by_id ≡ some r
    → is_pending r.status ≡ true
    → get k (transition_request k expire none now s).0.requests_by_id
      ≡ some (resolved r expired now)
unfolding transition_request evaluate_transition is_authorized index_remove
get-expired k r now s e p =
    let there : get k (set k (resolved r expired now) s.requests_by_id)
        ≡ some (resolved r expired now) =
      rw (get-set k k (resolved r expired now) s.requests_by_id, ===_refl k) refl in
    rw e (ground (arith, p, there))

-- The requests of `m` are those of the store, each under its identifier.
record Listed (m : Map FightRequest) (s : Store) : Type 0 where
  distinct : IsMap m
  keyed : (k : Text) (r : FightRequest) → get k m ≡ some r → r.id ≡ k
  current : (k : Text) (r : FightRequest) → get k m ≡ some r → get k s.requests_by_id ≡ some r

Listed-head :
    (j : Text) (req : FightRequest) (m : Map FightRequest) (s : Store)
    → Listed ((j, req) ∷ m) s
    → (req.id ≡ j) × (get j s.requests_by_id ≡ some req)
unfolding get
Listed-head j req m s v =
    let here : get j ((j, req) ∷ m) ≡ some req = rw (===_refl j) refl in
    (v.keyed j req here, v.current j req here)

apart :
    (j k : Text) (r : FightRequest) (m : Map FightRequest)
    → has_key j m ≡ false
    → get k m ≡ some r
    → (j === k) ≡ false
apart j k r m h e = elim (Bool-cases (j === k)) [
  | inl q ↦ ground (arith, e, get_absent j m h, ap (λ x. get x m) (===→≡ j k q))
  | inr q ↦ q
]

-- The store may change under the first key only.
Listed-tail :
    (j : Text) (req : FightRequest) (m : Map FightRequest) (s t : Store)
    → ((k : Text) → (j === k) ≡ false → get k t.requests_by_id ≡ get k s.requests_by_id)
    → Listed ((j, req) ∷ m) s
    → Listed m t
unfolding get
Listed-tail j req m s t same v = record {
  distinct = v.distinct.1;
  keyed = λ k r e. v.keyed k r (rw (apart j k r m v.distinct.0 e) e);
  current = λ k r e. let q = apart j k r m v.distinct.0 e in same k q ∙ v.current k r (rw q e);
}

sweep_all-other :
    (now : ℕ) (m : Map FightRequest) (s : Store) (k : Text)
    → Listed m s
    → has_key k m ≡ false
    → get k (sweep_all now m s).0.requests_by_id ≡ get k s.requests_by_id
unfolding sweep_all
sweep_all-other now [] s k v h = refl
sweep_all-other now ((j, req) ∷ m) s k v h =
    let away : (j === k) ≡ false = ground arith in
    let rest : has_key k m ≡ false = ground arith in
    let (id, here) = Listed-head j req m s v in
    let other =
      λ (x : Text) (q : (j === x) ≡ false). get-other req.id x expire none now s (rw id q) in
    elim (Bool-cases (overdue now req)) [
      | inl e ↦ rw e (
          sweep_all-other now m (transition_request req.id expire none now s).0 k
            (Listed-tail j req m s (transition_request req.id expire none now s).0 other v) rest
          ∙ other k away)
      | inr e ↦ rw e (sweep_all-other now m s k (Listed-tail j req m s s (λ x q. refl) v) rest)
    ]

sweep_all-swept :
    (now : ℕ) (m : Map FightRequest) (s : Store) (k : Text) (r : FightRequest)
    → Listed m s
    → get k m ≡ some r
    → get k (sweep_all now m s).0.requests_by_id ≡ some (swept now r)
unfolding sweep_all get
sweep_all-swept now [] s k r v e = cc
sweep_all-swept now ((j, req) ∷ m) s k r v e =
    let t = (transition_request req.id expire none now s).0 in
    let (id, here) = Listed-head j req m s v in
    let other =
      λ (x : Text) (q : (j === x) ≡ false). get-other req.id x expire none now s (rw id q) in
    let moved = Listed-tail j req m s t other v in
    let kept = Listed-tail j req m s s (λ x q. refl) v in
    elim (Bool-cases (j === k)) [
      | inl q ↦
          let same : req ≡ r = ground (arith, e) in
          let at_k : req.id ≡ k = id ∙ ===→≡ j k q in
          let now_expired = λ (o : overdue now req ≡ true).
            subst (λ x. get x t.requests_by_id ≡ some (resolved req expired now)) at_k
              (get-expired req.id req now s (ap (λ x. get x s.requests_by_id) id ∙ here)
                (ground (arith, o))) in
          let gone : has_key k m ≡ false = rw (sym (===→≡ j k q)) v.distinct.0 in
          rw (sym same) (elim (Bool-cases (overdue now req)) [
            | inl o ↦ rw o (sweep_all-other now m t k moved gone ∙ now_expired o)
            | inr o ↦ rw o (sweep_all-other now m s k kept gone ∙ rw (sym (===→≡ j k q)) here)
          ])
      | inr q ↦
          let rest : get k m ≡ some r = ground (arith, e) in
          elim (Bool-cases (overdue now req)) [
            | inl o ↦ rw o (sweep_all-swept now m t k r moved rest)
            | inr o ↦ rw o (sweep_all-swept now m s k r kept rest)
          ]
    ]

-- In every reachable store, `sweepExpired` expires each pending request whose time is over, at the
-- time of the sweep, and leaves every other request as it is.
pub sweep_expired_lem :
    (name_of : Text → Option Text) (uuid : ℕ → Text) (cs : List (ℕ × Call)) (now : ℕ) (k : Text)
    (r : FightRequest)
    → let s = (run name_of uuid (no_requests, 0) cs).0 in
      get_request k s ≡ some r → get_request k (sweep_expired now s).0 ≡ some (swept now r)
unfolding sweep_expired
sweep_expired_lem name_of uuid cs now k r e =
    let s = (run name_of uuid (no_requests, 0) cs).0 in
    let v = run-Keyed name_of uuid (no_requests, 0) cs none-Keyed in
    sweep_all-swept now s.requests_by_id s k r
      record { distinct = v.distinct; keyed = v.keyed; current = λ x q h. h } e
