-- ===== src/FightRequests/Run.antt =====
-- server/src/data/fight-requests.ts: the store over any history of calls.
use sui_comabts.Prelude.{
  ℕ, ◌≤◌, ◌<◌, ◌≡◌, refl, sym, ap, ◌∙◌, inl, inr, ◌⊎◌, true, false, ◌&&◌, List, [], ◌∷◌, Option,
  none, some, arith, Text, ◌===◌, ===→≡, length, is_some, All, Map, get, get-set, Bool-cases,
  Option-cases, ltb,
}
use sui_comabts.FightRequests.{
  FightRequest, pending, is_pending, CreateInput, TransitionAction, expire, TransitionDecision, ok,
  refused, evaluate_transition,
}
use sui_comabts.FightRequests.Store.{
  Store, no_requests, has, pending_among, index_insert, index_remove, get_pending_from_sender,
  get_request, create_decision, create_request, new_request, transition_request, sweep_all,
  sweep_expired, resolved, Call, creates, transitions, sweeps, step, run, apply_decision,
}
use sui_comabts.FightRequests.Indexes.{ids_of, length-sort}
use sui_comabts.FightRequests.Keyed.{none-Keyed}
use sui_comabts.FightRequests.Complete.{Complete, none-Complete, run-Complete}
use sui_comabts.FightRequests.Count.{AreDistinct, IsListed, length-listed}
use sui_comabts.FightRequests.Limit.{Inv, transition_request-Inv, create_request-Inv, sweep_all-Inv}
use sui_comabts.FightRequests.Settled.{
  Settled, transition_request-Settled, create_request-Settled, sweep_all-Settled,
}

-- Every identifier that the store has was given out before the `n`th.
abbrev Used : (ℕ → Text) → ℕ → Store → Type 0
Used uuid n s =
    (k : Text) → is_some (get k s.requests_by_id) ≡ true → (j : ℕ) × (j < n) × (k ≡ uuid j)

get-apply_decision :
    (k i : Text) (req : FightRequest) (d : TransitionDecision) (now : ℕ) (s : Store)
    → get i s.requests_by_id ≡ some req
    → is_some (get k (apply_decision i (some req) d now s).0.requests_by_id)
      ≡ is_some (get k s.requests_by_id)
unfolding index_remove
get-apply_decision k i req (ok st) now s e = elim (Bool-cases (i === k)) [
  | inl h ↦ ground (
    arith,
    get-set i k (resolved req st now) s.requests_by_id,
    ap (λ x. get x s.requests_by_id) (===→≡ i k h),
  )
  | inr h ↦ ground (arith, get-set i k (resolved req st now) s.requests_by_id)
]
get-apply_decision k i req (refused reason) now s e = refl

get-transition_request :
    (k i : Text) (a : TransitionAction) (actor : Option Text) (now : ℕ) (s : Store)
    → is_some (get k (transition_request i a actor now s).0.requests_by_id)
      ≡ is_some (get k s.requests_by_id)
unfolding transition_request evaluate_transition
get-transition_request k i a actor now s = elim (Option-cases (get i s.requests_by_id)) [
  | inl e ↦ rw e refl
  | inr (req, e) ↦
      rw e (get-apply_decision k i req (evaluate_transition (some req) a actor now) now s e)
]

get-sweep_all :
    (k : Text) (now : ℕ) (m : Map FightRequest) (s : Store)
    → is_some (get k (sweep_all now m s).0.requests_by_id) ≡ is_some (get k s.requests_by_id)
unfolding sweep_all
get-sweep_all k now [] s = refl
get-sweep_all k now ((i, req) ∷ m) s =
    elim (Bool-cases (is_pending req.status && ltb req.expires_at now)) [
      | inl e ↦ rw e (
          get-sweep_all k now m (transition_request req.id expire none now s).0
          ∙ get-transition_request k req.id expire none now s)
      | inr e ↦ rw e (get-sweep_all k now m s)
    ]

get-create_request :
    (name_of : Text → Option Text) (k i : Text) (now : ℕ) (input : CreateInput) (s : Store)
    → is_some (get k (create_request name_of i now input s).0.requests_by_id) ≡ true
    → (i ≡ k) ⊎ (is_some (get k s.requests_by_id) ≡ true)
unfolding create_request index_insert new_request
get-create_request name_of k i now input s = elim (Option-cases (create_decision input s)) [
  | inl e ↦ rw e (λ h. elim (Bool-cases (i === k)) [
    | inl q ↦ inl (===→≡ i k q)
    | inr q ↦
        inr (ground (arith, h, get-set i k (new_request name_of i now input) s.requests_by_id))
  ])
  | inr (reason, e) ↦ rw e (λ h. inr h)
]

-- The store has a pending request from the wallet under the identifier.
abbrev pub IsPendingFrom : Text → Store → Text → Type 0
IsPendingFrom w s i =
    (r : FightRequest) × (get i s.requests_by_id ≡ some r)
    × (r.status ≡ pending)
    × (r.from_wallet ≡ w)

All-IsListed :
    (w : Text) (s : Store)
    → Complete s
    → (ids : List Text) → All (IsPendingFrom w s) ids
    → All (IsListed s.requests_by_id (ids_of w s.pending_by_sender)) ids
All-IsListed w s c [] h = tt
All-IsListed w s c (i ∷ ids) ((r, e, p, q), hs) =
    let on : is_pending r.status ≡ true = rw p refl in
    let at = c i r e on in
    (
      (sym (ap (λ x. has i (ids_of x s.pending_by_sender)) q) ∙ at, r, e, on),
      All-IsListed w s c ids hs,
    )

module _ (name_of : Text → Option Text) (uuid : ℕ → Text)
    (distinct : (i j : ℕ) → uuid i ≡ uuid j → i ≡ j) where
  fresh : (n : ℕ) (s : Store) → Used uuid n s → is_some (get (uuid n) s.requests_by_id) ≡ false
  fresh n s u = elim (Bool-cases (is_some (get (uuid n) s.requests_by_id))) [
    | inl h ↦ let (j, lt, e) = u (uuid n) h in ground (arith, distinct n j e)
    | inr h ↦ h
  ]

  abbrev Sound : Store × ℕ → Type 0
  Sound (s, n) = Inv s × Used uuid n s

  step-Sound : (s : Store × ℕ) (c : ℕ × Call) → Sound s → Sound (step name_of uuid s c)
  unfolding step sweep_expired
  step-Sound (s, n) (now, creates input) (v, u) = (
    create_request-Inv name_of (uuid n) now input s (fresh n s u) v,
    λ k h. elim (get-create_request name_of k (uuid n) now input s h) [
      | inl e ↦ (n, omega arith, sym e)
      | inr h' ↦ let (j, lt, e) = u k h' in (j, omega arith, e)
    ],
  )
  step-Sound (s, n) (now, transitions i a actor) (v, u) = (
    transition_request-Inv i a actor now s v,
    λ k h. u k (sym (get-transition_request k i a actor now s) ∙ h),
  )
  step-Sound (s, n) (now, sweeps) (v, u) = (
    sweep_all-Inv now s.requests_by_id s v,
    λ k h. u k (sym (get-sweep_all k now s.requests_by_id s) ∙ h),
  )

  run-Sound : (s : Store × ℕ) (cs : List (ℕ × Call)) → Sound s → Sound (run name_of uuid s cs)
  unfolding run
  run-Sound s [] v = v
  run-Sound s (c ∷ cs) v = run-Sound (step name_of uuid s c) cs (step-Sound s c v)

  start-Sound : Sound (no_requests, 0)
  unfolding no_requests pending_among get
  start-Sound = (record { known = λ w. tt; limit = λ w. omega arith }, λ k h. cc)

  -- With distinct identifiers from `uuidv4`: after any history of creations, transitions and sweeps,
  -- no sender has more than five requests pending. Distinct identifiers under which the store has a
  -- pending request from one wallet are at most five, and `getPendingFromSender` lists at most five.
  pub run-limit :
      (cs : List (ℕ × Call)) (w : Text) (ids : List Text)
      → let s = (run name_of uuid (no_requests, 0) cs).0 in
        AreDistinct ids
        → All (IsPendingFrom w s) ids
        → (length ids ≤ 5) × (length (get_pending_from_sender w s) ≤ 5)
  unfolding get_pending_from_sender
  run-limit cs w ids d h =
      let s = (run name_of uuid (no_requests, 0) cs).0 in
      let v = (run-Sound (no_requests, 0) cs start-Sound).0 in
      let c = run-Complete name_of uuid (no_requests, 0) cs none-Keyed none-Complete in
      let index = ids_of w s.pending_by_sender in
      let found = length-listed s.requests_by_id index ids d (All-IsListed w s c ids h) in
      let few = v.limit w in
      (ground (arith, found, few), rw (length-sort (pending_among s.requests_by_id index)) few)

  step-Settled :
      (i : Text) (r : FightRequest) (s : Store × ℕ) (c : ℕ × Call)
      → Used uuid s.1 s.0
      → Settled i r s.0
      → Settled i r (step name_of uuid s c).0
  unfolding step sweep_expired
  step-Settled i r (s, n) (now, creates input) u d =
      create_request-Settled name_of i (uuid n) r now input s (fresh n s u) d
  step-Settled i r (s, n) (now, transitions j a actor) u d =
      transition_request-Settled i j r a actor now s d
  step-Settled i r (s, n) (now, sweeps) u d = sweep_all-Settled i r now s.requests_by_id s d

  run_from-Settled :
      (i : Text) (r : FightRequest) (s : Store × ℕ) (cs : List (ℕ × Call))
      → Sound s
      → Settled i r s.0
      → Settled i r (run name_of uuid s cs).0
  unfolding run
  run_from-Settled i r s [] v d = d
  run_from-Settled i r s (c ∷ cs) v d =
      run_from-Settled i r (step name_of uuid s c) cs (step-Sound s c v)
        (step-Settled i r s c v.1 d)

  -- With distinct identifiers from `uuidv4`: once a request is accepted, declined, canceled or
  -- expired, no later creation, transition or sweep changes any part of it.
  pub run-settled :
      (before after : List (ℕ × Call)) (i : Text) (r : FightRequest)
      → let s = run name_of uuid (no_requests, 0) before in
        get_request i s.0 ≡ some r
        → is_pending r.status ≡ false
        → get_request i (run name_of uuid s after).0 ≡ some r
  run-settled before after i r e f =
      let s = run name_of uuid (no_requests, 0) before in
      (run_from-Settled i r s after (run-Sound (no_requests, 0) before start-Sound) (e, f)).0
