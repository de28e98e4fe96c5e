-- ===== src/FightRequests/Indexes.antt =====
-- server/src/data/fight-requests.ts: the indexes and the count of pending requests under one change.
use sui_comabts.Prelude.{
  suc, ◌≤◌, ◌≡◌, refl, ap, inl, inr, ◌⊎◌, true, false, List, [], ◌∷◌, ◌++◌, arith, Text, ◌===◌,
  ===→≡, length, is_some, or_else, Map, get, set, get-set, All, All-append, Bool-cases,
  Option-cases,
}
use sui_comabts.FightRequests.{FightRequest, is_pending}
use sui_comabts.FightRequests.Store.{
  pending_among, insert_by_created_at, sort_by_created_at, add, has, without, add_at, remove_at,
}

abbrev pub ids_of : Text → Map (List Text) → List Text
ids_of w m = or_else (get w m) []

abbrev pub Known : Map FightRequest → List Text → Type 0
Known m ids = All (λ i. is_some (get i m) ≡ true) ids

length-insert :
    (a : FightRequest) (l : List FightRequest) → length (insert_by_created_at a l) ≡ suc (length l)
unfolding insert_by_created_at
length-insert a [] = refl
length-insert a (b ∷ bs) = ground (arith, length-insert a bs)

pub length-sort : (l : List FightRequest) → length (sort_by_created_at l) ≡ length l
unfolding sort_by_created_at
length-sort [] = refl
length-sort (a ∷ rest) = ground (arith, length-insert a (sort_by_created_at rest), length-sort rest)

pub Known-set :
    (i : Text) (r : FightRequest) (m : Map FightRequest) (ids : List Text)
    → Known m ids
    → Known (set i r m) ids
Known-set i r m [] k = tt
Known-set i r m (j ∷ ids) k = (ground (arith, get-set i j r m, k.0), Known-set i r m ids k.1)

pub pending_among-fresh :
    (i : Text) (r : FightRequest) (m : Map FightRequest) (ids : List Text)
    → is_some (get i m) ≡ false
    → Known m ids
    → pending_among (set i r m) ids ≡ pending_among m ids
unfolding pending_among
pending_among-fresh i r m [] f k = refl
pending_among-fresh i r m (j ∷ ids) f k = elim (Bool-cases (i === j)) [
  | inl e ↦ ground (arith, ===→≡ i j e, ap (λ x. get x m) (===→≡ i j e), k.0)
  | inr e ↦ rw (get-set i j r m, e, pending_among-fresh i r m ids f k.1) refl
]

pub pending_among-done :
    (i : Text) (r : FightRequest) (m : Map FightRequest) (ids : List Text)
    → is_pending r.status ≡ false
    → length (pending_among (set i r m) ids) ≤ length (pending_among m ids)
unfolding pending_among
pending_among-done i r m [] f = omega arith
pending_among-done i r m (j ∷ ids) f =
    let rest = pending_among-done i r m ids f in
    elim (Option-cases (get j m)) [
      | inl e ↦ ground (arith, get-set i j r m, rest)
      | inr (q, e) ↦ ground (arith, get-set i j r m, rest)
    ]

pub pending_among-without :
    (i : Text) (m : Map FightRequest) (ids : List Text)
    → length (pending_among m (without i ids)) ≤ length (pending_among m ids)
unfolding pending_among
pending_among-without i m [] = omega arith
pending_among-without i m (j ∷ ids) =
    let rest = pending_among-without i m ids in
    elim (Option-cases (get j m)) [
      | inl e ↦ ground (arith, rest)
      | inr (q, e) ↦ ground (arith, rest)
    ]

pending_among-snoc :
    (i : Text) (m : Map FightRequest) (ids : List Text)
    → length (pending_among m (ids ++ i ∷ [])) ≤ suc (length (pending_among m ids))
unfolding pending_among
pending_among-snoc i m [] = elim (Option-cases (get i m)) [
  | inl e ↦ ground arith
  | inr (q, e) ↦ ground arith
]
pending_among-snoc i m (j ∷ ids) =
    let rest = pending_among-snoc i m ids in
    elim (Option-cases (get j m)) [
      | inl e ↦ ground (arith, rest)
      | inr (q, e) ↦ ground (arith, rest)
    ]

pub pending_among-add :
    (i : Text) (m : Map FightRequest) (ids : List Text)
    → length (pending_among m (add i ids)) ≤ suc (length (pending_among m ids))
unfolding add
pending_among-add i m ids = ground (arith, pending_among-snoc i m ids)

pub Known-add :
    (i : Text) (m : Map FightRequest) (ids : List Text)
    → Known m ids
    → is_some (get i m) ≡ true
    → Known m (add i ids)
unfolding add
Known-add i m ids k e = elim (Bool-cases (has i ids)) [
  | inl h ↦ rw h k
  | inr h ↦ rw h (All-append _ ids (i ∷ []) k (e, tt))
]

pub ids_of-add_at :
    (w v i : Text) (m : Map (List Text))
    → (ids_of w (add_at v i m) ≡ add i (ids_of v m)) ⊎ (ids_of w (add_at v i m) ≡ ids_of w m)
ids_of-add_at w v i m = elim (Bool-cases (v === w)) [
  | inl e ↦ inl (rw (get-set v w _ m, e) refl)
  | inr e ↦ inr (rw (get-set v w _ m, e) refl)
]

pub ids_of-remove_at :
    (w v i : Text) (m : Map (List Text))
    → (ids_of w (remove_at v i m) ≡ without i (ids_of v m))
      ⊎ (ids_of w (remove_at v i m) ≡ ids_of w m)
ids_of-remove_at w v i m = elim (Option-cases (get v m)) [
  | inl e ↦ inr (rw e refl)
  | inr (ids, e) ↦ elim (Bool-cases (v === w)) [
    | inl h ↦ inl (rw e (rw (get-set v w _ m, h) refl))
    | inr h ↦ inr (rw e (rw (get-set v w _ m, h) refl))
  ]
]
