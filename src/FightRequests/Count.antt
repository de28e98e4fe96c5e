-- ===== src/FightRequests/Count.antt =====
-- server/src/data/fight-requests.ts: the pending requests of the store against those in an index.
use sui_comabts.Prelude.{
  suc, ◌≤◌, ◌≡◌, inl, inr, true, false, List, [], ◌∷◌, some, arith, Text, ◌===◌, ===→≡, ===_refl,
  length, Map, get, All, Bool-cases, Option-cases,
}
use sui_comabts.FightRequests.{FightRequest, is_pending}
use sui_comabts.FightRequests.Store.{has, without, pending_among}
use sui_comabts.FightRequests.Indexes.{pending_among-without}
use sui_comabts.FightRequests.Complete.{has-without}

-- No identifier is there twice.
abbrev pub AreDistinct : List Text → Type 0
AreDistinct [] = Unit
AreDistinct (i ∷ ids) = (has i ids ≡ false) × AreDistinct ids

-- The identifier is one of the index, and has a pending request.
abbrev pub IsListed : Map FightRequest → List Text → Text → Type 0
IsListed m index i =
    (has i index ≡ true) × (r : FightRequest) × (get i m ≡ some r) × (is_pending r.status ≡ true)

pending_among-drop :
    (i : Text) (r : FightRequest) (m : Map FightRequest) (index : List Text)
    → get i m ≡ some r
    → is_pending r.status ≡ true
    → has i index ≡ true
    → suc (length (pending_among m (without i index))) ≤ length (pending_among m index)
unfolding pending_among
pending_among-drop i r m [] e p h = cc
pending_among-drop i r m (j ∷ index) e p h =
    let rest = pending_among-drop i r m index e p in
    elim (Bool-cases (j === i)) [
      | inl q ↦ rw (q, ===→≡ j i q, e, p) (ground (arith, pending_among-without i m index))
      | inr q ↦ elim (Option-cases (get j m)) [
        | inl k ↦ ground (arith, q, k, rest)
        | inr (t, k) ↦ ground (arith, q, k, rest)
      ]
    ]

All-IsListed-without :
    (i : Text) (m : Map FightRequest) (index ids : List Text)
    → has i ids ≡ false
    → All (IsListed m index) ids
    → All (IsListed m (without i index)) ids
All-IsListed-without i m index [] n h = tt
All-IsListed-without i m index (j ∷ ids) n ((at, r, e, p), hs) =
    let other : (i === j) ≡ false = elim (Bool-cases (i === j)) [
      | inl q ↦ absurd (ground (arith, n, ===→≡ i j q, ===_refl j))
      | inr q ↦ q
    ] in
    (
      (has-without j i index other at, r, e, p),
      All-IsListed-without i m index ids (ground (arith, n)) hs,
    )

-- Distinct identifiers of the index with a pending request are at most as many as the pending
-- requests that the index finds.
pub length-listed :
    (m : Map FightRequest) (index ids : List Text)
    → AreDistinct ids
    → All (IsListed m index) ids
    → length ids ≤ length (pending_among m index)
length-listed m index [] d h = omega arith
length-listed m index (i ∷ ids) d ((at, r, e, p), hs) = ground (
  arith,
  pending_among-drop i r m index e p at,
  length-listed m (without i index) ids d.1 (All-IsListed-without i m index ids d.0 hs),
)
