-- ===== src/Matchmaking/Fair.antt =====
-- server/src/game/matchmaking.ts: a pass leaves no two players waiting who could be matched.
use sui_comabts.Prelude.{
  ℕ, ◌≡◌, subst, true, false, ◌&&◌, not, List, [], ◌∷◌, none, arith, Text, ltb, length,
  if◌then◌else◌, select, select_comm, All, find-none, Bool-cases, Option-cases, inl, inr,
}
use sui_comabts.Types.{FightType, FightType-discrete}
use sui_comabts.Matchmaking.{
  QueueEntry, Matching, same_type, has, can_match, find_partner, try_entry, match_entries,
  try_group, match_groups, no_matches, match_queue, unmatched, try_match_players, by_type,
}
use sui_comabts.Matchmaking.Groups.{of_type, group_of, group_of-by_type}

-- No entry can be matched with a later one in a fight of type `t`.
abbrev pub NoneFit : FightType → ℕ → List QueueEntry → Type 0
NoneFit t now [] = Unit
NoneFit t now (a ∷ later) = All (λ b. can_match a b t now ≡ false) later × NoneFit t now later

-- No entry can be matched with a later one in the fight that it waits for.
abbrev pub NoneWaits : ℕ → List QueueEntry → Type 0
NoneWaits now [] = Unit
NoneWaits now (a ∷ later) =
    All (λ b. can_match a b a.fight_type now ≡ false) later × NoneWaits now later

-- Every wallet matched in `s` is matched in `u`.
abbrev Within : Matching → Matching → Type 0
Within s u = (w : Text) → has w s.matched ≡ true → has w u.matched ≡ true

try_entry-Within :
    (t : FightType) (now : ℕ) (a : QueueEntry) (later : List QueueEntry) (s : Matching)
    → Within s (try_entry t now a later s)
unfolding try_entry
try_entry-Within t now a later s w h =
    ground (arith, Option-cases (find_partner t now s.matched a later))

match_entries-Within :
    (t : FightType) (now : ℕ) (l : List QueueEntry) (s : Matching)
    → Within s (match_entries t now l s)
unfolding match_entries
match_entries-Within t now [] s w h = h
match_entries-Within t now (a ∷ later) s w h =
    match_entries-Within t now later (try_entry t now a later s) w
      (try_entry-Within t now a later s w h)

match_groups-Within :
    (now : ℕ) (groups : List (FightType × List QueueEntry)) (s : Matching)
    → Within s (match_groups now groups s)
unfolding match_groups try_group
match_groups-Within now [] s w h = h
match_groups-Within now ((t, l) ∷ groups) s w h =
    match_groups-Within now groups (try_group now (t, l) s) w
      (ground (arith, match_entries-Within t now l s w))

-- An entry that no later round matches found no free partner that fits.
no_partner :
    (t : FightType) (now : ℕ) (a : QueueEntry) (later : List QueueEntry) (s u : Matching)
    → Within (try_entry t now a later s) u
    → has a.wallet_address u.matched ≡ false
    → find_partner t now s.matched a later ≡ none
unfolding try_entry
no_partner t now a later s u sub f =
    ground (arith, sub a.wallet_address, Option-cases (find_partner t now s.matched a later))

free_entries :
    (t : FightType) (now : ℕ) (a : QueueEntry) (later : List QueueEntry) (s u : Matching)
    → Within s u
    → All (λ b. (not (has b.wallet_address s.matched) && can_match a b t now) ≡ false) later
    → All (λ b. can_match a b t now ≡ false) (select (unmatched u) later)
free_entries t now a [] s u sub h = tt
free_entries t now a (b ∷ later) s u sub h = elim (Bool-cases (has b.wallet_address u.matched)) [
  | inl e ↦ rw e (free_entries t now a later s u sub h.1)
  | inr e ↦ rw e (ground (arith, sub b.wallet_address, h.0), free_entries t now a later s u sub h.1)
]

match_entries-NoneFit :
    (t : FightType) (now : ℕ) (l : List QueueEntry) (s u : Matching)
    → Within (match_entries t now l s) u
    → NoneFit t now (select (unmatched u) l)
unfolding match_entries find_partner
match_entries-NoneFit t now [] s u sub = tt
match_entries-NoneFit t now (a ∷ later) s u sub =
    let s' = try_entry t now a later s in
    let sub' : Within s' u = λ w h. sub w (match_entries-Within t now later s' w h) in
    let rest = match_entries-NoneFit t now later s' u sub in
    elim (Bool-cases (has a.wallet_address u.matched)) [
      | inl e ↦ rw e rest
      | inr e ↦ rw e (
        free_entries t now a later s u (λ w h. sub' w (try_entry-Within t now a later s w h))
            (find-none _ later (no_partner t now a later s u sub' e)),
        rest,
      )
    ]

short_group :
    (t : FightType) (now : ℕ) (l : List QueueEntry) (u : Matching)
    → ltb (length l) 2 ≡ true
    → NoneFit t now (select (unmatched u) l)
short_group t now [] u h = tt
short_group t now (a ∷ []) u h = ground arith
short_group t now (a ∷ b ∷ l) u h = absurd (ground arith)

try_group-NoneFit :
    (t : FightType) (now : ℕ) (l : List QueueEntry) (s u : Matching)
    → Within (try_group now (t, l) s) u
    → NoneFit t now (select (unmatched u) l)
unfolding try_group
try_group-NoneFit t now l s u = elim (Bool-cases (ltb (length l) 2)) [
  | inl e ↦ λ _. short_group t now l u e
  | inr e ↦ rw e (match_entries-NoneFit t now l s u)
]

match_groups-NoneFit :
    (t : FightType) (now : ℕ) (groups : List (FightType × List QueueEntry)) (s u : Matching)
    → Within (match_groups now groups s) u
    → NoneFit t now (select (unmatched u) (group_of t groups))
unfolding match_groups
match_groups-NoneFit t now [] s u sub = tt
match_groups-NoneFit t now ((v, l) ∷ groups) s u sub =
    let s' = try_group now (v, l) s in
    let rest = match_groups-NoneFit t now groups s' u sub in
    let here =
      try_group-NoneFit v now l s u (λ w h. sub w (match_groups-Within now groups s' w h)) in
    elim (FightType-discrete v t)
      as (λ d. NoneFit t now (
        select (unmatched u)
          (if (elim d [ yes _ ↦ true | no _ ↦ false ]) then l else group_of t groups))) [
            | yes e ↦ subst (λ x. NoneFit x now (select (unmatched u) l)) e here
            | no _ ↦ rest
          ]

-- What fits no entry of its own type fits no entry at all.
fits_no_other :
    (now : ℕ) (a : QueueEntry) (es : List QueueEntry)
    → All (λ b. can_match a b a.fight_type now ≡ false) (of_type a.fight_type es)
    → All (λ b. can_match a b a.fight_type now ≡ false) es
unfolding can_match
fits_no_other now a [] h = tt
fits_no_other now a (b ∷ es) h = elim (Bool-cases (same_type a.fight_type b.fight_type)) [
  | inl e ↦
      let h' : All Unfit (b ∷ of_type a.fight_type es) = rw e at h in
      (h'.0, fits_no_other now a es h'.1)
  | inr e ↦ (ground arith, fits_no_other now a es (rw e at h))
]
  where
    Unfit : QueueEntry → Type 0
    Unfit x = can_match a x a.fight_type now ≡ false

same_type_refl : (t : FightType) → same_type t t ≡ true
same_type_refl t = ground arith

NoneFit-tail :
    (t : FightType) (now : ℕ) (a : QueueEntry) (es : List QueueEntry)
    → NoneFit t now (of_type t (a ∷ es))
    → NoneFit t now (of_type t es)
NoneFit-tail t now a es h = elim (Bool-cases (same_type t a.fight_type)) [
  | inl e ↦ (rw e at h).1
  | inr e ↦ rw e at h
]

NoneFit-NoneWaits :
    (now : ℕ) (es : List QueueEntry)
    → ((t : FightType) → NoneFit t now (of_type t es))
    → NoneWaits now es
NoneFit-NoneWaits now [] h = tt
NoneFit-NoneWaits now (a ∷ es) h = (
  fits_no_other now a es (rw (same_type_refl a.fight_type) at (h a.fight_type)).0,
  NoneFit-NoneWaits now es (λ t. NoneFit-tail t now a es (h t)),
)

-- After a pass, at the time it was made, no player left in the queue can be matched with a later
-- one: the pass stops only when nobody who waits has a partner.
pub try_match_players-NoneWaits :
    (now : ℕ) (queue : List QueueEntry) → NoneWaits now (try_match_players now queue).0
unfolding try_match_players match_queue
try_match_players-NoneWaits now queue =
    let s = match_queue now queue in
    NoneFit-NoneWaits now (select (unmatched s) queue) λ t.
      rw (select_comm (λ e. same_type t e.fight_type) (unmatched s) queue) (
        rw (← group_of-by_type t queue [])
          (match_groups-NoneFit t now (by_type queue []) no_matches s (λ w h. h)))
