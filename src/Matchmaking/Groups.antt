-- ===== src/Matchmaking/Groups.antt =====
-- server/src/game/matchmaking.ts: the groups of `byType`, and a rule for what a pass preserves.
use mathlib.Core.List.{append-nil, append_assoc}
use sui_comabts.Prelude.{
  ℕ, ◌≡◌, refl, sym, ap, subst, ◌∙◌, true, false, List, [], ◌∷◌, ◌++◌, arith, Text, ltb, ◌||◌,
  ◌===◌, if◌then◌else◌, length, any-append, select, select-append, All, All-append, Bool-cases, inl,
  inr,
}
use sui_comabts.Types.{FightType, FightType-discrete}
use sui_comabts.Matchmaking.{
  QueueEntry, Matching, same_type, try_entry, match_entries, add_to_type, by_type, try_group,
  match_groups, is_in_queue,
}

-- `P` holds after a pass if it holds before and each round of the inner loops keeps it. `Q` says
-- what the rounds may use about the entries still ahead in a group.
module _ {ℓ κ} (P : Matching → Type ℓ) (Q : FightType → List QueueEntry → Type κ) (now : ℕ)
    (Q-tail : (t : FightType) (a : QueueEntry) (later : List QueueEntry)
      → Q t (a ∷ later)
      → Q t later)
    (step : (t : FightType) (a : QueueEntry) (later : List QueueEntry) (s : Matching)
      → Q t (a ∷ later)
      → P s
      → P (try_entry t now a later s)) where
  pub match_entries-keeps :
      (t : FightType) (l : List QueueEntry) (s : Matching)
      → Q t l
      → P s
      → P (match_entries t now l s)
  unfolding match_entries
  match_entries-keeps t [] s q h = h
  match_entries-keeps t (a ∷ later) s q h =
      match_entries-keeps t later (try_entry t now a later s) (Q-tail t a later q)
        (step t a later s q h)

  try_group-keeps :
      (t : FightType) (l : List QueueEntry) (s : Matching)
      → Q t l
      → P s
      → P (try_group now (t, l) s)
  unfolding try_group
  try_group-keeps t l s q h = elim (Bool-cases (ltb (length l) 2)) [
    | inl e ↦ rw e h
    | inr e ↦ rw e (match_entries-keeps t l s q h)
  ]

  pub match_groups-keeps :
      (groups : List (FightType × List QueueEntry)) (s : Matching)
      → All (λ g. Q g.0 g.1) groups
      → P s
      → P (match_groups now groups s)
  unfolding match_groups
  match_groups-keeps [] s q h = h
  match_groups-keeps ((t, l) ∷ groups) s q h =
      match_groups-keeps groups (try_group now (t, l) s) q.1 (try_group-keeps t l s q.0 h)

-- The entries of a list that have a type, in order.
abbrev pub of_type : FightType → List QueueEntry → List QueueEntry
of_type t = select λ e. same_type t e.fight_type

-- `byType.get(t) || []`.
abbrev pub group_of : FightType → List (FightType × List QueueEntry) → List QueueEntry
group_of t [] = []
group_of t ((u, l) ∷ groups) = let rest = group_of t groups in if same_type u t then l else rest

group_of-add_to_type :
    (t : FightType) (e : QueueEntry) (groups : List (FightType × List QueueEntry))
    → group_of t (add_to_type e groups) ≡ group_of t groups ++ of_type t (e ∷ [])
unfolding add_to_type
group_of-add_to_type t e [] = ground arith
group_of-add_to_type t e ((u, l) ∷ groups) =
    elim (FightType-discrete u e.fight_type)
      as (λ d.
        group_of t (
          if elim d [ yes _ ↦ true | no _ ↦ false ]
          then (u, l ++ e ∷ []) ∷ groups
          else (u, l) ∷ add_to_type e groups)
        ≡ group_of t ((u, l) ∷ groups) ++ of_type t (e ∷ [])) [
          | yes h ↦ ground (arith, append-nil (group_of t groups))
          | no h ↦ ground (arith, append-nil l, group_of-add_to_type t e groups)
        ]

-- The group of a type holds the entries of that type, in queue order.
pub group_of-by_type :
    (t : FightType) (queue : List QueueEntry) (groups : List (FightType × List QueueEntry))
    → group_of t (by_type queue groups) ≡ group_of t groups ++ of_type t queue
unfolding by_type
group_of-by_type t [] groups = sym (append-nil (group_of t groups))
group_of-by_type t (e ∷ es) groups =
    group_of-by_type t es (add_to_type e groups)
    ∙ ap (λ l. l ++ of_type t es) (group_of-add_to_type t e groups)
    ∙ append_assoc (group_of t groups) (of_type t (e ∷ [])) (of_type t es)
    ∙ ap (◌++◌ (group_of t groups))
        (sym (select-append (λ x. same_type t x.fight_type) (e ∷ []) es))

-- The wallets of a list of entries are distinct.
abbrev pub Distinct : List QueueEntry → Type 0
Distinct [] = Unit
Distinct (e ∷ es) = (is_in_queue e.wallet_address es ≡ false) × Distinct es

-- What holds of each group: its type, distinct wallets, and that its entries are queued.
pub record IsGroup (queue : List QueueEntry) (t : FightType) (l : List QueueEntry) : Type 0 where
  pub typed : All (λ e. t ≡ e.fight_type) l
  pub distinct : Distinct l
  pub queued : All (λ e. is_in_queue e.wallet_address queue ≡ true) l

pub IsGroup-tail :
    {queue : List QueueEntry} (t : FightType) (a : QueueEntry) (later : List QueueEntry)
    → IsGroup queue t (a ∷ later)
    → IsGroup queue t later
IsGroup-tail t a later h = record {
  typed = h.typed.1;
  distinct = h.distinct.1;
  queued = h.queued.1;
}

pub is_in_queue-append :
    (w : Text) (xs ys : List QueueEntry)
    → is_in_queue w (xs ++ ys) ≡ (is_in_queue w xs || is_in_queue w ys)
unfolding is_in_queue
is_in_queue-append w xs ys = any-append (λ e. e.wallet_address === w) xs ys

pub Distinct-snoc :
    (xs : List QueueEntry) (e : QueueEntry)
    → Distinct xs
    → is_in_queue e.wallet_address xs ≡ false
    → Distinct (xs ++ e ∷ [])
unfolding is_in_queue
Distinct-snoc [] e d f = (refl, tt)
Distinct-snoc (x ∷ xs) e d f = (
  ground (arith, any-append (λ y. y.wallet_address === x.wallet_address) xs (e ∷ [])),
  Distinct-snoc xs e d.1 (ground arith),
)

-- A wallet stands in no group.
abbrev Absent : Text → List (FightType × List QueueEntry) → Type 0
Absent w = All λ g. is_in_queue w g.1 ≡ false

module _ (queue : List QueueEntry) where
  AreGroups : List (FightType × List QueueEntry) → Type 0
  AreGroups = All λ g. IsGroup queue g.0 g.1

  IsGroup-snoc :
      (t : FightType) (l : List QueueEntry) (e : QueueEntry)
      → IsGroup queue t l
      → t ≡ e.fight_type
      → is_in_queue e.wallet_address queue ≡ true
      → is_in_queue e.wallet_address l ≡ false
      → IsGroup queue t (l ++ e ∷ [])
  IsGroup-snoc t l e h s q f = record {
    typed = All-append (λ x. t ≡ x.fight_type) l (e ∷ []) h.typed (s, tt);
    distinct = Distinct-snoc l e h.distinct f;
    queued =
        All-append (λ x. is_in_queue x.wallet_address queue ≡ true) l (e ∷ []) h.queued (q, tt);
  }

  add_to_type-AreGroups :
      (e : QueueEntry) (groups : List (FightType × List QueueEntry))
      → is_in_queue e.wallet_address queue ≡ true
      → Absent e.wallet_address groups
      → AreGroups groups
      → AreGroups (add_to_type e groups)
  unfolding AreGroups add_to_type is_in_queue
  add_to_type-AreGroups e [] q f h =
      (record { typed = (refl, tt); distinct = (refl, tt); queued = (q, tt) }, tt)
  add_to_type-AreGroups e ((t, l) ∷ groups) q f h =
      ground (arith, IsGroup-snoc t l e h.0, add_to_type-AreGroups e groups q f.1 h.1)

add_to_type-Absent :
    (w : Text) (e : QueueEntry) (groups : List (FightType × List QueueEntry))
    → (e.wallet_address === w) ≡ false
    → Absent w groups
    → Absent w (add_to_type e groups)
unfolding add_to_type is_in_queue
add_to_type-Absent w e [] n h = ground arith
add_to_type-Absent w e ((t, l) ∷ groups) n h =
    ground (arith, is_in_queue-append w l (e ∷ []), add_to_type-Absent w e groups n h.1)

-- No entry of `es` has its wallet in a group.
abbrev NoneIn : List (FightType × List QueueEntry) → List QueueEntry → Type 0
NoneIn groups = All λ e. Absent e.wallet_address groups

add_to_type-NoneIn :
    (e : QueueEntry) (groups : List (FightType × List QueueEntry)) (es : List QueueEntry)
    → is_in_queue e.wallet_address es ≡ false
    → NoneIn groups es
    → NoneIn (add_to_type e groups) es
unfolding is_in_queue
add_to_type-NoneIn e groups [] n h = tt
add_to_type-NoneIn e groups (x ∷ es) n h = (
  add_to_type-Absent x.wallet_address e groups (ground arith) h.0,
  add_to_type-NoneIn e groups es (ground arith) h.1,
)

by_type-AreGroups :
    (queue es : List QueueEntry) (groups : List (FightType × List QueueEntry))
    → Distinct es
    → All (λ e. is_in_queue e.wallet_address queue ≡ true) es
    → NoneIn groups es
    → AreGroups queue groups
    → AreGroups queue (by_type es groups)
unfolding by_type
by_type-AreGroups queue [] groups d q n h = h
by_type-AreGroups queue (e ∷ es) groups d q n h =
    by_type-AreGroups queue es (add_to_type e groups) d.1 q.1
      (add_to_type-NoneIn e groups es d.0 n.1) (add_to_type-AreGroups queue e groups q.0 n.0 h)

-- An entry's wallet is in the queue that holds it.
queued_self :
    (xs es : List QueueEntry) → All (λ e. is_in_queue e.wallet_address (xs ++ es) ≡ true) es
unfolding is_in_queue
queued_self xs [] = tt
queued_self xs (e ∷ es) = (
  rw (is_in_queue-append e.wallet_address xs (e ∷ es)) (ground arith),
  subst (λ l. All (λ x. is_in_queue x.wallet_address l ≡ true) es) (append_assoc xs (e ∷ []) es)
      (queued_self (xs ++ e ∷ []) es),
)

nothing_in : (es : List QueueEntry) → NoneIn [] es
nothing_in [] = tt
nothing_in (e ∷ es) = (tt, nothing_in es)

pub groups_of_queue :
    (queue : List QueueEntry) → Distinct queue → All (λ g. IsGroup queue g.0 g.1) (by_type queue [])
unfolding AreGroups
groups_of_queue queue d =
    by_type-AreGroups queue queue [] d (queued_self [] queue) (nothing_in queue) tt
