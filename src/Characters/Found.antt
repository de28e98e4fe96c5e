-- ===== src/Characters/Found.antt =====
-- server/src/data/characters.ts: where `equipItem` finds the item.
use sui_comabts.Prelude.{
  ℕ, zero, suc, ◌≡◌, ◌⊎◌, inl, inr, refl, List, [], ◌∷◌, ◌++◌, Option, none, some, arith, Text,
  ◌==◌, get_elem?, Option-cases, Bool-cases,
}
use sui_comabts.Combat.Stats.{Item}
use sui_comabts.Characters.{Character}
use sui_comabts.Characters.Items.{find_item, pushed_back, slot_for, ring_slot, item_of}

-- An item that is found in the inventory is found at the same place when more is put behind it.
pub find_item-append :
    (id : Text) (is js : List Item) (n : ℕ)
    → find_item id is ≡ some n
    → find_item id (is ++ js) ≡ some n
unfolding find_item
find_item-append id [] js n e = absurd (ground (arith, e))
find_item-append id (x ∷ is) js n e = elim (Option-cases (find_item id is)) [
  | inl q ↦ ground (arith, e)
  | inr (m, q) ↦ ground (arith, e, find_item-append id is js m q)
]

pub get_elem?-append :
    (is js : List Item) (n : ℕ) (i : Item)
    → get_elem? is n ≡ some i
    → get_elem? (is ++ js) n ≡ some i
get_elem?-append [] js n i e = absurd (ground (arith, e))
get_elem?-append (x ∷ is) js zero i e = e
get_elem?-append (x ∷ is) js (suc n) i e = get_elem?-append is js n i e

-- The item with the id is the one at the place where `findIndex` finds it.
pub record Found (id : Text) (i : Item) (is : List Item) : Type 0 where
  pub place : ℕ
  pub found : find_item id is ≡ some place
  pub holds : get_elem? is place ≡ some i

pub append-Found :
    (id : Text) (i : Item) (is js : List Item) → Found id i is → Found id i (is ++ js)
append-Found id i is js f = record {
  place = f.place;
  found = find_item-append id is js f.place f.found;
  holds = get_elem?-append is js f.place i f.holds;
}

pub pushed_back-Found :
    (id : Text) (i : Item) (o : Option Item) (is : List Item)
    → Found id i is
    → Found id i (pushed_back o is)
pushed_back-Found id i none is f = f
pushed_back-Found id i (some old) is f = append-Found id i is (old ∷ []) f

pub find_item-pushed_back :
    (id : Text) (o : Option Item) (is : List Item) (n : ℕ)
    → find_item id is ≡ some n
    → find_item id (pushed_back o is) ≡ some n
find_item-pushed_back id none is n e = e
find_item-pushed_back id (some old) is n e = find_item-append id is (old ∷ []) n e

pub ring_slot-Found :
    (id : Text) (i : Item) (r1 r2 : Option Item) (c : Character)
    → Found id i c.inventory
    → Found id i (ring_slot r1 r2 c).0.inventory
ring_slot-Found id i none r2 c f = f
ring_slot-Found id i (some old) none c f = f
ring_slot-Found id i (some old) (some r2) c f = append-Found id i c.inventory (old ∷ []) f

pub slot_for-Found :
    (id : Text) (item : Item) (c : Character)
    → Found id item c.inventory
    → Found id item (slot_for item c).0.inventory
slot_for-Found id item c f = elim (Bool-cases (item.item_type == 8)) [
  | inl e ↦ rw e (ring_slot-Found id item c.equipment.ring1 c.equipment.ring2 c f)
  | inr e ↦ rw e f
]

-- The lookup of `equipItem`: the item that it finds, if any.
pub find-cases :
    (id : Text) (is : List Item)
    → (item_of (find_item id is) is ≡ none)
      ⊎ ((i : Item) × (item_of (find_item id is) is ≡ some i) × Found id i is)
find-cases id is = elim (Option-cases (find_item id is)) [
  | inl e ↦ inl (rw e refl)
  | inr (n, e) ↦ elim (Option-cases (get_elem? is n)) [
    | inl q ↦ inl (rw e q)
    | inr (i, q) ↦ inr (i, rw e q, record { place = n; found = e; holds = q })
  ]
]
