-- ===== src/Characters/Bag.antt =====
-- server/src/data/characters.ts: what a character owns, carried or worn, as a bag of items. No move
-- between the inventory and the slots changes it.
use sui_comabts.Prelude.{
  ℕ, zero, suc, ◌+◌, ◌≡◌, inl, inr, refl, sym, ap, ◌∙◌, Bool, List, [], ◌∷◌, ◌++◌, Option, none,
  some, arith, Text, ◌==◌, ltb, if◌then◌else◌, get_elem?, Option-cases, Bool-cases,
}
use sui_comabts.Characters.Found.{Found, pushed_back-Found, slot_for-Found, find-cases}
use mathlib.Core.Quot
use mathlib.Core.Quot.{Quot, Quot-set}
use sui_comabts.Combat.Stats.{Item, EquipmentSlots, slots}
use sui_comabts.Characters.{Character}
use sui_comabts.Characters.Items.{
  SlotKey, weapon, offhand, helmet, chest, gloves, boots, belt, ring1, ring2, necklace, ring3,
  pants, bracelets, slot_at, put_slot, splice_one, equip_character, unequip_character,
  unequip_found, pushed_back, slot_for, ring_slot, equip_in, equip_item_of,
}

-- How many items of a list, or of a slot, pass a test.
abbrev pub count : (Item → Bool) → List Item → ℕ
count p [] = 0
count p (i ∷ is) = (if p i then 1 else 0) + count p is

abbrev pub count_in : (Item → Bool) → Option Item → ℕ
count_in p none = 0
count_in p (some i) = if p i then 1 else 0

abbrev pub worn : List (Option Item) → List Item
worn [] = []
worn (none ∷ os) = worn os
worn (some i ∷ os) = i ∷ worn os

abbrev pub count_worn : (Item → Bool) → List (Option Item) → ℕ
count_worn p [] = 0
count_worn p (o ∷ os) = count_in p o + count_worn p os

-- The same items, as often: no test tells the lists apart.
abbrev pub SameItems : List Item → List Item → Type 0
SameItems xs ys = (p : Item → Bool) → count p xs ≡ count p ys

abbrev pub Bag : Type 0
Bag = Quot SameItems

-- The items that a character carries or wears.
unfoldable pub owned : Character → List Item
owned c = c.inventory ++ worn (slots c.equipment)

unfoldable pub holdings : Character → Bag
holdings c = Quot.mk (owned c)

pub count-append :
    (p : Item → Bool) (xs ys : List Item) → count p (xs ++ ys) ≡ count p xs + count p ys
count-append p [] ys = omega arith
count-append p (x ∷ xs) ys = omega (arith, count-append p xs ys)

count-worn : (p : Item → Bool) (os : List (Option Item)) → count p (worn os) ≡ count_worn p os
count-worn p [] = refl
count-worn p (none ∷ os) = omega (arith, count-worn p os)
count-worn p (some i ∷ os) = omega (arith, count-worn p os)

abbrev pub total : (Item → Bool) → Character → ℕ
total p c = count p c.inventory + count_worn p (slots c.equipment)

pub count-owned : (p : Item → Bool) (c : Character) → count p (owned c) ≡ total p c
unfolding owned
count-owned p c =
    omega (
      arith,
      count-append p c.inventory (worn (slots c.equipment)),
      count-worn p (slots c.equipment),
    )

pub count-put_slot :
    (p : Item → Bool) (s : SlotKey) (i : Option Item) (e : EquipmentSlots)
    → count_worn p (slots (put_slot s i e)) + count_in p (slot_at s e)
      ≡ count_worn p (slots e) + count_in p i
unfolding put_slot slot_at
count-put_slot p weapon i e = omega arith
count-put_slot p offhand i e = omega arith
count-put_slot p helmet i e = omega arith
count-put_slot p chest i e = omega arith
count-put_slot p gloves i e = omega arith
count-put_slot p boots i e = omega arith
count-put_slot p belt i e = omega arith
count-put_slot p ring1 i e = omega arith
count-put_slot p ring2 i e = omega arith
count-put_slot p necklace i e = omega arith
count-put_slot p ring3 i e = omega arith
count-put_slot p pants i e = omega arith
count-put_slot p bracelets i e = omega arith

count-pushed_back :
    (p : Item → Bool) (o : Option Item) (is : List Item)
    → count p (pushed_back o is) ≡ count p is + count_in p o
count-pushed_back p none is = omega arith
count-pushed_back p (some i) is = omega (arith, count-append p is (i ∷ []))

pub count-splice_one :
    (p : Item → Bool) (n : ℕ) (is : List Item)
    → count p (splice_one n is) + count_in p (get_elem? is n) ≡ count p is
unfolding splice_one
count-splice_one p n [] = omega arith
count-splice_one p zero (i ∷ is) = omega arith
count-splice_one p (suc n) (i ∷ is) = omega (arith, count-splice_one p n is)

total-equip_in :
    (p : Item → Bool) (id : Text) (item : Item) (slot : SlotKey) (c : Character)
    → Found id item c.inventory
    → total p (equip_in id item (some slot) c).0 ≡ total p c
total-equip_in p id item slot c f =
    let held = pushed_back (slot_at slot c.equipment) c.inventory in
    let g = pushed_back-Found id item (slot_at slot c.equipment) c.inventory f in
    rw g.found (
      omega (
        arith,
        count-put_slot p slot (some item) c.equipment,
        count-splice_one p g.place held,
        count-pushed_back p (slot_at slot c.equipment) c.inventory,
        ap (count_in p) g.holds,
      ))

total-ring_slot :
    (p : Item → Bool) (r1 r2 : Option Item) (c : Character)
    → c.equipment.ring1 ≡ r1
    → total p (ring_slot r1 r2 c).0 ≡ total p c
unfolding slot_at
total-ring_slot p none r2 c e = refl
total-ring_slot p (some old) none c e = refl
total-ring_slot p (some old) (some r2) c e = omega (
  arith,
  count-append p c.inventory (old ∷ []),
  count-put_slot p ring1 none c.equipment,
  ap (count_in p) e,
)

total-slot_for :
    (p : Item → Bool) (item : Item) (c : Character) → total p (slot_for item c).0 ≡ total p c
total-slot_for p item c = elim (Bool-cases (item.item_type == 8)) [
  | inl e ↦ rw e (total-ring_slot p c.equipment.ring1 c.equipment.ring2 c refl)
  | inr e ↦ rw e refl
]

total-equip_item_of :
    (p : Item → Bool) (id : Text) (item : Item) (c : Character)
    → Found id item c.inventory
    → total p (equip_item_of id (some item) c).0 ≡ total p c
total-equip_item_of p id item c f = elim (Bool-cases (ltb c.level item.level_req)) [
  | inl e ↦ rw e refl
  | inr e ↦ rw e (elim (Option-cases (slot_for item c).1) [
    | inl n ↦ rw n (total-slot_for p item c)
    | inr (slot, n) ↦ rw n (
        total-equip_in p id item slot (slot_for item c).0 (slot_for-Found id item c f)
        ∙ total-slot_for p item c)
  ])
]

total-equip_character :
    (p : Item → Bool) (id : Text) (c : Character) → total p (equip_character id c).0 ≡ total p c
unfolding equip_character
total-equip_character p id c = elim (find-cases id c.inventory) [
  | inl e ↦ rw e refl
  | inr (item, e, f) ↦ rw e (total-equip_item_of p id item c f)
]

total-unequip_found :
    (p : Item → Bool) (slot : SlotKey) (o : Option Item) (c : Character)
    → slot_at slot c.equipment ≡ o
    → total p (unequip_found slot o c).0 ≡ total p c
total-unequip_found p slot none c e = refl
total-unequip_found p slot (some item) c e = omega (
  arith,
  count-append p c.inventory (item ∷ []),
  count-put_slot p slot none c.equipment,
  ap (count_in p) e,
)

pub holdings_of_total :
    (c d : Character) → ((p : Item → Bool) → total p c ≡ total p d) → holdings c ≡ holdings d
unfolding holdings
holdings_of_total c d h = Quot.sound (λ p. count-owned p c ∙ h p ∙ sym (count-owned p d))

-- For any character, whatever its items are: `equipItem`, with any item id, and `unequipItem`, with
-- any slot, leave the character with the same bag of items, counting those carried and those worn,
-- also where they fail or swap a worn item out.
pub moves-holdings :
    (item_id : Text) (slot : SlotKey) (c : Character)
    → (holdings (equip_character item_id c).0 ≡ holdings c)
      × (holdings (unequip_character slot c).0 ≡ holdings c)
unfolding unequip_character
moves-holdings item_id slot c = (
  holdings_of_total _ c (λ p. total-equip_character p item_id c),
  holdings_of_total _ c (λ p. total-unequip_found p slot (slot_at slot c.equipment) c refl),
)
