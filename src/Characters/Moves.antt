-- ===== src/Characters/Moves.antt =====
-- server/src/data/characters.ts: what `equipItem` does in each of its cases.
use sui_comabts.Prelude.{
  ℕ, ◌≤◌, ◌<◌, ◌≡◌, ◌≢◌, ◌⊎◌, inl, inr, refl, true, false, Option, none, some, arith, Text, units,
  ◌==◌, ltb, Option-cases, Bool-cases, ℕ_discrete,
}
use sui_comabts.Combat.Stats.{Item}
use sui_comabts.Characters.{Character}
use sui_comabts.Characters.Items.{
  SlotKey, weapon, offhand, helmet, chest, gloves, boots, belt, ring1, ring2, necklace, ring3,
  pants, bracelets, slot_at, put_slot, find_item, splice_one, equip_character, done, failed,
  pushed_back, slot_for, ring_slot, equip_in, item_of, get_equip_slot_key,
}
use sui_comabts.Characters.Found.{Found, find-cases, find_item-pushed_back}

-- The slots that a type of item may take.
abbrev pub Fits : SlotKey → ℕ → Type 0
Fits weapon n = n ≡ 1
Fits offhand n = n ≡ 2
Fits helmet n = n ≡ 3
Fits chest n = n ≡ 4
Fits gloves n = n ≡ 5
Fits boots n = n ≡ 6
Fits belt n = n ≡ 7
Fits ring1 n = n ≡ 8
Fits ring2 n = n ≡ 8
Fits necklace n = n ≡ 9
Fits _ n = ⊥

slot-Fits : (n : ℕ) (slot : SlotKey) → get_equip_slot_key n ≡ some slot → Fits slot n
unfolding get_equip_slot_key
slot-Fits n weapon e = ground (arith, e)
slot-Fits n offhand e = ground (arith, e)
slot-Fits n helmet e = ground (arith, e)
slot-Fits n chest e = ground (arith, e)
slot-Fits n gloves e = ground (arith, e)
slot-Fits n boots e = ground (arith, e)
slot-Fits n belt e = ground (arith, e)
slot-Fits n ring1 e = ground (arith, e)
slot-Fits n ring2 e = ground (arith, e)
slot-Fits n necklace e = ground (arith, e)
slot-Fits n ring3 e = ground (arith, e)
slot-Fits n pants e = ground (arith, e)
slot-Fits n bracelets e = ground (arith, e)

ring-Fits : (slot : SlotKey) → (slot ≡ ring1) ⊎ (slot ≡ ring2) → (n : ℕ) → n ≡ 8 → Fits slot n
ring-Fits slot (inl q) n e = rw q e
ring-Fits slot (inr q) n e = rw q e

-- Neither a ring nor of a type that has a slot.
abbrev pub HasNoSlot : ℕ → Type 0
HasNoSlot n = (n ≡ 0) ⊎ (9 < n)

none-HasNoSlot : (n : ℕ) → n ≢ 8 → get_equip_slot_key n ≡ none → HasNoSlot n
unfolding get_equip_slot_key
none-HasNoSlot n r e = ground (arith, r, e)

-- The three reasons for which nothing happens, with the error of each.
abbrev pub Refused : Text → Character → Text → Type 0
Refused id c e =
    ((item_of (find_item id c.inventory) c.inventory ≡ none) × (e ≡ units "Item not in inventory"))
    ⊎ ((item : Item) × Found id item c.inventory
        × (c.level < item.level_req)
        × (e ≡ units "Requires level"))
    ⊎ ((item : Item) × Found id item c.inventory
        × (item.level_req ≤ c.level)
        × (item.item_type ≢ 8)
        × (get_equip_slot_key item.item_type ≡ none)
        × HasNoSlot item.item_type
        × (e ≡ units "Invalid item type"))

-- The character wearing the item, with what the slot held behind the rest of the inventory.
abbrev pub wearing : Item → SlotKey → ℕ → Character → Character
wearing item slot n c = record c {
  equipment = put_slot slot (some item) c.equipment;
  inventory = splice_one n (pushed_back (slot_at slot c.equipment) c.inventory);
}

Worn : Text → Item → Character → Type 0
Worn id item c =
    (slot : SlotKey) × (f : Found id item c.inventory) × Fits slot item.item_type
    × (equip_in id item (slot_for item c).1 (slot_for item c).0
        ≡ (wearing item slot f.place c, done))

equip_in-wearing :
    (id : Text) (item : Item) (slot : SlotKey) (c : Character) (f : Found id item c.inventory)
    → equip_in id item (some slot) c ≡ (wearing item slot f.place c, done)
equip_in-wearing id item slot c f =
    rw (find_item-pushed_back id (slot_at slot c.equipment) c.inventory f.place f.found) refl

Worn-ring :
    (id : Text) (item : Item) (r1 r2 : Option Item) (c : Character)
    → c.equipment.ring1 ≡ r1
    → Found id item c.inventory
    → (slot : SlotKey) × (f : Found id item c.inventory) × ((slot ≡ ring1) ⊎ (slot ≡ ring2))
      × (equip_in id item (ring_slot r1 r2 c).1 (ring_slot r1 r2 c).0
          ≡ (wearing item slot f.place c, done))
unfolding slot_at put_slot
Worn-ring id item none r2 c e f = (ring1, f, inl refl, equip_in-wearing id item ring1 c f)
Worn-ring id item (some old) none c e f = (ring2, f, inr refl, equip_in-wearing id item ring2 c f)
Worn-ring id item (some old) (some r2) c e f = (
  ring1,
  f,
  inl refl,
  rw (e, find_item-pushed_back id (some old) c.inventory f.place f.found) refl,
)

==_of : {n m : ℕ} → n ≡ m → (n == m) ≡ true
==_of e = ground (arith, e)

==_of_ne : {n m : ℕ} → n ≢ m → (n == m) ≡ false
==_of_ne e = ground (arith, e)

Worn-slot_for :
    (id : Text) (item : Item) (c : Character)
    → Found id item c.inventory
    → Worn id item c ⊎ ((item.item_type ≢ 8) × (get_equip_slot_key item.item_type ≡ none))
unfolding Worn
Worn-slot_for id item c f = elim (ℕ_discrete item.item_type 8) [
  | yes e ↦
      let (slot, g, r, w) = Worn-ring id item c.equipment.ring1 c.equipment.ring2 c refl f in
      inl (slot, g, ring-Fits slot r item.item_type e, rw (==_of e) w)
  | no n ↦ elim (Option-cases (get_equip_slot_key item.item_type)) [
    | inl q ↦ inr (n, q)
    | inr (slot, q) ↦ inl (
      slot,
      f,
      slot-Fits item.item_type slot q,
      rw (==_of_ne n, q) (equip_in-wearing id item slot c f),
    )
  ]
]

-- `equipItem`, on any character and item id, does one of two things. It fails and changes nothing:
-- as the inventory has no item with the id, or else the first such item needs a higher level, or else
-- it is no ring and its type has no slot; the error is that of the reason. Or it succeeds with the
-- first such item, which the level allows: the item is in a slot of its type, no longer at its place
-- in the inventory; what the slot held is the last of the inventory; nothing else changes.
pub equip_character-cases :
    (id : Text) (c : Character)
    → ((e : Text) × Refused id c e × (equip_character id c ≡ (c, failed e)))
      ⊎ ((item : Item) × (slot : SlotKey) × (f : Found id item c.inventory) × (item.level_req
            ≤ c.level)
          × Fits slot item.item_type
          × (equip_character id c ≡ (wearing item slot f.place c, done)))
unfolding equip_character Worn
equip_character-cases id c = elim (find-cases id c.inventory) [
  | inl e ↦ inl (units "Item not in inventory", inl (e, refl), rw e refl)
  | inr (item, e, f) ↦ elim (Bool-cases (ltb c.level item.level_req)) [
    | inl q ↦
        inl (units "Requires level", inr (inl (item, f, ground (arith, q), refl)), rw e (rw q refl))
    | inr q ↦ elim (Worn-slot_for id item c f) [
      | inl (slot, g, fits, w) ↦ inr (item, slot, g, ground (arith, q), fits, rw e (rw q w))
      | inr (n, k) ↦ inl (
        units "Invalid item type",
        inr (inr (item, f, ground (arith, q), n, k, none-HasNoSlot item.item_type n k, refl)),
        rw e (rw q (rw (==_of_ne n, k) refl)),
      )
    ]
  ]
]
