-- ===== src/Characters/Items.antt =====
-- server/src/data/characters.ts: what a character carries and wears, and the record of its fights.
-- A position that `findIndex` gives is `none` for -1.
use sui_comabts.Prelude.{
  ℕ, zero, suc, ◌+◌, Bool, true, false, List, [], ◌∷◌, ◌++◌, Option, none, some, Text, units, ltb,
  ◌==◌, ◌===◌, if◌then◌else◌, get_elem?, length, get, set,
}
use sui_comabts.Combat.Stats.{Item, EquipmentSlots}
use sui_comabts.Characters.{Character, FightHistoryEntry, Characters}

-- `keyof EquipmentSlots`
pub data SlotKey : Type 0 where
  weapon offhand helmet chest gloves boots belt ring1 ring2 necklace ring3 pants bracelets : SlotKey

-- `equipment[slot]`
unfoldable pub slot_at : SlotKey → EquipmentSlots → Option Item
slot_at weapon e = e.weapon
slot_at offhand e = e.offhand
slot_at helmet e = e.helmet
slot_at chest e = e.chest
slot_at gloves e = e.gloves
slot_at boots e = e.boots
slot_at belt e = e.belt
slot_at ring1 e = e.ring1
slot_at ring2 e = e.ring2
slot_at necklace e = e.necklace
slot_at ring3 e = e.ring3
slot_at pants e = e.pants
slot_at bracelets e = e.bracelets

-- `equipment[slot] = item`
unfoldable pub put_slot : SlotKey → Option Item → EquipmentSlots → EquipmentSlots
put_slot weapon i e = record e { weapon = i }
put_slot offhand i e = record e { offhand = i }
put_slot helmet i e = record e { helmet = i }
put_slot chest i e = record e { chest = i }
put_slot gloves i e = record e { gloves = i }
put_slot boots i e = record e { boots = i }
put_slot belt i e = record e { belt = i }
put_slot ring1 i e = record e { ring1 = i }
put_slot ring2 i e = record e { ring2 = i }
put_slot necklace i e = record e { necklace = i }
put_slot ring3 i e = record e { ring3 = i }
put_slot pants i e = record e { pants = i }
put_slot bracelets i e = record e { bracelets = i }

abbrev pub later : Option ℕ → Option ℕ
later none = none
later (some n) = some (n + 1)

-- `findIndex` of the item with an id.
unfoldable pub find_item : Text → List Item → Option ℕ
find_item id [] = none
find_item id (i ∷ is) = let rest = find_item id is in if i.id === id then some 0 else later rest

-- `splice(idx, 1)`
unfoldable pub splice_one : ℕ → List Item → List Item
splice_one n [] = []
splice_one zero (i ∷ is) = is
splice_one (suc n) (i ∷ is) = i ∷ splice_one n is

abbrev pub put_character : Text → Character → Characters → Characters
put_character id c s = record s { characters = set id c s.characters }

abbrev pub push_item : Text → Item → Option Character → Characters → Characters × Bool
push_item id item none s = (s, false)
push_item id item (some c) s =
    (put_character id (record c { inventory = c.inventory ++ item ∷ [] }) s, true)

unfoldable pub add_to_inventory : Text → Item → Characters → Characters × Bool
add_to_inventory id item s = push_item id item (get id s.characters) s

-- The item at a position, and the character without it.
abbrev pub taken_at : ℕ → Character → Character × Option Item
taken_at n c = (record c { inventory = splice_one n c.inventory }, get_elem? c.inventory n)

abbrev pub take_found : Text → Option ℕ → Character → Characters → Characters × Option Item
take_found id none c s = (s, none)
take_found id (some n) c s = (put_character id (taken_at n c).0 s, (taken_at n c).1)

abbrev pub take_item : Text → Text → Option Character → Characters → Characters × Option Item
take_item id item_id none s = (s, none)
take_item id item_id (some c) s = take_found id (find_item item_id c.inventory) c s

unfoldable pub remove_from_inventory : Text → Text → Characters → Characters × Option Item
remove_from_inventory id item_id s = take_item id item_id (get id s.characters) s

unfoldable pub get_equip_slot_key : ℕ → Option SlotKey
get_equip_slot_key n =
    if n == 1
    then some weapon
    else if n == 2
    then some offhand
    else if n == 3
    then some helmet
    else if n == 4
    then some chest
    else if n == 5
    then some gloves
    else if n == 6
    then some boots
    else if n == 7
    then some belt
    else if n == 9
    then some necklace
    else none

-- `{ success, error }`
pub data Outcome : Type 0 where
  done : Outcome
  failed : Text → Outcome

-- The existing item, if any, goes to the end of the inventory.
abbrev pub pushed_back : Option Item → List Item → List Item
pushed_back none is = is
pushed_back (some old) is = is ++ old ∷ []

-- The slot of a ring, and the character after a worn one is swapped out if both are taken.
abbrev pub ring_slot : Option Item → Option Item → Character → Character × Option SlotKey
ring_slot none r2 c = (c, some ring1)
ring_slot (some old) none c = (c, some ring2)
ring_slot (some old) (some r2) c = (
  record c { equipment = put_slot ring1 none c.equipment; inventory = c.inventory ++ old ∷ [] },
  some ring1,
)

abbrev pub slot_for : Item → Character → Character × Option SlotKey
slot_for item c =
    if item.item_type == 8
    then ring_slot c.equipment.ring1 c.equipment.ring2 c
    else (c, get_equip_slot_key item.item_type)

-- The item moves from where `findIndex` finds it into the slot.
abbrev pub equip_found : Item → SlotKey → Option ℕ → Character → Character × Outcome
equip_found item slot none c = (c, failed (units "Item not in inventory"))
equip_found item slot (some n) c = (
  record c {
    equipment = put_slot slot (some item) c.equipment;
    inventory = splice_one n c.inventory;
  },
  done,
)

abbrev pub equip_in : Text → Item → Option SlotKey → Character → Character × Outcome
equip_in item_id item none c = (c, failed (units "Invalid item type"))
equip_in item_id item (some slot) c =
    let held = pushed_back (slot_at slot c.equipment) c.inventory in
    equip_found item slot (find_item item_id held) (record c { inventory = held })

abbrev pub equip_item_of : Text → Option Item → Character → Character × Outcome
equip_item_of item_id none c = (c, failed (units "Item not in inventory"))
equip_item_of item_id (some item) c =
    if ltb c.level item.level_req
    then (c, failed (units "Requires level"))
    else let at = slot_for item c in equip_in item_id item at.1 at.0

abbrev pub item_of : Option ℕ → List Item → Option Item
item_of none is = none
item_of (some n) is = get_elem? is n

-- What `equipItem` and `unequipItem` do to a character.
unfoldable pub equip_character : Text → Character → Character × Outcome
equip_character item_id c =
    equip_item_of item_id (item_of (find_item item_id c.inventory) c.inventory) c

abbrev pub unequip_found : SlotKey → Option Item → Character → Character × Outcome
unequip_found slot none c = (c, failed (units "No item in that slot"))
unequip_found slot (some item) c = (
  record c { equipment = put_slot slot none c.equipment; inventory = c.inventory ++ item ∷ [] },
  done,
)

unfoldable pub unequip_character : SlotKey → Character → Character × Outcome
unequip_character slot c = unequip_found slot (slot_at slot c.equipment) c

abbrev pub on_character :
    Text → (Character → Character × Outcome) → Option Character → Characters → Characters × Outcome
on_character id f none s = (s, failed (units "Character not found"))
on_character id f (some c) s = (put_character id (f c).0 s, (f c).1)

unfoldable pub equip_item : Text → Text → Characters → Characters × Outcome
equip_item id item_id s = on_character id (equip_character item_id) (get id s.characters) s

unfoldable pub unequip_item : Text → SlotKey → Characters → Characters × Outcome
unequip_item id slot s = on_character id (unequip_character slot) (get id s.characters) s

abbrev pub all_but_last {ℓ} : {A : Type ℓ} → A → List A → List A
all_but_last x [] = []
all_but_last x (y ∷ ys) = x ∷ all_but_last y ys

-- The newest entry first, and at most 50.
unfoldable pub newest_first {ℓ} : {A : Type ℓ} → A → List A → List A
newest_first x xs = if ltb 50 (length (x ∷ xs)) then all_but_last x xs else x ∷ xs

abbrev pub recorded :
    Text → FightHistoryEntry → Option (List FightHistoryEntry) → Characters → Characters
recorded id entry none s = s
recorded id entry (some h) s = record s {
  fight_histories = set id (newest_first entry h) s.fight_histories;
}

abbrev pub listed : Text → Text → Option Character → Characters → Characters
listed id fight_id none s = s
listed id fight_id (some c) s =
    put_character id (record c { fight_history = newest_first fight_id c.fight_history }) s

unfoldable pub add_fight_history : Text → FightHistoryEntry → Characters → Characters
add_fight_history id entry s =
    let once = recorded id entry (get id s.fight_histories) s in
    listed id entry.fight_id (get id once.characters) once
