-- ===== src/Characters/Restore.antt =====
-- server/src/data/characters.ts: `restoreCharacterFromDb`, in the three parts between its two waits
-- for the database. The row and the items that the database gives are arguments.
use sui_comabts.Prelude.{
  ℕ, ◌+◌, ◌-◌, ◌*◌, ◌&&◌, List, [], ◌∷◌, Option, none, some, Text, ltb, ◌==◌, if◌then◌else◌,
  or_else,
}
use sui_comabts.Config.{starting_stat_points, stat_points_per_level}
use sui_comabts.Combat.Stats.{CharacterStats, Item, EquipmentSlots}
use sui_comabts.Characters.{
  Character, Characters, empty_equipment, add_character, total_stats, get_character_by_wallet,
}
use sui_comabts.Characters.Items.{SlotKey, put_slot}

-- `DbCharacter`
pub record DbCharacter : Type 0 where
  pub name : Text
  pub stats : CharacterStats
  pub level : ℕ
  pub xp : ℕ
  pub gold : ℕ
  pub rating : ℕ
  pub wins : ℕ
  pub losses : ℕ
  pub draws : Option ℕ
  pub unallocated_points : Option ℕ
  pub onchain_character_id : Option Text
  pub created_at : ℕ

unfoldable pub character_of_row : Text → Text → DbCharacter → Character
character_of_row id wallet row = record {
  id = id;
  name = row.name;
  level = row.level;
  xp = row.xp;
  wallet_address = wallet;
  on_chain_object_id = row.onchain_character_id;
  stats = row.stats;
  equipment = empty_equipment;
  inventory = [];
  gold = row.gold;
  wins = row.wins;
  losses = row.losses;
  draws = or_else row.draws 0;
  rating = row.rating;
  unallocated_points = or_else row.unallocated_points 0;
  fight_history = [];
  created_at = row.created_at;
}

-- `totalPossible - allocated`, or 0.
unfoldable pub retroactive : Character → ℕ
retroactive c = starting_stat_points + (c.level - 1) * stat_points_per_level - total_stats c.stats

unfoldable pub with_points : Character → Character
with_points c =
    if (c.unallocated_points == 0) && ltb 1 c.level
    then record c { unallocated_points = retroactive c }
    else c

-- The slots that the database lists, in order, those without an item left out.
abbrev pub wear_all : List (SlotKey × Option Item) → EquipmentSlots → EquipmentSlots
wear_all [] e = e
wear_all ((slot, none) ∷ rest) e = wear_all rest e
wear_all ((slot, some item) ∷ rest) e = wear_all rest (put_slot slot (some item) e)

unfoldable pub with_items : List Item → List (SlotKey × Option Item) → Character → Character
with_items inventory worn c = record c {
  inventory = inventory;
  equipment = wear_all worn c.equipment;
}

-- A call that is over, with its result, or that waits for the items of a character.
pub data Restore : Type 0 where
  over : Option Character → Restore
  waits : Character → Restore

abbrev pub unless_there : Option Character → Restore → Restore
unless_there none r = r
unless_there (some c) r = over (some c)

-- Once the row is loaded: the store may have the character by now.
unfoldable pub row_loaded : Text → Text → Option DbCharacter → Characters → Restore
row_loaded id wallet none s = over none
row_loaded id wallet (some row) s =
    unless_there (get_character_by_wallet wallet s)
      (waits (with_points (character_of_row id wallet row)))

-- Once the items are loaded.
unfoldable pub items_loaded :
    List Item → List (SlotKey × Option Item) → Character → Characters → Characters × Character
items_loaded inventory worn c s =
    let full = with_items inventory worn c in (add_character full s, full)
