-- ===== src/Combat/Stats.antt =====
-- server/src/game/combat.ts: equipment bonuses, the offhand, and the stats derived for a fight.
-- Bonuses are the chain's unsigned numbers. Fractions are kept exact: attack power and the critical
-- multiplier in hundredths, chances (in percent) and defense in tenths.
pub mod Bounds
use sui_comabts.Prelude.{
  ℕ, ◌+◌, ◌-◌, ◌*◌, ◌/◌, List, [], ◌∷◌, Option, none, some, Bool, true, false, ltb, ◌==◌,
  if◌then◌else◌, Text, get_elem?, or_else, min, max,
}
use sui_comabts.Config.{level_hp, level_weapon_damage, hp_per_endurance}
use sui_comabts.Combat.Zones.{OffhandType, shield, dual_wield, empty_offhand}

pub record CharacterStats : Type 0 where
  pub strength : ℕ
  pub dexterity : ℕ
  pub intuition : ℕ
  pub endurance : ℕ

-- The optional bonuses of an item, as natural numbers.
pub record StatBonuses : Type 0 where
  pub strength : Option ℕ
  pub dexterity : Option ℕ
  pub intuition : Option ℕ
  pub endurance : Option ℕ
  pub hp : Option ℕ
  pub armor : Option ℕ
  pub defense : Option ℕ
  pub crit_bonus : Option ℕ
  pub damage : Option ℕ

pub record Item : Type 0 where
  pub id : Text
  pub name : Text
  pub item_type : ℕ
  pub level_req : ℕ
  pub stat_bonuses : StatBonuses
  pub min_damage : Option ℕ
  pub max_damage : Option ℕ
  pub offhand_type : Option OffhandType

pub record EquipmentSlots : Type 0 where
  pub weapon : Option Item
  pub offhand : Option Item
  pub helmet : Option Item
  pub chest : Option Item
  pub gloves : Option Item
  pub boots : Option Item
  pub belt : Option Item
  pub ring1 : Option Item
  pub ring2 : Option Item
  pub necklace : Option Item
  pub ring3 : Option Item
  pub pants : Option Item
  pub bracelets : Option Item

-- The array `slots`.
abbrev pub slots : EquipmentSlots → List (Option Item)
slots e =
    e.weapon ∷ e.offhand ∷ e.helmet ∷ e.chest ∷ e.gloves ∷ e.boots ∷ e.belt ∷ e.ring1 ∷ e.ring2
    ∷ e.necklace ∷ e.ring3 ∷ e.pants ∷ e.bracelets ∷ []

pub record EquipmentBonuses : Type 0 where
  pub hp_bonus : ℕ
  pub armor_total : ℕ
  pub defense_bonus : ℕ
  pub crit_bonus : ℕ
  pub damage_bonus : ℕ
  pub strength_bonus : ℕ
  pub dexterity_bonus : ℕ
  pub intuition_bonus : ℕ
  pub endurance_bonus : ℕ
  pub weapon_min_damage : ℕ
  pub weapon_max_damage : ℕ

abbrev pub no_bonuses : EquipmentBonuses
no_bonuses = record {
  hp_bonus = 0;
  armor_total = 0;
  defense_bonus = 0;
  crit_bonus = 0;
  damage_bonus = 0;
  strength_bonus = 0;
  dexterity_bonus = 0;
  intuition_bonus = 0;
  endurance_bonus = 0;
  weapon_min_damage = 0;
  weapon_max_damage = 0;
}

-- One round of the loop over the slots; an empty slot is skipped.
unfoldable pub add_item : EquipmentBonuses → Option Item → EquipmentBonuses
add_item t none = t
add_item t (some item) =
    let b = item.stat_bonuses in
    record t {
      hp_bonus = t.hp_bonus + or_else b.hp 0;
      armor_total = t.armor_total + or_else b.armor 0;
      defense_bonus = t.defense_bonus + or_else b.defense 0;
      crit_bonus = t.crit_bonus + or_else b.crit_bonus 0;
      damage_bonus = t.damage_bonus + or_else b.damage 0;
      strength_bonus = t.strength_bonus + or_else b.strength 0;
      dexterity_bonus = t.dexterity_bonus + or_else b.dexterity 0;
      intuition_bonus = t.intuition_bonus + or_else b.intuition 0;
      endurance_bonus = t.endurance_bonus + or_else b.endurance 0;
    }

unfoldable pub add_items : EquipmentBonuses → List (Option Item) → EquipmentBonuses
add_items t [] = t
add_items t (s ∷ ss) = add_items (add_item t s) ss

abbrev pub weapon_damage : Option Item → EquipmentBonuses → EquipmentBonuses
weapon_damage none t = t
weapon_damage (some w) t = record t {
  weapon_min_damage = or_else w.min_damage 0;
  weapon_max_damage = or_else w.max_damage 0;
}

unfoldable pub get_equipment_bonuses : EquipmentSlots → EquipmentBonuses
get_equipment_bonuses e = weapon_damage e.weapon (add_items no_bonuses (slots e))

-- The item type decides where no label does: 2 is a shield, 1 a weapon in the offhand.
abbrev pub offhand_of_type : ℕ → OffhandType
offhand_of_type t = if t == 2 then shield else if t == 1 then dual_wield else empty_offhand

abbrev pub offhand_of_label : Option OffhandType → ℕ → OffhandType
offhand_of_label none t = offhand_of_type t
offhand_of_label (some shield) t = shield
offhand_of_label (some dual_wield) t = dual_wield
offhand_of_label (some empty_offhand) t = offhand_of_type t

abbrev pub offhand_of_item : Option Item → OffhandType
offhand_of_item none = empty_offhand
offhand_of_item (some off) = offhand_of_label off.offhand_type off.item_type

unfoldable pub get_offhand_type : EquipmentSlots → OffhandType
get_offhand_type e = offhand_of_item e.offhand

pub record DerivedStats : Type 0 where
  pub max_hp : ℕ
  pub attack_power : ℕ  -- hundredths
  pub crit_chance : ℕ  -- tenths of a percent
  pub crit_multiplier : ℕ  -- hundredths
  pub evasion_chance : ℕ  -- tenths of a percent
  pub armor : ℕ
  pub defense : ℕ  -- tenths

-- `table[level] || d`: a missing entry and 0 both give the default.
abbrev pub or_default : Option ℕ → ℕ → ℕ
or_default none d = d
or_default (some n) d = if n == 0 then d else n

-- The optional stats and equipment of the opponent.
abbrev pub opponent_stat :
    (CharacterStats → ℕ)
    → (EquipmentBonuses → ℕ)
    → Option CharacterStats
    → Option EquipmentSlots
    → ℕ
opponent_stat stat bonus none equipment = 0
opponent_stat stat bonus (some s) none = stat s
opponent_stat stat bonus (some s) (some e) = stat s + bonus (get_equipment_bonuses e)

-- `deriveCombatStats`. A difference that would be negative is 0 after the source's
-- `Math.max(0, ...)`, as it is on the natural numbers.
unfoldable pub derive_combat_stats :
    CharacterStats
    → EquipmentSlots
    → ℕ
    → Option CharacterStats
    → Option EquipmentSlots
    → DerivedStats
derive_combat_stats stats equipment level opp_stats opp_equipment =
    let equip = get_equipment_bonuses equipment in
    let str = stats.strength + equip.strength_bonus in
    let dex = stats.dexterity + equip.dexterity_bonus in
    let int = stats.intuition + equip.intuition_bonus in
    let end = stats.endurance + equip.endurance_bonus in
    let anti_crit =
      opponent_stat CharacterStats.endurance EquipmentBonuses.endurance_bonus opp_stats
        opp_equipment in
    let anti_evasion =
      opponent_stat CharacterStats.strength EquipmentBonuses.strength_bonus opp_stats
        opp_equipment in
    record {
      max_hp =
          max 1
            (or_default (get_elem? level_hp level) 40 + end * hp_per_endurance + equip.hp_bonus);
      attack_power =
          or_default (get_elem? level_weapon_damage level) 6 * 100
          + (if ltb 0 equip.weapon_min_damage
              then (equip.weapon_min_damage + equip.weapon_max_damage) * 50
              else 0)
          + str * 50
          + dex * 15
          + equip.damage_bonus * 100;
      crit_chance = min 250 (int * 5 - anti_crit * 3);
      crit_multiplier = 150 + int * 1 + equip.crit_bonus * 100;
      evasion_chance = min 300 (dex * 5 - anti_evasion * 3);
      armor = equip.armor_total;
      defense = end * 3 + equip.defense_bonus * 10;
    }
