-- ===== src/Combat/Stats/Bounds.antt =====
-- server/src/game/combat.ts: the ranges of the derived stats and what the opponent changes.
use sui_comabts.Prelude.{ℕ, ◌+◌, ◌≤◌, ◌≡◌, refl, some, arith}
use sui_comabts.Combat.Stats.{
  CharacterStats, EquipmentSlots, get_equipment_bonuses, derive_combat_stats,
}

-- Whatever the character, its equipment and its level: at least one hit point, a critical chance of
-- at most 25 percent and an evasion chance of at most 30. Against an opponent with at least as much
-- strength and endurance, equipment included, neither chance is higher and nothing else changes.
pub derive_combat_stats_bounds :
    (s : CharacterStats) (e : EquipmentSlots) (level : ℕ) (o o' : CharacterStats)
    (f f' : EquipmentSlots)
    → o.endurance + (get_equipment_bonuses f).endurance_bonus
      ≤ o'.endurance + (get_equipment_bonuses f').endurance_bonus
    → o.strength + (get_equipment_bonuses f).strength_bonus
      ≤ o'.strength + (get_equipment_bonuses f').strength_bonus
    → let d = derive_combat_stats s e level (some o) (some f) in
      let d' = derive_combat_stats s e level (some o') (some f') in
      (1 ≤ d.max_hp)
      × (d.crit_chance ≤ 250)
      × (d.evasion_chance ≤ 300)
      × (d'.crit_chance ≤ d.crit_chance)
      × (d'.evasion_chance ≤ d.evasion_chance)
      × (d' ≡ record d { crit_chance = d'.crit_chance; evasion_chance = d'.evasion_chance })
unfolding derive_combat_stats
derive_combat_stats_bounds s e level o o' f f' h k =
    (omega arith, omega arith, omega arith, omega arith, omega arith, refl)
