-- ===== src/Combat/Examples.antt =====
-- Runs of the combat rules at concrete fighters.
use sui_comabts.Prelude.{◌%◌, ◌≤◌, ◌<◌, ◌≡◌, ◌↔◌, refl, true, [], ◌∷◌, none, some, arith, units}
use sui_comabts.Types.{wager}
use sui_comabts.Combat.Zones.{
  head, chest, stomach, legs, Zone-discrete, TurnAction, shield, empty_offhand, not_adjacent,
  validate_turn_action, validate_lines, is_valid_block_line, is_valid_shield_line, distinct_count,
  attack_slots, block_slots, generate_random_action,
}
use sui_comabts.Combat.Zones.Legal.{IsLegal, validate_turn_action-IsLegal}
use sui_comabts.Combat.Zones.Random.{generate_random_action_valid}
use sui_comabts.Combat.Stats.{
  CharacterStats, EquipmentSlots, DerivedStats, get_equipment_bonuses, derive_combat_stats,
  add_items, add_item,
}
use sui_comabts.Combat.Stats.Bounds.{derive_combat_stats_bounds}
use sui_comabts.Combat.Turn.{
  Rolls, FighterState, resolve_attack, landed_damage, resolve_turn, resolve_attacks,
  check_fight_end, unfinished,
}
use sui_comabts.Combat.Turn.Damage.{resolve_attack_lem}
use sui_comabts.Combat.Turn.Outcome.{resolve_turn_lem, check_fight_end_lem}
use sui_comabts.Combat.Xp.{Progress, xp_for_level, apply_xp, level_up, calculate_xp_reward}
use sui_comabts.Combat.Xp.Levels.{Earned, apply_xp_lem}
use sui_comabts.Combat.Xp.Reward.{calculate_xp_reward-band}

abbrev swing : TurnAction
swing = record { attack_zones = head ∷ []; block_zones = legs ∷ head ∷ [] }

abbrev split : TurnAction
split = record { attack_zones = head ∷ []; block_zones = head ∷ stomach ∷ [] }

split_refused : validate_turn_action split empty_offhand ≡ some not_adjacent
unfolding validate_turn_action validate_lines is_valid_block_line is_valid_shield_line
    distinct_count attack_slots block_slots Zone-discrete
split_refused = refl

swing_accepted : validate_turn_action swing empty_offhand ≡ none
unfolding attack_slots block_slots Zone-discrete
swing_accepted =
    (validate_turn_action-IsLegal swing empty_offhand).1
      (refl, (refl, tt), (refl, (refl, tt)), (refl, 4, omega arith, (refl, (refl, tt))))

validate_turn_action-IsLegal_example :
    (validate_turn_action swing empty_offhand ≡ none) ↔ IsLegal swing empty_offhand
validate_turn_action-IsLegal_example = validate_turn_action-IsLegal swing empty_offhand

generate_random_action_valid_example :
    validate_turn_action (generate_random_action shield (λ k. k % 5)) shield ≡ none
generate_random_action_valid_example =
    generate_random_action_valid shield (λ k. k % 5) (λ k. omega arith)

abbrev bare : EquipmentSlots
bare = record {
  weapon = none;
  offhand = none;
  helmet = none;
  chest = none;
  gloves = none;
  boots = none;
  belt = none;
  ring1 = none;
  ring2 = none;
  necklace = none;
  ring3 = none;
  pants = none;
  bracelets = none;
}

abbrev even : CharacterStats
even = record { strength = 5; dexterity = 5; intuition = 5; endurance = 5 }

abbrev tough : CharacterStats
tough = record { strength = 8; dexterity = 3; intuition = 3; endurance = 6 }

even_stats : derive_combat_stats even bare 1 none none ≡ record {
  max_hp = 55;
  attack_power = 925;
  crit_chance = 25;
  crit_multiplier = 155;
  evasion_chance = 25;
  armor = 0;
  defense = 15;
}
unfolding derive_combat_stats get_equipment_bonuses add_items add_item
even_stats = refl

derive_combat_stats_bounds_example :
    (derive_combat_stats even bare 1 (some tough) (some bare)).evasion_chance
    ≤ (derive_combat_stats even bare 1 (some even) (some bare)).evasion_chance
derive_combat_stats_bounds_example =
    (derive_combat_stats_bounds even bare 1 even tough bare bare (omega arith) (omega arith)).4

abbrev stats : DerivedStats
stats = record {
  max_hp = 55;
  attack_power = 925;
  crit_chance = 25;
  crit_multiplier = 155;
  evasion_chance = 25;
  armor = 0;
  defense = 15;
}

-- Neither dodged nor critical; the damage roll is one half.
abbrev plain : Rolls
plain = record { evasion = 4503599627370496; crit = 4503599627370496; damage = 4503599627370496 }

resolve_attack_lem_example : 100 ≤ (resolve_attack head (legs ∷ []) stats stats plain).damage
unfolding resolve_attack Zone-discrete
resolve_attack_lem_example =
    (resolve_attack_lem head (legs ∷ []) stats stats plain (omega arith)).3 refl

abbrev ann : FighterState
ann = record {
  character_id = units "a";
  wallet_address = units "0xa";
  current_hp = 5500;
  max_hp = 5500;
  derived_stats = stats;
}

abbrev ben : FighterState
ben = record {
  character_id = units "b";
  wallet_address = units "0xb";
  current_hp = 700;
  max_hp = 5500;
  derived_stats = stats;
}

abbrev lunge : TurnAction
lunge = record { attack_zones = legs ∷ []; block_zones = chest ∷ stomach ∷ [] }

-- A's attack on the legs is blocked; B's on the head meets a guard of chest and stomach and lands.
turn_one :
    (resolve_turn 1 ann ben lunge swing (λ k. plain) (λ k. plain)).fighter_a.current_hp ≡ 4725
unfolding resolve_turn resolve_attacks resolve_attack landed_damage Zone-discrete
turn_one = refl

resolve_turn_lem_example :
    (resolve_turn 1 ann ben swing lunge (λ k. plain) (λ k. plain)).fighter_b.current_hp ≤ 600
unfolding resolve_turn resolve_attacks resolve_attack landed_damage Zone-discrete
resolve_turn_lem_example =
    (resolve_turn_lem 1 ann ben swing lunge (λ k. plain) (λ k. plain) (λ k. omega arith)
        (λ k. omega arith)).4
      refl

check_fight_end_lem_example : (check_fight_end ann ben ≡ unfinished) ↔ ((0 < 5500) × (0 < 700))
check_fight_end_lem_example = (check_fight_end_lem ann ben (λ e. ground arith)).0

abbrev novice : Progress
novice = record { level = 1; xp = 90; unallocated_points = 0 }

two_levels : (apply_xp novice 250).0 ≡ record { level = 3; xp = 340; unallocated_points = 6 }
unfolding apply_xp level_up xp_for_level
two_levels = refl

apply_xp_lem_example : Earned (apply_xp novice 250).0.xp 1 (apply_xp novice 250).0.level
apply_xp_lem_example = (apply_xp_lem novice 250 (omega arith)).4

calculate_xp_reward-band_example :
    calculate_xp_reward wager true 1200 1000 0 ≤ calculate_xp_reward wager true 1100 1500 0
calculate_xp_reward-band_example =
    (calculate_xp_reward-band wager 1200 1000 1100 1500 0 0 (omega arith) (omega arith)
      (omega arith) (omega arith)).5
