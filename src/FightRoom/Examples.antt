-- ===== src/FightRoom/Examples.antt =====
-- Runs of a fight between two concrete players.
use sui_comabts.Prelude.{
  ℕ, ◌≤◌, ◌≡◌, ◌↔◌, refl, List, [], ◌∷◌, none, arith, Text, units, Text-discrete, map, get, set,
}
use sui_comabts.Types.{ranked}
use sui_comabts.Scheduler.{no_timers, schedule, cancel}
use sui_comabts.FightPause.{pause_fight_timer, resume_fight_timer}
use sui_comabts.Combat.Zones.{
  head, chest, stomach, legs, Zone-discrete, TurnAction, validate_turn_action, validate_lines,
  is_valid_block_line, is_valid_shield_line, distinct_count, attack_slots, block_slots,
}
use sui_comabts.Combat.Stats.{EquipmentSlots, DerivedStats, get_offhand_type}
use sui_comabts.Combat.Turn.{
  Rolls, FighterState, resolve_turn, resolve_attacks, resolve_attack, landed_damage, total_damage,
  check_fight_end,
}
use sui_comabts.FightRoom.{
  FightState, active, Luck, no_turn, start_next_turn, submit_turn_action, resolve_fight_turn,
  finish_fight, handle_turn_timeout, enter_grace, leave_grace, fire_timer_of, Call, submits, fires,
  goes, returns, step, run,
}
use sui_comabts.FightRoom.Submit.{Takes, submit_turn_action_lem}
use sui_comabts.FightRoom.Finished.{run-finished}
use sui_comabts.FightRoom.Living.{run-living}

abbrev bare : EquipmentSlots
bare = record {
  weapon = none;
  offhand = none;
  helmet = none;
  chest = none;
  gloves = none;
  boots = none;
  belt = none;
  ring1 = none;
  ring2 = none;
  necklace = none;
  ring3 = none;
  pants = none;
  bracelets = none;
}

abbrev stats : DerivedStats
stats = record {
  max_hp = 55;
  attack_power = 925;
  crit_chance = 25;
  crit_multiplier = 155;
  evasion_chance = 25;
  armor = 0;
  defense = 15;
}

abbrev even_luck : Luck
even_luck =
    let plain : Rolls = record {
      evasion = 4503599627370496;
      crit = 4503599627370496;
      damage = 4503599627370496;
    } in
    record { draws_a = λ k. 0; draws_b = λ k. 0; rolls_a = λ k. plain; rolls_b = λ k. plain }

abbrev fighter : Text → Text → FighterState
fighter id wallet = record {
  character_id = id;
  wallet_address = wallet;
  current_hp = 5500;
  max_hp = 5500;
  derived_stats = stats;
}

abbrev met : FightState
met = record {
  type = ranked;
  player_a = fighter (units "a") (units "0xa");
  player_b = fighter (units "b") (units "0xb");
  equipment_a = bare;
  equipment_b = bare;
  turn = 0;
  turn_results = [];
  status = active;
  turn_actions = [];
  clock = record { fight = no_turn; timers = no_timers };
  disconnected_wallets = [];
}

abbrev high : TurnAction
high = record { attack_zones = head ∷ []; block_zones = legs ∷ head ∷ [] }

abbrev low : TurnAction
low = record { attack_zones = legs ∷ []; block_zones = chest ∷ stomach ∷ [] }

-- Both submit within five seconds of the first turn.
abbrev first_turn : List (ℕ × Luck × Call)
first_turn =
    (1000, even_luck, submits (units "a") high) ∷ (5000, even_luck, submits (units "b") low) ∷ []

-- A player leaves and comes back before the next turn begins, and the timer that the return
-- schedules fires.
abbrev blip : List (ℕ × Luck × Call)
blip =
    (5500, even_luck, goes (units "0xa"))
    ∷ (6000, even_luck, returns (units "0xa"))
    ∷ (6000, even_luck, fires 2)
    ∷ []

-- The first turn is resolved twice.
resolved_twice :
    map (λ r. r.turn) (run (run (start_next_turn 0 even_luck met) first_turn) blip).turn_results
    ≡ 1 ∷ 1 ∷ []
unfolding run step start_next_turn submit_turn_action resolve_fight_turn finish_fight
    handle_turn_timeout enter_grace leave_grace fire_timer_of resolve_turn resolve_attacks
    resolve_attack landed_damage total_damage check_fight_end validate_turn_action validate_lines
    is_valid_block_line is_valid_shield_line distinct_count attack_slots block_slots
    get_offhand_type Zone-discrete Text-discrete get set no_timers schedule cancel pause_fight_timer
    resume_fight_timer
resolved_twice = refl

submit_turn_action_lem_example :
    ((submit_turn_action 1000 even_luck (units "a") high met).1 ≡ none) ↔ Takes met (units "a") high
submit_turn_action_lem_example = (submit_turn_action_lem 1000 even_luck (units "a") high met).0

run-finished_example : (run (finish_fight met) first_turn).turn_results ≡ []
unfolding finish_fight
run-finished_example = (run-finished (finish_fight met) first_turn refl).1

run-living_example : (run met first_turn).player_b.current_hp ≤ 5500
run-living_example = (run-living met first_turn (omega arith) (omega arith)).1
