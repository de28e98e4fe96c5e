-- ===== src/Absence/Examples.antt =====
-- A duel whose player leaves, comes back, leaves again and does not return.
use sui_comabts.Prelude.{
  ℕ, ◌≡◌, refl, false, List, [], ◌∷◌, none, Text, Text-discrete, units, get, set, delete,
}
use sui_comabts.Types.{ranked}
use sui_comabts.Scheduler.{no_timers, schedule, cancel}
use sui_comabts.Combat.Stats.{EquipmentSlots, DerivedStats}
use sui_comabts.Combat.Turn.{Rolls, FighterState}
use sui_comabts.FightPause.{pause_fight_timer, resume_fight_timer}
use sui_comabts.ReconnectGrace.{
  empty, mark_disconnect, mark_disconnect_from, spend, mark_reconnect, fire, clear_fight_grace,
  cancel_fight,
}
use sui_comabts.FightRoom.{
  FightState, active, finished, Luck, no_turn, finish_fight, enter_grace, leave_grace,
}
use sui_comabts.Absence.{
  Event, disconnects, reconnects, expires, step, run, delist, settle_fight, plays, forfeit,
  handle_player_disconnect, handle_player_reconnect, fire_forfeit,
}
use sui_comabts.Absence.Agreement.{Agrees}
use sui_comabts.Absence.Histories.{created, run-Agrees}

abbrev bare : EquipmentSlots
bare = record {
  weapon = none;
  offhand = none;
  helmet = none;
  chest = none;
  gloves = none;
  boots = none;
  belt = none;
  ring1 = none;
  ring2 = none;
  necklace = none;
  ring3 = none;
  pants = none;
  bracelets = none;
}

abbrev stats : DerivedStats
stats = record {
  max_hp = 55;
  attack_power = 925;
  crit_chance = 25;
  crit_multiplier = 155;
  evasion_chance = 25;
  armor = 0;
  defense = 15;
}

abbrev even_luck : Luck
even_luck =
    let plain : Rolls = record {
      evasion = 4503599627370496;
      crit = 4503599627370496;
      damage = 4503599627370496;
    } in
    record { draws_a = λ k. 0; draws_b = λ k. 0; rolls_a = λ k. plain; rolls_b = λ k. plain }

abbrev fighter : Text → Text → FighterState
fighter id wallet = record {
  character_id = id;
  wallet_address = wallet;
  current_hp = 5500;
  max_hp = 5500;
  derived_stats = stats;
}

abbrev met : FightState
met = record {
  type = ranked;
  player_a = fighter (units "a") (units "0xa");
  player_b = fighter (units "b") (units "0xb");
  equipment_a = bare;
  equipment_b = bare;
  turn = 0;
  turn_results = [];
  status = active;
  turn_actions = [];
  clock = record { fight = no_turn; timers = no_timers };
  disconnected_wallets = [];
}

abbrev absences : List (ℕ × Luck × Event)
absences =
    (1000, even_luck, disconnects 60000 (units "0xa"))
    ∷ (5000, even_luck, reconnects (units "0xa"))
    ∷ (9000, even_luck, disconnects 60000 (units "0xa"))
    ∷ (65000, even_luck, expires 1)
    ∷ []

-- The fight is over then, and nobody is in grace.
absences_test :
    ((run (created (units "f1") met) absences).fight.status ≡ finished)
    × ((run (created (units "f1") met) absences).listed ≡ false)
    × ((run (created (units "f1") met) absences).grace.records ≡ [])
unfolding run step delist settle_fight plays forfeit handle_player_disconnect
    handle_player_reconnect fire_forfeit mark_disconnect mark_disconnect_from spend mark_reconnect
    fire clear_fight_grace cancel_fight empty no_timers schedule cancel get set delete finish_fight
    enter_grace leave_grace pause_fight_timer resume_fight_timer Text-discrete
absences_test = (refl, refl, refl)

run-Agrees_example : Agrees (run (created (units "f1") met) absences)
run-Agrees_example = run-Agrees (units "f1") met absences
