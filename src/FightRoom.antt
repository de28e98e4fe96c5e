-- ===== src/FightRoom.antt =====
-- server/src/ws/fight-room.ts: the turns of one fight. Its state is the fight with the timers of the
-- process; the clock and the draws of `Math.random()` are arguments. The messages to the players are
-- left out, and of `finishFight` only what it does to the fight is modelled.
pub mod Submit
pub mod Finished
pub mod Living
mod Examples
use sui_comabts.Prelude.{
  ℕ, ◌+◌, Bool, true, false, ◌&&◌, ◌||◌, not, List, [], ◌∷◌, ◌++◌, Option, none, some, Text, ◌===◌,
  if◌then◌else◌, any, select, is_some, length, ◌==◌, Map, get, set,
}
use sui_comabts.Config.{turn_timer_ms}
use sui_comabts.Types.{FightType, bot}
use sui_comabts.Scheduler.{Timer, Timers, schedule, cancel}
use sui_comabts.FightPause.{
  PauseableFight, Clocked, clear_timer, pause_fight_timer, resume_fight_timer,
}
use sui_comabts.Combat.Zones.{
  OffhandType, TurnAction, ActionError, validate_turn_action, generate_random_action,
}
use sui_comabts.Combat.Stats.{EquipmentSlots, get_offhand_type}
use sui_comabts.Combat.Turn.{
  Rolls, FighterState, TurnResult, Resolved, resolve_turn, FightEnd, unfinished, check_fight_end,
}

pub data FightStatus : Type 0 where
  waiting active finished : FightStatus

-- The callbacks of a fight's timers.
pub data Due : Type 0 where
  turn_timeout next_turn : Due

pub record FightState : Type 0 where
  pub type : FightType
  pub player_a : FighterState
  pub player_b : FighterState
  pub equipment_a : EquipmentSlots
  pub equipment_b : EquipmentSlots
  pub turn : ℕ
  pub turn_results : List TurnResult
  pub status : FightStatus
  pub turn_actions : Map TurnAction
  pub clock : Clocked Due
  pub disconnected_wallets : List Text

-- The draws of one call: for the random actions of both players, and for the attacks of both.
pub record Luck : Type 0 where
  pub draws_a : ℕ → ℕ
  pub draws_b : ℕ → ℕ
  pub rolls_a : ℕ → Rolls
  pub rolls_b : ℕ → Rolls

abbrev pub is_active : FightStatus → Bool
is_active active = true
is_active _ = false

abbrev pub is_bot : FightType → Bool
is_bot bot = true
is_bot _ = false

-- The action is chosen at random for a player who has none.
abbrev pub fill : Text → EquipmentSlots → (ℕ → ℕ) → Map TurnAction → Map TurnAction
fill player equipment draws actions =
    if is_some (get player actions)
    then actions
    else set player (generate_random_action (get_offhand_type equipment) draws) actions

-- `fight.turnTimer = setTimeout(() => handleTurnTimeout(fight), TURN_TIMER_MS)` of a new turn.
abbrev pub arm : ℕ → Clocked Due → Clocked Due
arm now c = record {
  fight = record {
    turn_timer = some c.timers.next_handle;
    turn_deadline = some (now + turn_timer_ms);
    turn_paused = false;
    turn_paused_remaining_ms = none;
  };
  timers = schedule turn_timeout (now + turn_timer_ms) c.timers;
}

abbrev pub begin_paused : ℕ → Clocked Due → Clocked Due
begin_paused now c = record {
  fight = record {
    turn_timer = none;
    turn_deadline = some (now + turn_timer_ms);
    turn_paused = true;
    turn_paused_remaining_ms = some turn_timer_ms;
  };
  timers = c.timers;
}

abbrev pub bot_actions : FightState → Luck → Map TurnAction
bot_actions f luck =
    if is_bot f.type
    then set f.player_b.character_id
        (generate_random_action (get_offhand_type f.equipment_b) luck.draws_b) []
    else []

unfoldable pub start_next_turn : ℕ → Luck → FightState → FightState
start_next_turn now luck f =
    if not (length f.disconnected_wallets == 0)
    then record f { turn = f.turn + 1; turn_actions = []; clock = begin_paused now f.clock }
    else record f { turn = f.turn + 1; turn_actions = bot_actions f luck; clock = arm now f.clock }

abbrev pub no_turn : PauseableFight
no_turn = record {
  turn_timer = none;
  turn_deadline = none;
  turn_paused = false;
  turn_paused_remaining_ms = none;
}

-- The timer is cleared and no turn runs: in `submitTurnAction` and `finishFight`.
abbrev pub stop_clock : Clocked Due → Clocked Due
stop_clock c = record { fight = no_turn; timers = clear_timer c.fight.turn_timer c.timers }

unfoldable pub finish_fight : FightState → FightState
finish_fight f = record f { status = finished; clock = stop_clock f.clock }

-- `setTimeout(() => startNextTurn(fight), 1500)`
abbrev pub schedule_next : ℕ → FightState → FightState
schedule_next now f = record f {
  clock = record { fight = f.clock.fight; timers = schedule next_turn (now + 1500) f.clock.timers };
}

abbrev pub is_unfinished : FightEnd → Bool
is_unfinished unfinished = true
is_unfinished _ = false

abbrev pub with_result : Resolved → FightState → FightState
with_result r f = record f {
  player_a = r.fighter_a;
  player_b = r.fighter_b;
  turn_results = f.turn_results ++ r.result ∷ [];
}

abbrev pub end_or_go_on : ℕ → FightState → FightState
end_or_go_on now f =
    if is_unfinished (check_fight_end f.player_a f.player_b)
    then schedule_next now f
    else finish_fight f

-- Both callers have made sure that both actions are there.
abbrev pub resolve_with : Option TurnAction → Option TurnAction → ℕ → Luck → FightState → FightState
resolve_with (some x) (some y) now luck f =
    end_or_go_on now
      (with_result (resolve_turn f.turn f.player_a f.player_b x y luck.rolls_a luck.rolls_b) f)
resolve_with _ _ now luck f = f

unfoldable pub resolve_fight_turn : ℕ → Luck → FightState → FightState
resolve_fight_turn now luck f =
    resolve_with (get f.player_a.character_id f.turn_actions)
      (get f.player_b.character_id f.turn_actions) now luck f

unfoldable pub handle_turn_timeout : ℕ → Luck → FightState → FightState
handle_turn_timeout now luck f =
    if not (is_active f.status)
    then f
    else resolve_fight_turn now luck (record f {
      turn_actions =
          fill f.player_b.character_id f.equipment_b luck.draws_b
            (fill f.player_a.character_id f.equipment_a luck.draws_a f.turn_actions);
    })

pub data SubmitError : Type 0 where
  fight_not_active not_in_fight already_submitted : SubmitError
  bad_action : ActionError → SubmitError

abbrev pub both_submitted : FightState → Bool
both_submitted f =
    is_some (get f.player_a.character_id f.turn_actions)
    && is_some (get f.player_b.character_id f.turn_actions)

abbrev pub record_action : ℕ → Luck → Text → TurnAction → FightState → FightState
record_action now luck player action f =
    let g = record f { turn_actions = set player action f.turn_actions } in
    if both_submitted g
    then resolve_fight_turn now luck (record g { clock = stop_clock g.clock })
    else g

abbrev pub check_action :
    ℕ → Luck → Text → TurnAction → FightState → Option ActionError → FightState × Option SubmitError
check_action now luck player action f none = (record_action now luck player action f, none)
check_action now luck player action f (some e) = (f, some (bad_action e))

abbrev pub equipment_of : Bool → FightState → EquipmentSlots
equipment_of true f = f.equipment_a
equipment_of false f = f.equipment_b

-- `submitTurnAction` on a fight of `activeFights`; `none` is success.
unfoldable pub submit_turn_action :
    ℕ → Luck → Text → TurnAction → FightState → FightState × Option SubmitError
submit_turn_action now luck player action f =
    let is_a = f.player_a.character_id === player in
    let is_b = f.player_b.character_id === player in
    if not (is_active f.status)
    then (f, some fight_not_active)
    else if not is_a && not is_b
    then (f, some not_in_fight)
    else if is_some (get player f.turn_actions)
    then (f, some already_submitted)
    else check_action now luck player action f
        (validate_turn_action action (get_offhand_type (equipment_of is_a f)))

-- What `handlePlayerDisconnect` does to the fight, once the grace window is open.
unfoldable pub enter_grace : ℕ → Text → FightState → FightState
enter_grace now wallet f = record f {
  disconnected_wallets =
      if any (λ w. w === wallet) f.disconnected_wallets
      then f.disconnected_wallets
      else f.disconnected_wallets ++ wallet ∷ [];
  clock = (pause_fight_timer now f.clock).0;
}

-- What `handlePlayerReconnect` does to the fight, once the forfeit is canceled.
unfoldable pub leave_grace : ℕ → Text → FightState → FightState
leave_grace now wallet f =
    let rest = select (λ w. not (w === wallet)) f.disconnected_wallets in
    record f {
      disconnected_wallets = rest;
      clock = if length rest == 0 then (resume_fight_timer turn_timeout now f.clock).0 else f.clock;
    }

abbrev pub run_due : ℕ → Luck → Due → FightState → FightState
run_due now luck turn_timeout f = handle_turn_timeout now luck f
run_due now luck next_turn f = if is_active f.status then start_next_turn now luck f else f

abbrev pub fire_due : ℕ → Luck → Option (Timer Due) → FightState → FightState
fire_due now luck none f = f
fire_due now luck (some t) f = run_due now luck t.callback f

-- A pending timer fires: it is no longer pending, and its callback runs.
unfoldable pub fire_timer_of : ℕ → Luck → ℕ → FightState → FightState
fire_timer_of now luck h f =
    fire_due now luck (f.clock.timers.pending h)
      (record f { clock = record { fight = f.clock.fight; timers = cancel h f.clock.timers } })

-- The calls that change a fight, with the clock and the draws of each; `forfeits` is the end of a
-- grace window.
pub data Call : Type 0 where
  submits : Text → TurnAction → Call
  fires : ℕ → Call
  goes returns : Text → Call
  forfeits : Call

unfoldable pub step : FightState → ℕ × Luck × Call → FightState
step f (now, luck, submits player action) = (submit_turn_action now luck player action f).0
step f (now, luck, fires h) = fire_timer_of now luck h f
step f (now, luck, goes wallet) = enter_grace now wallet f
step f (now, luck, returns wallet) = leave_grace now wallet f
step f (now, luck, forfeits) = if is_active f.status then finish_fight f else f

unfoldable pub run : FightState → List (ℕ × Luck × Call) → FightState
run f [] = f
run f (c ∷ cs) = run (step f c) cs
