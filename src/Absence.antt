-- ===== src/Absence.antt =====
-- server/src/ws/fight-room.ts: `handlePlayerDisconnect`, `handlePlayerReconnect`, the forfeit and the
-- end of a fight, over one fight and the grace windows of its players together. `listed` is whether
-- `activeFights` holds the fight. The grace windows are those of this fight alone.
pub mod Kept
pub mod Windows
pub mod Agreement
pub mod Histories
mod Examples
use sui_comabts.Prelude.{
  ℕ, Bool, true, false, ◌&&◌, ◌||◌, not, List, [], ◌∷◌, Option, none, some, Text, ◌===◌,
  if◌then◌else◌, any, is_some,
}
use sui_comabts.ReconnectGrace.{
  Forfeit, Grace, DisconnectInfo, Marked, mark_disconnect, mark_reconnect, fire, clear_fight_grace,
}
use sui_comabts.FightRoom.{
  FightState, Luck, is_active, is_bot, finish_fight, submit_turn_action, fire_timer_of, enter_grace,
  leave_grace,
}
use sui_comabts.Combat.Zones.{TurnAction}

pub record Arena : Type 0 where
  pub fight_id : Text
  pub fight : FightState
  pub listed : Bool
  pub grace : Grace

-- The part of `finishFight` behind its change of the fight: the fight leaves `activeFights`, and the
-- players' grace records are cleared, except those of a bot fight.
unfoldable pub delist : Arena → Arena
delist s = record s {
  listed = false;
  grace = if is_bot s.fight.type then s.grace else clear_fight_grace s.fight_id s.grace;
}

-- A change of the fight that may have finished it.
unfoldable pub settle_fight : FightState → Arena → Arena
settle_fight g s =
    if s.listed && not (is_active g.status)
    then delist (record s { fight = g })
    else record s { fight = g }

-- `getPlayerActiveFight`
unfoldable pub plays : Text → Arena → Bool
plays wallet s =
    s.listed
    && ((s.fight.player_a.wallet_address === wallet)
        || (s.fight.player_b.wallet_address === wallet))

-- The callback of a forfeit: the fight is looked up again.
unfoldable pub forfeit : Forfeit → Arena → Arena
forfeit f s =
    if s.listed && (f.fight === s.fight_id) then settle_fight (finish_fight s.fight) s else s

abbrev pub forfeit_all : List Forfeit → Arena → Arena
forfeit_all [] s = s
forfeit_all (f ∷ fs) s = forfeit_all fs (forfeit f s)

abbrev pub enter_if : Bool → ℕ → Text → Arena → Arena
enter_if false now wallet s = s
enter_if true now wallet s = record s { fight = enter_grace now wallet s.fight }

-- `handlePlayerDisconnect`, with the budget in force.
unfoldable pub handle_player_disconnect : ℕ → ℕ → Text → Arena → Arena
handle_player_disconnect budget now wallet s =
    if not (plays wallet s)
    then s
    else let m = mark_disconnect wallet s.fight_id budget now s.grace in
      enter_if (is_some m.info) now wallet (forfeit_all m.forfeits (record s { grace = m.grace }))

abbrev pub return_to : Option Text → ℕ → Text → Arena → Arena
return_to none now wallet s = s
return_to (some id) now wallet s =
    if s.listed && (id === s.fight_id)
    then record s { fight = leave_grace now wallet s.fight }
    else s

-- `handlePlayerReconnect`
unfoldable pub handle_player_reconnect : ℕ → Text → Arena → Arena
handle_player_reconnect now wallet s =
    let r = mark_reconnect wallet now s.grace in return_to r.1 now wallet (record s { grace = r.0 })

-- The timer of a grace window fires.
unfoldable pub fire_forfeit : ℕ → Arena → Arena
fire_forfeit h s = let r = fire h s.grace in forfeit_all r.1 (record s { grace = r.0 })

-- The events of a fight, with the clock and the draws of each: a socket of a wallet closes or the
-- wallet authenticates again, a grace window's timer fires, an action is submitted, a timer of the
-- fight fires.
pub data Event : Type 0 where
  disconnects : ℕ → Text → Event
  reconnects : Text → Event
  expires : ℕ → Event
  submits : Text → TurnAction → Event
  fires : ℕ → Event

unfoldable pub step : Arena → ℕ × Luck × Event → Arena
step s (now, luck, disconnects budget wallet) = handle_player_disconnect budget now wallet s
step s (now, luck, reconnects wallet) = handle_player_reconnect now wallet s
step s (now, luck, expires h) = fire_forfeit h s
step s (now, luck, submits player action) =
    if s.listed then settle_fight (submit_turn_action now luck player action s.fight).0 s else s
step s (now, luck, fires h) = settle_fight (fire_timer_of now luck h s.fight) s

unfoldable pub run : Arena → List (ℕ × Luck × Event) → Arena
run s [] = s
run s (e ∷ es) = run (step s e) es
