-- ===== src/FightRoom/Finished.antt =====
-- server/src/ws/fight-room.ts: a finished fight stays as it is.
use sui_comabts.Prelude.{
  ℕ, ◌≡◌, refl, ap, sym, subst, false, List, [], ◌∷◌, Option, none, some, arith, Text,
  if◌then◌else◌,
}
use sui_comabts.Scheduler.{Timer}
use sui_comabts.Combat.Zones.{TurnAction}
use sui_comabts.FightRoom.{
  FightState, finished, is_active, Luck, Due, turn_timeout, next_turn, submit_turn_action,
  finish_fight, handle_turn_timeout, fire_due, run_due, fire_timer_of, enter_grace, leave_grace,
  Call, submits, fires, goes, returns, forfeits, step, run,
}

-- What does not change of a finished fight.
record Same (f g : FightState) : Type 0 where
  over : g.status ≡ finished
  results : g.turn_results ≡ f.turn_results
  fighters : (g.player_a ≡ f.player_a) × (g.player_b ≡ f.player_b)
  turn : g.turn ≡ f.turn

run_due-over :
    (now : ℕ) (luck : Luck) (d : Due) (g : FightState)
    → is_active g.status ≡ false
    → run_due now luck d g ≡ g
unfolding handle_turn_timeout
run_due-over now luck turn_timeout g h = ground (arith, h)
run_due-over now luck next_turn g h = ground (arith, h)

fire_due-over :
    (now : ℕ) (luck : Luck) (t : Option (Timer Due)) (g : FightState)
    → is_active g.status ≡ false
    → fire_due now luck t g ≡ g
fire_due-over now luck none g h = refl
fire_due-over now luck (some t) g h = run_due-over now luck t.callback g h

submit-over :
    (now : ℕ) (luck : Luck) (player : Text) (action : TurnAction) (g : FightState)
    → is_active g.status ≡ false
    → (submit_turn_action now luck player action g).0 ≡ g
unfolding submit_turn_action
submit-over now luck player action g h = ground (arith, h)

forfeit-over :
    (g : FightState)
    → is_active g.status ≡ false
    → (if is_active g.status then finish_fight g else g) ≡ g
forfeit-over g h = ground (arith, h)

step-Same : (f g : FightState) (c : ℕ × Luck × Call) → Same f g → Same f (step g c)
unfolding step fire_timer_of enter_grace leave_grace
step-Same f g (now, luck, submits player action) s =
    subst (Same f) (sym (submit-over now luck player action g (ap is_active s.over))) s
step-Same f g (now, luck, fires h) s =
    subst (Same f) (sym (fire_due-over now luck (g.clock.timers.pending h) _ (ap is_active s.over)))
      record { over = s.over; results = s.results; fighters = s.fighters; turn = s.turn }
step-Same f g (now, luck, goes w) s = record {
  over = s.over;
  results = s.results;
  fighters = s.fighters;
  turn = s.turn;
}
step-Same f g (now, luck, returns w) s = record {
  over = s.over;
  results = s.results;
  fighters = s.fighters;
  turn = s.turn;
}
step-Same f g (now, luck, forfeits) s =
    subst (Same f) (sym (forfeit-over g (ap is_active s.over))) s

run_from-Same : (f g : FightState) (cs : List (ℕ × Luck × Call)) → Same f g → Same f (run g cs)
unfolding run
run_from-Same f g [] s = s
run_from-Same f g (c ∷ cs) s = run_from-Same f (step g c) cs (step-Same f g c s)

-- Once a fight is finished, no submitted action, no timer that is still pending, no disconnect,
-- reconnect or forfeit changes its fighters, its turn or its results, or makes it active again.
pub run-finished :
    (f : FightState) (cs : List (ℕ × Luck × Call))
    → f.status ≡ finished
    → let g = run f cs in
      (g.status ≡ finished)
      × (g.turn_results ≡ f.turn_results)
      × (g.player_a ≡ f.player_a)
      × (g.player_b ≡ f.player_b)
      × (g.turn ≡ f.turn)
run-finished f cs e =
    let s =
      run_from-Same f f cs
        record { over = e; results = refl; fighters = (refl, refl); turn = refl } in
    (s.over, s.results, s.fighters.0, s.fighters.1, s.turn)
