-- ===== src/Absence/Kept.antt =====
-- server/src/ws/fight-room.ts: actions and timers of a fight leave its type and its disconnected
-- players alone.
use sui_comabts.Prelude.{
  ℕ, ◌≡◌, refl, Option, none, some, arith, Text, set, get, subst, sym, Bool-cases, Option-cases,
  inl, inr,
}
use sui_comabts.Scheduler.{Timer}
use sui_comabts.Combat.Zones.{TurnAction}
use sui_comabts.FightRoom.{
  FightState, Luck, Due, turn_timeout, next_turn, is_active, fill, stop_clock, both_submitted,
  record_action, end_or_go_on, resolve_with, resolve_fight_turn, handle_turn_timeout,
  start_next_turn, finish_fight, run_due, fire_due, fire_timer_of, submit_turn_action,
}
use sui_comabts.FightRoom.Submit.{accepted_is, refused_is}

pub record Kept (f g : FightState) : Type 0 where
  pub type : g.type ≡ f.type
  pub away : g.disconnected_wallets ≡ f.disconnected_wallets

end-Kept : (now : ℕ) (f : FightState) → Kept f (end_or_go_on now f)
unfolding finish_fight
end-Kept now f = record { type = ground arith; away = ground arith }

resolve-Kept :
    (x y : Option TurnAction) (now : ℕ) (luck : Luck) (f : FightState)
    → Kept f (resolve_with x y now luck f)
resolve-Kept none y now luck f = record { type = refl; away = refl }
resolve-Kept (some x) none now luck f = record { type = refl; away = refl }
resolve-Kept (some x) (some y) now luck f =
    let k = end-Kept now _ in record { type = k.type; away = k.away }

resolve_fight_turn-Kept :
    (now : ℕ) (luck : Luck) (f : FightState) → Kept f (resolve_fight_turn now luck f)
unfolding resolve_fight_turn
resolve_fight_turn-Kept now luck f =
    resolve-Kept (get f.player_a.character_id f.turn_actions)
      (get f.player_b.character_id f.turn_actions) now luck f

turn_timeout-Kept :
    (now : ℕ) (luck : Luck) (f : FightState) → Kept f (handle_turn_timeout now luck f)
unfolding handle_turn_timeout
turn_timeout-Kept now luck f = elim (Bool-cases (is_active f.status)) [
  | inr e ↦ simp e (record { type = refl; away = refl })
  | inl e ↦
      let k = resolve_fight_turn-Kept now luck (record f {
        turn_actions =
            fill f.player_b.character_id f.equipment_b luck.draws_b
              (fill f.player_a.character_id f.equipment_a luck.draws_a f.turn_actions);
      }) in
      simp e (record { type = k.type; away = k.away })
]

run_due-Kept : (now : ℕ) (luck : Luck) (d : Due) (f : FightState) → Kept f (run_due now luck d f)
unfolding start_next_turn
run_due-Kept now luck turn_timeout f = turn_timeout-Kept now luck f
run_due-Kept now luck next_turn f = record { type = ground arith; away = ground arith }

fire_due-Kept :
    (now : ℕ) (luck : Luck) (t : Option (Timer Due)) (f : FightState)
    → Kept f (fire_due now luck t f)
fire_due-Kept now luck none f = record { type = refl; away = refl }
fire_due-Kept now luck (some t) f = run_due-Kept now luck t.callback f

pub fire_timer_of-Kept :
    (now : ℕ) (luck : Luck) (h : ℕ) (f : FightState) → Kept f (fire_timer_of now luck h f)
unfolding fire_timer_of
fire_timer_of-Kept now luck h f =
    let k = fire_due-Kept now luck (f.clock.timers.pending h) _ in
    record { type = k.type; away = k.away }

record_action-Kept :
    (now : ℕ) (luck : Luck) (player : Text) (action : TurnAction) (f : FightState)
    → Kept f (record_action now luck player action f)
record_action-Kept now luck player action f =
    let g : FightState = record f { turn_actions = set player action f.turn_actions } in
    elim (Bool-cases (both_submitted g)) [
      | inl e ↦
          let k = resolve_fight_turn-Kept now luck (record g { clock = stop_clock g.clock }) in
          rw e (record { type = k.type; away = k.away })
      | inr e ↦ rw e (record { type = refl; away = refl })
    ]

pub submit_turn_action-Kept :
    (now : ℕ) (luck : Luck) (player : Text) (action : TurnAction) (f : FightState)
    → Kept f (submit_turn_action now luck player action f).0
submit_turn_action-Kept now luck player action f =
    elim (Option-cases (submit_turn_action now luck player action f).1) [
      | inl e ↦
          subst (Kept f) (sym (accepted_is now luck player action f e))
            (record_action-Kept now luck player action f)
      | inr (x, e) ↦
          subst (Kept f) (sym (refused_is now luck player action f x e))
            (record { type = refl; away = refl })
    ]
