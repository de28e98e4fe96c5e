-- ===== src/FightRoom/Living.antt =====
-- server/src/ws/fight-room.ts: the hit points of a fight over any history of submitted actions,
-- timers, disconnects, reconnects and forfeits.
use sui_comabts.Prelude.{
  ℕ, ◌≤◌, ◌<◌, ◌≡◌, inl, inr, ap, sym, subst, true, not, List, [], ◌∷◌, Option, none, some, arith,
  Text, length, get, set, Bool-cases, Option-cases, ◌==◌,
}
use sui_comabts.Scheduler.{Timer}
use sui_comabts.Combat.Zones.{TurnAction}
use sui_comabts.Combat.Turn.{resolve_turn, check_fight_end}
use sui_comabts.FightRoom.{
  both_submitted, fill, stop_clock, FightState, active, is_active, Luck, Due, turn_timeout,
  next_turn, submit_turn_action, record_action, resolve_fight_turn, resolve_with, end_or_go_on,
  with_result, finish_fight, start_next_turn, handle_turn_timeout, fire_due, run_due, fire_timer_of,
  enter_grace, leave_grace, Call, submits, fires, goes, returns, forfeits, step, run,
}
use sui_comabts.FightRoom.Submit.{accepted_is, refused_is}

-- Hit points never rise, and both fighters of an active fight have some.
record Fair (f g : FightState) : Type 0 where
  hp_a : g.player_a.current_hp ≤ f.player_a.current_hp
  hp_b : g.player_b.current_hp ≤ f.player_b.current_hp
  living : is_active g.status ≡ true → (0 < g.player_a.current_hp) × (0 < g.player_b.current_hp)

end_or_go_on-living :
    (now : ℕ) (g : FightState)
    → is_active (end_or_go_on now g).status ≡ true
    → (0 < g.player_a.current_hp) × (0 < g.player_b.current_hp)
unfolding finish_fight check_fight_end
end_or_go_on-living now g h = ground (arith, h)

end_or_go_on-fighters :
    (now : ℕ) (g : FightState)
    → ((end_or_go_on now g).player_a ≡ g.player_a) × ((end_or_go_on now g).player_b ≡ g.player_b)
unfolding finish_fight
end_or_go_on-fighters now g = ground arith

resolve-Fair :
    (x y : Option TurnAction) (now : ℕ) (luck : Luck) (f g : FightState)
    → Fair f g
    → Fair f (resolve_with x y now luck g)
unfolding resolve_turn
resolve-Fair (some x) (some y) now luck f g v =
    let r = resolve_turn g.turn g.player_a g.player_b x y luck.rolls_a luck.rolls_b in
    let w = with_result r g in
    let same = end_or_go_on-fighters now w in
    record {
      hp_a = rw same.0 (omega (arith, v.hp_a));
      hp_b = rw same.1 (omega (arith, v.hp_b));
      living = λ h. rw (same.0, same.1) (end_or_go_on-living now w h);
    }
resolve-Fair none y now luck f g v = v
resolve-Fair (some x) none now luck f g v = v

resolve_fight_turn-Fair :
    (now : ℕ) (luck : Luck) (f g : FightState) → Fair f g → Fair f (resolve_fight_turn now luck g)
unfolding resolve_fight_turn
resolve_fight_turn-Fair now luck f g v =
    resolve-Fair (get g.player_a.character_id g.turn_actions)
      (get g.player_b.character_id g.turn_actions) now luck f g v

turn_timeout-Fair :
    (now : ℕ) (luck : Luck) (f g : FightState) → Fair f g → Fair f (handle_turn_timeout now luck g)
unfolding handle_turn_timeout
turn_timeout-Fair now luck f g v = elim (Bool-cases (is_active g.status)) [
  | inl e ↦
      let h : FightState = record g {
        turn_actions =
            fill g.player_b.character_id g.equipment_b luck.draws_b
              (fill g.player_a.character_id g.equipment_a luck.draws_a g.turn_actions);
      } in
      simp e (
        resolve_fight_turn-Fair now luck f h
          record { hp_a = v.hp_a; hp_b = v.hp_b; living = v.living })
  | inr e ↦ simp e v
]

next_turn-Fair :
    (now : ℕ) (luck : Luck) (f g : FightState) → Fair f g → Fair f (start_next_turn now luck g)
unfolding start_next_turn
next_turn-Fair now luck f g v = elim (Bool-cases (not (length g.disconnected_wallets == 0))) [
  | inl e ↦ rw e record { hp_a = v.hp_a; hp_b = v.hp_b; living = v.living }
  | inr e ↦ rw e record { hp_a = v.hp_a; hp_b = v.hp_b; living = v.living }
]

run_due-Fair :
    (now : ℕ) (luck : Luck) (d : Due) (f g : FightState) → Fair f g → Fair f (run_due now luck d g)
run_due-Fair now luck turn_timeout f g v = turn_timeout-Fair now luck f g v
run_due-Fair now luck next_turn f g v = elim (Bool-cases (is_active g.status)) [
  | inl e ↦ simp e (next_turn-Fair now luck f g v)
  | inr e ↦ simp e v
]

fire_due-Fair :
    (now : ℕ) (luck : Luck) (t : Option (Timer Due)) (f g : FightState)
    → Fair f g
    → Fair f (fire_due now luck t g)
fire_due-Fair now luck none f g v = v
fire_due-Fair now luck (some t) f g v = run_due-Fair now luck t.callback f g v

record_action-Fair :
    (now : ℕ) (luck : Luck) (player : Text) (action : TurnAction) (f g : FightState)
    → Fair f g
    → Fair f (record_action now luck player action g)
record_action-Fair now luck player action f g v =
    elim (Bool-cases
      (both_submitted (record g { turn_actions = set player action g.turn_actions }))) [
        | inl e ↦
            let h : FightState = record g {
              turn_actions = set player action g.turn_actions;
              clock = stop_clock g.clock;
            } in
            rw e (
              resolve_fight_turn-Fair now luck f h
                record { hp_a = v.hp_a; hp_b = v.hp_b; living = v.living })
        | inr e ↦ rw e record { hp_a = v.hp_a; hp_b = v.hp_b; living = v.living }
      ]

step-Fair : (f g : FightState) (c : ℕ × Luck × Call) → Fair f g → Fair f (step g c)
unfolding step fire_timer_of enter_grace leave_grace finish_fight
step-Fair f g (now, luck, submits player action) v =
    elim (Option-cases (submit_turn_action now luck player action g).1) [
      | inl e ↦
          subst (Fair f) (sym (accepted_is now luck player action g e))
            (record_action-Fair now luck player action f g v)
      | inr (x, e) ↦ subst (Fair f) (sym (refused_is now luck player action g x e)) v
    ]
step-Fair f g (now, luck, fires h) v =
    fire_due-Fair now luck (g.clock.timers.pending h) f _
      record { hp_a = v.hp_a; hp_b = v.hp_b; living = v.living }
step-Fair f g (now, luck, goes w) v = record { hp_a = v.hp_a; hp_b = v.hp_b; living = v.living }
step-Fair f g (now, luck, returns w) v = record { hp_a = v.hp_a; hp_b = v.hp_b; living = v.living }
step-Fair f g (now, luck, forfeits) v = elim (Bool-cases (is_active g.status)) [
  | inl e ↦ simp e record { hp_a = v.hp_a; hp_b = v.hp_b; living = λ h. cc }
  | inr e ↦ simp e v
]

run_from-Fair : (f g : FightState) (cs : List (ℕ × Luck × Call)) → Fair f g → Fair f (run g cs)
unfolding run
run_from-Fair f g [] v = v
run_from-Fair f g (c ∷ cs) v = run_from-Fair f (step g c) cs (step-Fair f g c v)

-- From a fight whose fighters both have hit points, any history of submitted actions, timers,
-- disconnects, reconnects and forfeits raises nobody's hit points, and as long as the fight is
-- active both fighters have some: a turn that takes a fighter's last ends the fight.
pub run-living :
    (f : FightState) (cs : List (ℕ × Luck × Call))
    → 0 < f.player_a.current_hp
    → 0 < f.player_b.current_hp
    → let g = run f cs in
      (g.player_a.current_hp ≤ f.player_a.current_hp)
      × (g.player_b.current_hp ≤ f.player_b.current_hp)
      × (g.status ≡ active → (0 < g.player_a.current_hp) × (0 < g.player_b.current_hp))
run-living f cs a b =
    let v =
      run_from-Fair f f cs
        record { hp_a = omega arith; hp_b = omega arith; living = λ h. (a, b) } in
    (v.hp_a, v.hp_b, λ e. v.living (ap is_active e))
