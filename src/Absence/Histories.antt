-- ===== src/Absence/Histories.antt =====
-- server/src/ws/fight-room.ts: every event keeps the fight and the grace windows in agreement.
use sui_comabts.Prelude.{
  ℕ, ◌≡◌, refl, sym, ap, subst, ◌∙◌, true, false, List, [], ◌∷◌, some, arith, Text, ◌===◌, ===_refl,
  get, delete, get-delete, Bool-cases, inl, inr,
}
use sui_comabts.Scheduler.{Timer}
use sui_comabts.ReconnectGrace.{Forfeit, empty, mark_disconnect, fire, is_disconnect_pending}
use sui_comabts.ReconnectGrace.Records.{empty-Inv, mark_disconnect-Inv, mark_reconnect-Inv}
use sui_comabts.ReconnectGrace.Invariant.{fire-Inv, timer_owner}
use sui_comabts.FightRoom.{FightState, Luck, submit_turn_action, fire_timer_of}
use sui_comabts.Absence.{
  Arena, plays, forfeit, handle_player_disconnect, handle_player_reconnect, fire_forfeit, Event,
  disconnects, reconnects, expires, submits, fires, step, run,
}
use sui_comabts.Absence.Kept.{fire_timer_of-Kept, submit_turn_action-Kept}
use sui_comabts.Absence.Windows.{
  Tied, already, spent, opened, mark_disconnect-Outcome, absent, came, mark_reconnect-Return,
  fire-cases,
}
use sui_comabts.Absence.Agreement.{
  Agrees, settle_fight-Agrees, forfeit-Agrees, away-enter, away-leave,
}

disconnect-Agrees :
    (budget now : ℕ) (w : Text) (s : Arena)
    → Agrees s
    → Agrees (handle_player_disconnect budget now w s)
unfolding handle_player_disconnect plays
disconnect-Agrees budget now w s v = elim (Bool-cases (plays w s)) [
  | inr e ↦ rw e v
  | inl e ↦ rw e (elim (mark_disconnect-Outcome w s.fight_id budget now s.grace v.tied) [
    | already p g i f ↦ simp (i, f, g) v
    | spent i f t ↦
        rw (i, f)
          (forfeit-Agrees (record { wallet = w; fight = s.fight_id })
            (record s { grace = (mark_disconnect w s.fight_id budget now s.grace).grace })
            (mark_disconnect-Inv w s.fight_id budget now s.grace v.grace) t (ground (arith, e))
            (===_refl s.fight_id))
    | opened i f o t ↦
        rw (i, f)
          (record {
            grace = mark_disconnect-Inv w s.fight_id budget now s.grace v.grace;
            tied = t;
            window = λ l j. ground (arith, away-enter now w j s.fight, o j, v.window l j);
            gone = λ l b. absurd (ground (arith, l, e));
          })
  ])
]

reconnect-Agrees :
    (now : ℕ) (w : Text) (s : Arena) → Agrees s → Agrees (handle_player_reconnect now w s)
unfolding handle_player_reconnect is_disconnect_pending
reconnect-Agrees now w s v = elim (mark_reconnect-Return w s.fight_id now s.grace v.tied) [
  | absent p g i ↦ simp (i, g) v
  | came id p i q c t ↦ elim (Bool-cases s.listed) [
    | inl l ↦
        simp (i, l, q)
          (record {
            grace = mark_reconnect-Inv w now s.grace v.grace;
            tied = t;
            window = λ k j. ground (arith, away-leave now w j s.fight, c j, v.window l j);
            gone = λ k b. absurd (ground (arith, l, k));
          })
    | inr l ↦
        simp (i, l)
          (record {
            grace = mark_reconnect-Inv w now s.grace v.grace;
            tied = t;
            window = λ k j. absurd (ground (arith, l, k));
            gone = λ k b j. absurd (ground (arith, p, v.gone l b w));
          })
  ]
]

forfeit-unlisted : (f : Forfeit) (s : Arena) → s.listed ≡ false → forfeit f s ≡ s
unfolding forfeit
forfeit-unlisted f s l = ground (arith, l)

fire_forfeit-Agrees : (h : ℕ) (s : Arena) → Agrees s → Agrees (fire_forfeit h s)
unfolding fire_forfeit
fire_forfeit-Agrees h s v = elim (fire-cases h s.grace) [
  | inl e ↦ simp e v
  | inr (t, e, f, d) ↦ simp f (fired t e d)
]
  where
    after : Arena
    after = record s { grace = (fire h s.grace).0 }

    tied_after :
        (t : Timer Forfeit)
        → (fire h s.grace).0.records ≡ delete t.callback.wallet s.grace.records
        → Tied s.fight_id (fire h s.grace).0
    tied_after t d j r k =
        ground (
          arith,
          v.tied j r,
          get-delete t.callback.wallet j s.grace.records,
          sym (ap (get j) d) ∙ k,
        )

    fired :
        (t : Timer Forfeit)
        → s.grace.timers.pending h ≡ some t
        → (fire h s.grace).0.records ≡ delete t.callback.wallet s.grace.records
        → Agrees (forfeit t.callback after)
    fired t e d =
        let (r, k, on, same) = timer_owner s.grace h t v.grace e in
        elim (Bool-cases s.listed) [
          | inl l ↦
              forfeit-Agrees t.callback after (fire-Inv h s.grace v.grace) (tied_after t d) l
                (ap (λ x. x === s.fight_id) (sym same) ∙ v.tied t.callback.wallet r k)
          | inr l ↦ subst Agrees (sym (forfeit-unlisted t.callback after l)) (record {
            grace = fire-Inv h s.grace v.grace;
            tied = tied_after t d;
            window = λ q j. absurd (ground (arith, l, q));
            gone = λ q b j. absurd (ground (arith, k, v.gone l b t.callback.wallet));
          })
        ]

step-Agrees : (s : Arena) (e : ℕ × Luck × Event) → Agrees s → Agrees (step s e)
unfolding step
step-Agrees s (now, luck, disconnects budget w) v = disconnect-Agrees budget now w s v
step-Agrees s (now, luck, reconnects w) v = reconnect-Agrees now w s v
step-Agrees s (now, luck, expires h) v = fire_forfeit-Agrees h s v
step-Agrees s (now, luck, submits player action) v = elim (Bool-cases s.listed) [
  | inl l ↦ simp l (
      settle_fight-Agrees (submit_turn_action now luck player action s.fight).0 s
        (submit_turn_action-Kept now luck player action s.fight) v)
  | inr l ↦ simp l v
]
step-Agrees s (now, luck, fires h) v =
    settle_fight-Agrees (fire_timer_of now luck h s.fight) s (fire_timer_of-Kept now luck h s.fight)
      v

run_from-Agrees : (s : Arena) (es : List (ℕ × Luck × Event)) → Agrees s → Agrees (run s es)
unfolding run
run_from-Agrees s [] v = v
run_from-Agrees s (e ∷ es) v = run_from-Agrees (step s e) es (step-Agrees s e v)

-- A fight that has just been created, with no grace record and nobody disconnected.
abbrev pub created : Text → FightState → Arena
created id f = record {
  fight_id = id;
  fight = record f { disconnected_wallets = [] };
  listed = true;
  grace = empty;
}

created-Agrees : (id : Text) (f : FightState) → Agrees (created id f)
unfolding empty get is_disconnect_pending
created-Agrees id f = record {
  grace = empty-Inv;
  tied = λ w r k. absurd (ground (arith, k));
  window = λ l w. refl;
  gone = λ l b w. absurd (ground (arith, l));
}

-- From a fight just created, after any history of closed sockets, returning players, expired grace
-- windows, submitted actions and timers: while the fight is listed, the players that it counts as
-- disconnected are exactly those with a forfeit pending; every grace record is of the fight; once
-- the fight has ended, unless it was against the bot, no wallet has a grace record; and the grace
-- windows keep their own invariant.
pub run-Agrees :
    (id : Text) (f : FightState) (es : List (ℕ × Luck × Event)) → Agrees (run (created id f) es)
run-Agrees id f es = run_from-Agrees (created id f) es (created-Agrees id f)
