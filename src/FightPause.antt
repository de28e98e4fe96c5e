-- ===== src/FightPause.antt =====
-- server/src/ws/fight-pause.ts: the turn timer of a fight, frozen while a player is away. The clock
-- is an argument, and the callback that the source passes is what a timer carries.
pub mod Turn
mod Examples
use sui_comabts.Prelude.{
  ℕ, ◌+◌, ◌-◌, Bool, true, false, List, [], ◌∷◌, Option, none, some, if◌then◌else◌, or_else,
}
use sui_comabts.Scheduler.{Timers, no_timers, schedule, cancel}
use sui_comabts.Config.{turn_timer_ms}

pub record PauseableFight : Type 0 where
  pub turn_timer : Option ℕ
  pub turn_deadline : Option ℕ
  pub turn_paused : Bool
  pub turn_paused_remaining_ms : Option ℕ

pub record PauseResult : Type 0 where
  pub paused : Bool
  pub remaining_ms : ℕ

pub record ResumeResult : Type 0 where
  pub resumed : Bool
  pub deadline : ℕ
  pub remaining_ms : ℕ

-- A fight with the timers of its process.
pub record Clocked {ℓ} (A : Type ℓ) : Type ℓ where
  pub fight : PauseableFight
  pub timers : Timers A

-- The calls that change the fight, each with its clock.
pub data Call {ℓ} (A : Type ℓ) : Type ℓ where
  pauses : Call A
  resumes : A → Call A

module _ {ℓ} {A : Type ℓ} where
  -- A turn that `startNextTurn` begins: its deadline, and its timer as the one pending.
  unfoldable pub begun : A → ℕ → Clocked A
  begun on_timeout now = record {
    fight = record {
      turn_timer = some 0;
      turn_deadline = some (now + turn_timer_ms);
      turn_paused = false;
      turn_paused_remaining_ms = none;
    };
    timers = schedule on_timeout (now + turn_timer_ms) no_timers;
  }

  abbrev pub clear_timer : Option ℕ → Timers A → Timers A
  clear_timer none ts = ts
  clear_timer (some h) ts = cancel h ts

  unfoldable pub pause_fight_timer : ℕ → Clocked A → Clocked A × PauseResult
  pause_fight_timer now c =
      let f = c.fight in
      let left = or_else f.turn_deadline now - now in
      if f.turn_paused
      then (c, record { paused = false; remaining_ms = or_else f.turn_paused_remaining_ms 0 })
      else (
        record {
          fight = record {
            turn_timer = none;
            turn_deadline = f.turn_deadline;
            turn_paused = true;
            turn_paused_remaining_ms = some left;
          };
          timers = clear_timer f.turn_timer c.timers;
        },
        record { paused = true; remaining_ms = left },
      )

  unfoldable pub resume_fight_timer : A → ℕ → Clocked A → Clocked A × ResumeResult
  resume_fight_timer on_timeout now c =
      let f = c.fight in
      let left = or_else f.turn_paused_remaining_ms 0 in
      if f.turn_paused
      then (
        record {
          fight = record {
            turn_timer = some c.timers.next_handle;
            turn_deadline = some (now + left);
            turn_paused = false;
            turn_paused_remaining_ms = none;
          };
          timers = schedule on_timeout (now + left) c.timers;
        },
        record { resumed = true; deadline = now + left; remaining_ms = left },
      )
      else (c, record { resumed = false; deadline = or_else f.turn_deadline 0; remaining_ms = 0 })

  unfoldable pub step : Clocked A → ℕ × Call A → Clocked A
  step c (now, pauses) = (pause_fight_timer now c).0
  step c (now, resumes a) = (resume_fight_timer a now c).0

  unfoldable pub run : Clocked A → List (ℕ × Call A) → Clocked A
  run c [] = c
  run c (call ∷ calls) = run (step c call) calls
