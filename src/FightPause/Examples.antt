-- ===== src/FightPause/Examples.antt =====
-- Runs of a paused turn.
use sui_comabts.Prelude.{ℕ, ◌≡◌, refl, true, List, [], ◌∷◌, is_some}
use sui_comabts.FightPause.{
  begun, pause_fight_timer, resume_fight_timer, Call, pauses, resumes, step, run,
}
use sui_comabts.FightPause.Turn.{left_at, run-timer, pause_resume_lem}

abbrev blip : List (ℕ × Call ℕ)
blip = (5000, pauses) ∷ (6000, pauses) ∷ (30000, resumes 0) ∷ []

run-timer_example : (h : ℕ) × is_some ((run {A = ℕ} (begun 0 1000) blip).timers.pending h) ≡ true
unfolding run step begun pause_fight_timer resume_fight_timer
run-timer_example = (run-timer 0 1000 blip).1 refl

-- 16 of the 20 seconds were left.
pause_resume_lem_example :
    left_at 30000
      (resume_fight_timer {A = ℕ} 0 30000 (pause_fight_timer 5000 (begun 0 1000)).0).0.fight
    ≡ 16000
unfolding begun
pause_resume_lem_example = (pause_resume_lem {A = ℕ} 0 5000 30000 (begun 0 1000)).0
