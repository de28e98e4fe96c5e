-- ===== src/FightPause/Turn.antt =====
-- server/src/ws/fight-pause.ts: the time that a turn has left, and its one timer.
use sui_comabts.Prelude.{
  ℕ, ◌+◌, ◌-◌, ◌≡◌, refl, true, false, List, [], ◌∷◌, Option, none, some, arith, if◌then◌else◌,
  or_else, is_some, Bool-cases, inl, inr,
}
use sui_comabts.Scheduler.{Timer, schedule, cancel, no_timers, Fresh, schedule-Fresh, cancel-Fresh}
use sui_comabts.FightPause.{
  begun, PauseableFight, Clocked, pause_fight_timer, resume_fight_timer, Call, pauses, resumes,
  step, run,
}

-- The milliseconds that the turn has left at a time of the clock.
abbrev pub left_at : ℕ → PauseableFight → ℕ
left_at now f =
    if f.turn_paused
    then or_else f.turn_paused_remaining_ms 0
    else or_else f.turn_deadline now - now

abbrev pub due_of {ℓ} : {A : Type ℓ} → Option (Timer A) → Option ℕ
due_of none = none
due_of (some t) = some t.due

module _ {ℓ} {A : Type ℓ} where
  -- The one timer is the turn's, due at the deadline, and there is none while the turn is paused.
  record Inv (c : Clocked A) : Type ℓ where
    fresh : Fresh c.timers
    frozen : c.fight.turn_paused ≡ true → c.fight.turn_timer ≡ none
    only : (h : ℕ) (t : Timer A) → c.timers.pending h ≡ some t → c.fight.turn_timer ≡ some h
    ticking :
        c.fight.turn_paused ≡ false
        → (h : ℕ) × (c.fight.turn_timer ≡ some h)
          × is_some (c.timers.pending h) ≡ true
          × (due_of (c.timers.pending h) ≡ c.fight.turn_deadline)

  pause-Inv : (now : ℕ) (c : Clocked A) → Inv c → Inv (pause_fight_timer now c).0
  unfolding pause_fight_timer cancel
  pause-Inv now c v = elim (Bool-cases c.fight.turn_paused) [
    | inl e ↦ simp e v
    | inr e ↦
        let (h, at_h, on, due) = v.ticking e in
        rw (e, at_h)
          record {
            fresh = cancel-Fresh h c.timers v.fresh;
            frozen = λ p. refl;
            only = λ k t q. ground (arith, v.only k t);
            ticking = λ f. cc;
          }
  ]

  resume-Inv : (a : A) (now : ℕ) (c : Clocked A) → Inv c → Inv (resume_fight_timer a now c).0
  unfolding resume_fight_timer schedule
  resume-Inv a now c v = elim (Bool-cases c.fight.turn_paused) [
    | inl e ↦ rw e record {
      fresh = schedule-Fresh a _ c.timers v.fresh;
      frozen = λ p. cc;
      only = λ k t q. ground (arith, v.only k t, v.frozen e);
      ticking = λ f. (c.timers.next_handle, refl, ground arith, ground arith);
    }
    | inr e ↦ simp e v
  ]

  run-Inv : (c : Clocked A) (calls : List (ℕ × Call A)) → Inv c → Inv (run c calls)
  unfolding run step
  run-Inv c [] v = v
  run-Inv c ((now, pauses) ∷ calls) v = run-Inv (step c (now, pauses)) calls (pause-Inv now c v)
  run-Inv c ((now, resumes a) ∷ calls) v =
      run-Inv (step c (now, resumes a)) calls (resume-Inv a now c v)

  begun-Inv : (a : A) (now : ℕ) → Inv (begun a now)
  unfolding begun schedule no_timers
  begun-Inv a now = record {
    fresh = λ h le. ground arith;
    frozen = λ p. cc;
    only = λ k t q. ground arith;
    ticking = λ f. (0, refl, refl, refl);
  }

  -- After any history of pauses and resumes of a turn: every pending timer is the turn's own and
  -- due at its deadline, there is none while the turn is paused, and there is one while it is
  -- not.
  pub run-timer :
      (a : A) (now : ℕ) (calls : List (ℕ × Call A))
      → let c = run (begun a now) calls in
        ((h : ℕ) (t : Timer A)
          → c.timers.pending h ≡ some t
          → (c.fight.turn_paused ≡ false)
            × (c.fight.turn_timer ≡ some h)
            × (c.fight.turn_deadline ≡ some t.due))
        × (c.fight.turn_paused ≡ false → (h : ℕ) × is_some (c.timers.pending h) ≡ true)
  run-timer a now calls =
      let c = run (begun a now) calls in
      let v = run-Inv (begun a now) calls (begun-Inv a now) in
      (
        λ h t e. elim (Bool-cases c.fight.turn_paused) [
          | inl p ↦ ground (arith, v.only h t e, v.frozen p)
          | inr p ↦
              let (k, at_k, on, due) = v.ticking p in
              (p, v.only h t e, ground (arith, e, at_k, due, v.only h t e))
        ],
        λ p. let (k, at_k, on, due) = v.ticking p in (k, on),
      )

  -- A pause at one time and a resume at any later or earlier one leave the turn exactly the time
  -- that it had: the new deadline is the time of the resume and that time. A second pause in between
  -- changes nothing.
  pub pause_resume_lem :
      (a : A) (from to : ℕ) (c : Clocked A)
      → let paused = (pause_fight_timer from c).0 in
        let resumed = (resume_fight_timer a to paused).0 in
        (left_at to resumed.fight ≡ left_at from c.fight)
        × (resumed.fight.turn_paused ≡ false)
        × (resumed.fight.turn_deadline ≡ some (to + left_at from c.fight))
        × ((pause_fight_timer to paused).0 ≡ paused)
  unfolding pause_fight_timer resume_fight_timer
  pause_resume_lem a from to c = elim (Bool-cases c.fight.turn_paused) [
    | inl e ↦ ground arith
    | inr e ↦ ground arith
  ]
