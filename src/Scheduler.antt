-- ===== src/Scheduler.antt =====
-- `setTimeout` and `clearTimeout`: the pending timers by handle. A timer carries what its callback
-- closes over. Handles are never used again.
use sui_comabts.Prelude.{ℕ, ◌+◌, ◌≤◌, ◌≡◌, Option, none, some, arith, ◌==◌, if◌then◌else◌}

pub record Timer {ℓ} (A : Type ℓ) : Type ℓ where
  pub due : ℕ
  pub callback : A

pub record Timers {ℓ} (A : Type ℓ) : Type ℓ where
  pub pending : ℕ → Option (Timer A)
  pub next_handle : ℕ

module _ {ℓ} {A : Type ℓ} where
  unfoldable pub no_timers : Timers A
  no_timers = record { pending = λ h. none; next_handle = 0 }

  -- `setTimeout(callback, due - now)`: the handle is the old `next_handle`.
  unfoldable pub schedule : A → ℕ → Timers A → Timers A
  schedule callback due ts = record {
    pending = λ h.
        if h == ts.next_handle
        then some (record { due = due; callback = callback })
        else ts.pending h;
    next_handle = ts.next_handle + 1;
  }

  unfoldable pub cancel : ℕ → Timers A → Timers A
  cancel handle ts = record ts { pending = λ h. if h == handle then none else ts.pending h }

  -- Only handles below `next_handle` are in use.
  abbrev pub Fresh : Timers A → Type ℓ
  Fresh ts = (h : ℕ) → ts.next_handle ≤ h → ts.pending h ≡ none

  pub schedule-Fresh : (a : A) (due : ℕ) (ts : Timers A) → Fresh ts → Fresh (schedule a due ts)
  unfolding schedule
  schedule-Fresh a due ts f h le = ground (arith, f h)

  pub cancel-Fresh : (k : ℕ) (ts : Timers A) → Fresh ts → Fresh (cancel k ts)
  unfolding cancel
  cancel-Fresh k ts f h le = ground (arith, f h)
