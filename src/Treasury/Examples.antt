-- ===== src/Treasury/Examples.antt =====
-- Runs of the treasury queue, and of a retried call.
use sui_comabts.Prelude.{
  ℕ, ◌+◌, ◌≤◌, ◌≡◌, ◌⊎◌, refl, true, List, [], ◌∷◌, ◌++◌, none, ltb, if◌then◌else◌, length,
}
use sui_comabts.Treasury.{
  idle, concurrency_of, pump, pump_treasury_queue, enqueue_treasury, drop_at, settle_task, Call,
  enqueues, settles, step, run, Attempt, returns, throws, with_retry,
}
use sui_comabts.Treasury.Fifo.{Inv, enqueued, fifo_lem}
use sui_comabts.Treasury.Drain.{Settling, settlements, outstanding, Drained, settlements-drain}
use sui_comabts.Treasury.Retry.{all_throw, take, with_retry-cases}

-- Three calls, the second while the first runs, and the end of the first.
abbrev burst : List (ℕ × Call)
burst =
    (100, enqueues (115 ∷ []))
    ∷ (110, enqueues (99 ∷ []))
    ∷ (120, enqueues (108 ∷ []))
    ∷ (300, settles 0)
    ∷ []

fifo_lem_example :
    Inv 1 (run 1 idle burst).0
    × ((run 1 idle burst).1 ++ (run 1 idle burst).0.task_queue ≡ enqueued burst)
    × ((run 1 idle burst).0.total_completed
          + (run 1 idle burst).0.in_flight
          + length (run 1 idle burst).0.task_queue
        ≡ length (enqueued burst))
unfolding concurrency_of
fifo_lem_example = fifo_lem none burst

abbrev ends : List (ℕ × ℕ)
ends = (400, 0) ∷ (500, 0) ∷ []

settlements-drain_example :
    (outstanding (run 1 (run 1 idle burst).0 (settlements ends)).0 + length ends
      ≡ outstanding (run 1 idle burst).0)
    × Drained (run 1 idle burst).0 (run 1 (run 1 idle burst).0 (settlements ends))
unfolding concurrency_of run step enqueue_treasury settle_task pump_treasury_queue pump idle drop_at
    Settling
settlements-drain_example = settlements-drain none burst ends (refl, (refl, tt))

-- A call that fails twice, under the pauses of one and three seconds.
abbrev flaky : ℕ → Attempt ℕ ℕ
flaky n = if ltb n 2 then throws n else returns 7

abbrev pauses : List ℕ
pauses = 1000 ∷ 3000 ∷ []

with_retry-cases_example :
    ((k : ℕ) × (v : ℕ) × (k ≤ 2)
      × (all_throw flaky 0 k ≡ true)
      × (flaky k ≡ returns v)
      × (with_retry flaky pauses
          ≡ record { outcome = returns v; attempts = k + 1; slept = take k pauses }))
    ⊎ ((e : ℕ) × (all_throw flaky 0 3 ≡ true)
        × (flaky 2 ≡ throws e)
        × (with_retry flaky pauses ≡ record { outcome = throws e; attempts = 3; slept = pauses }))
with_retry-cases_example = with_retry-cases flaky pauses
