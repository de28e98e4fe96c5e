-- ===== src/Treasury.antt =====
-- server/src/utils/sui-settle.ts: the queue of treasury transactions, and the retries of a chain
-- call. A task is what `enqueueTreasury` was called with; its thunk's promise is pending while the
-- task is among the running ones.
pub mod Fifo
pub mod Drain
pub mod Retry
mod Examples
use sui_comabts.Prelude.{
  ℕ, zero, suc, ◌+◌, ◌-◌, Bool, true, false, List, [], ◌∷◌, ◌++◌, Option, none, some, Text, ltb,
  if◌then◌else◌, length, get_elem?, map,
}

pub record TreasuryTask : Type 0 where
  pub label : Text
  pub enqueued_at : ℕ

pub record Running : Type 0 where
  pub task : TreasuryTask
  pub started_at : ℕ

pub record TreasuryQueue : Type 0 where
  pub task_queue : List TreasuryTask
  pub in_flight : ℕ
  pub running : List Running
  pub total_completed : ℕ
  pub last_drain_ms : ℕ
  pub max_observed_depth : ℕ

unfoldable pub idle : TreasuryQueue
idle = record {
  task_queue = [];
  in_flight = 0;
  running = [];
  total_completed = 0;
  last_drain_ms = 0;
  max_observed_depth = 0;
}

-- `TREASURY_QUEUE_CONCURRENCY` of the whole part of the number that the environment gives, or of
-- `none` if that is not finite.
unfoldable pub concurrency_of : Option ℕ → ℕ
concurrency_of none = 1
concurrency_of (some n) = if ltb n 1 then 1 else n

-- What one run of `pumpTreasuryQueue` leaves waiting, and the tasks that it starts, in order.
unfoldable pub pump : ℕ → ℕ → List TreasuryTask → List TreasuryTask × List TreasuryTask
pump concurrency in_flight [] = ([], [])
pump concurrency in_flight (t ∷ ts) =
    let rest = pump concurrency (in_flight + 1) ts in
    if ltb in_flight concurrency then (rest.0, t ∷ rest.1) else (t ∷ ts, [])

abbrev pub start_at : ℕ → TreasuryTask → Running
start_at now t = record { task = t; started_at = now }

-- `pumpTreasuryQueue`: the queue, and the tasks whose thunks it calls.
unfoldable pub pump_treasury_queue : ℕ → ℕ → TreasuryQueue → TreasuryQueue × List TreasuryTask
pump_treasury_queue concurrency now q =
    let pumped = pump concurrency q.in_flight q.task_queue in
    (
      record q {
        task_queue = pumped.0;
        in_flight = q.in_flight + length pumped.1;
        running = q.running ++ map (start_at now) pumped.1;
      },
      pumped.1,
    )

-- `enqueueTreasury`
unfoldable pub enqueue_treasury : ℕ → ℕ → Text → TreasuryQueue → TreasuryQueue × List TreasuryTask
enqueue_treasury concurrency now label q =
    let waiting = q.task_queue ++ record { label = label; enqueued_at = now } ∷ [] in
    let depth = length waiting + q.in_flight in
    pump_treasury_queue concurrency now (record q {
      task_queue = waiting;
      max_observed_depth = if ltb q.max_observed_depth depth then depth else q.max_observed_depth;
    })

-- The list without its element at an index.
unfoldable pub drop_at {ℓ} : {A : Type ℓ} → ℕ → List A → List A
drop_at i [] = []
drop_at zero (x ∷ xs) = xs
drop_at (suc i) (x ∷ xs) = x ∷ drop_at i xs

-- The `finally` of a thunk whose promise settles.
abbrev pub finish_at :
    ℕ → ℕ → ℕ → Option Running → TreasuryQueue → TreasuryQueue × List TreasuryTask
finish_at concurrency now i none q = (q, [])
finish_at concurrency now i (some r) q = pump_treasury_queue concurrency now (record q {
  in_flight = q.in_flight - 1;
  running = drop_at i q.running;
  total_completed = q.total_completed + 1;
  last_drain_ms = now - r.started_at;
})

-- The promise of the running task at an index settles.
unfoldable pub settle_task : ℕ → ℕ → ℕ → TreasuryQueue → TreasuryQueue × List TreasuryTask
settle_task concurrency now i q = finish_at concurrency now i (get_elem? q.running i) q

-- The events of the queue, with the clock of each: a call of `enqueueTreasury`, and the end of a
-- running task.
pub data Call : Type 0 where
  enqueues : Text → Call
  settles : ℕ → Call

unfoldable pub step : ℕ → TreasuryQueue → ℕ × Call → TreasuryQueue × List TreasuryTask
step concurrency q (now, enqueues label) = enqueue_treasury concurrency now label q
step concurrency q (now, settles i) = settle_task concurrency now i q

-- A history: the queue that it leaves, and the tasks that it starts, in order.
unfoldable pub run : ℕ → TreasuryQueue → List (ℕ × Call) → TreasuryQueue × List TreasuryTask
run concurrency q [] = (q, [])
run concurrency q (c ∷ cs) =
    let once = step concurrency q c in
    let rest = run concurrency once.0 cs in (rest.0, once.1 ++ rest.1)

-- One attempt of a chain call: its value, or the error that it throws.
pub data Attempt {ℓ κ} (A : Type ℓ) (E : Type κ) : Type (ℓ ⊔ κ) where
  returns : A → Attempt A E
  throws : E → Attempt A E

pub record Retried {ℓ κ} (A : Type ℓ) (E : Type κ) : Type (ℓ ⊔ κ) where
  pub outcome : Attempt A E
  pub attempts : ℕ
  pub slept : List ℕ

-- `withRetry` from an attempt on, with the pauses that are left: `fn i` is what the call does at its
-- attempt `i`.
unfoldable pub retry_from {ℓ κ} :
    {A : Type ℓ} {E : Type κ} → (ℕ → Attempt A E) → ℕ → List ℕ → Retried A E
retry_from fn i [] = record { outcome = fn i; attempts = i + 1; slept = [] }
retry_from fn i (b ∷ bs) = elim (fn i) [
  | returns v ↦ record { outcome = returns v; attempts = i + 1; slept = [] }
  | throws e ↦
      let later = retry_from fn (i + 1) bs in
      record { outcome = later.outcome; attempts = later.attempts; slept = b ∷ later.slept }
]

unfoldable pub with_retry {ℓ κ} :
    {A : Type ℓ} {E : Type κ} → (ℕ → Attempt A E) → List ℕ → Retried A E
with_retry fn backoff_ms = retry_from fn 0 backoff_ms
