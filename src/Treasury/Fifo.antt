-- ===== src/Treasury/Fifo.antt =====
-- server/src/utils/sui-settle.ts: the treasury queue starts its tasks in the order of the calls, as
-- many at a time as it may.
use sui_comabts.Prelude.{
  ℕ, zero, suc, ◌+◌, ◌-◌, ◌≤◌, ◌<◌, ◌≡◌, ◌⊎◌, inl, inr, refl, sym, ap, ◌∙◌, List, [], ◌∷◌, ◌++◌,
  Option, none, some, arith, length, length-append, get_elem?, map, Option-cases,
}
use mathlib.Core.List.{append_assoc, append-nil}
use sui_comabts.Treasury.{
  TreasuryTask, TreasuryQueue, idle, concurrency_of, pump, start_at, pump_treasury_queue,
  enqueue_treasury, drop_at, settle_task, Call, enqueues, settles, step, run,
}

pub concurrency_of-pos : (raw : Option ℕ) → 0 < concurrency_of raw
unfolding concurrency_of
concurrency_of-pos none = omega arith
concurrency_of-pos (some n) = ground arith

length-map {ℓ κ} :
    {A : Type ℓ} {B : Type κ} (f : A → B) (xs : List A) → length (map f xs) ≡ length xs
length-map f [] = refl
length-map f (x ∷ xs) = omega (arith, length-map f xs)

length-drop_at {ℓ} :
    {A : Type ℓ} (i : ℕ) (xs : List A) (x : A)
    → get_elem? xs i ≡ some x
    → length (drop_at i xs) + 1 ≡ length xs
unfolding drop_at
length-drop_at i [] x e = absurd (ground arith)
length-drop_at zero (y ∷ ys) x e = omega arith
length-drop_at (suc i) (y ∷ ys) x e = omega (arith, length-drop_at i ys x e)

pub pump-append : (c n : ℕ) (ts : List TreasuryTask) → (pump c n ts).1 ++ (pump c n ts).0 ≡ ts
unfolding pump
pump-append c n [] = refl
pump-append c n (t ∷ ts) = ground (arith, pump-append c (n + 1) ts)

length-pump :
    (c n : ℕ) (ts : List TreasuryTask) → length (pump c n ts).0 + length (pump c n ts).1 ≡ length ts
unfolding pump
length-pump c n [] = refl
length-pump c n (t ∷ ts) = ground (arith, length-pump c (n + 1) ts)

pump-le : (c n : ℕ) (ts : List TreasuryTask) → n ≤ c → n + length (pump c n ts).1 ≤ c
unfolding pump
pump-le c n [] le = omega arith
pump-le c n (t ∷ ts) le = ground (arith, pump-le c (n + 1) ts)

pump-full :
    (c n : ℕ) (ts : List TreasuryTask)
    → n ≤ c
    → (length (pump c n ts).0 ≡ 0) ⊎ (n + length (pump c n ts).1 ≡ c)
unfolding pump
pump-full c n [] le = inl refl
pump-full c n (t ∷ ts) le = ground (arith, pump-full c (n + 1) ts)

-- The queue before a call and between two: `counted` is the number of running tasks, `within` the
-- bound on them.
pub record Bounded (c : ℕ) (q : TreasuryQueue) : Type 0 where
  pub counted : q.in_flight ≡ length q.running
  pub within : q.in_flight ≤ c
  pub depth : length q.task_queue + q.in_flight ≤ q.max_observed_depth

-- The state between two events: also, nothing waits while fewer than `c` tasks run.
pub record Inv (c : ℕ) (q : TreasuryQueue) : Type 0 where
  pub bounded : Bounded c q
  pub busy : (length q.task_queue ≡ 0) ⊎ (q.in_flight ≡ c)

pub idle-Inv : (c : ℕ) → Inv c idle
unfolding idle
idle-Inv c = record {
  bounded = record { counted = refl; within = omega arith; depth = omega arith };
  busy = inl refl;
}

pump_treasury_queue-Inv :
    (c now : ℕ) (q : TreasuryQueue) → Bounded c q → Inv c (pump_treasury_queue c now q).0
unfolding pump_treasury_queue
pump_treasury_queue-Inv c now q v = record {
  bounded = record {
    counted = omega (
      arith,
      v.counted,
      length-append q.running (map (start_at now) (pump c q.in_flight q.task_queue).1),
      length-map (start_at now) (pump c q.in_flight q.task_queue).1,
    );
    within = pump-le c q.in_flight q.task_queue v.within;
    depth = omega (arith, v.depth, length-pump c q.in_flight q.task_queue);
  };
  busy = pump-full c q.in_flight q.task_queue v.within;
}

pub step-Inv : (c : ℕ) (q : TreasuryQueue) (e : ℕ × Call) → Inv c q → Inv c (step c q e).0
unfolding step enqueue_treasury settle_task
step-Inv c q (now, enqueues label) v =
    pump_treasury_queue-Inv c now _
      (record { counted = v.bounded.counted; within = v.bounded.within; depth = ground arith })
step-Inv c q (now, settles i) v = elim (Option-cases (get_elem? q.running i)) [
  | inl n ↦ rw n v
  | inr (r, e) ↦ rw e (
      pump_treasury_queue-Inv c now _ (record {
        counted = omega (arith, v.bounded.counted, length-drop_at i q.running r e);
        within = omega (arith, v.bounded.within);
        depth = omega (arith, v.bounded.depth);
      }))
]

pub run_from-Inv :
    (c : ℕ) (q : TreasuryQueue) (es : List (ℕ × Call)) → Inv c q → Inv c (run c q es).0
unfolding run
run_from-Inv c q [] v = v
run_from-Inv c q (e ∷ es) v = run_from-Inv c (step c q e).0 es (step-Inv c q e v)

pub idle-run-Inv :
    (raw : Option ℕ) (es : List (ℕ × Call))
    → Inv (concurrency_of raw) (run (concurrency_of raw) idle es).0
idle-run-Inv raw es = run_from-Inv (concurrency_of raw) idle es (idle-Inv (concurrency_of raw))

-- The tasks of the calls of `enqueueTreasury` in a history, in order.
unfoldable pub enqueued : List (ℕ × Call) → List TreasuryTask
enqueued [] = []
enqueued ((now, enqueues label) ∷ es) = record { label = label; enqueued_at = now } ∷ enqueued es
enqueued ((now, settles i) ∷ es) = enqueued es

-- One event starts tasks from the front of the queue, after the new task, if any, is put at its end.
step-append :
    (c : ℕ) (q : TreasuryQueue) (e : ℕ × Call)
    → (step c q e).1 ++ (step c q e).0.task_queue ≡ q.task_queue ++ enqueued (e ∷ [])
unfolding step enqueue_treasury settle_task pump_treasury_queue enqueued
step-append c q (now, enqueues label) = pump-append c q.in_flight _
step-append c q (now, settles i) = elim (Option-cases (get_elem? q.running i)) [
  | inl n ↦ rw n (sym (append-nil q.task_queue))
  | inr (r, e) ↦ rw e (pump-append c (q.in_flight - 1) q.task_queue ∙ sym (append-nil q.task_queue))
]

-- Over a history from any queue, the tasks that are started, and then those still waiting, are those
-- that waited before and then those enqueued, in order.
pub run-append :
    (c : ℕ) (q : TreasuryQueue) (es : List (ℕ × Call))
    → (run c q es).1 ++ (run c q es).0.task_queue ≡ q.task_queue ++ enqueued es
unfolding run enqueued
run-append c q [] = sym (append-nil q.task_queue)
run-append c q (e ∷ es) =
    let once = step c q e in
    append_assoc once.1 (run c once.0 es).1 (run c once.0 es).0.task_queue
    ∙ ap (λ ts. once.1 ++ ts) (run-append c once.0 es)
    ∙ sym (append_assoc once.1 once.0.task_queue (enqueued es))
    ∙ ap (λ ts. ts ++ enqueued es) (step-append c q e)
    ∙ append_assoc q.task_queue (enqueued (e ∷ [])) (enqueued es)
    ∙ ap (λ ts. q.task_queue ++ ts) (enqueued-cons e es)
  where
    enqueued-cons :
        (e : ℕ × Call) (es : List (ℕ × Call)) → enqueued (e ∷ []) ++ enqueued es ≡ enqueued (e ∷ es)
    enqueued-cons (now, enqueues label) es = refl
    enqueued-cons (now, settles i) es = refl

-- One event: the tasks completed, running and waiting are one more after a call, and as many after
-- the end of a task.
step-total :
    (c : ℕ) (q : TreasuryQueue) (e : ℕ × Call)
    → Inv c q
    → (step c q e).0.total_completed + (step c q e).0.in_flight + length (step c q e).0.task_queue
      ≡ q.total_completed + q.in_flight + length q.task_queue + length (enqueued (e ∷ []))
unfolding step enqueue_treasury settle_task pump_treasury_queue enqueued
step-total c q (now, enqueues label) v = omega (
  arith,
  length-pump c q.in_flight (q.task_queue ++ record { label = label; enqueued_at = now } ∷ []),
  length-append q.task_queue (record { label = label; enqueued_at = now } ∷ []),
)
step-total c q (now, settles i) v = elim (Option-cases (get_elem? q.running i)) [
  | inl n ↦ rw n (omega arith)
  | inr (r, e) ↦ rw e (
      omega (
        arith,
        v.bounded.counted,
        length-drop_at i q.running r e,
        length-pump c (q.in_flight - 1) q.task_queue,
      ))
]

pub run-total :
    (c : ℕ) (q : TreasuryQueue) (es : List (ℕ × Call))
    → Inv c q
    → (run c q es).0.total_completed + (run c q es).0.in_flight + length (run c q es).0.task_queue
      ≡ q.total_completed + q.in_flight + length q.task_queue + length (enqueued es)
unfolding run enqueued
run-total c q [] v = omega arith
run-total c q ((now, enqueues label) ∷ es) v = omega (
  arith,
  run-total c (step c q (now, enqueues label)).0 es (step-Inv c q (now, enqueues label) v),
  step-total c q (now, enqueues label) v,
)
run-total c q ((now, settles i) ∷ es) v = omega (
  arith,
  run-total c (step c q (now, settles i)).0 es (step-Inv c q (now, settles i) v),
  step-total c q (now, settles i) v,
)

-- In every state that a history of calls and finished tasks reaches from the idle queue: `in_flight`
-- is the number of running tasks and at most the concurrency; no task waits while a further one may
-- run; the tasks waiting and running are at most the deepest that the queue has recorded; the tasks
-- started so far, and then those still waiting, are exactly the tasks of the calls of
-- `enqueueTreasury`, in the order of the calls, so that each is started at most once; and the tasks
-- completed, running and waiting are together as many as the calls.
pub fifo_lem :
    (raw : Option ℕ) (es : List (ℕ × Call))
    → let now = run (concurrency_of raw) idle es in
      Inv (concurrency_of raw) now.0
      × (now.1 ++ now.0.task_queue ≡ enqueued es)
      × (now.0.total_completed + now.0.in_flight + length now.0.task_queue ≡ length (enqueued es))
unfolding idle
fifo_lem raw es = (
  idle-run-Inv raw es,
  run-append (concurrency_of raw) idle es,
  omega (arith, run-total (concurrency_of raw) idle es (idle-Inv (concurrency_of raw))),
)
