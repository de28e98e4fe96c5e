-- ===== src/Treasury/Drain.antt =====
-- server/src/utils/sui-settle.ts: the treasury queue empties itself.
use sui_comabts.Prelude.{
  ℕ, ◌+◌, ◌<◌, ◌≡◌, ◌⊎◌, inl, inr, refl, sym, ap, ◌∙◌, true, List, [], ◌∷◌, ◌++◌, Option, some,
  arith, is_some, length, get_elem?, Option-cases, ℕ_discrete,
}
use mathlib.Core.List.{append-nil}
use sui_comabts.Treasury.{
  TreasuryTask, TreasuryQueue, Running, idle, concurrency_of, Call, settle_task,
  pump_treasury_queue, settles, step, run,
}
use sui_comabts.Treasury.Fifo.{
  Inv, idle-run-Inv, run_from-Inv, concurrency_of-pos, enqueued, run-append, run-total,
}

-- The end of a running task, any of them, at each event.
unfoldable pub Settling : ℕ → TreasuryQueue → List (ℕ × ℕ) → Type 0
Settling c q [] = Unit
Settling c q ((now, i) ∷ es) =
    (is_some (get_elem? q.running i) ≡ true) × Settling c (step c q (now, settles i)).0 es

abbrev pub settlements : List (ℕ × ℕ) → List (ℕ × Call)
settlements [] = []
settlements ((now, i) ∷ es) = (now, settles i) ∷ settlements es

abbrev pub outstanding : TreasuryQueue → ℕ
outstanding q = length q.task_queue + length q.running

enqueued-settlements : (es : List (ℕ × ℕ)) → enqueued (settlements es) ≡ []
unfolding enqueued
enqueued-settlements [] = refl
enqueued-settlements ((now, i) ∷ es) = enqueued-settlements es

settled :
    (now c : ℕ) (q : TreasuryQueue) (i : ℕ) (r : Running)
    → get_elem? q.running i ≡ some r
    → (step c q (now, settles i)).0.total_completed ≡ q.total_completed + 1
unfolding step settle_task pump_treasury_queue
settled now c q i r e = rw e refl

run-completed :
    (c : ℕ) (q : TreasuryQueue) (es : List (ℕ × ℕ))
    → Settling c q es
    → (run c q (settlements es)).0.total_completed ≡ q.total_completed + length es
unfolding run Settling
run-completed c q [] h = omega arith
run-completed c q ((now, i) ∷ es) (h, hs) =
    omega (arith, run-completed c (step c q (now, settles i)).0 es hs, completed)
  where
    completed : (step c q (now, settles i)).0.total_completed ≡ q.total_completed + 1
    completed = elim (Option-cases (get_elem? q.running i)) [
      | inl n ↦ absurd (ground (arith, h))
      | inr (r, e) ↦ settled now c q i r e
    ]

empty-length {ℓ} : {A : Type ℓ} (xs : List A) → length xs ≡ 0 → xs ≡ []
empty-length [] e = refl
empty-length (x ∷ xs) e = absurd (omega (arith, e))

first {ℓ} : {A : Type ℓ} (xs : List A) → 0 < length xs → is_some (get_elem? xs 0) ≡ true
first [] h = absurd (omega (arith, h))
first (x ∷ xs) h = refl

outstanding-run :
    (c : ℕ) (q : TreasuryQueue) (es : List (ℕ × ℕ))
    → Inv c q
    → Settling c q es
    → outstanding (run c q (settlements es)).0 + length es ≡ outstanding q
outstanding-run c q es v h = omega (
  arith,
  run-completed c q es h,
  run-total c q (settlements es) v,
  ap length (enqueued-settlements es),
  v.bounded.counted,
  (run_from-Inv c q (settlements es) v).bounded.counted,
)

-- The queue after a run of ends of tasks: it is empty, and the run has started all that waited, in
-- order; or a task is running, whose end the run does not hold yet.
unfoldable pub Drained : TreasuryQueue → TreasuryQueue × List TreasuryTask → Type 0
Drained q now =
    ((now.0.task_queue ≡ []) × (now.0.running ≡ []) × (now.1 ≡ q.task_queue))
    ⊎ (is_some (get_elem? now.0.running 0) ≡ true)

run-Drained :
    (c : ℕ) (q : TreasuryQueue) (es : List (ℕ × Call))
    → 0 < c
    → Inv c q
    → enqueued es ≡ []
    → Drained q (run c q es)
unfolding Drained
run-Drained c q es pos v none_new = elim (run_from-Inv c q es v).busy [
  | inl e ↦ elim (ℕ_discrete (length now.0.running) 0) [
    | yes z ↦ inl (empty-length _ e, empty-length _ z, started (empty-length _ e))
    | no n ↦ inr (first now.0.running (omega (arith, n)))
  ]
  | inr e ↦
      inr (first now.0.running (omega (arith, e, pos, (run_from-Inv c q es v).bounded.counted)))
]
  where
    now : TreasuryQueue × List TreasuryTask
    now = run c q es

    started : now.0.task_queue ≡ [] → now.1 ≡ q.task_queue
    started e =
        sym (append-nil now.1)
        ∙ ap (λ ts. now.1 ++ ts) (sym e)
        ∙ run-append c q es
        ∙ ap (λ ts. q.task_queue ++ ts) none_new
        ∙ append-nil q.task_queue

-- From any queue that a history reaches, let running tasks end one by one, any running one each
-- time, with no new call. Each end lowers by one the tasks waiting or running, so there are at most
-- as many ends as such tasks; and at every point either a task is running, which can end next, or
-- nothing waits or runs and the tasks that waited have all been started, in their order.
pub settlements-drain :
    (raw : Option ℕ) (past : List (ℕ × Call)) (es : List (ℕ × ℕ))
    → Settling (concurrency_of raw) (run (concurrency_of raw) idle past).0 es
    → let q = (run (concurrency_of raw) idle past).0 in
      let now = run (concurrency_of raw) q (settlements es) in
      (outstanding now.0 + length es ≡ outstanding q) × Drained q now
settlements-drain raw past es h =
    let c = concurrency_of raw in
    let q = (run c idle past).0 in
    (
      outstanding-run c q es (idle-run-Inv raw past) h,
      run-Drained c q (settlements es) (concurrency_of-pos raw) (idle-run-Inv raw past)
          (enqueued-settlements es),
    )
