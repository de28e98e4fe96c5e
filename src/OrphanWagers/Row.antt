-- ===== src/OrphanWagers/Row.antt =====
-- server/src/data/orphan-wager-recovery.ts: what the sweep does to one row.
use sui_comabts.Prelude.{
  ℕ, ◌+◌, ◌≡◌, inl, inr, refl, sym, ap, ◌∙◌, Bool, true, false, ◌&&◌, ◌||◌, not, List, [], ◌∷◌,
  ◌++◌, Option, none, some, arith, Text, ◌==◌, if◌then◌else◌, Bool-cases,
}
use mathlib.Core.List.{append-nil}
use sui_comabts.Treasury.{Attempt, returns, throws}
use sui_comabts.Treasury.Retry.{Attempt-cases}
use sui_comabts.OrphanWagers.{
  SweepDeps, Effect, cancels, deletes, Sweeping, sweep_one, caught, delete_then, cancel_then,
  unchanged, with_settled,
}

abbrev pub succeeds {ℓ κ} : {A : Type ℓ} {E : Type κ} → Attempt A E → Bool
succeeds (returns v) = true
succeeds (throws e) = false

-- The chain tells the status.
abbrev pub tells : ℕ → Attempt (Option ℕ) Text → Bool
tells n (throws e) = false
tells n (returns none) = false
tells n (returns (some m)) = m == n

module _ (deps : SweepDeps) where
  -- The stakes are locked: active, or pending approval.
  unfoldable pub is_locked : Text → Bool
  is_locked id = tells 1 (deps.get_wager_status id) || tells 3 (deps.get_wager_status id)

  unfoldable pub is_settled : Text → Bool
  is_settled id = tells 2 (deps.get_wager_status id)

  -- The row may go: settled, waiting, or locked and refunded.
  unfoldable pub is_over : Text → Bool
  is_over id =
      is_settled id
      || tells 0 (deps.get_wager_status id)
      || (is_locked id && succeeds (deps.admin_cancel_wager id))

  unfoldable pub is_refunded : Text → Bool
  is_refunded id =
      is_locked id && succeeds (deps.admin_cancel_wager id) && succeeds (deps.delete_row id)

  -- The status is not known, or one of the calls throws.
  unfoldable pub is_error : Text → Bool
  is_error id = not (is_over id && succeeds (deps.delete_row id))

abbrev pub cancelled_ids : List Effect → List Text
cancelled_ids [] = []
cancelled_ids (cancels id ∷ es) = id ∷ cancelled_ids es
cancelled_ids (deletes id ∷ es) = cancelled_ids es

abbrev pub deleted_ids : List Effect → List Text
deleted_ids [] = []
deleted_ids (cancels id ∷ es) = deleted_ids es
deleted_ids (deletes id ∷ es) = id ∷ deleted_ids es

pub cancelled_ids-append :
    (es fs : List Effect) → cancelled_ids (es ++ fs) ≡ cancelled_ids es ++ cancelled_ids fs
cancelled_ids-append [] fs = refl
cancelled_ids-append (cancels id ∷ es) fs = ap (λ ids. id ∷ ids) (cancelled_ids-append es fs)
cancelled_ids-append (deletes id ∷ es) fs = cancelled_ids-append es fs

pub deleted_ids-append :
    (es fs : List Effect) → deleted_ids (es ++ fs) ≡ deleted_ids es ++ deleted_ids fs
deleted_ids-append [] fs = refl
deleted_ids-append (cancels id ∷ es) fs = deleted_ids-append es fs
deleted_ids-append (deletes id ∷ es) fs = ap (λ ids. id ∷ ids) (deleted_ids-append es fs)

abbrev pub one_if : Bool → ℕ
one_if b = if b then 1 else 0

abbrev pub if_so : Bool → Text → List Text
if_so b id = if b then id ∷ [] else []

-- What one row adds.
pub record Row (locked settled over refunded error : Bool) (id : Text) (s t : Sweeping)
    : Type 0 where
  pub scanned : t.result.rows_scanned ≡ s.result.rows_scanned
  pub cancelled : t.result.cancelled ≡ s.result.cancelled + one_if refunded
  pub already_settled : t.result.already_settled ≡ s.result.already_settled + one_if settled
  pub errors : t.result.errors ≡ s.result.errors + one_if error
  pub refunds : cancelled_ids t.effects ≡ cancelled_ids s.effects ++ if_so locked id
  pub drops : deleted_ids t.effects ≡ deleted_ids s.effects ++ if_so over id

-- No call is made, or one that throws at once.
quiet-Row : (id : Text) (s : Sweeping) → Row false false false false true id s (caught (s, true))
quiet-Row id s = record {
  scanned = refl;
  cancelled = omega arith;
  already_settled = omega arith;
  errors = refl;
  refunds = sym (append-nil (cancelled_ids s.effects));
  drops = sym (append-nil (deleted_ids s.effects));
}

delete-Row :
    (deps : SweepDeps) (id : Text) (s : Sweeping)
    → Row false false true false
        (not (succeeds (deps.delete_row id)))
        id
        s
        (caught (delete_then deps id unchanged s))
delete-Row deps id s = elim (Attempt-cases (deps.delete_row id)) [
  | inl (v, q) ↦ rw q (record {
    scanned = refl;
    cancelled = omega arith;
    already_settled = omega arith;
    errors = omega arith;
    refunds = cancelled_ids-append s.effects (deletes id ∷ []);
    drops = deleted_ids-append s.effects (deletes id ∷ []);
  })
  | inr (e, q) ↦ rw q (record {
    scanned = refl;
    cancelled = omega arith;
    already_settled = omega arith;
    errors = refl;
    refunds = cancelled_ids-append s.effects (deletes id ∷ []);
    drops = deleted_ids-append s.effects (deletes id ∷ []);
  })
]

settled-Row :
    (deps : SweepDeps) (id : Text) (s : Sweeping)
    → Row false true true false
        (not (succeeds (deps.delete_row id)))
        id
        s
        (caught (delete_then deps id unchanged (record s { result = with_settled s.result })))
settled-Row deps id s =
    let r = delete-Row deps id (record s { result = with_settled s.result }) in
    record {
      scanned = r.scanned;
      cancelled = r.cancelled;
      already_settled = omega (arith, r.already_settled);
      errors = r.errors;
      refunds = r.refunds;
      drops = r.drops;
    }

cancel-Row :
    (deps : SweepDeps) (id : Text) (s : Sweeping)
    → Row true false
        (succeeds (deps.admin_cancel_wager id))
        (succeeds (deps.admin_cancel_wager id) && succeeds (deps.delete_row id))
        (not (succeeds (deps.admin_cancel_wager id) && succeeds (deps.delete_row id)))
        id
        s
        (caught (cancel_then deps id s))
cancel-Row deps id s = elim (Attempt-cases (deps.admin_cancel_wager id)) [
  | inr (e, q) ↦ rw q (record {
    scanned = refl;
    cancelled = omega arith;
    already_settled = omega arith;
    errors = refl;
    refunds = cancelled_ids-append s.effects (cancels id ∷ []);
    drops = deleted_ids-append s.effects (cancels id ∷ []);
  })
  | inl (v, q) ↦ elim (Attempt-cases (deps.delete_row id)) [
    | inr (e, p) ↦
        rw (q, p)
          (record {
            scanned = refl;
            cancelled = omega arith;
            already_settled = omega arith;
            errors = refl;
            refunds = twice_cancelled;
            drops = twice_deleted;
          })
    | inl (w, p) ↦
        rw (q, p)
          (record {
            scanned = refl;
            cancelled = refl;
            already_settled = omega arith;
            errors = omega arith;
            refunds = twice_cancelled;
            drops = twice_deleted;
          })
  ]
]
  where
    twice_cancelled :
        cancelled_ids (s.effects ++ cancels id ∷ [] ++ deletes id ∷ [])
        ≡ cancelled_ids s.effects ++ id ∷ []
    twice_cancelled =
        cancelled_ids-append (s.effects ++ cancels id ∷ []) (deletes id ∷ [])
        ∙ append-nil _
        ∙ cancelled_ids-append s.effects (cancels id ∷ [])

    twice_deleted :
        deleted_ids (s.effects ++ cancels id ∷ [] ++ deletes id ∷ [])
        ≡ deleted_ids s.effects ++ id ∷ []
    twice_deleted =
        deleted_ids-append (s.effects ++ cancels id ∷ []) (deletes id ∷ [])
        ∙ ap (λ ids. ids ++ id ∷ [])
            (deleted_ids-append s.effects (cancels id ∷ []) ∙ append-nil (deleted_ids s.effects))

pub sweep_one-Row :
    (deps : SweepDeps) (id : Text) (s : Sweeping)
    → Row
        (is_locked deps id)
        (is_settled deps id)
        (is_over deps id)
        (is_refunded deps id)
        (is_error deps id)
        id
        s
        (caught (sweep_one deps id s))
unfolding sweep_one is_locked is_settled is_over is_refunded is_error
sweep_one-Row deps id s = elim (Attempt-cases (deps.get_wager_status id)) [
  | inr (e, q) ↦ rw q (quiet-Row id s)
  | inl (none, q) ↦ rw q (quiet-Row id s)
  | inl (some n, q) ↦ rw q (elim (Bool-cases (n == 2)) [
    | inl a ↦ rw (equal n 2 a) (settled-Row deps id s)
    | inr a ↦ elim (Bool-cases (n == 1)) [
      | inl b ↦ rw (equal n 1 b) (cancel-Row deps id s)
      | inr b ↦ elim (Bool-cases (n == 3)) [
        | inl c ↦ rw (equal n 3 c) (cancel-Row deps id s)
        | inr c ↦ elim (Bool-cases (n == 0)) [
          | inl d ↦ rw (equal n 0 d) (delete-Row deps id s)
          | inr d ↦ rw (a, b, c, d) (quiet-Row id s)
        ]
      ]
    ]
  ])
]
  where
    equal : (n m : ℕ) → (n == m) ≡ true → n ≡ m
    equal n m e = ground (arith, e)
