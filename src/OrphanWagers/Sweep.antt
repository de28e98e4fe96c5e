-- ===== src/OrphanWagers/Sweep.antt =====
-- server/src/data/orphan-wager-recovery.ts: which wagers are refunded, which rows go, and what is
-- counted.
use sui_comabts.Prelude.{
  ◌+◌, ◌≡◌, inl, inr, refl, sym, ap, ◌∙◌, Bool, true, List, [], ◌∷◌, ◌++◌, arith, Text,
  if◌then◌else◌, length, select, Bool-cases,
}
use sui_comabts.OrphanWagers.Row.{
  is_locked, is_settled, is_over, is_refunded, is_error, cancelled_ids, deleted_ids, one_if, if_so,
  sweep_one-Row,
}
use mathlib.Core.List.{append_assoc, append-nil}
use sui_comabts.OrphanWagers.{
  SweepDeps, Sweeping, sweep_one, caught, sweep_rows, nothing_swept, sweep_orphan_active_wagers,
}

select-cons {ℓ} :
    {A : Type ℓ} (p : A → Bool) (x : A) (xs : List A)
    → select p (x ∷ xs) ≡ (if p x then x ∷ [] else []) ++ select p xs
select-cons p x xs = elim (Bool-cases (p x)) [ inl e ↦ rw e refl | inr e ↦ rw e refl ]

count-cons {ℓ} :
    {A : Type ℓ} (p : A → Bool) (x : A) (xs : List A)
    → length (select p (x ∷ xs)) ≡ one_if (p x) + length (select p xs)
count-cons p x xs = ground arith

-- What a list of rows adds.
pub record Swept (deps : SweepDeps) (ids : List Text) (s t : Sweeping) : Type 0 where
  pub scanned : t.result.rows_scanned ≡ s.result.rows_scanned
  pub cancelled : t.result.cancelled ≡ s.result.cancelled + length (select (is_refunded deps) ids)
  pub already_settled :
      t.result.already_settled ≡ s.result.already_settled + length (select (is_settled deps) ids)
  pub errors : t.result.errors ≡ s.result.errors + length (select (is_error deps) ids)
  pub refunds : cancelled_ids t.effects ≡ cancelled_ids s.effects ++ select (is_locked deps) ids
  pub drops : deleted_ids t.effects ≡ deleted_ids s.effects ++ select (is_over deps) ids

joined_lists :
    (p : Text → Bool) (id : Text) (ids base mid all : List Text)
    → mid ≡ base ++ if_so (p id) id
    → all ≡ mid ++ select p ids
    → all ≡ base ++ select p (id ∷ ids)
joined_lists p id ids base mid all e f =
    f
    ∙ ap (λ xs. xs ++ select p ids) e
    ∙ append_assoc base (if_so (p id) id) (select p ids)
    ∙ ap (λ xs. base ++ xs) (sym (select-cons p id ids))

sweep_rows-Swept :
    (deps : SweepDeps) (ids : List Text) (s : Sweeping) → Swept deps ids s (sweep_rows deps ids s)
unfolding sweep_rows
sweep_rows-Swept deps [] s = record {
  scanned = refl;
  cancelled = omega arith;
  already_settled = omega arith;
  errors = omega arith;
  refunds = sym (append-nil (cancelled_ids s.effects));
  drops = sym (append-nil (deleted_ids s.effects));
}
sweep_rows-Swept deps (id ∷ ids) s =
    let t = caught (sweep_one deps id s) in
    let r = sweep_one-Row deps id s in
    let v = sweep_rows-Swept deps ids t in
    record {
      scanned = v.scanned ∙ r.scanned;
      cancelled = omega (arith, v.cancelled, r.cancelled, count-cons (is_refunded deps) id ids);
      already_settled =
          omega (arith, v.already_settled, r.already_settled, count-cons (is_settled deps) id ids);
      errors = omega (arith, v.errors, r.errors, count-cons (is_error deps) id ids);
      refunds = joined_lists (is_locked deps) id ids _ _ _ r.refunds v.refunds;
      drops = joined_lists (is_over deps) id ids _ _ _ r.drops v.drops;
    }

-- For any chain and database, whatever their calls return or throw, and any stale rows, where the
-- network is known: `adminCancelWager` is called once, in order, for exactly the wagers whose status
-- is active or pending approval; `deleteRow` is called once, in order, for exactly the wagers that
-- are settled or waiting, or were locked and whose cancel succeeded; the counts are those of the rows, of the refunded wagers whose
-- delete succeeded, of the settled ones, and of those whose row was not deleted without an error. No error of one row stops the sweep of the others.
pub sweep_lem :
    (deps : SweepDeps) (ids : List Text)
    → let t = sweep_orphan_active_wagers true deps ids in
      (cancelled_ids t.effects ≡ select (is_locked deps) ids)
      × (deleted_ids t.effects ≡ select (is_over deps) ids)
      × (t.result.rows_scanned ≡ length ids)
      × (t.result.cancelled ≡ length (select (is_refunded deps) ids))
      × (t.result.already_settled ≡ length (select (is_settled deps) ids))
      × (t.result.errors ≡ length (select (is_error deps) ids))
unfolding sweep_orphan_active_wagers
sweep_lem deps ids =
    let v = sweep_rows-Swept deps ids (nothing_swept (length ids)) in
    (
      v.refunds,
      v.drops,
      v.scanned,
      omega (arith, v.cancelled),
      omega (arith, v.already_settled),
      omega (arith, v.errors),
    )
