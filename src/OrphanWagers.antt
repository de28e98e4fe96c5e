-- ===== src/OrphanWagers.antt =====
-- server/src/data/orphan-wager-recovery.ts: the sweep at startup over the wagers that were in flight.
-- The chain and the database are arguments, `deps`; a call of them may throw. The calls that change
-- something there are listed in order.
pub mod Row
pub mod Sweep
mod Examples
use sui_comabts.Prelude.{
  ℕ, ◌+◌, Bool, true, false, List, [], ◌∷◌, ◌++◌, Option, none, some, Text, ◌==◌, if◌then◌else◌,
  length,
}
use sui_comabts.Treasury.{Attempt, returns, throws}

pub record SweepDeps : Type 0 where
  pub get_wager_status : Text → Attempt (Option ℕ) Text
  pub admin_cancel_wager : Text → Attempt Text Text
  pub delete_row : Text → Attempt (Unit {0}) Text

pub record SweepResult : Type 0 where
  pub rows_scanned : ℕ
  pub cancelled : ℕ
  pub already_settled : ℕ
  pub errors : ℕ

-- A call of `adminCancelWager` or of `deleteRow`.
pub data Effect : Type 0 where
  cancels deletes : Text → Effect

-- The counts and the calls so far.
pub record Sweeping : Type 0 where
  pub result : SweepResult
  pub effects : List Effect

abbrev pub with_error : SweepResult → SweepResult
with_error r = record r { errors = r.errors + 1 }

abbrev pub with_settled : SweepResult → SweepResult
with_settled r = record r { already_settled = r.already_settled + 1 }

abbrev pub with_cancelled : SweepResult → SweepResult
with_cancelled r = record r { cancelled = r.cancelled + 1 }

-- `await deps.deleteRow(id)`, and then the count; the flag tells that it threw.
abbrev pub after_delete {ℓ} :
    {A : Type ℓ} → Attempt A Text → (SweepResult → SweepResult) → Sweeping → Sweeping × Bool
after_delete (returns _) count s = (record s { result = count s.result }, false)
after_delete (throws e) count s = (s, true)

abbrev pub delete_then : SweepDeps → Text → (SweepResult → SweepResult) → Sweeping → Sweeping × Bool
delete_then deps id count s =
    after_delete (deps.delete_row id) count (record s { effects = s.effects ++ deletes id ∷ [] })

abbrev pub after_cancel : Attempt Text Text → SweepDeps → Text → Sweeping → Sweeping × Bool
after_cancel (returns digest) deps id s = delete_then deps id with_cancelled s
after_cancel (throws e) deps id s = (s, true)

abbrev pub cancel_then : SweepDeps → Text → Sweeping → Sweeping × Bool
cancel_then deps id s =
    after_cancel (deps.admin_cancel_wager id) deps id
      (record s { effects = s.effects ++ cancels id ∷ [] })

abbrev pub unchanged : SweepResult → SweepResult
unchanged r = r

abbrev pub sweep_status : SweepDeps → Text → ℕ → Sweeping → Sweeping × Bool
sweep_status deps id status s =
    if status == 2
    then delete_then deps id unchanged (record s { result = with_settled s.result })
    else if status == 1
    then cancel_then deps id s
    else if status == 3
    then cancel_then deps id s
    else if status == 0
    then delete_then deps id unchanged s
    else (record s { result = with_error s.result }, false)

abbrev pub sweep_loaded : Attempt (Option ℕ) Text → SweepDeps → Text → Sweeping → Sweeping × Bool
sweep_loaded (throws e) deps id s = (s, true)
sweep_loaded (returns none) deps id s = (record s { result = with_error s.result }, false)
sweep_loaded (returns (some status)) deps id s = sweep_status deps id status s

-- `sweepOne` of the row's wager, and whether it threw.
unfoldable pub sweep_one : SweepDeps → Text → Sweeping → Sweeping × Bool
sweep_one deps id s = sweep_loaded (deps.get_wager_status id) deps id s

-- The `catch` of the loop.
abbrev pub caught : Sweeping × Bool → Sweeping
caught (s, false) = s
caught (s, true) = record s { result = with_error s.result }

unfoldable pub sweep_rows : SweepDeps → List Text → Sweeping → Sweeping
sweep_rows deps [] s = s
sweep_rows deps (id ∷ ids) s = sweep_rows deps ids (caught (sweep_one deps id s))

abbrev pub nothing_swept : ℕ → Sweeping
nothing_swept n = record {
  result = record { rows_scanned = n; cancelled = 0; already_settled = 0; errors = 0 };
  effects = [];
}

-- `sweepOrphanActiveWagers` over the wagers of the stale rows; the flag is that the network is known.
unfoldable pub sweep_orphan_active_wagers : Bool → SweepDeps → List Text → Sweeping
sweep_orphan_active_wagers false deps ids = nothing_swept 0
sweep_orphan_active_wagers true deps ids = sweep_rows deps ids (nothing_swept (length ids))
