-- ===== src/OrphanWagers/Examples.antt =====
-- A sweep over four wagers, one of which the chain does not answer for.
use sui_comabts.Prelude.{
  ◌≡◌, refl, true, List, [], ◌∷◌, some, Text, Text-discrete, units, ◌===◌, if◌then◌else◌, length,
  select,
}
use sui_comabts.Treasury.{returns, throws}
use sui_comabts.OrphanWagers.{SweepDeps, sweep_one, sweep_rows, sweep_orphan_active_wagers}
use sui_comabts.OrphanWagers.Row.{
  cancelled_ids, deleted_ids, is_locked, is_over, is_refunded, is_settled, is_error,
}
use sui_comabts.OrphanWagers.Sweep.{sweep_lem}

abbrev deps : SweepDeps
deps = record {
  get_wager_status = λ id.
      if id === units "a"
      then returns (some 1)
      else if id === units "b"
      then returns (some 2)
      else if id === units "c"
      then throws (units "timeout")
      else returns (some 3);
  admin_cancel_wager = λ id. if id === units "d" then throws (units "abort") else returns id;
  delete_row = λ id. returns tt;
}

abbrev ids : List Text
ids = units "a" ∷ units "b" ∷ units "c" ∷ units "d" ∷ []

sweep_test :
    ((sweep_orphan_active_wagers true deps ids).result
      ≡ record { rows_scanned = 4; cancelled = 1; already_settled = 1; errors = 2 })
    × (deleted_ids (sweep_orphan_active_wagers true deps ids).effects ≡ units "a" ∷ units "b" ∷ [])
unfolding sweep_orphan_active_wagers sweep_rows sweep_one Text-discrete
sweep_test = (refl, refl)

sweep_lem_example :
    (cancelled_ids (sweep_orphan_active_wagers true deps ids).effects ≡ select (is_locked deps) ids)
    × (deleted_ids (sweep_orphan_active_wagers true deps ids).effects ≡ select (is_over deps) ids)
    × ((sweep_orphan_active_wagers true deps ids).result.rows_scanned ≡ length ids)
    × ((sweep_orphan_active_wagers true deps ids).result.cancelled
        ≡ length (select (is_refunded deps) ids))
    × ((sweep_orphan_active_wagers true deps ids).result.already_settled
        ≡ length (select (is_settled deps) ids))
    × ((sweep_orphan_active_wagers true deps ids).result.errors
        ≡ length (select (is_error deps) ids))
sweep_lem_example = sweep_lem deps ids
