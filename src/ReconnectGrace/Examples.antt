-- ===== src/ReconnectGrace/Examples.antt =====
-- Runs of the grace window at concrete histories.
use sui_comabts.Prelude.{
  ℕ, ◌≡◌, refl, List, [], ◌∷◌, some, arith, Text, units, Text-discrete, get, set, delete,
}
use sui_comabts.Scheduler.{no_timers, schedule, cancel}
use sui_comabts.ReconnectGrace.{
  Call, disconnects, reconnects, fires, clears, empty, step, run, mark_disconnect,
  mark_disconnect_from, spend, mark_reconnect, clear_fight_grace, default_grace_ms,
}
use sui_comabts.ReconnectGrace.Ended.{Quiet, run-ended}
use sui_comabts.ReconnectGrace.Records.{Inv}
use sui_comabts.ReconnectGrace.Budget.{cycles, mark_disconnect-cycles}
use sui_comabts.ReconnectGrace.Clearing.{Cleared, Rejoined, clear_reconnect_lem}

abbrev ann : Text
ann = units "0xa"

abbrev duel : Text
duel = units "f1"

-- Thirty seconds away, then away again.
abbrev flaky : List (ℕ × Call)
flaky =
    (1000, disconnects ann duel default_grace_ms)
    ∷ (31000, reconnects ann)
    ∷ (40000, disconnects ann duel default_grace_ms)
    ∷ []

flaky_due :
    (run empty flaky).timers.pending 1
    ≡ some (record { due = 70000; callback = record { wallet = ann; fight = duel } })
unfolding run empty step mark_disconnect mark_disconnect_from spend mark_reconnect no_timers
    schedule cancel get set delete Text-discrete
flaky_due = refl

-- The fight ends while its player is away; the timer does not fire any more, and the player's
-- next fight starts.
run-ended_example :
    Inv (run empty flaky)
    × Quiet duel (
        run
          (step (run empty flaky) (50000, clears duel))
          ((80000, fires 1) ∷ (90000, disconnects ann (units "f2") default_grace_ms) ∷ []))
unfolding Text-discrete
run-ended_example =
    run-ended flaky ((80000, fires 1) ∷ (90000, disconnects ann (units "f2") default_grace_ms) ∷ [])
      50000 duel (refl, tt)

-- The second of two blips of thirty seconds uses up a budget of one minute.
mark_disconnect-cycles_example :
    (mark_disconnect ann duel 60000 90000
      (cycles ann duel 60000 ((1000, 31000) ∷ (40000, 70000) ∷ []) empty)).forfeits
    ≡ record { wallet = ann; fight = duel } ∷ []
unfolding empty get
mark_disconnect-cycles_example =
    ((mark_disconnect-cycles ann duel 60000 90000 ((1000, 31000) ∷ (40000, 70000) ∷ []) empty refl
        (omega arith)).1
      (omega arith)).1

clear_reconnect_lem_example :
    Cleared duel (run empty flaky) (clear_fight_grace duel (run empty flaky))
    × Rejoined ann (run empty flaky) (mark_reconnect ann 50000 (run empty flaky))
clear_reconnect_lem_example = clear_reconnect_lem duel ann 50000 flaky
