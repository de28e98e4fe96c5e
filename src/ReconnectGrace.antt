-- ===== src/ReconnectGrace.antt =====
-- server/src/ws/reconnect-grace.ts: the grace window of a disconnected player, with one budget of
-- milliseconds for the whole fight. The module's map and its scheduler's pending timers are the
-- state; the clock and the budget in force are arguments. A call of `onTimeout` is returned as the
-- wallet and the fight that it forfeits.
pub mod Records
pub mod Invariant
pub mod Budget
pub mod Clearing
pub mod Ended
mod Examples
use sui_comabts.Prelude.{
  ℕ, ◌+◌, ◌-◌, min, Bool, true, false, not, List, [], ◌∷◌, Option, none, some, Text, ◌===◌, leb,
  ltb, if◌then◌else◌, Map, get, set, delete, keep, is_some, or_else,
}
use sui_comabts.Scheduler.{Timer, Timers, schedule, cancel, no_timers}

abbrev pub default_grace_ms : ℕ
default_grace_ms = 60000

-- `active`: the pending timer of a wallet that is disconnected.
pub record Active : Type 0 where
  pub handle : ℕ
  pub started_at : ℕ
  pub expires_at : ℕ

pub record FightGraceRecord : Type 0 where
  pub fight_id : Text
  pub budget_ms : ℕ
  pub used_ms : ℕ
  pub active : Option Active

-- What the forfeit timer's callback closes over.
pub record Forfeit : Type 0 where
  pub wallet : Text
  pub fight : Text

pub record Grace : Type 0 where
  pub records : Map FightGraceRecord
  pub timers : Timers Forfeit

pub record DisconnectInfo : Type 0 where
  pub fight_id : Text
  pub expires_at : ℕ
  pub grace_ms : ℕ
  pub used_ms : ℕ
  pub budget_ms : ℕ

unfoldable pub empty : Grace
empty = record { records = []; timers = no_timers }

-- `if (existing.active) activeScheduler.cancel(existing.active.handle)`.
abbrev pub cancel_active : Option Active → Timers Forfeit → Timers Forfeit
cancel_active none ts = ts
cancel_active (some a) ts = cancel a.handle ts

-- The first step of `markDisconnect`: a record of another fight is dropped.
abbrev pub drop_other : Text → Text → Option FightGraceRecord → Grace → Grace
drop_other wallet fight none g = g
drop_other wallet fight (some r) g =
    if r.fight_id === fight
    then g
    else record { records = delete wallet g.records; timers = cancel_active r.active g.timers }

abbrev pub active_of : Option FightGraceRecord → Option Active
active_of none = none
active_of (some r) = r.active

abbrev pub budget_of : Option FightGraceRecord → Option ℕ
budget_of none = none
budget_of (some r) = some r.budget_ms

abbrev pub used_of : Option FightGraceRecord → Option ℕ
used_of none = none
used_of (some r) = some r.used_ms

-- The state after `markDisconnect`, the information returned, and the forfeits that ran at once.
pub record Marked : Type 0 where
  pub grace : Grace
  pub info : Option DisconnectInfo
  pub forfeits : List Forfeit

-- The rest of `markDisconnect`, with the budget and the used time read off the record.
unfoldable pub spend : Text → Text → ℕ → ℕ → ℕ → Grace → Marked
spend wallet fight budget used now g =
    if leb (budget - used) 0
    then (record {
      grace = record g { records = delete wallet g.records };
      info = none;
      forfeits = record { wallet = wallet; fight = fight } ∷ [];
    })
    else (record {
      grace = record {
        records =
            set wallet
              (record {
                fight_id = fight;
                budget_ms = budget;
                used_ms = used;
                active = some (record {
                  handle = g.timers.next_handle;
                  started_at = now;
                  expires_at = now + (budget - used);
                });
              })
              g.records;
        timers =
            schedule (record { wallet = wallet; fight = fight }) (now + (budget - used)) g.timers;
      };
      info = some (record {
        fight_id = fight;
        expires_at = now + (budget - used);
        grace_ms = budget - used;
        used_ms = used;
        budget_ms = budget;
      });
      forfeits = [];
    })

unfoldable pub mark_disconnect_from : Text → Text → ℕ → ℕ → Grace → Marked
mark_disconnect_from wallet fight active_budget now g =
    let rec = get wallet g.records in
    if is_some (active_of rec)
    then (record { grace = g; info = none; forfeits = [] })
    else spend wallet fight (or_else (budget_of rec) active_budget) (or_else (used_of rec) 0) now g

unfoldable pub mark_disconnect : Text → Text → ℕ → ℕ → Grace → Marked
mark_disconnect wallet fight active_budget now g =
    mark_disconnect_from wallet fight active_budget now
      (drop_other wallet fight (get wallet g.records) g)

-- The callback of a forfeit timer.
abbrev pub fire_timer : ℕ → Option Forfeit → Grace → Grace × List Forfeit
fire_timer handle none g = (g, [])
fire_timer handle (some f) g =
    (record { records = delete f.wallet g.records; timers = cancel handle g.timers }, f ∷ [])

abbrev pub callback_of : Option (Timer Forfeit) → Option Forfeit
callback_of none = none
callback_of (some t) = some t.callback

unfoldable pub fire : ℕ → Grace → Grace × List Forfeit
fire handle g = fire_timer handle (callback_of (g.timers.pending handle)) g

-- The part of `markReconnect` behind its guard.
abbrev pub settle : Text → ℕ → FightGraceRecord → Option Active → Grace → Grace × Option Text
settle wallet now r none g = (g, none)
settle wallet now r (some a) g = (
  record {
    records =
        set wallet
          (record r { used_ms = min r.budget_ms (r.used_ms + (now - a.started_at)); active = none })
          g.records;
    timers = cancel a.handle g.timers;
  },
  some r.fight_id,
)

abbrev pub reconnect_record : Text → ℕ → Option FightGraceRecord → Grace → Grace × Option Text
reconnect_record wallet now none g = (g, none)
reconnect_record wallet now (some r) g = settle wallet now r r.active g

unfoldable pub mark_reconnect : Text → ℕ → Grace → Grace × Option Text
mark_reconnect wallet now g = reconnect_record wallet now (get wallet g.records) g

unfoldable pub is_disconnect_pending : Text → Grace → Bool
is_disconnect_pending wallet g = is_some (active_of (get wallet g.records))

-- The loop of `clearFightGrace` cancels the timers of the fight's records; the entries that it
-- deletes are those of the fight.
unfoldable pub cancel_fight : Text → Map FightGraceRecord → Timers Forfeit → Timers Forfeit
cancel_fight fight [] ts = ts
cancel_fight fight ((w, r) ∷ m) ts =
    cancel_fight fight m (if r.fight_id === fight then cancel_active r.active ts else ts)

unfoldable pub clear_fight_grace : Text → Grace → Grace
clear_fight_grace fight g = record {
  records = keep (λ r. not (r.fight_id === fight)) g.records;
  timers = cancel_fight fight g.records g.timers;
}

-- The calls that change the state, with the clock of each: a socket of a wallet closes in a fight,
-- the wallet authenticates again, a forfeit timer fires, a fight ends.
pub data Call : Type 0 where
  disconnects : Text → Text → ℕ → Call
  reconnects : Text → Call
  fires : ℕ → Call
  clears : Text → Call

unfoldable pub step : Grace → ℕ × Call → Grace
step g (now, disconnects w f budget) = (mark_disconnect w f budget now g).grace
step g (now, reconnects w) = (mark_reconnect w now g).0
step g (now, fires h) = (fire h g).0
step g (now, clears f) = clear_fight_grace f g

unfoldable pub run : Grace → List (ℕ × Call) → Grace
run g [] = g
run g (c ∷ cs) = run (step g c) cs
