-- ===== src/ReconnectGrace/Records.antt =====
-- server/src/ws/reconnect-grace.ts: the records and the pending timers agree, and a disconnect and a
-- reconnect keep it so.
use sui_comabts.Prelude.{
  ℕ, min, ◌+◌, ◌-◌, ◌≤◌, ◌≡◌, refl, Bool, false, Option, none, some, arith, Text, ◌===◌, ◌==◌, leb,
  inl, inr, Bool-cases, Option-cases, get, delete, get-set, get-delete, IsMap, set-IsMap,
  delete-IsMap,
}
use sui_comabts.Scheduler.{Timer, schedule, cancel, no_timers, Fresh, schedule-Fresh, cancel-Fresh}
use sui_comabts.ReconnectGrace.{
  Active, FightGraceRecord, Forfeit, Grace, empty, cancel_active, drop_other, active_of, spend,
  mark_disconnect_from, mark_disconnect, settle, mark_reconnect,
}

abbrev pub handle_of : Option Active → Option ℕ
handle_of none = none
handle_of (some a) = some a.handle

abbrev pub same_handle : ℕ → Option ℕ → Bool
same_handle h none = false
same_handle h (some k) = k == h

-- No record has used more than its budget. Each active record has its own forfeit timer pending,
-- due when the rest of its budget is over, and has budget left; and each pending timer belongs to
-- the active record of its wallet, in the record's fight.
pub record Inv (g : Grace) : Type 0 where
  pub keys : IsMap g.records
  pub budgeted :
      (w : Text) (r : FightGraceRecord) → get w g.records ≡ some r → r.used_ms ≤ r.budget_ms
  pub armed :
      (w : Text) (r : FightGraceRecord) (a : Active)
      → get w g.records ≡ some r
      → r.active ≡ some a
      → (g.timers.pending a.handle
          ≡ some (record {
            due = a.started_at + (r.budget_ms - r.used_ms);
            callback = record { wallet = w; fight = r.fight_id };
          }))
  pub owned :
      (h : ℕ) (t : Timer Forfeit)
      → g.timers.pending h ≡ some t
      → handle_of (active_of (get t.callback.wallet g.records)) ≡ some h
  pub fresh : Fresh g.timers

pub empty-Inv : Inv empty
unfolding empty no_timers get
empty-Inv = record {
  keys = tt;
  budgeted = λ w r e. cc;
  armed = λ w r a e f. cc;
  owned = λ h t e. cc;
  fresh = λ h le. refl;
}

-- A record is dropped and its timer cancelled.
module _ (g : Grace) (v : Inv g) (w : Text) (r : FightGraceRecord)
    (e : get w g.records ≡ some r) where
  pub drop-Inv :
      (o : Option Active)
      → r.active ≡ o
      → Inv (record { records = delete w g.records; timers = cancel_active o g.timers })
  unfolding cancel
  drop-Inv none q = record {
    keys = delete-IsMap w g.records v.keys;
    budgeted = λ u s f. ground (arith, get-delete w u g.records, v.budgeted u s);
    armed = λ u s b f k. ground (arith, get-delete w u g.records, v.armed u s b);
    owned = λ h t f. ground (arith, get-delete w t.callback.wallet g.records, v.owned h t f);
    fresh = v.fresh;
  }
  drop-Inv (some a) q = record {
    keys = delete-IsMap w g.records v.keys;
    budgeted = λ u s f. ground (arith, get-delete w u g.records, v.budgeted u s);
    armed = λ u s b f k. ground (arith, get-delete w u g.records, v.armed u s b, v.armed w r a e q);
    owned = λ h t f. ground (arith, get-delete w t.callback.wallet g.records, v.owned h t);
    fresh = cancel-Fresh a.handle g.timers v.fresh;
  }

  -- A reconnect: the timer is cancelled and the elapsed time is spent.
  settle-Inv : (now : ℕ) (o : Option Active) → r.active ≡ o → Inv (settle w now r o g).0
  unfolding cancel
  settle-Inv now none q = v
  settle-Inv now (some a) q = record {
    keys = set-IsMap w _ g.records v.keys;
    budgeted = λ u s f. ground (arith, get-set w u (settled now a) g.records, v.budgeted u s);
    armed = λ u s b f k.
        ground (arith, get-set w u (settled now a) g.records, v.armed u s b, v.armed w r a e q);
    owned =
        λ h t f. ground (arith, get-set w t.callback.wallet (settled now a) g.records, v.owned h t);
    fresh = cancel-Fresh a.handle g.timers v.fresh;
  }
    where
      settled : ℕ → Active → FightGraceRecord
      settled now a = record r {
        used_ms = min r.budget_ms (r.used_ms + (now - a.started_at));
        active = none;
      }

spend-Inv :
    (w f : Text) (budget used now : ℕ) (g : Grace)
    → Inv g
    → active_of (get w g.records) ≡ none
    → used ≤ budget
    → Inv (spend w f budget used now g).grace
unfolding spend schedule
spend-Inv w f budget used now g v e le = elim (Bool-cases (leb (budget - used) 0)) [
  | inl spent ↦ rw spent (record {
    keys = delete-IsMap w g.records v.keys;
    budgeted = λ u s k. ground (arith, get-delete w u g.records, v.budgeted u s);
    armed = λ u s b k l. ground (arith, get-delete w u g.records, v.armed u s b);
    owned = λ h t k. ground (arith, get-delete w t.callback.wallet g.records, v.owned h t k);
    fresh = v.fresh;
  })
  | inr left ↦ rw left (record {
    keys = set-IsMap w granted g.records v.keys;
    budgeted = λ u s k. ground (arith, get-set w u granted g.records, v.budgeted u s);
    armed = λ u s b k l.
        ground (arith, get-set w u granted g.records, v.armed u s b, v.fresh g.timers.next_handle);
    owned = λ h t k. ground (arith, get-set w t.callback.wallet granted g.records, v.owned h t);
    fresh = schedule-Fresh _ _ g.timers v.fresh;
  })
]
  where
    granted : FightGraceRecord
    granted = record {
      fight_id = f;
      budget_ms = budget;
      used_ms = used;
      active = some (record {
        handle = g.timers.next_handle;
        started_at = now;
        expires_at = now + (budget - used);
      });
    }

mark_disconnect_from-Inv :
    (w f : Text) (budget now : ℕ) (g : Grace)
    → Inv g
    → Inv (mark_disconnect_from w f budget now g).grace
unfolding mark_disconnect_from
mark_disconnect_from-Inv w f budget now g v = elim (Option-cases (get w g.records)) [
  | inl e ↦ rw e (spend-Inv w f budget 0 now g v (rw e) (omega arith))
  | inr (r, e) ↦ elim (Option-cases r.active) [
    | inl q ↦ rw (e, q) (spend-Inv w f r.budget_ms r.used_ms now g v (rw e q) (v.budgeted w r e))
    | inr (a, q) ↦ rw (e, q) v
  ]
]

drop_other-Inv : (w f : Text) (g : Grace) → Inv g → Inv (drop_other w f (get w g.records) g)
drop_other-Inv w f g v = elim (Option-cases (get w g.records)) [
  | inl e ↦ rw e v
  | inr (r, e) ↦ elim (Bool-cases (r.fight_id === f)) [
    | inl same ↦ rw (e, same) v
    | inr other ↦ rw (e, other) (drop-Inv g v w r e r.active refl)
  ]
]

pub mark_disconnect-Inv :
    (w f : Text) (budget now : ℕ) (g : Grace) → Inv g → Inv (mark_disconnect w f budget now g).grace
unfolding mark_disconnect
mark_disconnect-Inv w f budget now g v =
    mark_disconnect_from-Inv w f budget now _ (drop_other-Inv w f g v)

pub mark_reconnect-Inv : (w : Text) (now : ℕ) (g : Grace) → Inv g → Inv (mark_reconnect w now g).0
unfolding mark_reconnect
mark_reconnect-Inv w now g v = elim (Option-cases (get w g.records)) [
  | inl e ↦ rw e v
  | inr (r, e) ↦ rw e (settle-Inv g v w r e now r.active refl)
]
