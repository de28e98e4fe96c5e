-- ===== src/ReconnectGrace/Clearing.antt =====
-- server/src/ws/reconnect-grace.ts: what each call leaves alone, and what an ended fight leaves.
use sui_comabts.Prelude.{
  Option, ℕ, ◌≡◌, refl, inl, inr, false, not, List, some, arith, Text, ◌===◌, ===_refl,
  Option-cases, get, get-set, get-keep, passing, is_some,
}
use sui_comabts.Scheduler.{Timer}
use sui_comabts.ReconnectGrace.{
  FightGraceRecord, Forfeit, Grace, empty, mark_reconnect, clear_fight_grace, is_disconnect_pending,
  Call, run,
}
use sui_comabts.ReconnectGrace.Records.{Inv, mark_reconnect-Inv}
use sui_comabts.ReconnectGrace.Invariant.{run-Inv, timer_owner, clear_fight_grace-Inv}

get-clear_fight_grace :
    (f w : Text) (g : Grace)
    → Inv g
    → get w (clear_fight_grace f g).records
      ≡ passing (λ s. not (s.fight_id === f)) (get w g.records)
unfolding clear_fight_grace
get-clear_fight_grace f w g v = get-keep (λ s. not (s.fight_id === f)) w g.records v.keys

-- No wallet has a record of the fight left, no forfeit of it is pending, and the records of all other
-- fights are as before.
abbrev pub Cleared : Text → Grace → Grace → Type 0
Cleared f g g' =
    ((w : Text) (r : FightGraceRecord) → get w g'.records ≡ some r → (r.fight_id === f) ≡ false)
    × ((h : ℕ) (t : Timer Forfeit)
        → g'.timers.pending h ≡ some t
        → (t.callback.fight === f) ≡ false)
    × ((w : Text) (r : FightGraceRecord)
        → get w g.records ≡ some r
        → (r.fight_id === f) ≡ false
        → get w g'.records ≡ some r)

-- The wallet has no timer pending, and is answered with a fight if it had one.
abbrev pub Rejoined : Text → Grace → Grace × Option Text → Type 0
Rejoined w g (g', fight) =
    ((h : ℕ) (t : Timer Forfeit) → g'.timers.pending h ≡ some t → (t.callback.wallet === w) ≡ false)
    × (is_some fight ≡ is_disconnect_pending w g)
    × (is_disconnect_pending w g' ≡ false)

pub clear_fight_grace-Cleared : (f : Text) (g : Grace) → Inv g → Cleared f g (clear_fight_grace f g)
clear_fight_grace-Cleared f g v = (
  λ w r e. ground (arith, get-clear_fight_grace f w g v),
  λ h t e.
      let (r, k, _, same) =
        timer_owner (clear_fight_grace f g) h t (clear_fight_grace-Inv f g v) e in
      ground (arith, get-clear_fight_grace f t.callback.wallet g v),
  λ w r e n. ground (arith, get-clear_fight_grace f w g v),
)

reconnect_returns :
    (w : Text) (now : ℕ) (g : Grace)
    → (is_some (mark_reconnect w now g).1 ≡ is_disconnect_pending w g)
      × (is_disconnect_pending w (mark_reconnect w now g).0 ≡ false)
unfolding mark_reconnect is_disconnect_pending
reconnect_returns w now g = elim (Option-cases (get w g.records)) [
  | inl e ↦ rw e (refl, rw e)
  | inr (r, e) ↦ elim (Option-cases r.active) [
    | inl q ↦ rw (e, q) (refl, rw (e, q))
    | inr (a, q) ↦ rw (e, q) (refl, rw (get-set w w _ g.records) (rw (===_refl w)))
  ]
]

mark_reconnect-Rejoined :
    (w : Text) (now : ℕ) (g : Grace) → Inv g → Rejoined w g (mark_reconnect w now g)
unfolding is_disconnect_pending
mark_reconnect-Rejoined w now g v = (
  λ h t e.
      let (r, k, on, _) =
        timer_owner (mark_reconnect w now g).0 h t (mark_reconnect-Inv w now g v) e in
      ground (arith, (reconnect_returns w now g).1),
  (reconnect_returns w now g).0,
  (reconnect_returns w now g).1,
)

-- In every reachable state. When a fight ends, no wallet has a record of that fight left, no forfeit
-- of it is pending, and the records of all other fights are as before. After `markReconnect` the
-- wallet has no timer pending: the forfeit that its disconnect had scheduled cannot fire any more;
-- the value returned is a fight if a disconnect was pending, and nothing if there was none.
pub clear_reconnect_lem :
    (f w : Text) (now : ℕ) (cs : List (ℕ × Call))
    → let g = run empty cs in
      Cleared f g (clear_fight_grace f g) × Rejoined w g (mark_reconnect w now g)
clear_reconnect_lem f w now cs =
    let g = run empty cs in
    (clear_fight_grace-Cleared f g (run-Inv cs), mark_reconnect-Rejoined w now g (run-Inv cs))
