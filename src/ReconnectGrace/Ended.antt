-- ===== src/ReconnectGrace/Ended.antt =====
-- server/src/ws/reconnect-grace.ts: an ended fight has no record and no timer until a player
-- disconnects from it again.
use sui_comabts.Prelude.{
  ℕ, ◌-◌, ◌≡◌, inl, inr, false, not, List, [], ◌∷◌, Option, none, some, arith, Text, ◌===◌, Map,
  set, delete, is_some, or_else, leb, Bool-cases, Option-cases, get, get-set, get-delete, get-keep,
}
use sui_comabts.Scheduler.{Timer}
use sui_comabts.ReconnectGrace.{
  Active, FightGraceRecord, Forfeit, Grace, empty, active_of, budget_of, used_of, drop_other, spend,
  mark_disconnect_from, mark_disconnect, settle, mark_reconnect, fire, clear_fight_grace, Call,
  disconnects, reconnects, fires, clears, step, run,
}
use sui_comabts.ReconnectGrace.Records.{Inv}
use sui_comabts.ReconnectGrace.Invariant.{step-Inv, run-Inv, timer_owner}
use sui_comabts.ReconnectGrace.Clearing.{clear_fight_grace-Cleared}

-- No wallet has a record of the fight.
abbrev Forgets : Text → Map FightGraceRecord → Type 0
Forgets f m = (w : Text) (r : FightGraceRecord) → get w m ≡ some r → (r.fight_id === f) ≡ false

-- No wallet has a record of the fight, and no forfeit of it is pending.
abbrev pub Quiet : Text → Grace → Type 0
Quiet f g =
    ((w : Text) (r : FightGraceRecord) → get w g.records ≡ some r → (r.fight_id === f) ≡ false)
    × ((h : ℕ) (t : Timer Forfeit) → g.timers.pending h ≡ some t → (t.callback.fight === f) ≡ false)

-- No call of the list is a disconnect from the fight.
abbrev pub NobodyLeaves : Text → List (ℕ × Call) → Type 0
NobodyLeaves f [] = Unit
NobodyLeaves f ((now, disconnects w left budget) ∷ cs) = ((left === f) ≡ false) × NobodyLeaves f cs
NobodyLeaves f ((now, reconnects w) ∷ cs) = NobodyLeaves f cs
NobodyLeaves f ((now, fires h) ∷ cs) = NobodyLeaves f cs
NobodyLeaves f ((now, clears ended) ∷ cs) = NobodyLeaves f cs

delete-Forgets : (f w : Text) (m : Map FightGraceRecord) → Forgets f m → Forgets f (delete w m)
delete-Forgets f w m q u s e = ground (arith, get-delete w u m, q u s)

set-Forgets :
    (f w : Text) (r : FightGraceRecord) (m : Map FightGraceRecord)
    → (r.fight_id === f) ≡ false
    → Forgets f m
    → Forgets f (set w r m)
set-Forgets f w r m n q u s e = elim (Bool-cases (w === u)) [
  | inl h ↦ ground (arith, n, h, e, get-set w u r m)
  | inr h ↦ ground (arith, h, e, get-set w u r m, q u s)
]

drop_other-Forgets :
    (f w left : Text) (o : Option FightGraceRecord) (g : Grace)
    → Forgets f g.records
    → Forgets f (drop_other w left o g).records
drop_other-Forgets f w left none g q = q
drop_other-Forgets f w left (some r) g q = elim (Bool-cases (r.fight_id === left)) [
  | inl e ↦ rw e q
  | inr e ↦ rw e (delete-Forgets f w g.records q)
]

spend-Forgets :
    (f w left : Text) (budget used now : ℕ) (g : Grace)
    → (left === f) ≡ false
    → Forgets f g.records
    → Forgets f (spend w left budget used now g).grace.records
unfolding spend
spend-Forgets f w left budget used now g n q = elim (Bool-cases (leb (budget - used) 0)) [
  | inl spent ↦ rw spent (delete-Forgets f w g.records q)
  | inr over ↦ rw over (set-Forgets f w _ g.records n q)
]

mark_disconnect_from-Forgets :
    (f w left : Text) (budget now : ℕ) (g : Grace)
    → (left === f) ≡ false
    → Forgets f g.records
    → Forgets f (mark_disconnect_from w left budget now g).grace.records
unfolding mark_disconnect_from
mark_disconnect_from-Forgets f w left budget now g n q =
    let rec = get w g.records in
    elim (Bool-cases (is_some (active_of rec))) [
      | inl e ↦ rw e q
      | inr e ↦ rw e (
          spend-Forgets f w left (or_else (budget_of rec) budget) (or_else (used_of rec) 0) now g n
            q)
    ]

mark_disconnect-Forgets :
    (f w left : Text) (budget now : ℕ) (g : Grace)
    → (left === f) ≡ false
    → Forgets f g.records
    → Forgets f (mark_disconnect w left budget now g).grace.records
unfolding mark_disconnect
mark_disconnect-Forgets f w left budget now g n q =
    mark_disconnect_from-Forgets f w left budget now (drop_other w left (get w g.records) g) n
      (drop_other-Forgets f w left (get w g.records) g q)

settle-Forgets :
    (f w : Text) (now : ℕ) (r : FightGraceRecord) (o : Option Active) (g : Grace)
    → (r.fight_id === f) ≡ false
    → Forgets f g.records
    → Forgets f (settle w now r o g).0.records
settle-Forgets f w now r none g n q = q
settle-Forgets f w now r (some a) g n q = set-Forgets f w _ g.records n q

mark_reconnect-Forgets :
    (f w : Text) (now : ℕ) (g : Grace)
    → Forgets f g.records
    → Forgets f (mark_reconnect w now g).0.records
unfolding mark_reconnect
mark_reconnect-Forgets f w now g q = elim (Option-cases (get w g.records)) [
  | inl e ↦ rw e q
  | inr (r, e) ↦ rw e (settle-Forgets f w now r r.active g (q w r e) q)
]

fire-Forgets : (f : Text) (h : ℕ) (g : Grace) → Forgets f g.records → Forgets f (fire h g).0.records
unfolding fire
fire-Forgets f h g q = elim (Option-cases (g.timers.pending h)) [
  | inl e ↦ rw e q
  | inr (t, e) ↦ rw e (delete-Forgets f t.callback.wallet g.records q)
]

clear_fight_grace-Forgets :
    (f ended : Text) (g : Grace)
    → Inv g
    → Forgets f g.records
    → Forgets f (clear_fight_grace ended g).records
unfolding clear_fight_grace
clear_fight_grace-Forgets f ended g v q u s e =
    ground (arith, get-keep (λ r. not (r.fight_id === ended)) u g.records v.keys, q u s)

run-Forgets :
    (f : Text) (g : Grace) (cs : List (ℕ × Call))
    → NobodyLeaves f cs
    → Inv g
    → Forgets f g.records
    → Inv (run g cs) × Forgets f (run g cs).records
unfolding run step
run-Forgets f g [] n v q = (v, q)
run-Forgets f g ((now, disconnects w left budget) ∷ cs) n v q =
    run-Forgets f (mark_disconnect w left budget now g).grace cs n.1
      (step-Inv g (now, disconnects w left budget) v)
      (mark_disconnect-Forgets f w left budget now g n.0 q)
run-Forgets f g ((now, reconnects w) ∷ cs) n v q =
    run-Forgets f (mark_reconnect w now g).0 cs n (step-Inv g (now, reconnects w) v)
      (mark_reconnect-Forgets f w now g q)
run-Forgets f g ((now, fires h) ∷ cs) n v q =
    run-Forgets f (fire h g).0 cs n (step-Inv g (now, fires h) v) (fire-Forgets f h g q)
run-Forgets f g ((now, clears ended) ∷ cs) n v q =
    run-Forgets f (clear_fight_grace ended g) cs n (step-Inv g (now, clears ended) v)
      (clear_fight_grace-Forgets f ended g v q)

-- After any history of disconnects, reconnects, timer callbacks and ended fights: no record has
-- used more than its budget; every disconnected wallet has exactly its own forfeit timer pending,
-- due when the rest of its budget is over; and no timer is pending for a wallet that has reconnected
-- or for an earlier fight of the wallet. If the fight `f` ends then, no wallet has a record of it and
-- no forfeit of it is pending after any further calls among which nobody disconnects from `f`.
pub run-ended :
    (before after : List (ℕ × Call)) (now : ℕ) (f : Text)
    → NobodyLeaves f after
    → Inv (run empty before) × Quiet f (run (step (run empty before) (now, clears f)) after)
unfolding step
run-ended before after now f n =
    let v = run-Inv before in
    let c = clear_fight_grace-Cleared f (run empty before) v in
    let (v', q) =
      run-Forgets f (clear_fight_grace f (run empty before)) after n
        (step-Inv (run empty before) (now, clears f) v) c.0 in
    (
      v,
      (
        q,
        λ h t e.
            let (r, k, _, same) =
              timer_owner (run (clear_fight_grace f (run empty before)) after) h t v' e in
            ground (arith, same, q t.callback.wallet r k),
      ),
    )
