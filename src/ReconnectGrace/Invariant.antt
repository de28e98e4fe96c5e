-- ===== src/ReconnectGrace/Invariant.antt =====
-- server/src/ws/reconnect-grace.ts: the records and the pending timers agree in every state.
use sui_comabts.Prelude.{
  ℕ, ◌≡◌, refl, Bool, true, false, not, List, [], ◌∷◌, none, some, arith, Text, ◌===◌, ◌&&◌,
  any_value, any_value-get, any_value_of_get, inl, inr, Option-cases, if◌then◌else◌, Map, get,
  is_some, get-keep, keep-IsMap, passing,
}
use sui_comabts.Scheduler.{Timer, Timers, cancel, Fresh}
use sui_comabts.ReconnectGrace.{
  FightGraceRecord, Forfeit, Grace, empty, cancel_active, active_of, fire, cancel_fight,
  clear_fight_grace, Call, disconnects, reconnects, fires, clears, step, run,
}
use sui_comabts.ReconnectGrace.Records.{
  Inv, drop-Inv, handle_of, same_handle, empty-Inv, mark_disconnect-Inv, mark_reconnect-Inv,
}

pub fire-Inv : (h : ℕ) (g : Grace) → Inv g → Inv (fire h g).0
unfolding fire
fire-Inv h g v = elim (Option-cases (g.timers.pending h)) [
  | inl e ↦ rw e v
  | inr (t, e) ↦ elim (Option-cases (get t.callback.wallet g.records)) [
    | inl n ↦ absurd (ground (arith, v.owned h t e))
    | inr (r, k) ↦ rw e (elim (Option-cases r.active) [
      | inl q ↦ absurd (ground (arith, v.owned h t e))
      | inr (a, q) ↦
          let here : a.handle ≡ h = ground (arith, v.owned h t e) in
          rw (← here) (drop-Inv g v t.callback.wallet r k (some a) q)
    ])
  ]
]

-- A record of the fight in the map holds the timer's handle.
abbrev pub holds : Text → ℕ → FightGraceRecord → Bool
holds f h r = r.fight_id === f && same_handle h (handle_of r.active)

pending-cancel_fight :
    (f : Text) (m : Map FightGraceRecord) (ts : Timers Forfeit) (h : ℕ)
    → (cancel_fight f m ts).pending h ≡ (if any_value (holds f h) m then none else ts.pending h)
unfolding cancel_fight cancel
pending-cancel_fight f [] ts h = refl
pending-cancel_fight f ((w, r) ∷ m) ts h =
    ground (
      arith,
      pending-cancel_fight f m (if r.fight_id === f then cancel_active r.active ts else ts) h,
    )

next-cancel_fight :
    (f : Text) (m : Map FightGraceRecord) (ts : Timers Forfeit)
    → (cancel_fight f m ts).next_handle ≡ ts.next_handle
unfolding cancel_fight cancel
next-cancel_fight f [] ts = refl
next-cancel_fight f ((w, r) ∷ m) ts =
    ground
      (arith, next-cancel_fight f m (if r.fight_id === f then cancel_active r.active ts else ts))

cancel_fight-Fresh :
    (f : Text) (m : Map FightGraceRecord) (ts : Timers Forfeit)
    → Fresh ts
    → Fresh (cancel_fight f m ts)
cancel_fight-Fresh f m ts v h le =
    ground (arith, pending-cancel_fight f m ts h, v h, next-cancel_fight f m ts)

pub clear_fight_grace-Inv : (f : Text) (g : Grace) → Inv g → Inv (clear_fight_grace f g)
unfolding clear_fight_grace
clear_fight_grace-Inv f g v = record {
  keys = keep-IsMap other g.records v.keys;
  budgeted = λ u s k. ground (arith, get-keep other u g.records v.keys, v.budgeted u s);
  armed = λ u s b k l. elim (any_value-get (holds f b.handle) g.records v.keys) [
    | inl e ↦ ground (
      arith,
      get-keep other u g.records v.keys,
      pending-cancel_fight f g.records g.timers b.handle,
      v.armed u s b,
    )
    | inr (w, r, e, q) ↦ elim (Option-cases r.active) [
      | inl n ↦ absurd (ground arith)
      | inr (c, n) ↦
          absurd
            (ground (arith, get-keep other u g.records v.keys, v.armed u s b, v.armed w r c e n))
    ]
  ];
  owned = λ h t k. ground (
    arith,
    get-keep other t.callback.wallet g.records v.keys,
    pending-cancel_fight f g.records g.timers h,
    v.owned h t,
    kept h t.callback.wallet,
  );
  fresh = cancel_fight-Fresh f g.records g.timers v.fresh;
}
  where
    other : FightGraceRecord → Bool
    other r = not (r.fight_id === f)

    kept :
        (h : ℕ) (w : Text)
        → any_value (holds f h) g.records ≡ false
        → handle_of (active_of (get w g.records)) ≡ some h
        → handle_of (active_of (passing other (get w g.records))) ≡ some h
    kept h w n e = elim (Option-cases (get w g.records)) [
      | inl k ↦ absurd (ground arith)
      | inr (r, k) ↦ rw k (ground (arith, any_value_of_get (holds f h) w g.records k))
    ]

pub step-Inv : (g : Grace) (c : ℕ × Call) → Inv g → Inv (step g c)
unfolding step
step-Inv g (now, disconnects w f budget) v = mark_disconnect-Inv w f budget now g v
step-Inv g (now, reconnects w) v = mark_reconnect-Inv w now g v
step-Inv g (now, fires h) v = fire-Inv h g v
step-Inv g (now, clears f) v = clear_fight_grace-Inv f g v

run_from-Inv : (g : Grace) (cs : List (ℕ × Call)) → Inv g → Inv (run g cs)
unfolding run
run_from-Inv g [] v = v
run_from-Inv g (c ∷ cs) v = run_from-Inv (step g c) cs (step-Inv g c v)

-- After any history of disconnects, reconnects, timer callbacks and ended fights: no record has
-- used more than its budget; every disconnected wallet has exactly its own forfeit timer pending,
-- due when the rest of its budget is over; and no timer is pending for a wallet that has reconnected
-- or for an earlier fight of the wallet.
pub run-Inv : (cs : List (ℕ × Call)) → Inv (run empty cs)
run-Inv cs = run_from-Inv empty cs empty-Inv

-- A pending timer is the forfeit of its wallet's active record, in the record's fight.
pub timer_owner :
    (g : Grace) (h : ℕ) (t : Timer Forfeit)
    → Inv g
    → g.timers.pending h ≡ some t
    → (r : FightGraceRecord) × (get t.callback.wallet g.records ≡ some r)
      × (is_some r.active ≡ true)
      × (r.fight_id ≡ t.callback.fight)
timer_owner g h t v e = elim (Option-cases (get t.callback.wallet g.records)) [
  | inl n ↦ absurd (ground (arith, v.owned h t e))
  | inr (r, k) ↦ elim (Option-cases r.active) [
    | inl n ↦ absurd (ground (arith, v.owned h t e))
    | inr (a, q) ↦
        (r, k, ground arith, ground (arith, v.owned h t e, v.armed t.callback.wallet r a k q))
  ]
]
