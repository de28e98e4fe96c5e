-- ===== src/Absence/Windows.antt =====
-- server/src/ws/reconnect-grace.ts: which wallets are in grace after each operation, where all records
-- are those of one fight.
use sui_comabts.Prelude.{
  ℕ, ◌+◌, ◌-◌, min, ◌≡◌, ◌⊎◌, refl, true, false, [], ◌∷◌, Option, none, some, arith, Text, ◌===◌,
  ===_refl, leb, if◌then◌else◌, is_some, get, delete, get-set, get-delete, Bool-cases, Option-cases,
  inl, inr,
}
use sui_comabts.Scheduler.{Timer}
use sui_comabts.ReconnectGrace.{
  FightGraceRecord, Forfeit, Grace, Marked, active_of, drop_other, spend, mark_disconnect_from,
  mark_disconnect, mark_reconnect, is_disconnect_pending, fire,
}

-- Every record is of the fight.
abbrev pub Tied : Text → Grace → Type 0
Tied f g = (w : Text) (r : FightGraceRecord) → get w g.records ≡ some r → (r.fight_id === f) ≡ true

-- A wallet is in grace now; the others are as before.
abbrev pub Opens : Text → Grace → Grace → Type 0
Opens w g g' =
    (j : Text) → is_disconnect_pending j g' ≡ (if w === j then true else is_disconnect_pending j g)

abbrev pub Closes : Text → Grace → Grace → Type 0
Closes w g g' =
    (j : Text) → is_disconnect_pending j g' ≡ (if w === j then false else is_disconnect_pending j g)

drop_other_same : (w f : Text) (g : Grace) → Tied f g → drop_other w f (get w g.records) g ≡ g
drop_other_same w f g v = elim (Option-cases (get w g.records)) [
  | inl e ↦ rw e refl
  | inr (r, e) ↦ rw e (rw (v w r e) refl)
]

-- The three ends of `markDisconnect`: the wallet is in grace already; its budget is spent, and it
-- forfeits; a window opens.
pub data Outcome (w f : Text) (g : Grace) (m : Marked) : Type 0 where
  already :
      is_disconnect_pending w g ≡ true
      → m.grace ≡ g
      → m.info ≡ none
      → m.forfeits ≡ []
      → Outcome w f g m
  spent :
      m.info ≡ none
      → m.forfeits ≡ record { wallet = w; fight = f } ∷ []
      → Tied f m.grace
      → Outcome w f g m
  opened :
      is_some m.info ≡ true → m.forfeits ≡ [] → Opens w g m.grace → Tied f m.grace → Outcome w f g m

spend-Outcome :
    (w f : Text) (budget used now : ℕ) (g : Grace)
    → Tied f g
    → Outcome w f g (spend w f budget used now g)
unfolding spend is_disconnect_pending
spend-Outcome w f budget used now g v = elim (Bool-cases (leb (budget - used) 0)) [
  | inl e ↦ rw e (spent refl refl (λ j r k. ground (arith, k, get-delete w j g.records, v j r)))
  | inr e ↦ rw e (
      opened refl refl (λ j. ground (arith, get-set w j granted g.records))
        (λ j r k. ground (arith, k, get-set w j granted g.records, v j r, ===_refl f)))
]
  where
    granted : FightGraceRecord
    granted = record {
      fight_id = f;
      budget_ms = budget;
      used_ms = used;
      active = some (record {
        handle = g.timers.next_handle;
        started_at = now;
        expires_at = now + (budget - used);
      });
    }

pub mark_disconnect-Outcome :
    (w f : Text) (budget now : ℕ) (g : Grace)
    → Tied f g
    → Outcome w f g (mark_disconnect w f budget now g)
unfolding mark_disconnect mark_disconnect_from is_disconnect_pending
mark_disconnect-Outcome w f budget now g v =
    rw (drop_other_same w f g v) (elim (Bool-cases (is_some (active_of (get w g.records)))) [
      | inl e ↦ rw e (already e refl refl refl)
      | inr e ↦ rw e (spend-Outcome w f _ _ now g v)
    ])

-- The fight that `markReconnect` answers with is the fight of the records, and then the wallet is no
-- longer in grace; otherwise nothing changes.
pub data Return (w f : Text) (g : Grace) (r : Grace × Option Text) : Type 0 where
  absent : is_disconnect_pending w g ≡ false → r.0 ≡ g → r.1 ≡ none → Return w f g r
  came :
      (id : Text)
      → is_disconnect_pending w g ≡ true
      → r.1 ≡ some id
      → (id === f) ≡ true
      → Closes w g r.0
      → Tied f r.0
      → Return w f g r

pub mark_reconnect-Return :
    (w f : Text) (now : ℕ) (g : Grace) → Tied f g → Return w f g (mark_reconnect w now g)
unfolding mark_reconnect is_disconnect_pending
mark_reconnect-Return w f now g v = elim (Option-cases (get w g.records)) [
  | inl e ↦ rw e (absent (rw e refl) refl refl)
  | inr (r, e) ↦ rw e (elim (Option-cases r.active) [
    | inl q ↦ rw q (absent (rw e (rw q refl)) refl refl)
    | inr (a, q) ↦
        let used : FightGraceRecord = record r {
          used_ms = min r.budget_ms (r.used_ms + (now - a.started_at));
          active = none;
        } in
        rw q (
          came r.fight_id (rw e (rw q refl)) refl (v w r e)
            (λ j. ground (arith, get-set w j used g.records))
            (λ j s k. ground (arith, k, get-set w j used g.records, v j s, v w r e)))
  ])
]

-- A forfeit timer that fires is of the fight, or does nothing.
pub fire-cases :
    (h : ℕ) (g : Grace)
    → (fire h g ≡ (g, []))
      ⊎ ((t : Timer Forfeit) × (g.timers.pending h ≡ some t)
          × ((fire h g).1 ≡ t.callback ∷ [])
          × ((fire h g).0.records ≡ delete t.callback.wallet g.records))
unfolding fire
fire-cases h g = elim (Option-cases (g.timers.pending h)) [
  | inl e ↦ inl (rw e refl)
  | inr (t, e) ↦ inr (t, e, rw e refl, rw e refl)
]
