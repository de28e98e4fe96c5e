-- ===== src/ReconnectGrace/Budget.antt =====
-- server/src/ws/reconnect-grace.ts: the budget is spent across the whole fight.
use sui_comabts.Prelude.{
  ℕ, ◌+◌, ◌-◌, ◌≤◌, ◌<◌, min, ◌≡◌, refl, subst, ◌⊎◌, inl, inr, List, [], ◌∷◌, none, some, arith,
  Text, leb-true, leb-false, ===_refl, get, get-set, get-delete,
}
use sui_comabts.ReconnectGrace.{
  FightGraceRecord, Grace, spend, mark_disconnect_from, mark_disconnect, mark_reconnect,
}

-- The wallet is connected and has used `used` of its budget in the fight.
abbrev pub Idle : Text → Text → ℕ → ℕ → Grace → Type 0
Idle w f budget used g =
    ((get w g.records ≡ none) × (used ≡ 0))
    ⊎ (get w g.records
        ≡ some (record { fight_id = f; budget_ms = budget; used_ms = used; active = none }))

mark_disconnect-spend :
    (w f : Text) (budget used now : ℕ) (g : Grace)
    → Idle w f budget used g
    → mark_disconnect w f budget now g ≡ spend w f budget used now g
unfolding mark_disconnect mark_disconnect_from
mark_disconnect-spend w f budget used now g (inl (e, z)) = rw (e, e, z)
mark_disconnect-spend w f budget used now g (inr e) = rw e (rw (===_refl f) (rw e))

-- A disconnect at `d` and the reconnect at `r`.
unfoldable pub cycle : Text → Text → ℕ → ℕ × ℕ → Grace → Grace
cycle w f budget (d, r) g = (mark_reconnect w r (mark_disconnect w f budget d g).grace).0

unfoldable pub cycles : Text → Text → ℕ → List (ℕ × ℕ) → Grace → Grace
cycles w f budget [] g = g
cycles w f budget (c ∷ cs) g = cycles w f budget cs (cycle w f budget c g)

-- The time spent disconnected.
abbrev pub away : List (ℕ × ℕ) → ℕ
away [] = 0
away ((d, r) ∷ cs) = (r - d) + away cs

abbrev granted : Text → ℕ → ℕ → ℕ → ℕ → FightGraceRecord
granted f budget used d h = record {
  fight_id = f;
  budget_ms = budget;
  used_ms = used;
  active = some (record { handle = h; started_at = d; expires_at = d + (budget - used) });
}

get-spend :
    (w f : Text) (budget used d : ℕ) (g : Grace)
    → used < budget
    → get w (spend w f budget used d g).grace.records
      ≡ some (granted f budget used d g.timers.next_handle)
unfolding spend
get-spend w f budget used d g lt =
    ground (arith, get-set w w (granted f budget used d g.timers.next_handle) g.records)

get-mark_reconnect :
    (w f : Text) (budget used d h r : ℕ) (g : Grace)
    → get w g.records ≡ some (granted f budget used d h)
    → get w (mark_reconnect w r g).0.records
      ≡ some (record {
        fight_id = f;
        budget_ms = budget;
        used_ms = min budget (used + (r - d));
        active = none;
      })
unfolding mark_reconnect
get-mark_reconnect w f budget used d h r g e = rw e (rw (get-set w w _ g.records) (rw (===_refl w)))

cycle-Idle :
    (w f : Text) (budget used d r : ℕ) (g : Grace)
    → used < budget
    → Idle w f budget used g
    → Idle w f budget (min budget (used + (r - d))) (cycle w f budget (d, r) g)
unfolding cycle
cycle-Idle w f budget used d r g lt i = inr (
    rw (cycle, mark_disconnect-spend w f budget used d g i)
      (get-mark_reconnect w f budget used d g.timers.next_handle r (spend w f budget used d g).grace
        (get-spend w f budget used d g lt)))

-- Each disconnect of the history comes while budget is left.
abbrev pub Open : ℕ → ℕ → List (ℕ × ℕ) → Type 0
Open budget used [] = Unit
Open budget used ((d, r) ∷ cs) = (used < budget) × Open budget (used + (r - d)) cs

cycles-Idle :
    (w f : Text) (budget used : ℕ) (cs : List (ℕ × ℕ)) (g : Grace)
    → Open budget used cs
    → Idle w f budget (min budget used) g
    → Idle w f budget (min budget (used + away cs)) (cycles w f budget cs g)
unfolding cycles
cycles-Idle w f budget used [] g o i = subst (λ n. Idle w f budget (min budget n) g) (omega arith) i
cycles-Idle w f budget used ((d, r) ∷ cs) g (lt, o) i =
    let below : min budget used ≡ used = omega arith in
    subst (λ n. Idle w f budget (min budget n) (cycles w f budget cs (cycle w f budget (d, r) g)))
      (omega arith)
      (cycles-Idle w f budget (used + (r - d)) cs (cycle w f budget (d, r) g) o
        (cycle-Idle w f budget used d r g lt (subst (λ n. Idle w f budget n g) below i)))

-- A wallet without a record goes through a history of disconnects and reconnects in one fight, each
-- disconnect coming while budget is left. Then the next disconnect is granted exactly the budget
-- less all the time spent disconnected before; or, when that time has used the budget up, the
-- player forfeits at once, no window is opened, and the record is gone.
pub mark_disconnect-cycles :
    (w f : Text) (budget now : ℕ) (cs : List (ℕ × ℕ)) (g : Grace)
    → get w g.records ≡ none
    → Open budget 0 cs
    → let m = mark_disconnect w f budget now (cycles w f budget cs g) in
      (away cs < budget
        → (m.info
            ≡ some (record {
              fight_id = f;
              expires_at = now + (budget - away cs);
              grace_ms = budget - away cs;
              used_ms = away cs;
              budget_ms = budget;
            }))
          × (m.forfeits ≡ []))
      × (budget ≤ away cs
          → (m.info ≡ none)
            × (m.forfeits ≡ record { wallet = w; fight = f } ∷ [])
            × (get w m.grace.records ≡ none))
unfolding spend
mark_disconnect-cycles w f budget now cs g e o =
    let i = cycles-Idle w f budget 0 cs g o (inl (e, omega arith)) in
    let g' = cycles w f budget cs g in
    rw (mark_disconnect-spend w f budget (min budget (0 + away cs)) now g' i) (
      λ lt.
          let same : min budget (0 + away cs) ≡ away cs = omega arith in
          rw (same, leb-false (budget - away cs) 0 (omega arith)) (refl, refl),
      λ le.
          let same : min budget (0 + away cs) ≡ budget = omega arith in
          rw (same, leb-true (budget - budget) 0 (omega arith))
            (refl, refl, rw (get-delete w w g'.records) (rw (===_refl w))),
    )
