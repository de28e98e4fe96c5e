-- ===== src/Presence/Rows.antt =====
-- server/src/data/presence.ts: the rows over any history, and what a sweep drops.
use sui_comabts.Prelude.{
  ℕ, ◌-◌, ◌≡◌, ◌≢◌, refl, ◌∙◌, Bool, false, not, List, [], ◌∷◌, Option, none, some, arith, Text,
  ltb, ◌===◌, ===→≡, if◌then◌else◌, any, Map, get, set, get-set, get-delete, passing, has_key,
  IsMap, set-IsMap, delete-IsMap, Bool-cases, Option-cases, inl, inr,
}
use sui_comabts.Characters.{Characters, get_character_by_wallet}
use sui_comabts.Presence.{
  PresenceRow, idle, Presence, no_presence, derive_player_status, UpsertInput, next_row,
  upsert_presence, only_wallet, heartbeat, drop_wallet, remove_presence, is_stale, stale_wallets,
  drop_all, sweep_stale_presence,
}
use sui_comabts.Presence.Status.{HasStatus, derived-HasStatus, never_idle}

-- Each wallet has one row, which is its own, and whose status is the one of its room and fight.
pub record Inv (s : Presence) : Type 0 where
  pub keys : IsMap s.presence_by_wallet
  pub own :
      (w : Text) (r : PresenceRow)
      → get w s.presence_by_wallet ≡ some r
      → (r.wallet_address ≡ w)
        × (r.status ≡ derive_player_status r.current_room r.fight_id r.last_seen_at r.last_seen_at)

set-Inv :
    (w : Text) (row : PresenceRow) (s : Presence)
    → row.wallet_address ≡ w
    → row.status
      ≡ derive_player_status row.current_room row.fight_id row.last_seen_at row.last_seen_at
    → Inv s
    → Inv (record s { presence_by_wallet = set w row s.presence_by_wallet })
set-Inv w row s e f v = record {
  keys = set-IsMap w row s.presence_by_wallet v.keys;
  own = λ j r k. elim (Bool-cases (w === j)) [
    | inl q ↦ ground (arith, k, q, e, f, get-set w j row s.presence_by_wallet, ===→≡ w j)
    | inr q ↦ ground (arith, k, q, get-set w j row s.presence_by_wallet, v.own j r)
  ];
}

upsert_presence-Inv :
    (now : ℕ) (input : UpsertInput) (chars : Characters) (s : Presence)
    → Inv s
    → Inv (upsert_presence now input chars s).0
unfolding upsert_presence next_row
upsert_presence-Inv now input chars s v =
    set-Inv input.wallet_address
      (next_row now input (get_character_by_wallet input.wallet_address chars)
        (get input.wallet_address s.presence_by_wallet))
      s refl refl v

heartbeat-Inv :
    (now : ℕ) (w : Text) (chars : Characters) (s : Presence)
    → Inv s
    → Inv (heartbeat now w chars s).0
unfolding heartbeat
heartbeat-Inv now w chars s v = elim (Option-cases (get w s.presence_by_wallet)) [
  | inl e ↦ rw e v
  | inr (row, e) ↦ rw e (upsert_presence-Inv now (only_wallet w) chars s v)
]

drop_wallet-Inv : (w : Text) (s : Presence) → Inv s → Inv (drop_wallet w s)
unfolding drop_wallet
drop_wallet-Inv w s v = record {
  keys = delete-IsMap w s.presence_by_wallet v.keys;
  own = λ j r k. ground (arith, k, get-delete w j s.presence_by_wallet, v.own j r);
}

drop_all-Inv : (ws : List Text) (s : Presence) → Inv s → Inv (drop_all ws s)
unfolding drop_all
drop_all-Inv [] s v = v
drop_all-Inv (w ∷ ws) s v = drop_all-Inv ws (drop_wallet w s) (drop_wallet-Inv w s v)

-- The calls of the module, with the clock of each and the characters of the time.
pub data Call : Type 0 where
  upserts : UpsertInput → Characters → Call
  beats : Text → Characters → Call
  removes : Text → Call
  sweeps : Call

unfoldable pub step : Presence → ℕ × Call → Presence
step s (now, upserts input chars) = (upsert_presence now input chars s).0
step s (now, beats w chars) = (heartbeat now w chars s).0
step s (now, removes w) = (remove_presence w s).0
step s (now, sweeps) = (sweep_stale_presence now s).0

unfoldable pub run : Presence → List (ℕ × Call) → Presence
run s [] = s
run s (c ∷ cs) = run (step s c) cs

step-Inv : (s : Presence) (c : ℕ × Call) → Inv s → Inv (step s c)
unfolding step remove_presence sweep_stale_presence
step-Inv s (now, upserts input chars) v = upsert_presence-Inv now input chars s v
step-Inv s (now, beats w chars) v = heartbeat-Inv now w chars s v
step-Inv s (now, removes w) v = drop_wallet-Inv w s v
step-Inv s (now, sweeps) v = drop_all-Inv (stale_wallets now s.presence_by_wallet) s v

run_from-Inv : (s : Presence) (cs : List (ℕ × Call)) → Inv s → Inv (run s cs)
unfolding run
run_from-Inv s [] v = v
run_from-Inv s (c ∷ cs) v = run_from-Inv (step s c) cs (step-Inv s c v)

no_presence-Inv : Inv no_presence
unfolding no_presence get
no_presence-Inv = record { keys = tt; own = λ w r e. absurd (ground (arith, e)) }

get-drop_all :
    (ws : List Text) (w : Text) (s : Presence)
    → get w (drop_all ws s).presence_by_wallet
      ≡ (if any (λ x. x === w) ws then none else get w s.presence_by_wallet)
unfolding drop_all drop_wallet
get-drop_all [] w s = refl
get-drop_all (x ∷ ws) w s =
    ground (arith, get-drop_all ws w (drop_wallet x s), get-delete x w s.presence_by_wallet)

-- There is a row, and it passes the test.
abbrev pub any_row : (PresenceRow → Bool) → Option PresenceRow → Bool
any_row p none = false
any_row p (some r) = p r

stale_wallets-absent :
    (now : ℕ) (w : Text) (m : Map PresenceRow)
    → has_key w m ≡ false
    → any (λ x. x === w) (stale_wallets now m) ≡ false
unfolding stale_wallets
stale_wallets-absent now w [] h = refl
stale_wallets-absent now w ((k, r) ∷ m) h = ground (arith, h, stale_wallets-absent now w m)

stale_wallets-row :
    (now : ℕ) (w : Text) (m : Map PresenceRow)
    → IsMap m
    → any (λ x. x === w) (stale_wallets now m) ≡ any_row (is_stale now) (get w m)
unfolding stale_wallets get
stale_wallets-row now w [] h = refl
stale_wallets-row now w ((k, r) ∷ m) h =
    ground (arith, stale_wallets-row now w m h.1, stale_wallets-absent now w m, ===→≡ k w, h.0)

sweep-get :
    (now : ℕ) (w : Text) (s : Presence)
    → IsMap s.presence_by_wallet
    → get w (sweep_stale_presence now s).0.presence_by_wallet
      ≡ passing (λ r. not (is_stale now r)) (get w s.presence_by_wallet)
unfolding sweep_stale_presence
sweep-get now w s h = elim (Option-cases (get w s.presence_by_wallet)) [
  | inl e ↦ rw e (get-drop_all (stale_wallets now s.presence_by_wallet) w s ∙ ground (arith, e))
  | inr (r, e) ↦ rw e (
      get-drop_all (stale_wallets now s.presence_by_wallet) w s
      ∙ ground (arith, e, stale_wallets-row now w s.presence_by_wallet h))
]

-- After any history of upserts, heartbeats, removals and sweeps from an empty map: every wallet has at
-- most one row, which is its own; the row's status is `in_fight` exactly if its room is the one of
-- fights or it names a fight, else `in_marketplace` exactly if its room is the marketplace, else
-- `online`, and never `idle`. There, for any clock, `sweepStalePresence` removes exactly the
-- rows whose last heartbeat is more than a minute ago, and returns exactly their wallets.
pub presence_lem :
    (cs : List (ℕ × Call)) (now : ℕ) (w : Text)
    → let s = run no_presence cs in
      let (t, dropped) = sweep_stale_presence now s in
      Inv s
      × ((r : PresenceRow) → get w s.presence_by_wallet ≡ some r → r.status ≢ idle)
      × (get w t.presence_by_wallet
          ≡ passing (λ r. not (ltb 60000 (now - r.last_seen_at))) (get w s.presence_by_wallet))
      × (any (λ x. x === w) dropped
          ≡ any_row (λ r. ltb 60000 (now - r.last_seen_at)) (get w s.presence_by_wallet))
      × ((r : PresenceRow) → get w s.presence_by_wallet ≡ some r → HasStatus r)
unfolding sweep_stale_presence
presence_lem cs now w =
    let s = run no_presence cs in
    let v = run_from-Inv no_presence cs no_presence-Inv in
    (
      v,
      λ r e. never_idle r (v.own w r e).1,
      sweep-get now w s v.keys,
      stale_wallets-row now w s.presence_by_wallet v.keys,
      λ r e. derived-HasStatus r (v.own w r e).1,
    )
