-- ===== src/Presence/Status.antt =====
-- server/src/data/presence.ts: the status of a row, by its room and its fight.
use sui_comabts.Prelude.{
  ◌≡◌, ◌≢◌, ◌↔◌, ◌⊎◌, sym, true, refl, [], ◌∷◌, Option, none, some, arith, Text, Bool-cases, inl,
  inr,
}
use sui_comabts.Presence.{
  fight, marketplace, in_fight, in_marketplace, online, present, PresenceRoom-discrete, PresenceRow,
  idle, derive_player_status,
}

-- A status that is derived at the time of its own heartbeat is not idle.
pub never_idle :
    (r : PresenceRow)
    → r.status ≡ derive_player_status r.current_room r.fight_id r.last_seen_at r.last_seen_at
    → r.status ≢ idle
unfolding derive_player_status
never_idle r e i = absurd (ground (arith, e, i))

-- The wallet is in the room of fights, or in a fight.
abbrev pub Fights : PresenceRow → Type 0
Fights r = (r.current_room ≡ fight) ⊎ ((i : Text) × (r.fight_id ≡ some i) × (i ≢ []))

-- In a fight, else in the marketplace, else online.
abbrev pub HasStatus : PresenceRow → Type 0
HasStatus r =
    ((r.status ≡ in_fight) ↔ Fights r)
    × ((r.status ≡ in_marketplace) ↔ ((¬ Fights r) × (r.current_room ≡ marketplace)))
    × ((r.status ≡ online) ↔ ((¬ Fights r) × (r.current_room ≢ marketplace)))

nonempty_fight : (o : Option Text) → (present o ≡ true) ↔ ((i : Text) × (o ≡ some i) × (i ≢ []))
nonempty_fight none = (λ h. cc, λ (i, e, n). cc)
nonempty_fight (some []) = (λ h. cc, λ (i, e, n). let c : [] ≡ i = cc in absurd (n (sym c)))
nonempty_fight (some (c ∷ i)) = (λ h. (c ∷ i, refl, λ e. cc), λ h. refl)

in_fight-HasStatus : (r : PresenceRow) → Fights r → r.status ≡ in_fight → HasStatus r
in_fight-HasStatus r f e = (
  (λ h. f, λ k. e),
  (λ h. absurd cc, λ (n, _). absurd (n f)),
  (λ h. absurd cc, λ (n, _). absurd (n f)),
)

pub derived-HasStatus :
    (r : PresenceRow)
    → r.status ≡ derive_player_status r.current_room r.fight_id r.last_seen_at r.last_seen_at
    → HasStatus r
unfolding derive_player_status
derived-HasStatus r e =
    let (forth, back) = nonempty_fight r.fight_id in
    elim (Bool-cases (present r.fight_id)) [
      | inl p ↦ in_fight-HasStatus r (inr (forth p)) (ground (arith, e, p))
      | inr p ↦ elim (PresenceRoom-discrete r.current_room fight) [
        | yes q ↦ in_fight-HasStatus r (inl q) (ground (arith, e, p, q))
        | no q ↦
            let f : ¬ Fights r =
              λ x. elim x [ inl k ↦ q k | inr k ↦ absurd (ground (arith, back k, p)) ] in
            elim (PresenceRoom-discrete r.current_room marketplace) [
              | yes m ↦
                  let st : r.status ≡ in_marketplace = ground (arith, e, p, q, m) in
                  (
                    (λ h. absurd cc, λ k. absurd (f k)),
                    (λ h. (f, m), λ h. st),
                    (λ h. absurd cc, λ (_, n). absurd (n m)),
                  )
              | no n ↦
                  let st : r.status ≡ online = ground (arith, e, p, q, n) in
                  (
                    (λ h. absurd cc, λ k. absurd (f k)),
                    (λ h. absurd cc, λ (_, m). absurd (n m)),
                    (λ h. (f, n), λ h. st),
                  )
            ]
      ]
    ]
