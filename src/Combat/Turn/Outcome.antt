-- ===== src/Combat/Turn/Outcome.antt =====
-- server/src/game/combat.ts: what a turn does to the two fighters, and who has won.
use sui_comabts.Prelude.{
  ℕ, ◌+◌, ◌-◌, ◌≤◌, ◌<◌, ◌≡◌, ◌↔◌, ◌≢◌, refl, Bool, true, false, not, ◌||◌, List, [], ◌∷◌, arith,
  any,
}
use sui_comabts.Combat.Zones.{Zone, TurnAction, resolution}
use sui_comabts.Combat.Stats.{DerivedStats}
use sui_comabts.Combat.Turn.{
  HitResult, Rolls, FighterState, resolve_attacks, total_damage, resolve_turn, unfinished, draw,
  won, check_fight_end,
}
use sui_comabts.Combat.Turn.Damage.{resolve_attack_lem}

-- The attack was neither blocked nor dodged.
abbrev pub landed : HitResult → Bool
landed h = not (h.blocked || h.dodged)

resolve_attacks_damage :
    (zs blocks : List Zone) (a d : DerivedStats) (k : ℕ) (rolls : ℕ → Rolls)
    → ((i : ℕ) → (rolls i).damage < resolution)
    → let hits = resolve_attacks zs blocks a d k rolls in
      (any landed hits ≡ true → 100 ≤ total_damage hits)
      × (any landed hits ≡ false → total_damage hits ≡ 0)
unfolding resolve_attacks total_damage
resolve_attacks_damage [] blocks a d k rolls h = (λ e. cc, λ e. refl)
resolve_attacks_damage (z ∷ zs) blocks a d k rolls h =
    let one = resolve_attack_lem z blocks a d (rolls k) (h k) in
    let rest = resolve_attacks_damage zs blocks a d (k + 1) rolls h in
    (λ e. ground (arith, one, rest), λ e. ground (arith, one, rest))

-- With draws below 1: exchanging the two sides of a turn exchanges the results, so a turn is
-- resolved for both fighters at once. If an attack of the first fighter hits the second, that one
-- loses at least one hit point, or all that are left; if none hits, nothing changes for the
-- second.
pub resolve_turn_lem :
    (n : ℕ) (a b : FighterState) (x y : TurnAction) (ra rb : ℕ → Rolls)
    → ((i : ℕ) → (ra i).damage < resolution)
    → ((i : ℕ) → (rb i).damage < resolution)
    → let r = resolve_turn n a b x y ra rb in
      let s = resolve_turn n b a y x rb ra in
      (s.fighter_a ≡ r.fighter_b)
      × (s.fighter_b ≡ r.fighter_a)
      × (s.result.player_a ≡ r.result.player_b)
      × (s.result.player_b ≡ r.result.player_a)
      × (any landed r.result.player_b.hits ≡ true → r.fighter_b.current_hp ≤ b.current_hp - 100)
      × (any landed r.result.player_b.hits ≡ false → r.fighter_b ≡ b)
unfolding resolve_turn
resolve_turn_lem n a b x y ra rb ha hb =
    let d =
      resolve_attacks_damage x.attack_zones y.block_zones a.derived_stats b.derived_stats 0 ra ha in
    (refl, refl, refl, refl, λ e. omega (arith, d.0 e), λ e. ground (arith, d.1 e))

-- `checkFightEnd` on fighters with different character ids: the fight goes on exactly if both have
-- hit points left, is a draw exactly if neither has, and is won exactly by the one who has.
pub check_fight_end_lem :
    (a b : FighterState)
    → a.character_id ≢ b.character_id
    → let e = check_fight_end a b in
      ((e ≡ unfinished) ↔ ((0 < a.current_hp) × (0 < b.current_hp)))
      × ((e ≡ draw) ↔ ((a.current_hp ≡ 0) × (b.current_hp ≡ 0)))
      × ((e ≡ won a.character_id) ↔ ((0 < a.current_hp) × (b.current_hp ≡ 0)))
      × ((e ≡ won b.character_id) ↔ ((a.current_hp ≡ 0) × (0 < b.current_hp)))
unfolding check_fight_end
check_fight_end_lem a b n = (
  (λ h. ground arith, λ h. ground arith),
  (λ h. ground arith, λ h. ground arith),
  (λ h. ground arith, λ h. ground arith),
  (λ h. ground arith, λ h. ground arith),
)
