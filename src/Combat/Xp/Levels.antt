-- ===== src/Combat/Xp/Levels.antt =====
-- server/src/game/combat.ts: the level that `applyXp` reaches.
use sui_comabts.Prelude.{
  ℕ, zero, suc, ◌+◌, ◌-◌, ◌*◌, ◌≤◌, ◌<◌, ◌≡◌, ◌↔◌, refl, inl, inr, ◌⊎◌, true, false, arith, ltb,
  ℕ_discrete, Bool-cases,
}
use sui_comabts.Config.{max_level}
use sui_comabts.Combat.Xp.{xp_for_level, Progress, reaches, next_level, level_up, apply_xp}

-- The experience suffices for each level above `from` up to `to`.
abbrev pub Earned : ℕ → ℕ → ℕ → Type 0
Earned xp from to = (l : ℕ) → from < l → l ≤ to → reaches xp (xp_for_level l) ≡ true

level_up_lem :
    (fuel : ℕ) (p : Progress)
    → p.level + fuel ≡ max_level
    → let q = level_up fuel p in
      (q.xp ≡ p.xp)
      × (p.level ≤ q.level)
      × (q.level ≤ max_level)
      × (q.unallocated_points ≡ p.unallocated_points + 3 * (q.level - p.level))
      × Earned p.xp p.level q.level
      × ((q.level ≡ max_level) ⊎ (reaches p.xp (xp_for_level (q.level + 1)) ≡ false))
unfolding level_up
level_up_lem zero p h =
    (refl, omega arith, omega arith, omega arith, λ l a b. absurd (omega arith), inl (omega arith))
level_up_lem (suc fuel) p h = elim (Bool-cases (reaches p.xp (xp_for_level (p.level + 1)))) [
  | inl up ↦
      let r = level_up_lem fuel (next_level p) (omega arith) in
      let below : ltb p.level max_level ≡ true = ground arith in
      rw (below, up)
        (
          r.0,
          omega (arith, r.1),
          r.2,
          omega (arith, r.1, r.3),
          λ l a b. elim (ℕ_discrete l (p.level + 1)) [
            | yes here ↦ rw here up
            | no later ↦ r.4 l (omega arith) b
          ],
          r.5,
        )
  | inr stay ↦
      let below : ltb p.level max_level ≡ true = ground arith in
      rw (below, stay)
        (refl, omega arith, omega arith, omega arith, λ l a b. absurd (omega arith), inr stay)
]

-- From any level up to the cap of 20: the gain is added to the experience, which is never reduced;
-- the new level is the highest that the loop can reach from the old one, every level passed being
-- paid for by the experience and the next one, unless the cap is reached, not; each level gained
-- brings three points; and the result reports exactly this.
pub apply_xp_lem :
    (p : Progress) (gained : ℕ)
    → p.level ≤ max_level
    → let (q, result) = apply_xp p gained in
      (q.xp ≡ p.xp + gained)
      × (p.level ≤ q.level)
      × (q.level ≤ max_level)
      × (q.unallocated_points ≡ p.unallocated_points + 3 * result.levels_gained)
      × Earned q.xp p.level q.level
      × ((q.level ≡ max_level) ⊎ (reaches q.xp (xp_for_level (q.level + 1)) ≡ false))
      × (result.new_level ≡ p.level + result.levels_gained)
      × ((result.leveled_up ≡ true) ↔ (0 < result.levels_gained))
unfolding apply_xp
apply_xp_lem p gained h =
    let start = record p { xp = p.xp + gained } in
    let r = level_up_lem (max_level - p.level) start (omega arith) in
    (
      r.0,
      r.1,
      r.2,
      r.3,
      rw (r.0) (r.4),
      rw (r.0) (r.5),
      omega (arith, r.1),
      (λ e. ground arith, λ e. ground arith),
    )
