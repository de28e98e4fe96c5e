-- ===== src/Combat/Turn/Damage.antt =====
-- server/src/game/combat.ts: the damage of one attack.
use sui_comabts.Prelude.{
  ℕ, ◌+◌, ◌*◌, ◌/◌, ◌≤◌, ◌<◌, ◌≡◌, max, Bool, true, false, ◌&&◌, ◌||◌, List, arith, ltb,
}
use sui_comabts.Combat.Zones.{Zone, includes, resolution}
use sui_comabts.Combat.Stats.{DerivedStats}
use sui_comabts.Combat.Turn.{Rolls, raw_damage, landed_damage, resolve_attack}

raw_damage-le :
    (power roll : ℕ) → roll < resolution → raw_damage power roll ≤ 12 * resolution * power
unfolding raw_damage
raw_damage-le power roll h = grind arith

-- An attack that lands costs at least one hit point; without a critical hit at most 1.2 times the
-- attack power, rounded, or that one point.
landed_damage-ge : (crit : Bool) (a d : DerivedStats) (roll : ℕ) → 100 ≤ landed_damage crit a d roll
unfolding landed_damage
landed_damage-ge true a d roll = omega arith
landed_damage-ge false a d roll = omega arith

landed_damage-le :
    (a d : DerivedStats) (roll : ℕ)
    → roll < resolution
    → landed_damage false a d roll ≤ max 100 ((12 * a.attack_power + 5) / 10)
unfolding landed_damage
landed_damage-le a d roll h = omega (arith, raw_damage-le a.attack_power roll h)

-- With a damage draw below 1: an attack is blocked exactly if its zone is among the defender's
-- blocks. A blocked or dodged attack does no damage and is no critical hit; any other does at
-- least one hit point, however high armor and defense are, and, unless it is a critical hit, at
-- most 1.2 times the attack power, rounded, or one point.
pub resolve_attack_lem :
    (zone : Zone) (blocks : List Zone) (a d : DerivedStats) (rolls : Rolls)
    → rolls.damage < resolution
    → let h = resolve_attack zone blocks a d rolls in
      (h.blocked ≡ includes zone blocks)
      × ((h.blocked && h.dodged) ≡ false)
      × ((h.blocked || h.dodged) ≡ true → (h.damage ≡ 0) × (h.crit ≡ false))
      × ((h.blocked || h.dodged) ≡ false → 100 ≤ h.damage)
      × (h.crit ≡ false → h.damage ≤ max 100 ((12 * a.attack_power + 5) / 10))
unfolding resolve_attack
resolve_attack_lem zone blocks a d rolls lt = ground (
  arith,
  landed_damage-ge (ltb (rolls.crit * 1000) (a.crit_chance * resolution)) a d rolls.damage,
  landed_damage-le a d rolls.damage lt,
)
