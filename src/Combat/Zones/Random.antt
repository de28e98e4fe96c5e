-- ===== src/Combat/Zones/Random.antt =====
-- server/src/game/combat.ts: the action that is chosen at random is legal.
use sui_comabts.Prelude.{
  ℕ, zero, suc, ◌+◌, ◌*◌, ◌/◌, ◌<◌, ◌≡◌, refl, true, List, [], ◌∷◌, none, some, arith, length, All,
  get_elem?-All, ap,
}
use sui_comabts.Combat.Zones.{
  Zone, Zone-discrete, includes, zones, OffhandType, shield, dual_wield, empty_offhand,
  attack_slots, block_slots, is_valid_shield_line, is_valid_block_line, distinct_count,
  validate_lines, validate_turn_action, resolution, random_int, pick, random_attacks, random_blocks,
  generate_random_action, shield_block_lines, block_lines,
}
use sui_comabts.Combat.Zones.Legal.{known-unknown, validate_turn_action-Passes}

-- A draw below 2⁵³ picks an entry of a list of five, and what holds of all entries holds of it.
pick_five :
    {A : Type 0} (P : A → Type 0) (l : List A) (r : ℕ)
    → All P l
    → length l ≡ 5
    → r < resolution
    → (x : A) × (pick l r ≡ some x) × P x
unfolding random_int
pick_five P l r h five lt =
    let below : r * 5 / resolution + 0 < length l = omega arith in
    rw five (get_elem?-All P l (r * 5 / resolution + 0) h below)

random_attacks_known :
    (n k : ℕ) (draws : ℕ → ℕ)
    → ((i : ℕ) → draws i < resolution)
    → (length (random_attacks n k draws) ≡ n)
      × All (λ z. includes z zones ≡ true) (random_attacks n k draws)
unfolding random_attacks Zone-discrete
random_attacks_known zero k draws h = (refl, tt)
random_attacks_known (suc n) k draws h =
    let (z, e, p) =
      pick_five (λ z. includes z zones ≡ true) zones (draws k)
        (refl, (refl, (refl, (refl, (refl, tt))))) refl (h k) in
    let (len, known) = random_attacks_known n (k + 1) draws h in rw e (ap suc len, (p, known))

-- Blocks that the later checks let through.
abbrev Blocks : OffhandType → List Zone → Type 0
Blocks offhand blocks =
    (length blocks ≡ block_slots offhand)
    × All (λ z. includes z zones ≡ true) blocks
    × (validate_lines blocks offhand ≡ none)

random_blocks_known :
    (offhand : OffhandType) (r : ℕ) → r < resolution → Blocks offhand (random_blocks offhand r)
unfolding random_blocks block_slots validate_lines is_valid_shield_line is_valid_block_line
    distinct_count Zone-discrete
random_blocks_known shield r h =
    let (l, e, p) = pick_five (Blocks shield) shield_block_lines r (ground arith) refl h in rw e p
random_blocks_known dual_wield r h =
    let (z, e, p) = pick_five (λ z. Blocks dual_wield (z ∷ [])) zones r (ground arith) refl h in
    rw e p
random_blocks_known empty_offhand r h =
    let (l, e, p) = pick_five (Blocks empty_offhand) block_lines r (ground arith) refl h in rw e p

-- With every draw of `Math.random()` below 1, `generateRandomAction` yields an action that
-- `validateTurnAction` accepts for the same offhand.
pub generate_random_action_valid :
    (offhand : OffhandType) (draws : ℕ → ℕ)
    → ((k : ℕ) → draws k < resolution)
    → validate_turn_action (generate_random_action offhand draws) offhand ≡ none
unfolding generate_random_action
generate_random_action_valid offhand draws h =
    let (len, known) = random_attacks_known (attack_slots offhand) 0 draws h in
    let b = random_blocks_known offhand (draws (attack_slots offhand)) (h (attack_slots offhand)) in
    (validate_turn_action-Passes (generate_random_action offhand draws) offhand).1
      (len, (known-unknown _).1 known, (known-unknown _).1 b.1, b.0, b.2)
