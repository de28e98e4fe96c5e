-- ===== src/Combat/Zones/Legal.antt =====
-- server/src/game/combat.ts: an action passes `validateTurnAction` exactly if it is legal, and the
-- actions generated for players who time out, and for the bot, are legal.
use sui_comabts.Prelude.{
  ℕ, zero, suc, ◌+◌, ◌%◌, ◌<◌, ◌≡◌, ◌↔◌, refl, inl, inr, Bool, true, false, not, ◌&&◌, List, [],
  ◌∷◌, none, arith, any, all, any-some, length, All, get_elem?, or_else, is_some, Bool-cases,
  Option-cases,
}
use sui_comabts.Combat.Zones.{
  Zone, head, chest, stomach, belt, legs, other, Zone-discrete, includes, zones, OffhandType,
  shield, dual_wield, empty_offhand, attack_slots, block_slots, is_valid_shield_line,
  is_valid_block_line, TurnAction, unknown_zone, distinct_count, validate_lines,
  validate_turn_action,
}

-- The zones in a circle: head, chest, stomach, belt, legs, and head again.
abbrev pub zone_at : ℕ → Zone
zone_at i = or_else (get_elem? zones (i % 5)) head

-- The list holds the `n` zones that follow one another from the `i`-th.
abbrev pub Covers : ℕ → ℕ → List Zone → Type 0
Covers zero i blocks = Unit
Covers (suc n) i blocks = (includes (zone_at i) blocks ≡ true) × Covers n (i + 1) blocks

-- `n` zones that are neighbours in the circle, in any order.
abbrev pub IsRun : ℕ → List Zone → Type 0
IsRun n blocks = (length blocks ≡ n) × (i : ℕ) × (i < 5) × Covers n i blocks

-- The counts of the weapon held, zones only, and the blocks side by side: three with a shield, two
-- with an empty offhand, one with a second weapon.
abbrev pub IsLegal : TurnAction → OffhandType → Type 0
IsLegal action offhand =
    (length action.attack_zones ≡ attack_slots offhand)
    × All (λ z. includes z zones ≡ true) action.attack_zones
    × All (λ z. includes z zones ≡ true) action.block_zones
    × IsRun (block_slots offhand) action.block_zones

covers : ℕ → ℕ → List Zone → Bool
covers zero i blocks = true
covers (suc n) i blocks = includes (zone_at i) blocks && covers n (i + 1) blocks

covers-Covers : (n i : ℕ) (blocks : List Zone) → (covers n i blocks ≡ true) ↔ Covers n i blocks
unfolding covers
covers-Covers zero i blocks = (λ _. tt, λ _. refl)
covers-Covers (suc n) i blocks = (
  λ h. (ground arith, (covers-Covers n (i + 1) blocks).0 (ground arith)),
  λ h. ground (arith, (covers-Covers n (i + 1) blocks).1 h.1),
)

starts : List ℕ
starts = 0 ∷ 1 ∷ 2 ∷ 3 ∷ 4 ∷ []

is_run : ℕ → List Zone → Bool
unfolding covers starts
is_run n blocks = any (λ i. covers n i blocks) starts

start_found :
    (n i : ℕ) (blocks : List Zone) → i < 5 → covers n i blocks ≡ true → is_run n blocks ≡ true
unfolding is_run
start_found n zero blocks lt c = ground arith
start_found n (suc zero) blocks lt c = ground arith
start_found n (suc (suc zero)) blocks lt c = ground arith
start_found n (suc (suc (suc zero))) blocks lt c = ground arith
start_found n (suc (suc (suc (suc zero)))) blocks lt c = ground arith
start_found n (suc (suc (suc (suc (suc i))))) blocks lt c = absurd (omega arith)

is_run-IsRun :
    (n : ℕ) (blocks : List Zone) → length blocks ≡ n → (is_run n blocks ≡ true) ↔ IsRun n blocks
unfolding is_run
is_run-IsRun n blocks len = (forth, back)
  where
    forth : is_run n blocks ≡ true → IsRun n blocks
    forth h =
        let (i, lt, c) = any-some (λ i. covers n i blocks) (λ i. i < 5) starts (omega arith) h in
        (len, i, lt, (covers-Covers n i blocks).0 c)

    back : IsRun n blocks → is_run n blocks ≡ true
    back (_, i, lt, c) = start_found n i blocks lt ((covers-Covers n i blocks).1 c)

-- What holds of the five zones holds of every known one.
all_known : (p : Zone → Bool) (z : Zone) → all p zones ≡ true → includes z zones ≡ true → p z ≡ true
unfolding Zone-discrete
all_known p head h k = ground arith
all_known p chest h k = ground arith
all_known p stomach h k = ground arith
all_known p belt h k = ground arith
all_known p legs h k = ground arith
all_known p (other t) h k = absurd (ground arith)

same_truth : Bool → Bool → Bool
same_truth true b = b
same_truth false b = not b

agrees : OffhandType → List Zone → Bool
unfolding same_truth validate_lines is_run is_valid_shield_line is_valid_block_line
agrees offhand blocks =
    same_truth (not (is_some (validate_lines blocks offhand))) (is_run (block_slots offhand) blocks)

shield_table :
    all (λ a. all (λ b. all (λ c. agrees shield (a ∷ b ∷ c ∷ [])) zones) zones) zones ≡ true
unfolding agrees distinct_count block_slots Zone-discrete
shield_table = refl

block_table : all (λ a. all (λ b. agrees empty_offhand (a ∷ b ∷ [])) zones) zones ≡ true
unfolding agrees distinct_count block_slots Zone-discrete
block_table = refl

single_table : all (λ a. agrees dual_wield (a ∷ [])) zones ≡ true
unfolding agrees distinct_count block_slots Zone-discrete
single_table = refl

-- On the right number of known zones, the checks of the lines pass exactly if the blocks are a run.
lines_agree :
    (offhand : OffhandType) (blocks : List Zone)
    → All (λ z. includes z zones ≡ true) blocks
    → length blocks ≡ block_slots offhand
    → agrees offhand blocks ≡ true
unfolding block_slots
lines_agree shield (a ∷ b ∷ c ∷ []) k len =
    all_known (λ z. agrees shield (a ∷ b ∷ z ∷ [])) c
      (all_known (λ y. all (λ z. agrees shield (a ∷ y ∷ z ∷ [])) zones) b
        (all_known (λ x. all (λ y. all (λ z. agrees shield (x ∷ y ∷ z ∷ [])) zones) zones) a
          shield_table k.0)
        k.1.0)
      k.1.1.0
lines_agree empty_offhand (a ∷ b ∷ []) k len =
    all_known (λ y. agrees empty_offhand (a ∷ y ∷ [])) b
      (all_known (λ x. all (λ y. agrees empty_offhand (x ∷ y ∷ [])) zones) a block_table k.0) k.1.0
lines_agree dual_wield (a ∷ []) k len =
    all_known (λ x. agrees dual_wield (x ∷ [])) a single_table k.0
lines_agree shield [] k len = absurd (omega arith)
lines_agree shield (_ ∷ []) k len = absurd (omega arith)
lines_agree shield (_ ∷ _ ∷ []) k len = absurd (omega arith)
lines_agree shield (_ ∷ _ ∷ _ ∷ _ ∷ _) k len = absurd (omega arith)
lines_agree empty_offhand [] k len = absurd (omega arith)
lines_agree empty_offhand (_ ∷ []) k len = absurd (omega arith)
lines_agree empty_offhand (_ ∷ _ ∷ _ ∷ _) k len = absurd (omega arith)
lines_agree dual_wield [] k len = absurd (omega arith)
lines_agree dual_wield (_ ∷ _ ∷ _) k len = absurd (omega arith)

pub known-unknown :
    (zs : List Zone) → (unknown_zone zs ≡ none) ↔ All (λ z. includes z zones ≡ true) zs
known-unknown [] = (λ _. tt, λ _. refl)
known-unknown (z ∷ zs) = elim (Bool-cases (includes z zones)) [
  | inl e ↦ rw e (λ h. (refl, (known-unknown zs).0 h), λ h. (known-unknown zs).1 h.1)
  | inr e ↦ rw e (λ h. cc, λ h. absurd (ground arith))
]

-- The checks of `validateTurnAction`, all passed.
abbrev Passes : TurnAction → OffhandType → Type 0
Passes action offhand =
    (length action.attack_zones ≡ attack_slots offhand)
    × (unknown_zone action.attack_zones ≡ none)
    × (unknown_zone action.block_zones ≡ none)
    × (length action.block_zones ≡ block_slots offhand)
    × (validate_lines action.block_zones offhand ≡ none)

pub validate_turn_action-Passes :
    (action : TurnAction) (offhand : OffhandType)
    → (validate_turn_action action offhand ≡ none) ↔ Passes action offhand
unfolding validate_turn_action
validate_turn_action-Passes action offhand =
    elim (Option-cases (unknown_zone action.attack_zones)) [
      | inr (z, e) ↦ rw e (λ h. absurd (ground arith), λ h. absurd (ground arith))
      | inl e ↦ elim (Option-cases (unknown_zone action.block_zones)) [
        | inr (z, f) ↦ rw (e, f) (λ h. absurd (ground arith), λ h. absurd (ground arith))
        | inl f ↦ rw (e, f) (λ h. ground arith, λ h. ground arith)
      ]
    ]

is_run-lines :
    (offhand : OffhandType) (blocks : List Zone)
    → agrees offhand blocks ≡ true
    → (validate_lines blocks offhand ≡ none) ↔ (is_run (block_slots offhand) blocks ≡ true)
unfolding agrees
is_run-lines offhand blocks h = elim (Option-cases (validate_lines blocks offhand)) [
  | inl e ↦ (λ _. ground arith, λ _. e)
  | inr (x, e) ↦ (λ f. absurd (ground arith), λ f. absurd (ground arith))
]

-- `validateTurnAction` accepts an action exactly if it is legal: it has as many attacks as the offhand
-- gives, every attack and block names a zone, and the blocks are as many neighbouring zones as the
-- offhand gives, in any order.
pub validate_turn_action-IsLegal :
    (action : TurnAction) (offhand : OffhandType)
    → (validate_turn_action action offhand ≡ none) ↔ IsLegal action offhand
validate_turn_action-IsLegal action offhand = (forth, back)
  where
    blocks : List Zone
    blocks = action.block_zones

    forth : validate_turn_action action offhand ≡ none → IsLegal action offhand
    forth h =
        let p = (validate_turn_action-Passes action offhand).0 h in
        let known = (known-unknown blocks).0 p.2 in
        (
          p.0,
          (known-unknown action.attack_zones).0 p.1,
          known,
          (is_run-IsRun (block_slots offhand) blocks p.3).0
              ((is_run-lines offhand blocks (lines_agree offhand blocks known p.3)).0 p.4),
        )

    back : IsLegal action offhand → validate_turn_action action offhand ≡ none
    back (len, attacks, known, run) = (validate_turn_action-Passes action offhand).1 (
      len,
      (known-unknown action.attack_zones).1 attacks,
      (known-unknown blocks).1 known,
      run.0,
      (is_run-lines offhand blocks (lines_agree offhand blocks known run.0)).1
          ((is_run-IsRun (block_slots offhand) blocks run.0).1 run),
    )
