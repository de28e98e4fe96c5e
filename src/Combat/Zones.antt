-- ===== src/Combat/Zones.antt =====
-- server/src/game/combat.ts: attack and block zones, and the check of a submitted action.
pub mod Legal
pub mod Random
use sui_comabts.Prelude.{
  ℕ, zero, suc, ◌+◌, ◌-◌, ◌*◌, ◌/◌, ◌%◌, Bool, true, false, not, ◌&&◌, ◌||◌, List, [], ◌∷◌, Option,
  none, some, Text, Text-discrete, leb, ltb, ◌==◌, if◌then◌else◌, any, find, length, get_elem?,
  or_else,
}
use sui_comabts.Config.{
  default_attack_zones, default_block_zones, shield_block_zones, dual_wield_attack_zones,
  dual_wield_block_zones,
}

-- The five zones, and any other string that a client may send in their place.
pub data Zone : Type 0 where
  head chest stomach belt legs : Zone
  other : Text → Zone

unfoldable pub Zone-discrete : Discrete Zone
unfolding Text-discrete
Zone-discrete = hlevel Text-discrete

abbrev pub zone_eq : Zone → Zone → Bool
zone_eq a b = elim (Zone-discrete a b) [ yes _ ↦ true | no _ ↦ false ]

abbrev pub includes : Zone → List Zone → Bool
includes z = any λ x. zone_eq x z

pub data OffhandType : Type 0 where
  shield dual_wield empty_offhand : OffhandType  -- the last is the source's 'none'

-- `GAME_CONSTANTS.ZONES`, and `allZones` of `validateTurnAction`.
abbrev pub zones : List Zone
zones = head ∷ chest ∷ stomach ∷ belt ∷ legs ∷ []

abbrev pub shield_block_lines : List (List Zone)
shield_block_lines =
    (head ∷ chest ∷ stomach ∷ [])
    ∷ (chest ∷ stomach ∷ belt ∷ [])
    ∷ (stomach ∷ belt ∷ legs ∷ [])
    ∷ (belt ∷ legs ∷ head ∷ [])
    ∷ (legs ∷ head ∷ chest ∷ [])
    ∷ []

abbrev pub block_lines : List (List Zone)
block_lines =
    (head ∷ chest ∷ [])
    ∷ (chest ∷ stomach ∷ [])
    ∷ (stomach ∷ belt ∷ [])
    ∷ (belt ∷ legs ∷ [])
    ∷ (legs ∷ head ∷ [])
    ∷ []

-- `getZoneCounts`: the numbers of attack and of block zones.
unfoldable pub attack_slots : OffhandType → ℕ
attack_slots shield = default_attack_zones
attack_slots dual_wield = dual_wield_attack_zones
attack_slots empty_offhand = default_attack_zones

unfoldable pub block_slots : OffhandType → ℕ
block_slots shield = shield_block_zones
block_slots dual_wield = dual_wield_block_zones
block_slots empty_offhand = default_block_zones

-- The place of a zone in the order of `sort()`, which compares the strings. A string that is no
-- zone is in no line, so its place does not matter to the comparisons below.
abbrev pub sort_rank : Zone → ℕ
sort_rank belt = 0
sort_rank chest = 1
sort_rank head = 2
sort_rank legs = 3
sort_rank stomach = 4
sort_rank (other _) = 5

unfoldable pub insert : Zone → List Zone → List Zone
insert z [] = z ∷ []
insert z (x ∷ xs) =
    let rest = insert z xs in if leb (sort_rank z) (sort_rank x) then z ∷ x ∷ xs else x ∷ rest

unfoldable pub sort : List Zone → List Zone
unfolding insert
sort [] = []
sort (z ∷ zs) = insert z (sort zs)

-- `a[i] === b[i]`, where a missing entry is `undefined`.
abbrev pub same_zone : Option Zone → Option Zone → Bool
same_zone none none = true
same_zone none (some _) = false
same_zone (some _) none = false
same_zone (some a) (some b) = zone_eq a b

abbrev pub same_at : List Zone → List Zone → ℕ → Bool
same_at xs ys i = same_zone (get_elem? xs i) (get_elem? ys i)

unfoldable pub is_valid_shield_line : List Zone → Bool
unfolding sort Zone-discrete
is_valid_shield_line blocks =
    if not (length blocks == 3)
    then false
    else any
        (λ line.
          same_at (sort blocks) (sort line) 0
          && same_at (sort blocks) (sort line) 1
          && same_at (sort blocks) (sort line) 2)
        shield_block_lines

unfoldable pub is_valid_block_line : List Zone → Bool
unfolding sort Zone-discrete
is_valid_block_line blocks =
    if not (length blocks == 2)
    then false
    else any (λ line. same_at (sort blocks) (sort line) 0 && same_at (sort blocks) (sort line) 1)
        block_lines

-- `zones.indexOf(z)`; `none` stands for -1.
unfoldable pub index_of : Zone → List Zone → Option ℕ
index_of z [] = none
index_of z (x ∷ xs) =
    let rest = index_of z xs in
    if zone_eq x z then some 0 else elim rest [ none ↦ none | some i ↦ some (i + 1) ]

-- `zones[idx]`, `zones[(idx + 1) % 5]` and `zones[(idx + 2) % 5]`. For a string that is no zone
-- `idx` is -1: the first entry is then `undefined`, and the others are `zones[0]` and `zones[1]`.
unfoldable pub get_shield_line_from_center : Zone → List (Option Zone)
unfolding index_of
get_shield_line_from_center center = elim (index_of center zones) [
  | none ↦ none ∷ get_elem? zones 0 ∷ get_elem? zones 1 ∷ []
  | some i ↦ get_elem? zones i ∷ get_elem? zones ((i + 1) % 5) ∷ get_elem? zones ((i + 2) % 5) ∷ []
]

pub record TurnAction : Type 0 where
  pub attack_zones : List Zone
  pub block_zones : List Zone

-- The errors of `validateTurnAction`, with what their messages print.
pub data ActionError : Type 0 where
  attack_count block_count : ℕ → ℕ → ActionError
  invalid_attack_zone invalid_block_zone : Zone → ActionError
  not_shield_line not_adjacent duplicate_blocks : ActionError

abbrev pub unknown_zone : List Zone → Option Zone
unknown_zone = find λ z. not (includes z zones)

-- `new Set(zones).size`.
unfoldable pub distinct_count : List Zone → ℕ
distinct_count [] = 0
distinct_count (z ∷ zs) = let rest = distinct_count zs in if includes z zs then rest else rest + 1

abbrev pub is_shield : OffhandType → Bool
is_shield shield = true
is_shield _ = false

abbrev pub is_empty_offhand : OffhandType → Bool
is_empty_offhand empty_offhand = true
is_empty_offhand _ = false

-- The checks after those of the counts and of the attack zones.
unfoldable pub validate_lines : List Zone → OffhandType → Option ActionError
validate_lines blocks offhand =
    if is_shield offhand && not (is_valid_shield_line blocks)
    then some not_shield_line
    else if is_empty_offhand offhand && (length blocks == 2) && not (is_valid_block_line blocks)
    then some not_adjacent
    else if not (distinct_count blocks == length blocks)
    then some duplicate_blocks
    else none

abbrev pub first_error : Option ActionError → Option ActionError → Option ActionError
first_error none e = e
first_error (some e) _ = some e

abbrev pub invalid {ℓ} : {A : Type ℓ} → (A → ActionError) → Option A → Option ActionError
invalid f none = none
invalid f (some z) = some (f z)

-- `none` is `{ valid: true }`.
unfoldable pub validate_turn_action : TurnAction → OffhandType → Option ActionError
validate_turn_action action offhand =
    if not (length action.attack_zones == attack_slots offhand)
    then some (attack_count (attack_slots offhand) (length action.attack_zones))
    else if not (length action.block_zones == block_slots offhand)
    then some (block_count (block_slots offhand) (length action.block_zones))
    else first_error (invalid invalid_attack_zone (unknown_zone action.attack_zones)) (
        first_error (invalid invalid_block_zone (unknown_zone action.block_zones))
          (validate_lines action.block_zones offhand))

-- `Math.random()` is a multiple of 2⁻⁵³ below 1: a draw `r` below 2⁵³ stands for r / 2⁵³.
abbrev pub resolution : ℕ
resolution = 9007199254740992

unfoldable pub random_int : ℕ → ℕ → ℕ → ℕ
random_int lo hi r = r * (hi - lo + 1) / resolution + lo

-- `list[randomInt(0, list.length - 1)]`; `none` is `undefined`.
abbrev pub pick {ℓ} : {A : Type ℓ} → List A → ℕ → Option A
pick l r = get_elem? l (random_int 0 (length l - 1) r)

-- The loop that pushes `count` attack zones, with one draw for each, from draw `k` on.
unfoldable pub random_attacks : ℕ → ℕ → (ℕ → ℕ) → List Zone
random_attacks zero k draws = []
random_attacks (suc n) k draws =
    or_else (pick zones (draws k)) (other []) ∷ random_attacks n (k + 1) draws

-- `generateRandomAction`, on a stream of draws. The block zones take the next draw.
unfoldable pub random_blocks : OffhandType → ℕ → List Zone
random_blocks shield r = or_else (pick shield_block_lines r) []
random_blocks dual_wield r = or_else (pick zones r) (other []) ∷ []
random_blocks empty_offhand r = or_else (pick block_lines r) []

unfoldable pub generate_random_action : OffhandType → (ℕ → ℕ) → TurnAction
unfolding random_attacks random_blocks random_int
generate_random_action offhand draws = record {
  attack_zones = random_attacks (attack_slots offhand) 0 draws;
  block_zones = random_blocks offhand (draws (attack_slots offhand));
}
