-- ===== src/Combat/Turn.antt =====
-- server/src/game/combat.ts: one attack, a simultaneous turn, and the end of a fight. Hit points and
-- damage are hundredths, the grid to which the source rounds both. The quotients before the rounding
-- are exact, where the source has floating-point numbers.
pub mod Damage
pub mod Outcome
use sui_comabts.Prelude.{
  ℕ, ◌+◌, ◌-◌, ◌*◌, ◌/◌, max, Bool, true, false, ◌&&◌, List, [], ◌∷◌, Option, none, some, Text, ltb,
  leb, ◌==◌, if◌then◌else◌,
}
use sui_comabts.Combat.Zones.{Zone, includes, TurnAction, resolution}
use sui_comabts.Combat.Stats.{DerivedStats}

pub record HitResult : Type 0 where
  pub zone : Zone
  pub blocked : Bool
  pub dodged : Bool
  pub crit : Bool
  pub damage : ℕ

-- The draws of `Math.random()` that an attack makes, if it comes that far.
pub record Rolls : Type 0 where
  pub evasion : ℕ
  pub crit : ℕ
  pub damage : ℕ

-- `Math.round(n / d)`, with halves rounded up.
abbrev pub round_div : ℕ → ℕ → ℕ
round_div n d = (2 * n + d) / (2 * d)

-- Attack power times `randomFloat(0.8, 1.2)`, in units of 1 / (1000 * 2⁵³).
unfoldable pub raw_damage : ℕ → ℕ → ℕ
raw_damage attack_power roll = attack_power * (8 * resolution + 4 * roll)

-- The damage of an attack that lands, in hundredths.
unfoldable pub landed_damage : Bool → DerivedStats → DerivedStats → ℕ → ℕ
unfolding raw_damage
landed_damage true attacker defender roll =
    round_div
      (100
        * max (100000 * resolution) (
            raw_damage attacker.attack_power roll * attacker.crit_multiplier
            - defender.armor * (50000 * resolution)
            - defender.defense * (10000 * resolution)))
      (100000 * resolution)
landed_damage false attacker defender roll =
    round_div
      (100
        * max (1000 * resolution) (
            raw_damage attacker.attack_power roll
            - defender.armor * (1000 * resolution)
            - defender.defense * (100 * resolution)))
      (1000 * resolution)

unfoldable pub resolve_attack : Zone → List Zone → DerivedStats → DerivedStats → Rolls → HitResult
resolve_attack zone blocks attacker defender rolls =
    if includes zone blocks
    then (record { zone = zone; blocked = true; dodged = false; crit = false; damage = 0 })
    else if ltb (rolls.evasion * 1000) (defender.evasion_chance * resolution)
    then (record { zone = zone; blocked = false; dodged = true; crit = false; damage = 0 })
    else (let is_crit = ltb (rolls.crit * 1000) (attacker.crit_chance * resolution) in
        record {
          zone = zone;
          blocked = false;
          dodged = false;
          crit = is_crit;
          damage = landed_damage is_crit attacker defender rolls.damage;
        })

-- The loop over a player's attack zones; `rolls k` are the draws of the k-th attack.
unfoldable pub resolve_attacks :
    List Zone → List Zone → DerivedStats → DerivedStats → ℕ → (ℕ → Rolls) → List HitResult
resolve_attacks [] blocks attacker defender k rolls = []
resolve_attacks (z ∷ zs) blocks attacker defender k rolls =
    resolve_attack z blocks attacker defender (rolls k)
    ∷ resolve_attacks zs blocks attacker defender (k + 1) rolls

-- What a turn reads and writes of a `FighterState`.
pub record FighterState : Type 0 where
  pub character_id : Text
  pub wallet_address : Text
  pub current_hp : ℕ
  pub max_hp : ℕ
  pub derived_stats : DerivedStats

unfoldable pub total_damage : List HitResult → ℕ
total_damage [] = 0
total_damage (h ∷ hs) = h.damage + total_damage hs

-- `Math.max(0, Math.round((hp - damage) * 100) / 100)`: exact on hundredths.
abbrev pub take_damage : FighterState → ℕ → FighterState
take_damage f d = record f { current_hp = f.current_hp - d }

pub record PlayerTurn : Type 0 where
  pub player_id : Text
  pub actions : TurnAction
  pub hits : List HitResult
  pub hp_after : ℕ

pub record TurnResult : Type 0 where
  pub turn : ℕ
  pub player_a : PlayerTurn
  pub player_b : PlayerTurn

pub record Resolved : Type 0 where
  pub fighter_a : FighterState
  pub fighter_b : FighterState
  pub result : TurnResult

-- `resolveTurn`: `rolls_a` are the draws of A's attacks, made first, and `rolls_b` those of B's.
unfoldable pub resolve_turn :
    ℕ → FighterState → FighterState → TurnAction → TurnAction → (ℕ → Rolls) → (ℕ → Rolls) → Resolved
unfolding total_damage
resolve_turn turn a b action_a action_b rolls_a rolls_b =
    let hits_on_b =
      resolve_attacks action_a.attack_zones action_b.block_zones a.derived_stats b.derived_stats 0
        rolls_a in
    let hits_on_a =
      resolve_attacks action_b.attack_zones action_a.block_zones b.derived_stats a.derived_stats 0
        rolls_b in
    let a' = take_damage a (total_damage hits_on_a) in
    let b' = take_damage b (total_damage hits_on_b) in
    record {
      fighter_a = a';
      fighter_b = b';
      result = record {
        turn = turn;
        player_a = record {
          player_id = a.character_id;
          actions = action_a;
          hits = hits_on_a;
          hp_after = a'.current_hp;
        };
        player_b = record {
          player_id = b.character_id;
          actions = action_b;
          hits = hits_on_b;
          hp_after = b'.current_hp;
        };
      };
    }

pub data FightEnd : Type 0 where
  unfinished draw : FightEnd
  won : Text → FightEnd

-- `checkFightEnd`; `won` carries the winner's character id.
unfoldable pub check_fight_end : FighterState → FighterState → FightEnd
check_fight_end a b =
    let a_dead = a.current_hp == 0 in
    let b_dead = b.current_hp == 0 in
    if a_dead && b_dead
    then draw
    else if a_dead
    then won b.character_id
    else if b_dead
    then won a.character_id
    else unfinished
