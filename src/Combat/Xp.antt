-- ===== src/Combat/Xp.antt =====
-- server/src/game/combat.ts: experience and levels. server/src/utils/elo.ts: the rewards.
pub mod Levels
pub mod Reward
use sui_comabts.Prelude.{
  ℕ, zero, suc, ◌+◌, ◌-◌, ◌*◌, ◌/◌, min, max, Bool, true, false, Option, none, some, ltb, leb,
  if◌then◌else◌, get_elem?,
}
use sui_comabts.Config.{max_level, stat_points_per_level, level_xp_cumulative, max_xp_per_fight}
use sui_comabts.Combat.Zones.{random_int}
use sui_comabts.Types.{FightType, friendly, ranked, wager, item_stake, bot}

-- `xpForLevel`; `none` is `Infinity`.
unfoldable pub xp_for_level : ℕ → Option ℕ
xp_for_level level =
    if leb level 1
    then some 0
    else if ltb max_level level
    then none
    else get_elem? level_xp_cumulative (level - 1)

-- `xpForNextLevel`, and its alias `xpToNextLevel`.
unfoldable pub xp_for_next_level : ℕ → Option ℕ
xp_for_next_level level = if leb max_level level then none else xp_for_level (level + 1)

-- The counters of a character that a fight's experience changes.
pub record Progress : Type 0 where
  pub level : ℕ
  pub xp : ℕ
  pub unallocated_points : ℕ

-- `xp >= required`.
abbrev pub reaches : ℕ → Option ℕ → Bool
reaches xp none = false
reaches xp (some required) = leb required xp

abbrev pub next_level : Progress → Progress
next_level p = record p {
  level = p.level + 1;
  unallocated_points = p.unallocated_points + stat_points_per_level;
}

-- The loop of `applyXp`; `fuel` bounds the rounds.
unfoldable pub level_up : ℕ → Progress → Progress
level_up zero p = p
level_up (suc fuel) p =
    let rest = level_up fuel (next_level p) in
    if ltb p.level max_level
    then (if reaches p.xp (xp_for_level (p.level + 1)) then rest else p)
    else p

pub record XpResult : Type 0 where
  pub leveled_up : Bool
  pub new_level : ℕ
  pub levels_gained : ℕ

-- `applyXp` for a gain that is not negative. The levels left to the cap bound the rounds.
unfoldable pub apply_xp : Progress → ℕ → Progress × XpResult
apply_xp p xp_gained =
    let p' = level_up (max_level - p.level) (record p { xp = p.xp + xp_gained }) in
    (
      p',
      record {
        leveled_up = ltb p.level p'.level;
        new_level = p'.level;
        levels_gained = p'.level - p.level;
      },
    )

-- `clamp(base + ratingDiff / divisor, base, cap)` rounded. The lower bound of each band is its base,
-- so a negative difference gives the base. `own` is the winner's rating and `opponent` the loser's.
unfoldable pub win_reward : ℕ → ℕ → ℕ → ℕ → ℕ → ℕ
win_reward base cap divisor own opponent =
    (2 * min (cap * divisor) (max (base * divisor) (base * divisor + opponent - own)) + divisor)
    / (2 * divisor)

-- `randomInt(lo, hi)` of elo.ts at the draw `r / 2⁵³`.
abbrev pub loss_reward : ℕ → ℕ → ℕ → ℕ
loss_reward lo hi r = random_int lo hi r

unfoldable pub reward_of : FightType → Bool → ℕ → ℕ → ℕ → ℕ
unfolding win_reward random_int
reward_of wager true winner loser r = win_reward 100 400 5 winner loser
reward_of wager false winner loser r = loss_reward 20 50 r
reward_of ranked true winner loser r = win_reward 50 200 10 winner loser
reward_of ranked false winner loser r = loss_reward 10 30 r
reward_of item_stake true winner loser r = win_reward 50 200 10 winner loser
reward_of item_stake false winner loser r = loss_reward 10 30 r
reward_of friendly is_winner winner loser r = 0
reward_of bot is_winner winner loser r = 0

unfoldable pub calculate_xp_reward : FightType → Bool → ℕ → ℕ → ℕ → ℕ
unfolding reward_of
calculate_xp_reward fight_type is_winner winner_rating loser_rating r =
    min max_xp_per_fight (reward_of fight_type is_winner winner_rating loser_rating r)
