-- ===== src/Combat/Xp/Reward.antt =====
-- server/src/utils/elo.ts: the bands of the experience rewards.
use sui_comabts.Prelude.{ℕ, ◌≤◌, ◌<◌, true, false, arith}
use sui_comabts.Types.{FightType, friendly, ranked, wager, item_stake, bot}
use sui_comabts.Combat.Zones.{resolution}
use sui_comabts.Combat.Xp.{calculate_xp_reward}

-- The band of a fight type: least and greatest reward of the loser, then of the winner.
abbrev pub Band : Type 0
Band = ℕ × ℕ × ℕ × ℕ

abbrev pub band : FightType → Band
band wager = (20, 50, 100, 400)
band ranked = (10, 30, 50, 200)
band item_stake = (10, 30, 50, 200)
band friendly = (0, 0, 0, 0)
band bot = (0, 0, 0, 0)

-- With draws below 1, every reward lies in the band of its fight type and outcome: 100 to 400 for
-- a won wager and 20 to 50 for a lost one, 50 to 200 and 10 to 30 in ranked and item-stake
-- fights, and nothing in friendly and bot fights. The winner earns at least what the loser does.
-- A winner's reward does not fall when the opponent's rating is higher and the own is lower.
pub calculate_xp_reward-band :
    (t : FightType) (w l w' l' r s : ℕ)
    → r < resolution
    → s < resolution
    → l ≤ l'
    → w' ≤ w
    → let won = calculate_xp_reward t true w l r in
      let lost = calculate_xp_reward t false w l s in
      ((band t).0 ≤ lost)
      × (lost ≤ (band t).1)
      × ((band t).2 ≤ won)
      × (won ≤ (band t).3)
      × (lost ≤ won)
      × (won ≤ calculate_xp_reward t true w' l' r)
unfolding calculate_xp_reward
calculate_xp_reward-band wager w l w' l' r s hr hs hl hw =
    (omega arith, omega arith, omega arith, omega arith, omega arith, omega arith)
calculate_xp_reward-band ranked w l w' l' r s hr hs hl hw =
    (omega arith, omega arith, omega arith, omega arith, omega arith, omega arith)
calculate_xp_reward-band item_stake w l w' l' r s hr hs hl hw =
    (omega arith, omega arith, omega arith, omega arith, omega arith, omega arith)
calculate_xp_reward-band friendly w l w' l' r s hr hs hl hw =
    (omega arith, omega arith, omega arith, omega arith, omega arith, omega arith)
calculate_xp_reward-band bot w l w' l' r s hr hs hl hw =
    (omega arith, omega arith, omega arith, omega arith, omega arith, omega arith)
