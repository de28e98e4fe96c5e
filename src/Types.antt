-- ===== src/Types.antt =====
-- server/src/types.ts: the types that several components share.

pub data FightType : Type 0 where
  friendly ranked wager item_stake bot : FightType

unfoldable pub FightType-discrete : Discrete FightType
FightType-discrete = hlevel
