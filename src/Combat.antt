-- ===== src/Combat.antt =====
-- server/src/game/combat.ts: zones, derived stats, a turn of a fight, experience.
pub mod Zones
pub mod Stats
pub mod Turn
pub mod Xp
mod Examples
