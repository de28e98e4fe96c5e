-- ===== src/Lib.antt =====
-- Verification of the core of the game server of sui-comabts: a player-versus-player fighting game
-- on the Sui chain. The server, server/src, is TypeScript; the chain's contracts and the web
-- frontend are not part of this development.
--
-- The parts and how they interact. Players enter a queue and are paired (Matchmaking), challenge each
-- other directly (FightRequests), or accept an open wager (WagerAcceptGate). A fight is a sequence of
-- turns in which both submit an action; the server checks the actions and resolves both at once
-- (Combat), and each turn has a timer (FightRoom). A player whose connection is lost has a window to
-- return, out of one budget for the whole fight (ReconnectGrace), while the turn's timer is frozen
-- (FightPause). The players' characters, with the items that they carry and wear, are in one store
-- (Characters); what the server signs on the chain goes through one queue (Treasury), and wagers that
-- a crash left open are refunded at startup (OrphanWagers). Two players who write to each other share
-- a channel (DmChannels), and a list tells who is online and where (Presence).
--
-- Which file models what:
--   Config, Types       server/src/config.ts and server/src/types.ts: constants and shared types.
--   Scheduler           setTimeout and clearTimeout: the pending timers by handle.
--   BigInts             the constructor BigInt on a string, as the fight requests use it.
--   Matchmaking         server/src/game/matchmaking.ts: canMatch is `can_match`, tryMatchPlayers is
--                       `try_match_players`, addToQueue and removeFromQueue keep their names.
--   ReconnectGrace      server/src/ws/reconnect-grace.ts: markDisconnect, markReconnect and
--                       clearFightGrace, with the callback of a forfeit timer as `fire`.
--   FightPause          server/src/ws/fight-pause.ts: pauseFightTimer and resumeFightTimer; `begun`
--                       is the timer as startNextTurn of server/src/ws/fight-room.ts arms it.
--   FightRoom           server/src/ws/fight-room.ts: the turns of a fight, from startNextTurn over
--                       submitTurnAction and handleTurnTimeout to resolveFightTurn, with the state
--                       changes of finishFight, handlePlayerDisconnect and handlePlayerReconnect.
--   Absence             handlePlayerDisconnect, handlePlayerReconnect and the forfeit of
--                       server/src/ws/fight-room.ts, over a fight and its grace windows together.
--   FightRequests       server/src/data/fight-requests.ts: evaluateCreate, evaluateTransition, and in
--                       FightRequests/Store the maps with createRequest, transitionRequest and
--                       sweepExpired.
--   WagerAcceptGate     server/src/ws/wager-accept-gate.ts: decideAcceptOutcome and
--                       resolveChallengerWallet.
--   Combat              server/src/game/combat.ts: Zones (validateTurnAction, generateRandomAction),
--                       Stats (deriveCombatStats), Turn (resolveAttack, resolveTurn, checkFightEnd),
--                       Xp (applyXp, and calculateXpReward of server/src/utils/elo.ts).
--   Characters          server/src/data/characters.ts: the store with createCharacter,
--                       restoreCharacterFromChain, setOnChainObjectId and deleteCharacter; Items has
--                       equipItem, unequipItem, addToInventory, removeFromInventory and
--                       addFightHistory, Restore has restoreCharacterFromDb, and Handlers has
--                       handleEquipItem and handleUnequipItem of server/src/ws/handler.ts.
--   Treasury            server/src/utils/sui-settle.ts: the queue of treasury transactions
--                       (enqueueTreasury, pumpTreasuryQueue) and withRetry.
--   OrphanWagers        server/src/data/orphan-wager-recovery.ts: sweepOne and
--                       sweepOrphanActiveWagers.
--   DmChannels          server/src/data/dm-channels.ts: registerChannel, getChannelForPair and
--                       getOrCreateSyntheticChannel; Unread has bumpUnread, clearUnread, getUnread and
--                       the lists of a wallet.
--   Presence            server/src/data/presence.ts: derivePlayerStatus, upsertPresence, heartbeat,
--                       removePresence, sweepStalePresence and the throttle of
--                       flushPresenceToSupabase.
--   Prelude             what the models share: tests, lists, texts, maps.
--
-- How it is modelled. The state of a module is a value that each operation takes and returns; the
-- clock is an argument in milliseconds; a callback's calls are returned as a list. Maps are
-- association lists in insertion order. A text is the list of its UTF-16 code units, and lower case is
-- the one of ASCII, since wallet addresses are hexadecimal. Messages for people are
-- constructors, or their texts in Characters.
-- Math.random() is a draw r below 2^53, which stands for r / 2^53. Hit points and damage are
-- hundredths, attack power and the critical multiplier hundredths, chances and defense tenths; the
-- quotients before a rounding are exact, where the source computes with floating-point numbers.
-- Bonuses of items are natural numbers, as the chain has them; a fractional critBonus of the items of
-- server/src/game/loot.ts is outside the model, as is a negative gain of experience in applyXp.
-- Absence has one fight with the grace windows of that fight alone; the map of
-- server/src/ws/reconnect-grace.ts, which all fights share, is the one of ReconnectGrace.
-- Levels are gained by recursion on the distance to the highest level, which the loop of applyXp
-- cannot exceed. withRetry recurs on the pauses that are left. All other loops run over lists.
-- What waits for the chain or the database is cut into the parts between the waits: a task of the
-- treasury queue ends by an event of its own, and restoreCharacterFromDb is two functions.
--
-- What comes from outside: identifiers of uuidv4 are a function that is assumed to return distinct
-- values, or arguments that are assumed to be unused; the names of characters are a lookup function;
-- sha256 is a function on texts; and the sweep of orphaned wagers takes its calls of the chain and the
-- database, each of which may throw.
--
-- What is not modelled: the database, chain and socket calls around these modules (server/src/data,
-- server/src/utils and the other handlers of server/src/ws/handler.ts); the ratings, rewards and
-- settlement at the end of a fight in server/src/ws/fight-room.ts; chat, the text of direct messages,
-- marketplace and loot; and the frontend and the contracts, which repeat or enforce parts of these
-- rules elsewhere.
mod Prelude
pub mod Config
pub mod Types
pub mod Scheduler
pub mod BigInts
pub mod Matchmaking
pub mod ReconnectGrace
pub mod FightPause
pub mod FightRequests
pub mod WagerAcceptGate
pub mod Combat
pub mod FightRoom
pub mod Absence
pub mod Characters
pub mod Treasury
pub mod OrphanWagers
pub mod DmChannels
pub mod Presence
