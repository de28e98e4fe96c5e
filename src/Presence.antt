-- ===== src/Presence.antt =====
-- server/src/data/presence.ts: who is online and where, in memory. The clock is an argument; of the
-- database layer only the throttle of `flushPresenceToSupabase` is modelled.
pub mod Status
pub mod Rows
mod Examples
use sui_comabts.Prelude.{
  ℕ, ◌-◌, Bool, true, false, ◌||◌, ◌&&◌, not, List, [], ◌∷◌, ◌++◌, Option, none, some, Text, units,
  ltb, leb, ◌==◌, ◌===◌, if◌then◌else◌, or_else, first_units, Map, get, set, delete,
}
use sui_comabts.Characters.{Character, Characters, present, get_character_by_wallet}

pub data PresenceRoom : Type 0 where
  tavern character arena marketplace hall_of_fame fight : PresenceRoom

pub data PresenceStatus : Type 0 where
  online in_fight in_marketplace idle : PresenceStatus

unfoldable pub PresenceRoom-discrete : Discrete PresenceRoom
PresenceRoom-discrete = hlevel

unfoldable pub PresenceStatus-discrete : Discrete PresenceStatus
PresenceStatus-discrete = hlevel

abbrev pub same_room : PresenceRoom → PresenceRoom → Bool
same_room a b = elim (PresenceRoom-discrete a b) [ yes _ ↦ true | no _ ↦ false ]

abbrev pub same_status : PresenceStatus → PresenceStatus → Bool
same_status a b = elim (PresenceStatus-discrete a b) [ yes _ ↦ true | no _ ↦ false ]

pub record PresenceRow : Type 0 where
  pub wallet_address : Text
  pub character_name : Text
  pub level : ℕ
  pub rating : ℕ
  pub current_room : PresenceRoom
  pub status : PresenceStatus
  pub fight_id : Option Text
  pub last_seen_at : ℕ

abbrev pub presence_stale_ms : ℕ
presence_stale_ms = 60000

abbrev pub presence_durable_throttle_ms : ℕ
presence_durable_throttle_ms = 5000

abbrev pub idle_after_ms : ℕ
idle_after_ms = 30000

pub record Presence : Type 0 where
  pub presence_by_wallet : Map PresenceRow
  pub last_durable_sync_at : Map ℕ

unfoldable pub no_presence : Presence
no_presence = record { presence_by_wallet = []; last_durable_sync_at = [] }

unfoldable pub derive_player_status : PresenceRoom → Option Text → ℕ → ℕ → PresenceStatus
derive_player_status room fight_id last_seen_at now =
    if present fight_id || same_room room fight
    then in_fight
    else if same_room room marketplace
    then in_marketplace
    else if ltb idle_after_ms (now - last_seen_at)
    then idle
    else online

unfoldable pub bucket_key_for_level : ℕ → Text
bucket_key_for_level level =
    if leb 1 level && leb level 3
    then units "novice"
    else if leb 4 level && leb level 6
    then units "early"
    else if leb 7 level && leb level 9
    then units "mid"
    else if leb 10 level && leb level 14
    then units "high"
    else if leb 15 level && leb level 19
    then units "endgame"
    else if leb 20 level && leb level 999
    then units "hall"
    else units "novice"

-- `input.fightId`: null, undefined, or a text.
pub data FightInput : Type 0 where
  clears keeps : FightInput
  sets : Text → FightInput

pub record UpsertInput : Type 0 where
  pub wallet_address : Text
  pub character_name : Option Text
  pub level : Option ℕ
  pub rating : Option ℕ
  pub room : Option PresenceRoom
  pub fight_id : FightInput

pub record UpsertResult : Type 0 where
  pub row : PresenceRow
  pub inserted : Bool
  pub status_changed : Bool
  pub room_changed : Bool
  pub data_changed : Bool

-- `a ?? b` where `b` may be missing too, and `x?.f`.
abbrev pub first_of {ℓ} : {A : Type ℓ} → Option A → Option A → Option A
first_of none b = b
first_of (some a) b = some a

abbrev pub field {ℓ κ} : {A : Type ℓ} {B : Type κ} → (A → B) → Option A → Option B
field f none = none
field f (some a) = some (f a)

abbrev pub fight_of : Option PresenceRow → Option Text
fight_of none = none
fight_of (some r) = r.fight_id

abbrev pub next_fight : FightInput → Option PresenceRow → Option Text
next_fight clears old = none
next_fight keeps old = fight_of old
next_fight (sets f) old = some f

unfoldable pub next_row : ℕ → UpsertInput → Option Character → Option PresenceRow → PresenceRow
next_row now input char old =
    let room = or_else (first_of input.room (field PresenceRow.current_room old)) tavern in
    let fight_id = next_fight input.fight_id old in
    record {
      wallet_address = input.wallet_address;
      character_name =
          or_else
            (first_of input.character_name
              (first_of (field Character.name char) (field PresenceRow.character_name old)))
            (first_units 8 input.wallet_address ++ units "...");
      level =
          or_else
            (first_of input.level
              (first_of (field Character.level char) (field PresenceRow.level old)))
            1;
      rating =
          or_else
            (first_of input.rating
              (first_of (field Character.rating char) (field PresenceRow.rating old)))
            1000;
      current_room = room;
      status = derive_player_status room fight_id now now;
      fight_id = fight_id;
      last_seen_at = now;
    }

abbrev pub changed_from : Option PresenceRow → PresenceRow → UpsertResult
changed_from none next = record {
  row = next;
  inserted = true;
  status_changed = true;
  room_changed = true;
  data_changed = true;
}
changed_from (some old) next = record {
  row = next;
  inserted = false;
  status_changed = not (same_status old.status next.status);
  room_changed = not (same_room old.current_room next.current_room);
  data_changed =
      not (old.character_name === next.character_name)
      || not (old.level == next.level)
      || not (old.rating == next.rating);
}

unfoldable pub upsert_presence : ℕ → UpsertInput → Characters → Presence → Presence × UpsertResult
upsert_presence now input chars s =
    let old = get input.wallet_address s.presence_by_wallet in
    let next = next_row now input (get_character_by_wallet input.wallet_address chars) old in
    (
      record s { presence_by_wallet = set input.wallet_address next s.presence_by_wallet },
      changed_from old next,
    )

-- `{ walletAddress: wallet }`
abbrev pub only_wallet : Text → UpsertInput
only_wallet wallet = record {
  wallet_address = wallet;
  character_name = none;
  level = none;
  rating = none;
  room = none;
  fight_id = keeps;
}

abbrev pub beat :
    Option PresenceRow → ℕ → Text → Characters → Presence → Presence × Option UpsertResult
beat none now wallet chars s = (s, none)
beat (some row) now wallet chars s =
    let r = upsert_presence now (only_wallet wallet) chars s in (r.0, some r.1)

unfoldable pub heartbeat : ℕ → Text → Characters → Presence → Presence × Option UpsertResult
heartbeat now wallet chars s = beat (get wallet s.presence_by_wallet) now wallet chars s

unfoldable pub drop_wallet : Text → Presence → Presence
drop_wallet wallet s = record {
  presence_by_wallet = delete wallet s.presence_by_wallet;
  last_durable_sync_at = delete wallet s.last_durable_sync_at;
}

unfoldable pub remove_presence : Text → Presence → Presence × Option PresenceRow
remove_presence wallet s = (drop_wallet wallet s, get wallet s.presence_by_wallet)

abbrev pub is_stale : ℕ → PresenceRow → Bool
is_stale now row = ltb presence_stale_ms (now - row.last_seen_at)

-- The keys of the stale rows, in order.
unfoldable pub stale_wallets : ℕ → Map PresenceRow → List Text
stale_wallets now [] = []
stale_wallets now ((wallet, row) ∷ m) =
    let rest = stale_wallets now m in if is_stale now row then wallet ∷ rest else rest

unfoldable pub drop_all : List Text → Presence → Presence
drop_all [] s = s
drop_all (w ∷ ws) s = drop_all ws (drop_wallet w s)

unfoldable pub sweep_stale_presence : ℕ → Presence → Presence × List Text
sweep_stale_presence now s =
    let dropped = stale_wallets now s.presence_by_wallet in (drop_all dropped s, dropped)

-- What `flushPresenceToSupabase` writes, where the database is configured.
abbrev pub flush_row :
    ℕ → Text → Bool → Option PresenceRow → Presence → Presence × Option PresenceRow
flush_row now wallet force none s = (s, none)
flush_row now wallet force (some row) s =
    if not force
      && ltb (now - or_else (get wallet s.last_durable_sync_at) 0) presence_durable_throttle_ms
    then (s, none)
    else (record s { last_durable_sync_at = set wallet now s.last_durable_sync_at }, some row)

unfoldable pub flush_presence : ℕ → Text → Bool → Presence → Presence × Option PresenceRow
flush_presence now wallet force s = flush_row now wallet force (get wallet s.presence_by_wallet) s
