-- ===== src/Characters.antt =====
-- server/src/data/characters.ts: the characters in memory, by id and by wallet, with their fight
-- histories. The clock and the random id of a new character are arguments; what is written to the
-- database afterwards is left out. An error is its text, or its first words when it ends in a number.
pub mod Items
pub mod Restore
pub mod Handlers
pub mod Guards
pub mod Index
pub mod Changes
pub mod Histories
pub mod Accounts
pub mod Found
pub mod Bag
pub mod Moves
pub mod Store
mod Examples
use sui_comabts.Prelude.{
  ℕ, ◌+◌, Bool, true, false, ◌||◌, ◌&&◌, not, List, [], ◌∷◌, Option, none, some, Text, units, ltb,
  ◌==◌, ◌===◌, if◌then◌else◌, is_some, length, Map, get, set, delete,
}
use sui_comabts.Config.{starting_stat_points, min_stat, starting_gold, default_rating}
use sui_comabts.Combat.Stats.{CharacterStats, Item, EquipmentSlots}

pub record Character : Type 0 where
  pub id : Text
  pub name : Text
  pub level : ℕ
  pub xp : ℕ
  pub wallet_address : Text
  pub on_chain_object_id : Option Text
  pub stats : CharacterStats
  pub equipment : EquipmentSlots
  pub inventory : List Item
  pub gold : ℕ
  pub wins : ℕ
  pub losses : ℕ
  pub draws : ℕ
  pub rating : ℕ
  pub unallocated_points : ℕ
  pub fight_history : List Text
  pub created_at : ℕ

-- The entry of a fight: its id, and the rest of it, which this store only keeps.
pub record FightHistoryEntry : Type 0 where
  pub fight_id : Text
  pub opponent_wallet : Text
  pub timestamp : ℕ

pub record Characters : Type 0 where
  pub characters : Map Character
  pub wallet_to_character : Map Text
  pub fight_histories : Map (List FightHistoryEntry)

unfoldable pub no_characters : Characters
no_characters = record { characters = []; wallet_to_character = []; fight_histories = [] }

unfoldable pub get_character_by_id : Text → Characters → Option Character
get_character_by_id id s = get id s.characters

-- A text in a condition: present and not empty.
abbrev pub present : Option Text → Bool
present none = false
present (some []) = false
present (some (c ∷ t)) = true

abbrev pub character_of : Option Text → Characters → Option Character
character_of none s = none
character_of (some []) s = none
character_of (some (c ∷ id)) s = get (c ∷ id) s.characters

unfoldable pub get_character_by_wallet : Text → Characters → Option Character
get_character_by_wallet wallet s = character_of (get wallet s.wallet_to_character) s

abbrev pub empty_equipment : EquipmentSlots
empty_equipment = record {
  weapon = none;
  offhand = none;
  helmet = none;
  chest = none;
  gloves = none;
  boots = none;
  belt = none;
  ring1 = none;
  ring2 = none;
  necklace = none;
  ring3 = none;
  pants = none;
  bracelets = none;
}

-- What `createCharacter` and `restoreCharacterFromChain` do with a new character.
abbrev pub add_character : Character → Characters → Characters
add_character c s = record {
  characters = set c.id c s.characters;
  wallet_to_character = set c.wallet_address c.id s.wallet_to_character;
  fight_histories = set c.id [] s.fight_histories;
}

-- `{ character, error }`
pub data Registered : Type 0 where
  registered : Character → Registered
  refused : Text → Registered

unfoldable pub new_character : Text → ℕ → Text → Text → CharacterStats → Character
new_character id now wallet name stats = record {
  id = id;
  name = name;
  level = 1;
  xp = 0;
  wallet_address = wallet;
  on_chain_object_id = none;
  stats = stats;
  equipment = empty_equipment;
  inventory = [];
  gold = starting_gold;
  wins = 0;
  losses = 0;
  draws = 0;
  rating = default_rating;
  unallocated_points = 0;
  fight_history = [];
  created_at = now;
}

unfoldable pub total_stats : CharacterStats → ℕ
total_stats t = t.strength + t.dexterity + t.intuition + t.endurance

unfoldable pub below_minimum : CharacterStats → Bool
below_minimum t =
    ltb t.strength min_stat
    || ltb t.dexterity min_stat
    || ltb t.intuition min_stat
    || ltb t.endurance min_stat

unfoldable pub create_character :
    Text → ℕ → Text → Text → CharacterStats → Characters → Characters × Registered
create_character id now wallet name stats s =
    if is_some (get wallet s.wallet_to_character)
    then (s, refused (units "Wallet already has a character"))
    else if ltb (length name) 2 || ltb 20 (length name)
    then (s, refused (units "Name must be between 2 and 20 characters"))
    else if not (total_stats stats == starting_stat_points)
    then (s, refused (units "Stats must sum to 20"))
    else if below_minimum stats
    then (s, refused (units "Each stat must be at least 3"))
    else let c = new_character id now wallet name stats in (add_character c s, registered c)

-- What the chain tells of a character.
pub record ChainRecord : Type 0 where
  pub name : Text
  pub stats : CharacterStats
  pub level : ℕ
  pub xp : ℕ
  pub unallocated_points : ℕ
  pub wins : ℕ
  pub losses : ℕ
  pub draws : ℕ
  pub rating : ℕ
  pub on_chain_object_id : Option Text

unfoldable pub chain_character : Text → ℕ → Text → ChainRecord → Character
chain_character id now wallet r = record {
  id = id;
  name = r.name;
  level = r.level;
  xp = r.xp;
  wallet_address = wallet;
  on_chain_object_id = r.on_chain_object_id;
  stats = r.stats;
  equipment = empty_equipment;
  inventory = [];
  gold = starting_gold;
  wins = r.wins;
  losses = r.losses;
  draws = r.draws;
  rating = r.rating;
  unallocated_points = r.unallocated_points;
  fight_history = [];
  created_at = now;
}

-- The id that an existing record without one is given.
abbrev pub backfilled : Option Text → Character → Character
backfilled object c =
    if not (present c.on_chain_object_id) && present object
    then record c { on_chain_object_id = object }
    else c

abbrev pub restore_existing :
    Option Text → Text → Option Character → Characters → Characters × Registered
restore_existing object id none s = (s, refused (units "Stale wallet index"))
restore_existing object id (some c) s =
    let kept = backfilled object c in
    (record s { characters = set id kept s.characters }, registered kept)

abbrev pub restore_indexed :
    Option Text → Text → ℕ → Text → ChainRecord → Characters → Characters × Registered
restore_indexed (some at) id now wallet r s =
    restore_existing r.on_chain_object_id at (get at s.characters) s
restore_indexed none id now wallet r s =
    let c = chain_character id now wallet r in (add_character c s, registered c)

unfoldable pub restore_character_from_chain :
    Text → ℕ → Text → ChainRecord → Characters → Characters × Registered
restore_character_from_chain id now wallet r s =
    restore_indexed (get wallet s.wallet_to_character) id now wallet r s

abbrev pub is_object : Option Text → Text → Bool
is_object none object = false
is_object (some at) object = at === object

abbrev pub pin_character : Text → Text → Option Character → Characters → Characters
pin_character object id none s = s
pin_character object id (some c) s = if is_object c.on_chain_object_id object then s else record s {
  characters = set id (record c { on_chain_object_id = some object }) s.characters;
}

abbrev pub pin_indexed : Text → Option Text → Characters → Characters
pin_indexed object none s = s
pin_indexed object (some []) s = s
pin_indexed object (some (c ∷ id)) s = pin_character object (c ∷ id) (get (c ∷ id) s.characters) s

unfoldable pub set_on_chain_object_id : Text → Text → Characters → Characters
set_on_chain_object_id wallet object s = pin_indexed object (get wallet s.wallet_to_character) s

abbrev pub delete_indexed : Option Text → Text → Characters → Characters × Bool
delete_indexed none wallet s = (s, false)
delete_indexed (some []) wallet s = (s, false)
delete_indexed (some (c ∷ id)) wallet s = (
  record {
    characters = delete (c ∷ id) s.characters;
    wallet_to_character = delete wallet s.wallet_to_character;
    fight_histories = delete (c ∷ id) s.fight_histories;
  },
  true,
)

unfoldable pub delete_character : Text → Characters → Characters × Bool
delete_character wallet s = delete_indexed (get wallet s.wallet_to_character) wallet s

unfoldable pub update_character : Character → Characters → Characters
update_character c s = record s { characters = set c.id c s.characters }
