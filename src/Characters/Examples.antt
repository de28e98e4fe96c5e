-- ===== src/Characters/Examples.antt =====
-- A store with one character, and what its operations do there.
use sui_comabts.Prelude.{
  ◌≡◌, ◌≤◌, ◌⊎◌, refl, true, List, [], ◌∷◌, none, some, Text, Text-discrete, units, get, set,
  starts_with,
}
use sui_comabts.Combat.Stats.{CharacterStats, StatBonuses, Item}
use sui_comabts.Characters.{
  Character, Characters, no_characters, create_character, total_stats, below_minimum, new_character,
  add_character, registered, delete_character, get_character_by_wallet,
}
use sui_comabts.Characters.Items.{
  SlotKey, weapon, slot_at, put_slot, find_item, splice_one, add_to_inventory,
  remove_from_inventory, equip_character, equip_item, unequip_item, done, failed,
  get_equip_slot_key,
}
use sui_comabts.Characters.Handlers.{
  Client, error, is_on_chain, handle_equip_item, handle_unequip_item,
}
use sui_comabts.Characters.Found.{Found}
use sui_comabts.Characters.Restore.{
  DbCharacter, character_of_row, retroactive, with_points, with_items, row_loaded, items_loaded,
  waits,
}
use sui_comabts.Characters.Store.{bag_of, put_in, refines-bags}
use sui_comabts.Characters.Moves.{Fits, Refused, wearing, equip_character-cases}
use sui_comabts.Characters.Guards.{EquipAccepted, UnequipAccepted, handlers-cases}
use sui_comabts.Characters.Index.{Inv, wallet_of}
use sui_comabts.Characters.Histories.{
  Call, creates, adds, equips, step, run, Sound, SoundRun, SoundRun-Inv,
}
use sui_comabts.Characters.Accounts.{Allowed, Refuses, IsBeginner, create_delete_lem}

abbrev plain : StatBonuses
plain = record {
  strength = none;
  dexterity = none;
  intuition = none;
  endurance = none;
  hp = none;
  armor = none;
  defense = none;
  crit_bonus = none;
  damage = none;
}

abbrev sword : Text → Item
sword id = record {
  id = id;
  name = units "Sword";
  item_type = 1;
  level_req = 1;
  stat_bonuses = plain;
  min_damage = some 3;
  max_damage = some 5;
  offhand_type = none;
}

abbrev balanced : CharacterStats
balanced = record { strength = 5; dexterity = 5; intuition = 5; endurance = 5 }

abbrev id : Text
id = units "c1"

abbrev wallet : Text
wallet = units "0xa"

-- A character is made, is given a sword and wears it.
abbrev history : List Call
history =
    creates id 10 wallet (units "Ann") balanced
    ∷ adds id (sword (units "i1"))
    ∷ equips id (units "i1")
    ∷ adds id (sword (units "i2"))
    ∷ []

abbrev armed : Characters
armed = run no_characters history

SoundRun-Inv_example : Inv armed
unfolding SoundRun Sound step run no_characters get create_character Text-discrete
SoundRun-Inv_example = SoundRun-Inv history ((refl, refl), (tt, (tt, (tt, tt))))

-- The worn sword is swapped for the other one.
equip_test : (equip_item id (units "i2") armed).1 ≡ done
unfolding run step create_character total_stats below_minimum new_character add_to_inventory
    equip_item equip_character find_item splice_one slot_at put_slot get_equip_slot_key
    Text-discrete get set no_characters
equip_test = refl

refines-bags_example :
    (bag_of id (equip_item id (units "i2") armed).0 ≡ bag_of id armed)
    × (bag_of id (unequip_item id weapon armed).0 ≡ bag_of id armed)
    × (bag_of id (add_to_inventory id (sword (units "i3")) armed).0
        ≡ put_in (some (sword (units "i3"))) (bag_of id armed))
    × (put_in
          (remove_from_inventory id (units "i2") armed).1
          (bag_of id (remove_from_inventory id (units "i2") armed).0)
        ≡ bag_of id armed)
unfolding Text-discrete
refines-bags_example = refines-bags id (units "i2") weapon (sword (units "i3")) armed id

abbrev ann : Character
ann = record (new_character id 10 wallet (units "Ann") balanced) {
  inventory = sword (units "i2") ∷ [];
}

equip_character-cases_example :
    ((e : Text) × Refused (units "i2") ann e × (equip_character (units "i2") ann ≡ (ann, failed e)))
    ⊎ ((item : Item) × (slot : SlotKey) × (f : Found (units "i2") item ann.inventory)
        × (item.level_req ≤ ann.level)
        × Fits slot item.item_type
        × (equip_character (units "i2") ann ≡ (wearing item slot f.place ann, done)))
equip_character-cases_example = equip_character-cases (units "i2") ann

abbrev client : Client
client = record { character_id = some id; wallet_address = wallet; current_fight_id = none }

handlers-cases_example :
    (((e : Text) × (handle_equip_item client (some (units "i2")) armed ≡ (armed, error e)))
      ⊎ EquipAccepted client (some (units "i2")) armed)
    × (((e : Text) × (handle_unequip_item client (some (units "weapon")) armed ≡ (armed, error e)))
        ⊎ UnequipAccepted client (some (units "weapon")) armed)
handlers-cases_example = handlers-cases client (some (units "i2")) (some (units "weapon")) armed

abbrev bob : Text
bob = units "0xb"

create_delete_lem_example :
    Refuses bob
      (units "Bob")
      balanced
      armed
      (create_character (units "c2") 20 bob (units "Bob") balanced armed)
    ⊎ (Allowed bob (units "Bob") balanced armed
        × (create_character (units "c2") 20 bob (units "Bob") balanced armed ≡ (
          add_character (new_character (units "c2") 20 bob (units "Bob") balanced) armed,
          registered (new_character (units "c2") 20 bob (units "Bob") balanced),
        ))
        × (delete_character bob
              (create_character (units "c2") 20 bob (units "Bob") balanced armed).0
            ≡ (armed, true))
        × IsBeginner
            (units "c2")
            bob
            (units "Bob")
            balanced
            (new_character (units "c2") 20 bob (units "Bob") balanced))
unfolding run step create_character total_stats below_minimum new_character add_to_inventory
    equip_item equip_character find_item splice_one slot_at put_slot get_equip_slot_key
    Text-discrete get set no_characters SoundRun Sound
create_delete_lem_example =
    create_delete_lem (units "c2") 20 bob (units "Bob") balanced armed (refl, refl)
      (SoundRun-Inv history ((refl, refl), (tt, (tt, (tt, tt)))))

-- A client may swap a worn item on the chain out, by wearing another one in its slot.
abbrev chain_id : Text
chain_id = units "0x00000000000000000000000000000000000000000000"

abbrev chained : Character
chained = record ann { equipment = put_slot weapon (some (sword chain_id)) ann.equipment }

chain_test :
    (is_on_chain chain_id ≡ true)
    × (find_item chain_id (equip_character (units "i2") chained).0.inventory ≡ some 0)
unfolding equip_character find_item splice_one slot_at put_slot get_equip_slot_key Text-discrete
    is_on_chain starts_with new_character
chain_test = (refl, refl)

-- Two calls of `restoreCharacterFromDb` for one wallet, both waiting for the items at once: the
-- store then has two characters of the wallet.
abbrev row : DbCharacter
row = record {
  name = units "Ann";
  stats = balanced;
  level = 2;
  xp = 0;
  gold = 0;
  rating = 1000;
  wins = 0;
  losses = 0;
  draws = none;
  unallocated_points = none;
  onchain_character_id = none;
  created_at = 0;
}

abbrev waiting : Text → Character
waiting new_id = with_points (character_of_row new_id wallet row)

abbrev doubled : Characters
doubled =
    (items_loaded [] [] (waiting (units "c2"))
      (items_loaded [] [] (waiting (units "c1")) no_characters).0).0

doubled_test :
    (row_loaded (units "c1") wallet (some row) no_characters ≡ waits (waiting (units "c1")))
    × (row_loaded (units "c2") wallet (some row) no_characters ≡ waits (waiting (units "c2")))
    × (wallet_of (get (units "c1") doubled.characters) ≡ some wallet)
    × (wallet_of (get (units "c2") doubled.characters) ≡ some wallet)
unfolding row_loaded items_loaded with_items character_of_row with_points retroactive total_stats
    no_characters get set Text-discrete get_character_by_wallet
doubled_test = (refl, refl, refl, refl)
