-- ===== src/Characters/Handlers.antt =====
-- server/src/ws/handler.ts: `handleEquipItem` and `handleUnequipItem`. A reply holds the character
-- itself, which the source cleans for the wire.
use sui_comabts.Prelude.{
  Bool, false, ◌&&◌, not, [], Option, none, some, Text, units, leb, ◌===◌, starts_with,
  if◌then◌else◌, length,
}
use sui_comabts.Combat.Stats.{Item}
use sui_comabts.Characters.{Character, Characters, present, get_character_by_wallet}
use sui_comabts.Characters.Items.{
  SlotKey, weapon, offhand, helmet, chest, gloves, boots, belt, ring1, ring2, necklace, slot_at,
  Outcome, done, failed, equip_item, unequip_item,
}

-- What the two handlers read of a connected client.
pub record Client : Type 0 where
  pub character_id : Option Text
  pub wallet_address : Text
  pub current_fight_id : Option Text

pub data Reply : Type 0 where
  error : Text → Reply
  item_equipped : Option Character → Reply
  item_unequipped : Option Character → Option Item → Reply

-- The id is that of an object on the chain.
unfoldable pub is_on_chain : Text → Bool
is_on_chain id = starts_with id (units "0x") && leb 42 (length id)

abbrev pub on_chain_item_error : Text
on_chain_item_error =
    units "This is an on-chain item. Sign the equip transaction in your wallet instead."

abbrev pub on_chain_slot_error : Text
on_chain_slot_error =
    units "This slot holds an on-chain item. Sign the unequip transaction in your wallet instead."

abbrev pub text_of : Option Text → Text
text_of none = []
text_of (some t) = t

abbrev pub reply_equipped : Text → Characters × Outcome → Characters × Reply
reply_equipped wallet (s, done) = (s, item_equipped (get_character_by_wallet wallet s))
reply_equipped wallet (s, failed e) = (s, error e)

unfoldable pub handle_equip_item : Client → Option Text → Characters → Characters × Reply
handle_equip_item client item_id s =
    if not (present client.character_id)
    then (s, error (units "No character"))
    else if present client.current_fight_id
    then (s, error (units "Cannot change equipment during a fight"))
    else if not (present item_id)
    then (s, error (units "Missing itemId"))
    else if is_on_chain (text_of item_id)
    then (s, error on_chain_item_error)
    else reply_equipped client.wallet_address
        (equip_item (text_of client.character_id) (text_of item_id) s)

-- `validSlots`
unfoldable pub valid_slot : Text → Option SlotKey
valid_slot t =
    if t === units "weapon"
    then some weapon
    else if t === units "offhand"
    then some offhand
    else if t === units "helmet"
    then some helmet
    else if t === units "chest"
    then some chest
    else if t === units "gloves"
    then some gloves
    else if t === units "boots"
    then some boots
    else if t === units "belt"
    then some belt
    else if t === units "ring1"
    then some ring1
    else if t === units "ring2"
    then some ring2
    else if t === units "necklace"
    then some necklace
    else none

abbrev pub worn_by : SlotKey → Option Character → Option Item
worn_by slot none = none
worn_by slot (some c) = slot_at slot c.equipment

abbrev pub on_chain_item : Option Item → Bool
on_chain_item none = false
on_chain_item (some item) = is_on_chain item.id

abbrev pub reply_unequipped : Text → Option Item → Characters × Outcome → Characters × Reply
reply_unequipped wallet item (s, done) =
    (s, item_unequipped (get_character_by_wallet wallet s) item)
reply_unequipped wallet item (s, failed e) = (s, error e)

abbrev pub unequip_valid : Client → Option SlotKey → Characters → Characters × Reply
unequip_valid client none s = (s, error (units "Invalid slot"))
unequip_valid client (some slot) s =
    let item = worn_by slot (get_character_by_wallet client.wallet_address s) in
    if on_chain_item item
    then (s, error on_chain_slot_error)
    else reply_unequipped client.wallet_address item
        (unequip_item (text_of client.character_id) slot s)

unfoldable pub handle_unequip_item : Client → Option Text → Characters → Characters × Reply
handle_unequip_item client slot s =
    if not (present client.character_id)
    then (s, error (units "No character"))
    else if present client.current_fight_id
    then (s, error (units "Cannot change equipment during a fight"))
    else if not (present slot)
    then (s, error (units "Missing slot"))
    else unequip_valid client (valid_slot (text_of slot)) s
