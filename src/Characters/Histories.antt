-- ===== src/Characters/Histories.antt =====
-- server/src/data/characters.ts: histories of the store's operations, from the empty
-- store; `restoreCharacterFromDb`, which waits for the database in between, is not among them.
use sui_comabts.Prelude.{
  ℕ, ◌≡◌, true, List, [], ◌∷◌, none, some, arith, Text, get, Option-cases, inl, inr,
}
use sui_comabts.Combat.Stats.{CharacterStats, Item}
use sui_comabts.Characters.{
  Character, FightHistoryEntry, Characters, no_characters, present, get_character_by_wallet,
  create_character, ChainRecord, restore_character_from_chain, set_on_chain_object_id,
  delete_character, update_character,
}
use sui_comabts.Characters.Items.{
  SlotKey, add_to_inventory, remove_from_inventory, equip_item, unequip_item, add_fight_history,
  equip_character, unequip_character,
}
use sui_comabts.Characters.Index.{
  wallet_of, Inv, no_characters-Inv, create_character-Inv, restore_character_from_chain-Inv,
}
use sui_comabts.Characters.Changes.{
  set_on_chain_object_id-Inv, delete_character-Inv, on_character-Inv, equip_character-same,
  unequip_character-same, add_to_inventory-Inv, remove_from_inventory-Inv, add_fight_history-Inv,
  update_character-Inv,
}

-- The calls of the store, with the random id and the clock of those that make a character.
pub data Call : Type 0 where
  creates : Text → ℕ → Text → Text → CharacterStats → Call
  restores : Text → ℕ → Text → ChainRecord → Call
  pins : Text → Text → Call
  deletes : Text → Call
  updates : Character → Call
  adds : Text → Item → Call
  removes : Text → Text → Call
  equips : Text → Text → Call
  unequips : Text → SlotKey → Call
  records : Text → FightHistoryEntry → Call

unfoldable pub step : Characters → Call → Characters
step s (creates id now w name t) = (create_character id now w name t s).0
step s (restores id now w r) = (restore_character_from_chain id now w r s).0
step s (pins w object) = set_on_chain_object_id w object s
step s (deletes w) = (delete_character w s).0
step s (updates c) = update_character c s
step s (adds id i) = (add_to_inventory id i s).0
step s (removes id i) = (remove_from_inventory id i s).0
step s (equips id i) = (equip_item id i s).0
step s (unequips id slot) = (unequip_item id slot s).0
step s (records id f) = add_fight_history id f s

unfoldable pub run : Characters → List Call → Characters
run s [] = s
run s (c ∷ cs) = run (step s c) cs

-- The random id is not empty, and no character of the store has it.
abbrev pub Unused : Text → Characters → Type 0
Unused id s = (get id s.characters ≡ none) × (present (some id) ≡ true)

-- What the calls rely on: a random id is unused, and an updated character is one of the store's,
-- whose id and wallet stay.
unfoldable pub Sound : Characters → Call → Type 0
Sound s (creates id now w name t) = Unused id s
Sound s (restores id now w r) = Unused id s
Sound s (pins w object) = Unit
Sound s (deletes w) = Unit
Sound s (updates c) = wallet_of (get c.id s.characters) ≡ some c.wallet_address
Sound s (adds id i) = Unit
Sound s (removes id i) = Unit
Sound s (equips id i) = Unit
Sound s (unequips id slot) = Unit
Sound s (records id f) = Unit

unfoldable pub SoundRun : Characters → List Call → Type 0
SoundRun s [] = Unit
SoundRun s (c ∷ cs) = Sound s c × SoundRun (step s c) cs

step-Inv : (s : Characters) (c : Call) → Sound s c → Inv s → Inv (step s c)
unfolding step Sound equip_item unequip_item
step-Inv s (creates id now w name t) h v = create_character-Inv id now w name t s h.0 h.1 v
step-Inv s (restores id now w r) h v = restore_character_from_chain-Inv id now w r s h.0 h.1 v
step-Inv s (pins w object) h v = set_on_chain_object_id-Inv w object s v
step-Inv s (deletes w) h v = delete_character-Inv w s v
step-Inv s (updates c) h v = elim (Option-cases (get c.id s.characters)) [
  | inl e ↦ absurd (ground (arith, e, h))
  | inr (d, e) ↦ update_character-Inv c d s e (ground (arith, e, h)) v
]
step-Inv s (adds id i) h v = add_to_inventory-Inv id i s v
step-Inv s (removes id i) h v = remove_from_inventory-Inv id i s v
step-Inv s (equips id i) h v = on_character-Inv id (equip_character i) s (equip_character-same i) v
step-Inv s (unequips id slot) h v =
    on_character-Inv id (unequip_character slot) s (unequip_character-same slot) v
step-Inv s (records id f) h v = add_fight_history-Inv id f s v

run_from-Inv : (s : Characters) (cs : List Call) → SoundRun s cs → Inv s → Inv (run s cs)
unfolding run SoundRun
run_from-Inv s [] h v = v
run_from-Inv s (c ∷ cs) (h, hs) v = run_from-Inv (step s c) cs hs (step-Inv s c h v)

-- After any history of the calls of `Call`, from the empty store, if new random ids are not empty
-- and unused, and a character that is updated is one of the store's with its id and wallet: every
-- wallet of the index has the character that the index names, and that character is the wallet's;
-- every character stands under its id, which is not empty, and is the one that the index names for
-- its wallet; and exactly the characters have a fight history.
pub SoundRun-Inv : (cs : List Call) → SoundRun no_characters cs → Inv (run no_characters cs)
SoundRun-Inv cs h = run_from-Inv no_characters cs h no_characters-Inv

-- The lookup by wallet, where the index agrees.
by_wallet :
    (w id : Text) (c : Character) (s : Characters)
    → Inv s
    → get w s.wallet_to_character ≡ some id
    → get id s.characters ≡ some c
    → get_character_by_wallet w s ≡ some c
unfolding get_character_by_wallet
by_wallet w [] c s v e k = absurd (ground (arith, v.unnamed, k))
by_wallet w (x ∷ id) c s v e k = rw e k
