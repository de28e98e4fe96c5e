-- ===== src/Characters/Changes.antt =====
-- server/src/data/characters.ts: the operations on the characters of the store keep the index.
use sui_comabts.Prelude.{
  ◌≡◌, refl, sym, [], ◌∷◌, ◌++◌, Option, none, some, arith, Text, ===→≡, ===_refl, get, set, delete,
  get-delete, Option-cases, inl, inr,
}
use sui_comabts.Combat.Stats.{Item}
use sui_comabts.Characters.{
  Character, FightHistoryEntry, Characters, set_on_chain_object_id, pin_indexed, delete_indexed,
  delete_character, update_character,
}
use sui_comabts.Characters.Items.{
  SlotKey, on_character, add_to_inventory, remove_from_inventory, add_fight_history, slot_at,
  taken_at, newest_first, listed, equip_character, unequip_character, Outcome, find_item,
}
use sui_comabts.Characters.Moves.{equip_character-cases}
use sui_comabts.Characters.Index.{Inv, replace-Inv, history-Inv}

pub set_on_chain_object_id-Inv :
    (w object : Text) (s : Characters) → Inv s → Inv (set_on_chain_object_id w object s)
unfolding set_on_chain_object_id
set_on_chain_object_id-Inv w object s v = pinned (get w s.wallet_to_character)
  where
    pinned : (o : Option Text) → Inv (pin_indexed object o s)
    pinned none = v
    pinned (some []) = v
    pinned (some (x ∷ id)) = elim (Option-cases (get (x ∷ id) s.characters)) [
      | inl e ↦ rw e v
      | inr (c, e) ↦ rw e (
          ground (
            arith,
            v,
            replace-Inv (x ∷ id) c (record c { on_chain_object_id = some object }) s e refl refl v,
          ))
    ]

delete_at-Inv :
    (w id : Text) (s : Characters)
    → get w s.wallet_to_character ≡ some id
    → Inv s
    → Inv (record {
      characters = delete id s.characters;
      wallet_to_character = delete w s.wallet_to_character;
      fight_histories = delete id s.fight_histories;
    })
delete_at-Inv w id s e v = record {
  indexed = λ u k h. ground (
    arith,
    h,
    e,
    get-delete w u s.wallet_to_character,
    get-delete id k s.characters,
    v.indexed u k,
    v.indexed w id e,
    ===→≡ id k,
    ===_refl w,
  );
  named = λ k c h. ground (
    arith,
    h,
    e,
    get-delete w c.wallet_address s.wallet_to_character,
    get-delete id k s.characters,
    v.named k c,
    ===→≡ w c.wallet_address,
    ===_refl id,
  );
  unnamed = ground (arith, get-delete id [] s.characters, v.unnamed);
  histories = λ k.
      ground
        (arith, get-delete id k s.characters, get-delete id k s.fight_histories, v.histories k);
}

pub delete_character-Inv : (w : Text) (s : Characters) → Inv s → Inv (delete_character w s).0
unfolding delete_character
delete_character-Inv w s v = elim (Option-cases (get w s.wallet_to_character)) [
  | inl e ↦ rw e v
  | inr (id, e) ↦ rw e (deleted id e)
]
  where
    deleted :
        (id : Text) → get w s.wallet_to_character ≡ some id → Inv (delete_indexed (some id) w s).0
    deleted [] e = v
    deleted (x ∷ id) e = delete_at-Inv w (x ∷ id) s e v

-- A change of one character that keeps its id and wallet.
pub on_character-Inv :
    (id : Text) (f : Character → Character × Outcome) (s : Characters)
    → ((c : Character) → ((f c).0.id ≡ c.id) × ((f c).0.wallet_address ≡ c.wallet_address))
    → Inv s
    → Inv (on_character id f (get id s.characters) s).0
on_character-Inv id f s h v = elim (Option-cases (get id s.characters)) [
  | inl e ↦ rw e v
  | inr (c, e) ↦ rw e (replace-Inv id c (f c).0 s e (h c).0 (h c).1 v)
]

pub equip_character-same :
    (item_id : Text) (c : Character)
    → ((equip_character item_id c).0.id ≡ c.id)
      × ((equip_character item_id c).0.wallet_address ≡ c.wallet_address)
equip_character-same item_id c = elim (equip_character-cases item_id c) [
  | inl (e, r, q) ↦ rw q (refl, refl)
  | inr (item, slot, f, le, fits, q) ↦ rw q (refl, refl)
]

pub unequip_character-same :
    (slot : SlotKey) (c : Character)
    → ((unequip_character slot c).0.id ≡ c.id)
      × ((unequip_character slot c).0.wallet_address ≡ c.wallet_address)
unfolding unequip_character
unequip_character-same slot c = elim (Option-cases (slot_at slot c.equipment)) [
  | inl e ↦ rw e (refl, refl)
  | inr (item, e) ↦ rw e (refl, refl)
]

pub add_to_inventory-Inv :
    (id : Text) (i : Item) (s : Characters) → Inv s → Inv (add_to_inventory id i s).0
unfolding add_to_inventory
add_to_inventory-Inv id i s v = elim (Option-cases (get id s.characters)) [
  | inl e ↦ rw e v
  | inr (c, e) ↦
      rw e (replace-Inv id c (record c { inventory = c.inventory ++ i ∷ [] }) s e refl refl v)
]

pub remove_from_inventory-Inv :
    (id item_id : Text) (s : Characters) → Inv s → Inv (remove_from_inventory id item_id s).0
unfolding remove_from_inventory
remove_from_inventory-Inv id item_id s v = elim (Option-cases (get id s.characters)) [
  | inl e ↦ rw e v
  | inr (c, e) ↦ rw e (elim (Option-cases (find_item item_id c.inventory)) [
    | inl k ↦ rw k v
    | inr (n, k) ↦ rw k (replace-Inv id c (taken_at n c).0 s e refl refl v)
  ])
]

pub add_fight_history-Inv :
    (id : Text) (f : FightHistoryEntry) (s : Characters) → Inv s → Inv (add_fight_history id f s)
unfolding add_fight_history
add_fight_history-Inv id f s v = elim (Option-cases (get id s.fight_histories)) [
  | inl e ↦ rw e (in_list s v)
  | inr (h, e) ↦ rw e (
      in_list (record s { fight_histories = set id (newest_first f h) s.fight_histories })
        (history-Inv id (newest_first f h) s (rw e refl) v))
]
  where
    in_list : (t : Characters) → Inv t → Inv (listed id f.fight_id (get id t.characters) t)
    in_list t u = elim (Option-cases (get id t.characters)) [
      | inl e ↦ rw e u
      | inr (c, e) ↦ rw e (
          replace-Inv id c (record c { fight_history = newest_first f.fight_id c.fight_history }) t
            e refl refl u)
    ]

pub update_character-Inv :
    (c d : Character) (s : Characters)
    → get c.id s.characters ≡ some d
    → c.wallet_address ≡ d.wallet_address
    → Inv s
    → Inv (update_character c s)
unfolding update_character
update_character-Inv c d s e w v = replace-Inv c.id d c s e (sym (v.named c.id d e).0) w v
