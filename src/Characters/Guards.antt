-- ===== src/Characters/Guards.antt =====
-- server/src/ws/handler.ts: a handler that answers with an error has changed nothing, and one that
-- does not has passed its guards.
use sui_comabts.Prelude.{
  ◌≡◌, ◌⊎◌, inl, inr, refl, ap, true, false, [], ◌∷◌, Option, some, arith, Text, units, ===→≡, Map,
  get, set, Option-cases, Bool-cases,
}
use sui_comabts.Combat.Stats.{Item}
use sui_comabts.Characters.{Character, Characters, present, get_character_by_wallet}
use sui_comabts.Characters.Items.{
  SlotKey, slot_at, Outcome, done, failed, equip_item, unequip_item, on_character, equip_character,
  unequip_character,
}
use sui_comabts.Characters.Handlers.{
  Client, error, item_equipped, item_unequipped, is_on_chain, text_of, reply_equipped,
  handle_equip_item, valid_slot, worn_by, on_chain_item, on_chain_item_error, on_chain_slot_error,
  reply_unequipped, handle_unequip_item,
}
use sui_comabts.Characters.Moves.{equip_character-cases}

set_same {ℓ} : {V : Type ℓ} (k : Text) (v : V) (m : Map V) → get k m ≡ some v → set k v m ≡ m
unfolding get set
set_same k v [] e = absurd (ground (arith, e))
set_same k v ((j, w) ∷ m) e = ground (arith, e, ===→≡ j k, set_same k v m)

-- The store after a change of one character: the error's store is the one before.
abbrev Atomic : Characters → Characters × Outcome → Type 0
Atomic s r = ((e : Text) × (r ≡ (s, failed e))) ⊎ (r.1 ≡ done)

abbrev AtomicOn : Character → Character × Outcome → Type 0
AtomicOn c r = ((e : Text) × (r ≡ (c, failed e))) ⊎ (r.1 ≡ done)

on_character-Atomic :
    (id : Text) (f : Character → Character × Outcome) (s : Characters)
    → ((c : Character) → AtomicOn c (f c))
    → Atomic s (on_character id f (get id s.characters) s)
on_character-Atomic id f s h = elim (Option-cases (get id s.characters)) [
  | inl e ↦ rw e (inl (units "Character not found", refl))
  | inr (c, e) ↦ rw e (elim (h c) [
    | inl (t, q) ↦
        inl (
          t,
          rw q (ap (λ m. (record s { characters = m }, failed t)) (set_same id c s.characters e)),
        )
    | inr q ↦ inr q
  ])
]

equip_item-Atomic : (id item_id : Text) (s : Characters) → Atomic s (equip_item id item_id s)
unfolding equip_item
equip_item-Atomic id item_id s = on_character-Atomic id (equip_character item_id) s (λ c.
    elim (equip_character-cases item_id c) [
      | inl (e, r, q) ↦ inl (e, q)
      | inr (item, slot, f, le, fits, q) ↦ inr (ap (λ r. r.1) q)
    ])

unequip_item-Atomic :
    (id : Text) (slot : SlotKey) (s : Characters) → Atomic s (unequip_item id slot s)
unfolding unequip_item unequip_character
unequip_item-Atomic id slot s = on_character-Atomic id (unequip_character slot) s (λ c.
    elim (Option-cases (slot_at slot c.equipment)) [
      | inl e ↦ rw e (inl (units "No item in that slot", refl))
      | inr (item, e) ↦ rw e (inr refl)
    ])

-- What an accepted request did, and the reply to it.
abbrev pub EquipAccepted : Client → Option Text → Characters → Type 0
EquipAccepted client item_id s =
    let done_to = equip_item (text_of client.character_id) (text_of item_id) s in
    (present client.character_id ≡ true)
    × (present client.current_fight_id ≡ false)
    × (present item_id ≡ true)
    × (is_on_chain (text_of item_id) ≡ false)
    × (done_to.1 ≡ done)
    × (handle_equip_item client item_id s
        ≡ (done_to.0, item_equipped (get_character_by_wallet client.wallet_address done_to.0)))

abbrev pub UnequipAccepted : Client → Option Text → Characters → Type 0
UnequipAccepted client name s =
    (slot : SlotKey) × (valid_slot (text_of name) ≡ some slot)
    × (present client.character_id ≡ true)
    × (present client.current_fight_id ≡ false)
    × (on_chain_item (worn_by slot (get_character_by_wallet client.wallet_address s)) ≡ false)
    × ((unequip_item (text_of client.character_id) slot s).1 ≡ done)
    × (handle_unequip_item client name s ≡ (
      (unequip_item (text_of client.character_id) slot s).0,
      item_unequipped
          (get_character_by_wallet client.wallet_address
            (unequip_item (text_of client.character_id) slot s).0)
          (worn_by slot (get_character_by_wallet client.wallet_address s)),
    ))

-- A reply made from an atomic change.
reply_equipped-cases :
    (w : Text) (s : Characters) (r : Characters × Outcome)
    → Atomic s r
    → ((e : Text) × (reply_equipped w r ≡ (s, error e)))
      ⊎ ((r.1 ≡ done) × (reply_equipped w r ≡ (r.0, item_equipped (get_character_by_wallet w r.0))))
reply_equipped-cases w s r (inl (e, q)) = inl (e, ap (reply_equipped w) q)
reply_equipped-cases w s (t, done) (inr q) = inr (refl, refl)
reply_equipped-cases w s (t, failed e) (inr q) = absurd (ground (arith, q))

reply_unequipped-cases :
    (w : Text) (item : Option Item) (s : Characters) (r : Characters × Outcome)
    → Atomic s r
    → ((e : Text) × (reply_unequipped w item r ≡ (s, error e)))
      ⊎ ((r.1 ≡ done)
          × (reply_unequipped w item r
              ≡ (r.0, item_unequipped (get_character_by_wallet w r.0) item)))
reply_unequipped-cases w item s r (inl (e, q)) = inl (e, ap (reply_unequipped w item) q)
reply_unequipped-cases w item s (t, done) (inr q) = inr (refl, refl)
reply_unequipped-cases w item s (t, failed e) (inr q) = absurd (ground (arith, q))

handle_equip_item-cases :
    (client : Client) (item_id : Option Text) (s : Characters)
    → ((e : Text) × (handle_equip_item client item_id s ≡ (s, error e)))
      ⊎ EquipAccepted client item_id s
unfolding handle_equip_item
handle_equip_item-cases client item_id s = elim (Bool-cases (present client.character_id)) [
  | inr a ↦ inl (units "No character", rw a refl)
  | inl a ↦ elim (Bool-cases (present client.current_fight_id)) [
    | inl b ↦ inl (units "Cannot change equipment during a fight", rw (a, b) refl)
    | inr b ↦ elim (Bool-cases (present item_id)) [
      | inr c ↦ inl (units "Missing itemId", rw (a, b, c) refl)
      | inl c ↦ elim (Bool-cases (is_on_chain (text_of item_id))) [
        | inl d ↦ inl (on_chain_item_error, rw (a, b, c, d) refl)
        | inr d ↦
            elim (reply_equipped-cases client.wallet_address s _
              (equip_item-Atomic (text_of client.character_id) (text_of item_id) s)) [
                | inl (e, q) ↦ inl (e, rw (a, b, c, d) q)
                | inr (r, q) ↦ inr (a, b, c, d, r, rw (a, b, c, d) q)
              ]
      ]
    ]
  ]
]

handle_unequip_item-cases :
    (client : Client) (name : Option Text) (s : Characters)
    → ((e : Text) × (handle_unequip_item client name s ≡ (s, error e)))
      ⊎ UnequipAccepted client name s
unfolding handle_unequip_item
handle_unequip_item-cases client name s = elim (Bool-cases (present client.character_id)) [
  | inr a ↦ inl (units "No character", rw a refl)
  | inl a ↦ elim (Bool-cases (present client.current_fight_id)) [
    | inl b ↦ inl (units "Cannot change equipment during a fight", rw (a, b) refl)
    | inr b ↦ elim (Bool-cases (present name)) [
      | inr c ↦ inl (units "Missing slot", rw (a, b, c) refl)
      | inl c ↦ elim (Option-cases (valid_slot (text_of name))) [
        | inl d ↦ inl (units "Invalid slot", rw (a, b, c, d) refl)
        | inr (slot, d) ↦
            elim (Bool-cases
              (on_chain_item (worn_by slot (get_character_by_wallet client.wallet_address s)))) [
                | inl k ↦ inl (on_chain_slot_error, rw (a, b, c, d) (rw k refl))
                | inr k ↦
                    elim (reply_unequipped-cases client.wallet_address
                      (worn_by slot (get_character_by_wallet client.wallet_address s)) s _
                      (unequip_item-Atomic (text_of client.character_id) slot s)) [
                        | inl (e, q) ↦ inl (e, rw (a, b, c, d) (rw k q))
                        | inr (r, q) ↦ inr (slot, d, a, b, k, r, rw (a, b, c, d) (rw k q))
                      ]
              ]
      ]
    ]
  ]
]

-- A request to equip or to unequip, with any client, argument and store, ends in one of two ways. It
-- is answered by an error, and the store is as it was. Or the client has a character and is in no
-- fight; an item to equip is not one on the chain, and a slot to clear is one of the ten and does not
-- hold an item on the chain, as far as the character of the client's wallet tells; the store is that
-- after `equipItem` or `unequipItem`, which succeeded; and the reply shows the character of the
-- client's wallet there.
pub handlers-cases :
    (client : Client) (item_id slot : Option Text) (s : Characters)
    → (((e : Text) × (handle_equip_item client item_id s ≡ (s, error e)))
        ⊎ EquipAccepted client item_id s)
      × (((e : Text) × (handle_unequip_item client slot s ≡ (s, error e)))
          ⊎ UnequipAccepted client slot s)
handlers-cases client item_id slot s =
    (handle_equip_item-cases client item_id s, handle_unequip_item-cases client slot s)
