-- ===== src/Characters/Index.antt =====
-- server/src/data/characters.ts: the index by wallet and the characters agree, over any history of
-- the store's operations.
use sui_comabts.Prelude.{
  ℕ, ◌≡◌, refl, true, List, [], Option, none, some, arith, Text, ◌===◌, ===→≡, ===_refl, is_some,
  get, set, get-set, Option-cases, Bool-cases, inl, inr,
}
use sui_comabts.Combat.Stats.{CharacterStats}
use sui_comabts.Characters.{
  Character, FightHistoryEntry, Characters, no_characters, present, add_character, new_character,
  create_character, ChainRecord, chain_character, restore_character_from_chain,
}
use sui_comabts.Characters.Items.{put_character}

abbrev pub wallet_of : Option Character → Option Text
wallet_of none = none
wallet_of (some c) = some c.wallet_address

-- Every wallet of the index has the character that the index names, and that character is the
-- wallet's; every character stands under its id, which is not empty, and is the one that the index
-- names for its wallet, so no wallet has two; and exactly the characters have a fight history.
pub record Inv (s : Characters) : Type 0 where
  pub indexed :
      (w id : Text)
      → get w s.wallet_to_character ≡ some id
      → wallet_of (get id s.characters) ≡ some w
  pub named :
      (id : Text) (c : Character)
      → get id s.characters ≡ some c
      → (c.id ≡ id) × (get c.wallet_address s.wallet_to_character ≡ some id)
  pub unnamed : get [] s.characters ≡ none
  pub histories : (id : Text) → is_some (get id s.fight_histories) ≡ is_some (get id s.characters)

pub no_characters-Inv : Inv no_characters
unfolding no_characters get
no_characters-Inv = record {
  indexed = λ w id e. absurd (ground (arith, e));
  named = λ id c e. absurd (ground (arith, e));
  unnamed = refl;
  histories = λ id. refl;
}

-- A new character of a wallet without one, under an id that no character has.
pub add_character-Inv :
    (c : Character) (s : Characters)
    → get c.id s.characters ≡ none
    → present (some c.id) ≡ true
    → get c.wallet_address s.wallet_to_character ≡ none
    → Inv s
    → Inv (add_character c s)
add_character-Inv c s fresh real free v = record {
  indexed = λ w id e. ground (
    arith,
    e,
    get-set c.wallet_address w c.id s.wallet_to_character,
    get-set c.id id c s.characters,
    v.indexed w id,
    ===_refl c.id,
  );
  named = λ id d e. elim (Bool-cases (c.id === id)) [
    | inl q ↦ ground (
      arith,
      e,
      q,
      ===→≡ c.id id,
      get-set c.id id c s.characters,
      get-set c.wallet_address c.wallet_address c.id s.wallet_to_character,
      ===_refl c.wallet_address,
    )
    | inr q ↦ ground (
      arith,
      e,
      q,
      get-set c.id id c s.characters,
      v.named id d,
      get-set c.wallet_address d.wallet_address c.id s.wallet_to_character,
      ===→≡ c.wallet_address d.wallet_address,
    )
  ];
  unnamed = ground (arith, get-set c.id [] c s.characters, v.unnamed, ===→≡ c.id [], real);
  histories = λ id.
      ground (
        arith,
        get-set c.id id c s.characters,
        get-set c.id id [] s.fight_histories,
        v.histories id,
      );
}

-- A character in the place of one with its id and wallet.
pub replace-Inv :
    (id : Text) (c d : Character) (s : Characters)
    → get id s.characters ≡ some c
    → d.id ≡ c.id
    → d.wallet_address ≡ c.wallet_address
    → Inv s
    → Inv (put_character id d s)
replace-Inv id c d s e i w v = record {
  indexed = λ u k h. ground (arith, get-set id k d s.characters, v.indexed u k h, ===→≡ id k, e, w);
  named = λ k b h. elim (Bool-cases (id === k)) [
    | inl q ↦ ground (arith, h, q, ===→≡ id k, get-set id k d s.characters, v.named id c e, i, w)
    | inr q ↦ ground (arith, h, q, get-set id k d s.characters, v.named k b)
  ];
  unnamed = ground (arith, get-set id [] d s.characters, v.unnamed, ===→≡ id [], e);
  histories = λ k. ground (arith, get-set id k d s.characters, v.histories k, ===→≡ id k, e);
}

-- Only the histories change, each for one that is there.
pub history-Inv :
    (id : Text) (h : List FightHistoryEntry) (s : Characters)
    → is_some (get id s.fight_histories) ≡ true
    → Inv s
    → Inv (record s { fight_histories = set id h s.fight_histories })
history-Inv id h s e v = record {
  indexed = v.indexed;
  named = v.named;
  unnamed = v.unnamed;
  histories = λ k. ground (arith, get-set id k h s.fight_histories, v.histories k, ===→≡ id k, e);
}

pub create_character-Inv :
    (id : Text) (now : ℕ) (w name : Text) (t : CharacterStats) (s : Characters)
    → get id s.characters ≡ none
    → present (some id) ≡ true
    → Inv s
    → Inv (create_character id now w name t s).0
unfolding create_character new_character
create_character-Inv id now w name t s fresh real v =
    elim (Option-cases (get w s.wallet_to_character)) [
      | inr (at, e) ↦ rw e v
      | inl e ↦
          ground (arith, e, add_character-Inv (new_character id now w name t) s fresh real e v)
    ]

pub restore_character_from_chain-Inv :
    (id : Text) (now : ℕ) (w : Text) (r : ChainRecord) (s : Characters)
    → get id s.characters ≡ none
    → present (some id) ≡ true
    → Inv s
    → Inv (restore_character_from_chain id now w r s).0
unfolding restore_character_from_chain chain_character
restore_character_from_chain-Inv id now w r s fresh real v =
    elim (Option-cases (get w s.wallet_to_character)) [
      | inl e ↦ rw e (add_character-Inv (chain_character id now w r) s fresh real e v)
      | inr (at, e) ↦ rw e (elim (Option-cases (get at s.characters)) [
        | inl k ↦ rw k v
        | inr (c, k) ↦ rw k (
            ground (
              arith,
              replace-Inv at c c s k refl refl v,
              replace-Inv at c (record c { on_chain_object_id = r.on_chain_object_id }) s k refl
                  refl v,
            ))
      ])
    ]
