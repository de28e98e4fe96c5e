-- ===== src/Characters/Accounts.antt =====
-- server/src/data/characters.ts: which characters `createCharacter` makes, and that deleting one
-- undoes it.
use sui_comabts.Prelude.{
  ℕ, ◌≡◌, ◌≤◌, ◌+◌, ◌⊎◌, refl, Bool, true, false, [], ◌∷◌, Option, none, some, arith, Text, units,
  ===_refl, ◌||◌, ltb, ◌==◌, is_some, length, Map, get, set, delete, get-set, Option-cases,
  Bool-cases, inl, inr,
}
use sui_comabts.Combat.Stats.{CharacterStats}
use sui_comabts.Characters.{
  Character, Characters, add_character, Registered, registered, refused, new_character, total_stats,
  below_minimum, create_character, delete_character, delete_indexed,
}
use sui_comabts.Characters.Index.{Inv}
use sui_comabts.Characters.Histories.{Unused}

-- A wallet without a character, a name of 2 to 20 units, and stats of at least 3 that sum to 20.
pub record Allowed (w name : Text) (t : CharacterStats) (s : Characters) : Type 0 where
  pub free : get w s.wallet_to_character ≡ none
  pub long_enough : 2 ≤ length name
  pub short_enough : length name ≤ 20
  pub budget : t.strength + t.dexterity + t.intuition + t.endurance ≡ 20
  pub strength : 3 ≤ t.strength
  pub dexterity : 3 ≤ t.dexterity
  pub intuition : 3 ≤ t.intuition
  pub endurance : 3 ≤ t.endurance

-- The character of the request, of level 1, without experience, points to spend, and items.
abbrev pub IsBeginner : Text → Text → Text → CharacterStats → Character → Type 0
IsBeginner id w name t c =
    (c.id ≡ id)
    × (c.wallet_address ≡ w)
    × (c.name ≡ name)
    × (c.stats ≡ t)
    × (c.level ≡ 1)
    × (c.xp ≡ 0)
    × (c.unallocated_points ≡ 0)
    × (c.inventory ≡ [])

abbrev is_registered : Registered → Bool
is_registered (registered c) = true
is_registered (refused e) = false

-- The refused request: the error is given, the store is kept, and a condition fails.
abbrev pub Refuses : Text → Text → CharacterStats → Characters → Characters × Registered → Type 0
Refuses w name t s r = ((e : Text) × (r ≡ (s, refused e))) × (¬ Allowed w name t s)

create_character-cases :
    (id : Text) (now : ℕ) (w name : Text) (t : CharacterStats) (s : Characters)
    → Refuses w name t s (create_character id now w name t s)
      ⊎ (Allowed w name t s
          × (create_character id now w name t s ≡ (
            add_character (new_character id now w name t) s,
            registered (new_character id now w name t),
          )))
unfolding create_character total_stats below_minimum
create_character-cases id now w name t s = elim (Option-cases (get w s.wallet_to_character)) [
  | inr (at, e) ↦
      inl (
        (units "Wallet already has a character", rw e refl),
        λ a. absurd (ground (arith, a.free, e)),
      )
  | inl e ↦ elim (Bool-cases (ltb (length name) 2 || ltb 20 (length name))) [
    | inl l ↦ inl (
      (units "Name must be between 2 and 20 characters", rw (e, l) refl),
      λ a. absurd (ground (arith, a.long_enough, a.short_enough, l)),
    )
    | inr l ↦ elim (Bool-cases (t.strength + t.dexterity + t.intuition + t.endurance == 20)) [
      | inr k ↦ inl (
        (units "Stats must sum to 20", rw (e, l) (rw k refl)),
        λ a. absurd (ground (arith, a.budget, k)),
      )
      | inl k ↦ elim (Bool-cases (below_minimum t)) [
        | inl b ↦ inl (
          (units "Each stat must be at least 3", rw (e, l) (rw k (rw b refl))),
          λ a. absurd (ground (arith, a.strength, a.dexterity, a.intuition, a.endurance, b)),
        )
        | inr b ↦ inr (
          record {
            free = e;
            long_enough = ground (arith, l);
            short_enough = ground (arith, l);
            budget = ground (arith, k);
            strength = ground (arith, b);
            dexterity = ground (arith, b);
            intuition = ground (arith, b);
            endurance = ground (arith, b);
          },
          rw (e, l) (rw k (rw b refl)),
        )
      ]
    ]
  ]
]

delete-set {ℓ} :
    {V : Type ℓ} (k : Text) (v : V) (m : Map V) → get k m ≡ none → delete k (set k v m) ≡ m
unfolding get set delete
delete-set k v [] e = ground (arith, ===_refl k)
delete-set k v ((j, w) ∷ m) e = ground (arith, e, delete-set k v m)

is_some-none {ℓ} : {A : Type ℓ} (o : Option A) → is_some o ≡ false → o ≡ none
is_some-none none e = refl
is_some-none (some x) e = absurd (ground (arith, e))

delete-create :
    (id : Text) (now : ℕ) (w name : Text) (t : CharacterStats) (s : Characters)
    → Unused id s
    → Allowed w name t s
    → Inv s
    → delete_character w (create_character id now w name t s).0 ≡ (s, true)
unfolding delete_character new_character
delete-create [] now w name t s u a v = absurd (ground (arith, u.1))
delete-create (x ∷ id) now w name t s u a v =
    elim (create_character-cases (x ∷ id) now w name t s) [
      | inl (r, n) ↦ absurd (n a)
      | inr (b, e) ↦ rw e (added (new_character (x ∷ id) now w name t))
    ]
  where
    none_there : get (x ∷ id) s.fight_histories ≡ none
    none_there = is_some-none _ (ground (arith, v.histories (x ∷ id), u.0))

    indexed : get w (set w (x ∷ id) s.wallet_to_character) ≡ some (x ∷ id)
    indexed = ground (arith, get-set w w (x ∷ id) s.wallet_to_character, ===_refl w)

    added :
        (c : Character)
        → delete_indexed (get w (set w (x ∷ id) s.wallet_to_character)) w (record {
          characters = set (x ∷ id) c s.characters;
          wallet_to_character = set w (x ∷ id) s.wallet_to_character;
          fight_histories = set (x ∷ id) [] s.fight_histories;
        })
          ≡ (s, true)
    added c =
        rw
          (
            indexed,
            delete-set (x ∷ id) c s.characters u.0,
            delete-set w (x ∷ id) s.wallet_to_character a.free,
            delete-set (x ∷ id) [] s.fight_histories none_there,
          )
          refl

new_character-IsBeginner :
    (id : Text) (now : ℕ) (w name : Text) (t : CharacterStats)
    → IsBeginner id w name t (new_character id now w name t)
unfolding new_character
new_character-IsBeginner id now w name t = (refl, refl, refl, refl, refl, refl, refl, refl)

-- `createCharacter`, for any arguments, with a random id that is unused, on a store whose index agrees
-- with its characters: either it returns an error, the store is as it was, and the wallet has a
-- character already, or the name is not of 2 to 20 units, or the stats do not sum to 20, or one of
-- them is below 3; or none of these holds, the store gains the new character under the new id, with
-- the wallet's index entry and an empty fight history, `deleteCharacter` of the wallet then restores
-- the store before, and the new character has the wallet, the name and the stats that were asked for,
-- level 1, no experience, no points to spend and no items in its inventory.
pub create_delete_lem :
    (id : Text) (now : ℕ) (w name : Text) (t : CharacterStats) (s : Characters)
    → Unused id s
    → Inv s
    → let after = create_character id now w name t s in
      Refuses w name t s after
      ⊎ (Allowed w name t s
          × (after ≡ (
            add_character (new_character id now w name t) s,
            registered (new_character id now w name t),
          ))
          × (delete_character w after.0 ≡ (s, true))
          × IsBeginner id w name t (new_character id now w name t))
create_delete_lem id now w name t s u v = elim (create_character-cases id now w name t s) [
  | inl r ↦ inl r
  | inr (a, e) ↦
      inr (a, e, delete-create id now w name t s u a v, new_character-IsBeginner id now w name t)
]
