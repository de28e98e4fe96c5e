-- ===== src/Characters/Store.antt =====
-- server/src/data/characters.ts: the item operations on the store, against a store of bags.
use sui_comabts.Prelude.{
  ℕ, ◌≡◌, inl, inr, refl, sym, ap, ◌∙◌, List, [], ◌∷◌, ◌++◌, Option, none, some, arith, Text, ◌===◌,
  ===→≡, if◌then◌else◌, get_elem?, get, get-set, Option-cases, Bool-cases,
}
use mathlib.Core.Quot
use mathlib.Core.Quot.{Quot, Quot-set}
use sui_comabts.Combat.Stats.{Item}
use sui_comabts.Characters.{Character, Characters}
use sui_comabts.Characters.Items.{
  SlotKey, find_item, Outcome, add_to_inventory, remove_from_inventory, equip_character,
  unequip_character, equip_item, unequip_item, put_character, taken_at, on_character,
}
use sui_comabts.Characters.Bag.{
  count_in, SameItems, Bag, holdings, moves-holdings, count-owned, count-append, count-splice_one,
}

pub SameItems-cons : (i : Item) (xs ys : List Item) → SameItems xs ys → SameItems (i ∷ xs) (i ∷ ys)
SameItems-cons i xs ys h p = omega (arith, h p)

-- The abstract store: a bag for each character, and an item put into one.
unfoldable pub put : Item → Bag → Bag
put i =
    Quot.lift Quot-set (λ xs. Quot.mk (i ∷ xs)) (λ xs ys h. Quot.sound (SameItems-cons i xs ys h))

abbrev pub put_any : Option Item → Bag → Bag
put_any none b = b
put_any (some i) b = put i b

abbrev pub bag : Option Character → Option Bag
bag none = none
bag (some c) = some (holdings c)

abbrev pub put_in : Option Item → Option Bag → Option Bag
put_in o none = none
put_in o (some b) = some (put_any o b)

unfoldable pub bag_of : Text → Characters → Option Bag
bag_of id s = bag (get id s.characters)

bag_of-put_character :
    (id j : Text) (c : Character) (s : Characters)
    → bag_of j (put_character id c s) ≡ (if id === j then some (holdings c) else bag_of j s)
unfolding bag_of
bag_of-put_character id j c s = ground (arith, get-set id j c s.characters)

-- A change of one character that keeps its bag keeps every bag.
bag_of-on_character :
    (id j : Text) (f : Character → Character × Outcome) (s : Characters)
    → ((c : Character) → holdings (f c).0 ≡ holdings c)
    → bag_of j (on_character id f (get id s.characters) s).0 ≡ bag_of j s
unfolding bag_of
bag_of-on_character id j f s h = elim (Option-cases (get id s.characters)) [
  | inl e ↦ rw e refl
  | inr (c, e) ↦ rw e (
      bag_of-put_character id j (f c).0 s ∙ elim (Bool-cases (id === j)) [
        | inl q ↦
            rw q (ap some (h c) ∙ ap bag (sym e ∙ ap (λ k. get k s.characters) (===→≡ id j q)))
        | inr q ↦ rw q refl
      ])
]

holdings-push :
    (i : Item) (c : Character)
    → holdings (record c { inventory = c.inventory ++ i ∷ [] }) ≡ put i (holdings c)
unfolding holdings put
holdings-push i c = Quot.sound (λ p. omega (
  arith,
  count-owned p (record c { inventory = c.inventory ++ i ∷ [] }),
  count-owned p c,
  count-append p c.inventory (i ∷ []),
))

holdings-take_at :
    (n : ℕ) (o : Option Item) (c : Character)
    → get_elem? c.inventory n ≡ o
    → put_any o (holdings (taken_at n c).0) ≡ holdings c
unfolding holdings put
holdings-take_at n none c e = Quot.sound (λ p. omega (
  arith,
  count-owned p (taken_at n c).0,
  count-owned p c,
  count-splice_one p n c.inventory,
  ap (count_in p) e,
))
holdings-take_at n (some i) c e = Quot.sound (λ p. omega (
  arith,
  count-owned p (taken_at n c).0,
  count-owned p c,
  count-splice_one p n c.inventory,
  ap (count_in p) e,
))

-- The bags after `addToInventory`.
bag_of-add :
    (id j : Text) (i : Item) (s : Characters)
    → bag_of j (add_to_inventory id i s).0
      ≡ (if id === j then put_in (some i) (bag_of j s) else bag_of j s)
unfolding add_to_inventory bag_of
bag_of-add id j i s = elim (Option-cases (get id s.characters)) [
  | inl e ↦ rw e (ground (arith, e, ===→≡ id j))
  | inr (c, e) ↦ rw e (
      ground (
        arith,
        e,
        ===→≡ id j,
        bag_of-put_character id j (record c { inventory = c.inventory ++ i ∷ [] }) s,
        holdings-push i c,
      ))
]

-- `removeFromInventory` returns what it takes out of the bag.
bag_of-remove :
    (id j item_id : Text) (s : Characters)
    → (if id === j
        then put_in
            (remove_from_inventory id item_id s).1
            (bag_of j (remove_from_inventory id item_id s).0)
        else bag_of j (remove_from_inventory id item_id s).0)
      ≡ bag_of j s
unfolding remove_from_inventory bag_of
bag_of-remove id j item_id s = elim (Option-cases (get id s.characters)) [
  | inl e ↦ rw e (ground (arith, e, ===→≡ id j))
  | inr (c, e) ↦ rw e (elim (Option-cases (find_item item_id c.inventory)) [
    | inl n ↦ rw n (ground (arith, e, ===→≡ id j))
    | inr (n, q) ↦ rw q (
        ground (
          arith,
          e,
          ===→≡ id j,
          bag_of-put_character id j (taken_at n c).0 s,
          holdings-take_at n (get_elem? c.inventory n) c refl,
        ))
  ])
]

-- The store of characters implements a store of one bag of items for each character, counting those
-- carried and those worn: for any store and any arguments, `equipItem` and `unequipItem` change no
-- character's bag, `addToInventory` puts the item into the bag of the character with the id, if there
-- is one, and `removeFromInventory` takes from that bag exactly the item that it returns, nothing if
-- that is null; the bags of the other characters stay.
pub refines-bags :
    (id item_id : Text) (slot : SlotKey) (item : Item) (s : Characters) (j : Text)
    → (bag_of j (equip_item id item_id s).0 ≡ bag_of j s)
      × (bag_of j (unequip_item id slot s).0 ≡ bag_of j s)
      × (bag_of j (add_to_inventory id item s).0
          ≡ (if id === j then put_in (some item) (bag_of j s) else bag_of j s))
      × ((if id === j
            then put_in
                (remove_from_inventory id item_id s).1
                (bag_of j (remove_from_inventory id item_id s).0)
            else bag_of j (remove_from_inventory id item_id s).0)
          ≡ bag_of j s)
unfolding equip_item unequip_item
refines-bags id item_id slot item s j = (
  bag_of-on_character id j (equip_character item_id) s (λ c. (moves-holdings item_id slot c).0),
  bag_of-on_character id j (unequip_character slot) s (λ c. (moves-holdings item_id slot c).1),
  bag_of-add id j item s,
  bag_of-remove id j item_id s,
)
