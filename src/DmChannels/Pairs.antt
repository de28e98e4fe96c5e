-- ===== src/DmChannels/Pairs.antt =====
-- server/src/data/dm-channels.ts: the canonical pair does not depend on the order of the wallets.
use sui_comabts.Prelude.{
  ◌≡◌, refl, true, false, [], ◌∷◌, arith, Text, to_lower_case, Bool-cases, inl, inr,
}
use sui_comabts.DmChannels.{before, canonical_pair, pair_key}

before_asym : (s t : Text) → before s t ≡ true → before t s ≡ false
unfolding before
before_asym [] [] e = refl
before_asym [] (d ∷ t) e = refl
before_asym (c ∷ s) [] e = absurd (ground (arith, e))
before_asym (c ∷ s) (d ∷ t) e = ground (arith, e, before_asym s t)

before_total : (s t : Text) → before s t ≡ false → before t s ≡ false → s ≡ t
unfolding before
before_total [] [] e f = refl
before_total [] (d ∷ t) e f = absurd (ground (arith, e))
before_total (c ∷ s) [] e f = absurd (ground (arith, f))
before_total (c ∷ s) (d ∷ t) e f = ground (arith, e, f, before_total s t)

pub canonical_pair_comm : (a b : Text) → canonical_pair a b ≡ canonical_pair b a
unfolding canonical_pair
canonical_pair_comm a b = elim (Bool-cases (before (to_lower_case a) (to_lower_case b))) [
  | inl e ↦ rw (e, before_asym (to_lower_case a) (to_lower_case b) e) refl
  | inr e ↦ elim (Bool-cases (before (to_lower_case b) (to_lower_case a))) [
    | inl f ↦ rw (e, f) refl
    | inr f ↦ rw (e, f) (rw (before_total (to_lower_case a) (to_lower_case b) e f) refl)
  ]
]

pub pair_key_comm : (a b : Text) → pair_key a b ≡ pair_key b a
unfolding pair_key
pair_key_comm a b = rw (canonical_pair_comm a b) refl
