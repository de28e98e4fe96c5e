-- ===== src/Prelude/Maps.antt =====
-- `Map<string, V>`: an association list in insertion order. `set` on a present key keeps its place,
-- as in JavaScript.
use mathlib.Core.Path.{◌≡◌, refl}
use mathlib.Core.Bool.{Bool, true, false, ◌||◌}
use mathlib.Core.List.{List, [], ◌∷◌}
use mathlib.Core.Option.{Option, none, some}
use native.Mathlib.Omega.{arith}
use mathlib.Core.Logic.{◌⊎◌, inl, inr}
use sui_comabts.Prelude.Tests.{Bool-cases, if◌then◌else◌}
use sui_comabts.Prelude.Texts.{Text, ◌===◌}

abbrev pub Map {ℓ} : Type ℓ → Type ℓ
Map V = List (Text × V)

module _ {ℓ} {V : Type ℓ} where
  unfoldable pub get : Text → Map V → Option V
  get k [] = none
  get k ((j, v) ∷ m) = let rest = get k m in if j === k then some v else rest

  unfoldable pub set : Text → V → Map V → Map V
  set k v [] = (k, v) ∷ []
  set k v ((j, w) ∷ m) = let rest = set k v m in if j === k then (k, v) ∷ m else (j, w) ∷ rest

  unfoldable pub delete : Text → Map V → Map V
  delete k [] = []
  delete k ((j, w) ∷ m) = let rest = delete k m in if j === k then rest else (j, w) ∷ rest

  pub get-set :
      (k j : Text) (v : V) (m : Map V) → get j (set k v m) ≡ (if k === j then some v else get j m)
  unfolding get set
  get-set k j v [] = refl
  get-set k j v ((i, w) ∷ m) = ground (arith, get-set k j v m)

  pub get-delete :
      (k j : Text) (m : Map V) → get j (delete k m) ≡ (if k === j then none else get j m)
  unfolding get delete
  get-delete k j [] = ground arith
  get-delete k j ((i, w) ∷ m) = ground (arith, get-delete k j m)

-- Every value of the map, with its key.
abbrev pub Every {ℓ κ} : {V : Type ℓ} → (Text → V → Type κ) → Map V → Type κ
Every P [] = Unit
Every P ((k, v) ∷ m) = P k v × Every P m

module _ {ℓ κ} {V : Type ℓ} (P : Text → V → Type κ) where
  pub Every-set : (k : Text) (v : V) (m : Map V) → Every P m → P k v → Every P (set k v m)
  unfolding set
  Every-set k v [] h p = (p, tt)
  Every-set k v ((j, w) ∷ m) h p = ground (arith, Every-set k v m h.1 p)

  pub Every-delete : (k : Text) (m : Map V) → Every P m → Every P (delete k m)
  unfolding delete
  Every-delete k [] h = tt
  Every-delete k ((j, w) ∷ m) h = ground (arith, Every-delete k m h.1)

  pub Every-get : (k : Text) (m : Map V) {v : V} → Every P m → get k m ≡ some v → P k v
  unfolding get
  Every-get k [] h e = cc
  Every-get k ((j, w) ∷ m) {v} h e = ground (arith, h.0, Every-get k m {v = v} h.1)

-- The key is in the map.
abbrev pub has_key {ℓ} : {V : Type ℓ} → Text → Map V → Bool
has_key k [] = false
has_key k ((j, _) ∷ m) = j === k || has_key k m

-- The keys of the map are distinct, as those of a JavaScript `Map` are.
abbrev pub IsMap {ℓ} : {V : Type ℓ} → Map V → Type 0
IsMap [] = Unit
IsMap ((k, _) ∷ m) = (has_key k m ≡ false) × IsMap m

-- The entries whose value passes the test.
abbrev pub keep {ℓ} : {V : Type ℓ} → (V → Bool) → Map V → Map V
keep p [] = []
keep p ((k, v) ∷ m) = let rest = keep p m in if p v then (k, v) ∷ rest else rest

abbrev pub passing {ℓ} : {V : Type ℓ} → (V → Bool) → Option V → Option V
passing p none = none
passing p (some v) = if p v then some v else none

module _ {ℓ} {V : Type ℓ} where
  has_key-set : (k j : Text) (v : V) (m : Map V) → has_key j (set k v m) ≡ (k === j || has_key j m)
  unfolding set
  has_key-set k j v [] = refl
  has_key-set k j v ((i, w) ∷ m) = ground (arith, has_key-set k j v m)

  pub set-IsMap : (k : Text) (v : V) (m : Map V) → IsMap m → IsMap (set k v m)
  unfolding set
  set-IsMap k v [] h = (refl, tt)
  set-IsMap k v ((j, w) ∷ m) h = ground (arith, has_key-set k j v m, set-IsMap k v m h.1)

  absent-delete : (k j : Text) (m : Map V) → has_key j m ≡ false → has_key j (delete k m) ≡ false
  unfolding delete
  absent-delete k j [] h = refl
  absent-delete k j ((i, w) ∷ m) h = ground (arith, absent-delete k j m)

  pub delete-IsMap : (k : Text) (m : Map V) → IsMap m → IsMap (delete k m)
  unfolding delete
  delete-IsMap k [] h = tt
  delete-IsMap k ((j, w) ∷ m) h = ground (arith, absent-delete k j m h.0, delete-IsMap k m h.1)

  absent-keep :
      (p : V → Bool) (j : Text) (m : Map V) → has_key j m ≡ false → has_key j (keep p m) ≡ false
  absent-keep p j [] h = refl
  absent-keep p j ((i, w) ∷ m) h = ground (arith, absent-keep p j m)

  pub keep-IsMap : (p : V → Bool) (m : Map V) → IsMap m → IsMap (keep p m)
  keep-IsMap p [] h = tt
  keep-IsMap p ((j, w) ∷ m) h = ground (arith, absent-keep p j m h.0, keep-IsMap p m h.1)

  pub get_absent : (k : Text) (m : Map V) → has_key k m ≡ false → get k m ≡ none
  unfolding get
  get_absent k [] h = refl
  get_absent k ((j, w) ∷ m) h = ground (arith, get_absent k m)

  pub get-keep :
      (p : V → Bool) (k : Text) (m : Map V) → IsMap m → get k (keep p m) ≡ passing p (get k m)
  unfolding get
  get-keep p k [] h = refl
  get-keep p k ((j, w) ∷ m) h = ground (
    arith,
    get-keep p k m h.1,
    get_absent j m h.0,
    get_absent j (keep p m),
    absent-keep p j m h.0,
  )

-- A value of the map passes the test.
abbrev pub any_value {ℓ} : {V : Type ℓ} → (V → Bool) → Map V → Bool
any_value p [] = false
any_value p ((_, v) ∷ m) = p v || any_value p m

module _ {ℓ} {V : Type ℓ} (p : V → Bool) where
  pub any_value_of_get :
      (k : Text) (m : Map V) {v : V} → get k m ≡ some v → p v ≡ true → any_value p m ≡ true
  unfolding get
  any_value_of_get k [] e t = cc
  any_value_of_get k ((j, w) ∷ m) {v} e t = ground (arith, any_value_of_get k m {v = v})

  pub any_value-get :
      (m : Map V)
      → IsMap m
      → (any_value p m ≡ false) ⊎ ((k : Text) × (v : V) × (get k m ≡ some v) × (p v ≡ true))
  unfolding get
  any_value-get [] h = inl refl
  any_value-get ((j, w) ∷ m) h = elim (Bool-cases (p w)) [
    | inl e ↦ inr (j, w, ground arith, e)
    | inr e ↦ elim (any_value-get m h.1) [
      | inl none_passes ↦ inl (ground arith)
      | inr (k, v, found, t) ↦ inr (k, v, ground (arith, get_absent k m), t)
    ]
  ]
