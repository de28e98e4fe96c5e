-- ===== src/Prelude/Texts.antt =====
-- JavaScript strings: sequences of UTF-16 code units, compared by `===`.
use Prim.Native.Char.{code}
use Prim.Native.Nat.{ℕ, zero, suc, ◌+◌}
use sui_comabts.Prelude.Tests.{leb, ◌==◌, if◌then◌else◌}
use Prim.Native.String.{String}
use mathlib.Core.Path.{◌≡◌, refl}
use mathlib.Core.Bool.{Bool, true, false, ◌&&◌}
use mathlib.Core.List.{List, [], ◌∷◌}
use native.Mathlib.Omega.{arith}
use native.Mathlib.Decide.{ℕ_discrete}

abbrev pub Text : Type 0
Text = List ℕ

-- The code units of a literal of ASCII characters.
abbrev pub units : String → Text
units String.[] = []
units (String.◌∷◌ c s) = code c ∷ units s

unfoldable pub Text-discrete : Discrete Text
unfolding ℕ_discrete
Text-discrete = hlevel ℕ_discrete

infix 50 ◌===◌
abbrev pub ◌===◌ : Text → Text → Bool
s === t = elim (Text-discrete s t) [ yes _ ↦ true | no _ ↦ false ]

pub ===_refl : (s : Text) → (s === s) ≡ true
===_refl s = ground arith

pub ===→≡ : (s t : Text) → (s === t) ≡ true → s ≡ t
===→≡ s t h = ground arith

test : (units "ab" === units "ab") ≡ true
unfolding Text-discrete
test = refl

-- `s.toLowerCase()` of a text of ASCII characters, as wallet addresses are.
unfoldable pub to_lower_case : Text → Text
to_lower_case [] = []
to_lower_case (c ∷ s) = (if leb 65 c && leb c 90 then c + 32 else c) ∷ to_lower_case s

-- `s.startsWith(p)`
unfoldable pub starts_with : Text → Text → Bool
starts_with s [] = true
starts_with [] (c ∷ p) = false
starts_with (d ∷ s) (c ∷ p) = (d == c) && starts_with s p

-- `s.slice(0, n)`
unfoldable pub first_units : ℕ → Text → Text
first_units zero s = []
first_units (suc n) [] = []
first_units (suc n) (c ∷ s) = c ∷ first_units n s
