-- ===== src/BigInts.antt =====
-- The constructor `BigInt` of JavaScript on a string, as server/src/data/fight-requests.ts calls it:
-- white space around, an optional sign before decimal digits, or a base and its digits.
use sui_comabts.Prelude.{
  ℕ, ◌+◌, ◌*◌, ◌-◌, Bool, true, ◌&&◌, ◌||◌, [], ◌∷◌, Option, none, some, Text, leb, ltb, ◌==◌,
  if◌then◌else◌, any,
}

-- What `BigInt(s)` returns: a number that is not below zero, or the opposite of one.
pub data BigInt : Type 0 where
  plus minus : ℕ → BigInt

abbrev pub below : BigInt → ℕ → Bool
below (plus n) k = ltb n k
below (minus n) k = ltb 0 (n + k)

-- The white space that `BigInt` trims.
abbrev pub is_space : ℕ → Bool
is_space c =
    (leb 9 c && leb c 13)
    || any (λ d. c == d) (32 ∷ 160 ∷ 5760 ∷ 8232 ∷ 8233 ∷ 8239 ∷ 8287 ∷ 12288 ∷ 65279 ∷ [])
    || (leb 8192 c && leb c 8202)

abbrev pub or_end : Bool → Text → Text → Text
or_end true [] t = []
or_end _ s t = t

unfoldable pub trim_end : Text → Text
trim_end [] = []
trim_end (c ∷ s) = let rest = trim_end s in or_end (is_space c) rest (c ∷ rest)

unfoldable pub trim : Text → Text
trim [] = []
trim (c ∷ s) = let rest = trim s in if is_space c then rest else trim_end (c ∷ s)

-- The value of a digit; 36 and more for what is none.
abbrev pub digit : ℕ → ℕ
digit c =
    if leb 48 c && leb c 57
    then c - 48
    else if leb 97 c && leb c 122
    then c - 87
    else if leb 65 c && leb c 90
    then c - 55
    else 36

unfoldable pub digits : ℕ → ℕ → Text → Option ℕ
digits base n [] = some n
digits base n (c ∷ s) =
    let rest = digits base (n * base + digit c) s in if ltb (digit c) base then rest else none

-- One digit at least.
abbrev pub number : ℕ → Text → Option ℕ
number base [] = none
number base (c ∷ s) = digits base 0 (c ∷ s)

abbrev pub signed : (ℕ → BigInt) → Option ℕ → Option BigInt
signed f none = none
signed f (some n) = some (f n)

-- The base that the letter after a leading zero announces.
abbrev pub base_of : ℕ → Option ℕ
base_of c =
    if (c == 120) || (c == 88)
    then some 16
    else if (c == 111) || (c == 79)
    then some 8
    else if (c == 98) || (c == 66)
    then some 2
    else none

abbrev pub with_base : Option ℕ → Text → Text → Option BigInt
with_base none s t = signed plus (number 10 t)
with_base (some base) s t = signed plus (number base s)

abbrev pub literal : Text → Option BigInt
literal [] = some (plus 0)
literal (c ∷ []) = signed plus (number 10 (c ∷ []))
literal (c ∷ d ∷ s) =
    if c == 43
    then signed plus (number 10 (d ∷ s))
    else if c == 45
    then signed minus (number 10 (d ∷ s))
    else if c == 48
    then with_base (base_of d) s (c ∷ d ∷ s)
    else signed plus (number 10 (c ∷ d ∷ s))

-- `BigInt(s)`; `none` is its `SyntaxError`.
unfoldable pub big_int : Text → Option BigInt
big_int s = literal (trim s)
