-- ===== src/Prelude/Text.antt =====
-- Python's `str` as the list of its code points, and the string operations that the program uses.
use Prim.Native.Nat.{ℕ, zero, suc, ◌+◌, ◌/◌, ◌%◌}
use Prim.Native.Char.{code}
use Prim.Native.String.{String}
use mathlib.Core.Path.{◌≡◌, refl}
use mathlib.Core.Logic.{◌↔◌}
use mathlib.Core.Bool.{Bool, true, false, ◌&&◌, ◌||◌}
use mathlib.Core.List.{List, [], ◌∷◌, ◌++◌}
use native.Mathlib.Omega.{arith}
use ticket_genius.Prelude.Tests.{ltb, leb, ◌==◌, if◌then◌else◌}
use ticket_genius.Prelude.Int.{ℤ, pos, negsuc}

abbrev pub Text : Type 0
Text = List ℕ

-- A literal.
abbrev pub codes : String → Text
codes String.[] = []
codes (String.◌∷◌ c s) = code c ∷ codes s

unfoldable pub text_eq : Text → Text → Bool
text_eq [] [] = true
text_eq [] (y ∷ ys) = false
text_eq (x ∷ xs) [] = false
text_eq (x ∷ xs) (y ∷ ys) = x == y && text_eq xs ys

pub text_eq_iff : (s t : Text) → (text_eq s t ≡ true) ↔ (s ≡ t)
unfolding text_eq
text_eq_iff [] [] = ground arith
text_eq_iff [] (y ∷ ys) = ground arith
text_eq_iff (x ∷ xs) [] = ground arith
text_eq_iff (x ∷ xs) (y ∷ ys) = ground (arith, text_eq_iff xs ys)

pub text_eq_refl : (s : Text) → text_eq s s ≡ true
text_eq_refl s = (text_eq_iff s s).1 refl

-- `str(n)` of a natural number: one digit for each unit of fuel, and n + 1 are always enough.
digits_from : ℕ → ℕ → Text → Text
digits_from zero n acc = acc
digits_from (suc fuel) n acc =
    let rest = digits_from fuel (n / 10) ((48 + n % 10) ∷ acc) in
    if ltb n 10 then (48 + n) ∷ acc else rest

unfoldable pub str_ℕ : ℕ → Text
unfolding digits_from
str_ℕ n = digits_from (n + 1) n []

-- `str(n)` of an integer.
unfoldable pub str_ℤ : ℤ → Text
str_ℤ (pos n) = str_ℕ n
str_ℤ (negsuc n) = b'-' ∷ str_ℕ (n + 1)

-- `c in s` for one character
unfoldable pub contains_char : ℕ → Text → Bool
contains_char c [] = false
contains_char c (x ∷ xs) = c == x || contains_char c xs

-- Whether a text is one of some.
abbrev pub mentions : Text → List Text → Bool
mentions k [] = false
mentions k (j ∷ js) = text_eq j k || mentions k js

pub mentions-append :
    (k : Text) (js ks : List Text) → mentions k (js ++ ks) ≡ (mentions k js || mentions k ks)
mentions-append k [] ks = refl
mentions-append k (j ∷ js) ks = ground (arith, mentions-append k js ks)

-- `s.startswith(p)`
unfoldable pub starts_with : Text → Text → Bool
starts_with [] s = true
starts_with (p ∷ ps) [] = false
starts_with (p ∷ ps) (x ∷ xs) = p == x && starts_with ps xs

-- `p in s`
unfoldable pub contains : Text → Text → Bool
unfolding starts_with
contains p [] = starts_with p []
contains p (x ∷ xs) = starts_with p (x ∷ xs) || contains p xs

-- `s.split(c)`: never empty, `parts` are the fields after the first.
abbrev pub extend_first : ℕ → List Text → List Text
extend_first x [] = (x ∷ []) ∷ []
extend_first x (p ∷ ps) = (x ∷ p) ∷ ps

unfoldable pub split : ℕ → Text → List Text
split c [] = [] ∷ []
split c (x ∷ xs) = let rest = split c xs in if x == c then [] ∷ rest else extend_first x rest

-- White space as `str.strip` sees it.
abbrev is_space : ℕ → Bool
is_space c =
    c == 32
    || (leb 9 c && leb c 13)
    || (leb 28 c && leb c 31)
    || c == 0x85
    || c == 0xa0
    || c == 0x1680
    || (leb 0x2000 c && leb c 0x200a)
    || (leb 0x2028 c && leb c 0x2029)
    || c == 0x202f
    || c == 0x205f
    || c == 0x3000

-- `not s.strip()`: nothing is left when white space is dropped
unfoldable pub is_blank : Text → Bool
is_blank [] = true
is_blank (x ∷ xs) = is_space x && is_blank xs

-- `s.lower()` on ASCII
unfoldable pub lower : Text → Text
lower [] = []
lower (x ∷ xs) = (if leb 65 x && leb x 90 then x + 32 else x) ∷ lower xs
