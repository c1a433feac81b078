-- ===== src/Domain/Decimal.antt =====
-- `decimal.Decimal` as domain/ uses it: a whole number over a power of ten. A positive exponent
-- is written out, so `places` is minus the exponent that the code looks at, or 0. Sums, differences
-- and products are rounded to the 28 digits of Python's default context, half to even; a division
-- by 100 and a product with 100, of amounts in cents, are taken as exact.
pub mod Laws
use ticket_genius.Prelude.{
  ℕ, zero, suc, ◌+◌, ◌-◌, ◌*◌, ◌/◌, ◌%◌, ◌^◌, ◌≤◌, max, ◌≡◌, ◌<◌, leb, true, false, refl, ◌&&◌,
  ◌||◌, Bool, ltb, ◌==◌, if◌then◌else◌, arith,
}
use ticket_genius.Prelude.Int.{ℤ, pos, negsuc, ◌+ℤ◌, ◌-ℤ◌, ◌*ℤ◌, ltb_ℤ, leb_ℤ, pos_part}

pub record Decimal : Type 0 where
  pub mantissa : ℤ
  pub places : ℕ

-- The mantissa over 10 to the power `p`, for `p` at least `places`.
unfoldable pub align : Decimal → ℕ → ℤ
unfolding ◌*ℤ◌
align a p = a.mantissa *ℤ pos (10 ^ (p - a.places))

-- What a coefficient of the default context is below.
unfoldable pub precision : ℕ
precision = 10 ^ 28

-- How many digits of `n` are too many; `n` steps are enough.
abbrev excess : ℕ → ℕ → ℕ
excess zero n = 0
excess (suc fuel) n = elim (ltb n precision) [ true ↦ 0 | false ↦ suc (excess fuel (n / 10)) ]

abbrev half_even : ℕ → ℕ → ℕ
half_even n d =
    let twice = 2 * (n % d) in
    if ltb twice d || (twice == d && (n / d) % 2 == 0) then n / d else suc (n / d)

-- A coefficient without its last `e` digits, over a power of ten that is smaller by as much.
abbrev shift : ℕ → ℕ → ℕ → ℕ × ℕ
shift m e p = if leb e p then (m, p - e) else (m * 10 ^ (e - p), 0)

-- Rounding up may give a digit more.
abbrev carry : ℕ → ℕ → ℕ → ℕ × ℕ
carry m e p = if ltb m precision then shift m e p else shift (m / 10) (suc e) p

abbrev round_parts : ℕ → ℕ → ℕ × ℕ
round_parts n p = let e = excess n n in carry (half_even n (10 ^ e)) e p

abbrev with_sign : ℤ → ℕ → ℤ
with_sign (pos x) m = pos m
with_sign (negsuc x) zero = pos 0
with_sign (negsuc x) (suc m) = negsuc m

abbrev pub magnitude : ℤ → ℕ
magnitude (pos x) = x
magnitude (negsuc x) = suc x

-- A result of the default context.
unfoldable pub rounded : Decimal → Decimal
rounded d = elim (ltb (magnitude d.mantissa) precision) [
  | true ↦ d
  | false ↦
      let (m, p) = round_parts (magnitude d.mantissa) d.places in
      record { mantissa = with_sign d.mantissa m; places = p }
]

pub rounded-eq : (d : Decimal) → magnitude d.mantissa < precision → rounded d ≡ d
unfolding rounded
rounded-eq d small = rw (rounded, ltb_lem (magnitude d.mantissa) precision small) refl
  where
    ltb_lem : (m n : ℕ) → m < n → ltb m n ≡ true
    ltb_lem m n h = ground arith

unfoldable pub exact_add : Decimal → Decimal → Decimal
unfolding align ◌+ℤ◌
exact_add a b =
    let p = max a.places b.places in record { mantissa = align a p +ℤ align b p; places = p }

-- `a + b`
unfoldable pub add : Decimal → Decimal → Decimal
add a b = rounded (exact_add a b)

unfoldable pub exact_sub : Decimal → Decimal → Decimal
unfolding align ◌-ℤ◌
exact_sub a b =
    let p = max a.places b.places in record { mantissa = align a p -ℤ align b p; places = p }

-- `a - b`
unfoldable pub sub : Decimal → Decimal → Decimal
sub a b = rounded (exact_sub a b)

unfoldable pub exact_times : Decimal → ℤ → Decimal
unfolding ◌*ℤ◌
exact_times a n = record { mantissa = a.mantissa *ℤ n; places = a.places }

-- `a * n` for an int
unfoldable pub times : Decimal → ℤ → Decimal
times a n = rounded (exact_times a n)

-- `a < b`, `a <= b`
unfoldable pub less : Decimal → Decimal → Bool
unfolding align
less a b = let p = max a.places b.places in ltb_ℤ (align a p) (align b p)

unfoldable pub less_eq : Decimal → Decimal → Bool
unfolding align
less_eq a b = let p = max a.places b.places in leb_ℤ (align a p) (align b p)

unfoldable pub is_negative : Decimal → Bool
is_negative a = ltb_ℤ a.mantissa (pos 0)

-- `Decimal(n)` of an int
unfoldable pub of_int : ℤ → Decimal
of_int n = record { mantissa = n; places = 0 }

-- `Decimal(n) / 100`: division keeps no trailing zero behind the point.
unfoldable pub hundredths : ℕ → Decimal
hundredths n =
    if n % 100 == 0
    then record { mantissa = pos (n / 100); places = 0 }
    else if n % 10 == 0
    then record { mantissa = pos (n / 10); places = 1 }
    else record { mantissa = pos n; places = 2 }

-- `int(a * 100)` of a value that is not negative: `int` drops the places.
unfoldable pub int_hundred : Decimal → ℕ
int_hundred a = (pos_part a.mantissa * 100) / 10 ^ a.places
