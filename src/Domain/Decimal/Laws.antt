-- ===== src/Domain/Decimal/Laws.antt =====
-- Cents: `int_hundred` undoes `hundredths`, and on values that are not negative and have at most
-- two places the operations of domain/ are those on whole cents.
use ticket_genius.Prelude.{ℕ, zero, suc, ◌+◌, ◌-◌, ◌*◌, ◌≤◌, ◌<◌, ◌≡◌, ap, arith, ltb, leb}
use ticket_genius.Prelude.Int.{ℤ, pos, negsuc, ◌≤ℤ◌, ◌*ℤ◌}
use ticket_genius.Domain.Decimal.{
  Decimal, exact_add, exact_sub, exact_times, rounded, rounded-eq, magnitude, precision, less_eq,
  less, hundredths, int_hundred, is_negative,
}

abbrev pub decimal : ℤ → ℕ → Decimal
decimal m p = record { mantissa = m; places = p }

-- A value that is not negative and has at most two places.
abbrev pub IsCents : Decimal → Type 0
IsCents d = (pos 0 ≤ℤ d.mantissa) × (d.places ≤ 2)

pub int_hundred-hundredths : (n : ℕ) → int_hundred (hundredths n) ≡ n
unfolding int_hundred hundredths
int_hundred-hundredths n = ground arith

pub hundredths-IsCents : (n : ℕ) → IsCents (hundredths n)
unfolding hundredths
hundredths-IsCents n = ground arith

-- A predicate of such a value holds if it holds at zero, one and two places.
by_places_parts {ℓ} :
    (P : Decimal → Type ℓ)
    → ((x : ℕ) → P (decimal (pos x) 0))
    → ((x : ℕ) → P (decimal (pos x) 1))
    → ((x : ℕ) → P (decimal (pos x) 2))
    → (m : ℤ) (p : ℕ) → IsCents (decimal m p)
    → P (decimal m p)
by_places_parts P a b c (negsuc x) p h = absurd (omega arith)
by_places_parts P a b c (pos x) zero h = a x
by_places_parts P a b c (pos x) (suc zero) h = b x
by_places_parts P a b c (pos x) (suc (suc zero)) h = c x
by_places_parts P a b c (pos x) (suc (suc (suc p))) h = absurd (omega arith)

by_places {ℓ} :
    (P : Decimal → Type ℓ)
    → ((x : ℕ) → P (decimal (pos x) 0))
    → ((x : ℕ) → P (decimal (pos x) 1))
    → ((x : ℕ) → P (decimal (pos x) 2))
    → (d : Decimal) → IsCents d
    → P d
by_places P a b c d h = by_places_parts P a b c d.mantissa d.places h

-- The same for two values: one case for each pair of places.
module _ (P : Decimal → Decimal → Type 0) where
  abbrev AtPlaces : ℕ → ℕ → Type 0
  AtPlaces p q = (x y : ℕ) → P (decimal (pos x) p) (decimal (pos y) q)

  by_two_places :
      AtPlaces 0 0
      → AtPlaces 0 1
      → AtPlaces 0 2
      → AtPlaces 1 0
      → AtPlaces 1 1
      → AtPlaces 1 2
      → AtPlaces 2 0
      → AtPlaces 2 1
      → AtPlaces 2 2
      → (a b : Decimal) → IsCents a
      → IsCents b
      → P a b
  by_two_places c00 c01 c02 c10 c11 c12 c20 c21 c22 a b ha hb =
      by_places (λ a. P a b)
        (λ x. by_places (λ b. P (decimal (pos x) 0) b) (c00 x) (c01 x) (c02 x) b hb)
        (λ x. by_places (λ b. P (decimal (pos x) 1) b) (c10 x) (c11 x) (c12 x) b hb)
        (λ x. by_places (λ b. P (decimal (pos x) 2) b) (c20 x) (c21 x) (c22 x) b hb) a ha

-- The sum of two such values is one, and counts their cents.
abbrev pub AddsCents : Decimal → Decimal → Type 0
AddsCents a b =
    IsCents (exact_add a b) × (int_hundred (exact_add a b) ≡ int_hundred a + int_hundred b)

pub add_cents : (a b : Decimal) → IsCents a → IsCents b → AddsCents a b
unfolding int_hundred exact_add
add_cents =
    by_two_places AddsCents (λ x y. ground arith) (λ x y. ground arith) (λ x y. ground arith)
      (λ x y. ground arith) (λ x y. ground arith) (λ x y. ground arith) (λ x y. ground arith)
      (λ x y. ground arith) (λ x y. ground arith)

-- The difference is negative exactly where its cents are, and else counts them.
abbrev pub SubsCents : Decimal → Decimal → Type 0
SubsCents a b =
    ((exact_sub a b).places ≤ 2)
    × (is_negative (exact_sub a b) ≡ ltb (int_hundred a) (int_hundred b))
    × (int_hundred b ≤ int_hundred a
        → (pos 0 ≤ℤ (exact_sub a b).mantissa)
          × (int_hundred (exact_sub a b) ≡ int_hundred a - int_hundred b))

pub sub_cents : (a b : Decimal) → IsCents a → IsCents b → SubsCents a b
unfolding int_hundred exact_sub is_negative
sub_cents =
    by_two_places SubsCents (λ x y. ground arith) (λ x y. ground arith) (λ x y. ground arith)
      (λ x y. ground arith) (λ x y. ground arith) (λ x y. ground arith) (λ x y. ground arith)
      (λ x y. ground arith) (λ x y. ground arith)

-- The order of two such values is the order of their cents.
abbrev pub OrdersCents : Decimal → Decimal → Type 0
OrdersCents a b =
    (less_eq a b ≡ leb (int_hundred a) (int_hundred b))
    × (less a b ≡ ltb (int_hundred a) (int_hundred b))

pub order_cents : (a b : Decimal) → IsCents a → IsCents b → OrdersCents a b
unfolding int_hundred less_eq less
order_cents =
    by_two_places OrdersCents (λ x y. ground arith) (λ x y. ground arith) (λ x y. ground arith)
      (λ x y. ground arith) (λ x y. ground arith) (λ x y. ground arith) (λ x y. ground arith)
      (λ x y. ground arith) (λ x y. ground arith)

-- A whole multiple counts its cents as often.
abbrev pub TimesCents : ℕ → Decimal → Type 0
TimesCents n a =
    IsCents (exact_times a (pos n)) × (int_hundred (exact_times a (pos n)) ≡ int_hundred a * n)

*ℤ-pos : (x n : ℕ) → pos x *ℤ pos n ≡ pos (x * n)
unfolding ◌*ℤ◌
*ℤ-pos x n = ground arith

int_hundred_whole : (x : ℕ) → int_hundred (decimal (pos x) 0) ≡ x * 100
unfolding int_hundred
int_hundred_whole x = omega arith

int_hundred_tenths : (x : ℕ) → int_hundred (decimal (pos x) 1) ≡ x * 10
unfolding int_hundred
int_hundred_tenths x = omega arith

int_hundred_cents : (x : ℕ) → int_hundred (decimal (pos x) 2) ≡ x
unfolding int_hundred
int_hundred_cents x = omega arith

times_pos : (x p n : ℕ) → exact_times (decimal (pos x) p) (pos n) ≡ decimal (pos (x * n)) p
unfolding exact_times
times_pos x p n = ap (λ m. decimal m p) (*ℤ-pos x n)

ruleset times_laws = (times_pos, int_hundred_whole, int_hundred_tenths, int_hundred_cents)

pub times_cents : (n : ℕ) (a : Decimal) → IsCents a → TimesCents n a
times_cents n =
    by_places (TimesCents n) (λ x. simp times_laws (omega arith))
      (λ x. simp times_laws (omega arith)) (λ x. simp times_laws (omega arith))

-- Such a value of few cents is not rounded.
magnitude_bound : (d : Decimal) → IsCents d → magnitude d.mantissa ≤ int_hundred d
unfolding int_hundred
magnitude_bound =
    by_places (λ d. magnitude d.mantissa ≤ int_hundred d) (λ x. omega arith) (λ x. omega arith)
      (λ x. omega arith)

pub rounded_cents : (d : Decimal) → IsCents d → int_hundred d < precision → rounded d ≡ d
rounded_cents d h small = rounded-eq d (omega (arith, magnitude_bound d h))

-- Nor is a difference of two of them, whatever its sign.
abbrev SubsFew : Decimal → Decimal → Type 0
SubsFew a b = magnitude (exact_sub a b).mantissa ≤ int_hundred a + int_hundred b

pub sub_bound : (a b : Decimal) → IsCents a → IsCents b → SubsFew a b
unfolding int_hundred exact_sub
sub_bound =
    by_two_places SubsFew (λ x y. ground arith) (λ x y. ground arith) (λ x y. ground arith)
      (λ x y. ground arith) (λ x y. ground arith) (λ x y. ground arith) (λ x y. ground arith)
      (λ x y. ground arith) (λ x y. ground arith)
