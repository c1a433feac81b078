-- ===== src/Domain/Money/Laws.antt =====
-- `Money` implements whole cents of one currency: what the constructor accepts, and the
-- operators as operations on cents.
use ticket_genius.Prelude.{ℕ, ◌+◌, ◌-◌, ◌*◌, ◌≤◌, ◌<◌, ◌≡◌, ◌↔◌, refl, true, arith}
use ticket_genius.Prelude.Int.{pos}
use ticket_genius.Prelude.Text.{codes}
use ticket_genius.Python.{ok, err, value_error}
use ticket_genius.Domain.Decimal
use ticket_genius.Domain.Decimal.{Decimal, is_negative, int_hundred, precision, rounded-eq}
use ticket_genius.Domain.Decimal.Laws.{
  IsCents, rounded_cents, sub_bound, add_cents, sub_cents, times_cents,
}
use ticket_genius.Domain.Money.{Currency, currency_eq, Money, check_money, add, sub, mul}

-- The abstract view: an amount of cents.
abbrev pub cents : Money → ℕ
cents m = int_hundred m.amount

abbrev pub IsValid : Money → Type 0
IsValid m = IsCents m.amount

currency_eq_iff : (a b : Currency) → (currency_eq a b ≡ true) ↔ (a ≡ b)
currency_eq_iff a b = ground arith

pub currency_eq_refl : (a : Currency) → currency_eq a a ≡ true
currency_eq_refl a = ground arith

-- The constructor's two tests accept exactly the valid amounts, and keep them.
pub check_money-eq_ok :
    (a : Decimal) (c : Currency)
    → IsCents a
    → check_money a c ≡ ok (record { amount = a; currency = c })
unfolding check_money is_negative
check_money-eq_ok a c h = ground arith

pub check_money-IsValid :
    (a : Decimal) (c : Currency) (m : Money) → check_money a c ≡ ok m → IsValid m
unfolding check_money is_negative
check_money-IsValid a c m h = ground arith

-- An accepted amount is kept as it is.
pub check_money-amount :
    (a : Decimal) (c : Currency) (m : Money)
    → check_money a c ≡ ok m
    → (m.amount ≡ a) × (m.currency ≡ c)
unfolding check_money
check_money-amount a c m h = ground arith

-- Two valid amounts of one currency, of less than 10 ^ 28 cents together, add up to a valid one,
-- cent for cent: below that the 28 digits of the decimal context do not round.
pub add_refines :
    (a b : Money)
    → IsValid a
    → IsValid b
    → a.currency ≡ b.currency
    → cents a + cents b < precision
    → (m : Money) × (add a b ≡ ok m)
      × IsValid m
      × (m.currency ≡ a.currency)
      × (cents m ≡ cents a + cents b)
unfolding add Decimal.add
add_refines a b ha hb e few =
    let sums = add_cents a.amount b.amount ha hb in
    let sum = Decimal.exact_add a.amount b.amount in
    (
      record { amount = sum; currency = a.currency },
      rw
          (
            (currency_eq_iff a.currency b.currency).1 e,
            rounded_cents sum sums.0 (omega (arith, sums.1)),
          )
          (check_money-eq_ok sum a.currency sums.0),
      sums.0,
      refl,
      sums.1,
    )

-- A valid amount can be taken from a valid one of its currency that has no fewer cents, and less
-- than 10 ^ 28; the difference is valid and counts the cents left.
pub sub_refines :
    (a b : Money)
    → IsValid a
    → IsValid b
    → a.currency ≡ b.currency
    → cents b ≤ cents a
    → cents a < precision
    → (m : Money) × (sub a b ≡ ok m)
      × IsValid m
      × (m.currency ≡ a.currency)
      × (cents m ≡ cents a - cents b)
unfolding sub Decimal.sub
sub_refines a b ha hb e le few =
    let (places, sign, value) = sub_cents a.amount b.amount ha hb in
    let left = Decimal.exact_sub a.amount b.amount in
    let valid : IsCents left = ((value le).0, places) in
    (
      record { amount = left; currency = a.currency },
      rw
          (
            (currency_eq_iff a.currency b.currency).1 e,
            rounded_cents left valid (omega (arith, (value le).1)),
          )
          (check_money-eq_ok left a.currency valid),
      valid,
      refl,
      (value le).1,
    )

pub sub_overdraft :
    (a b : Money)
    → IsValid a
    → IsValid b
    → a.currency ≡ b.currency
    → cents a < cents b
    → cents a + cents b < precision
    → sub a b ≡ err (value_error (codes "Money amount cannot be negative"))
unfolding sub check_money Decimal.sub
sub_overdraft a b ha hb e lt few =
    rw
      (
        (currency_eq_iff a.currency b.currency).1 e,
        rounded-eq (Decimal.exact_sub a.amount b.amount)
            (omega (arith, sub_bound a.amount b.amount ha hb)),
      )
      (ground (arith, sub_cents a.amount b.amount ha hb))

-- A valid amount times a count is a valid amount of as many times the cents, where these are less
-- than 10 ^ 28.
pub mul_refines :
    (a : Money) (n : ℕ)
    → IsValid a
    → cents a * n < precision
    → (m : Money) × (mul a (pos n) ≡ ok m)
      × IsValid m
      × (m.currency ≡ a.currency)
      × (cents m ≡ cents a * n)
unfolding mul Decimal.times
mul_refines a n h few =
    let product = times_cents n a.amount h in
    let whole = Decimal.exact_times a.amount (pos n) in
    (
      record { amount = whole; currency = a.currency },
      rw (rounded_cents whole product.0 (omega (arith, product.1)))
          (check_money-eq_ok whole a.currency product.0),
      product.0,
      refl,
      product.1,
    )
