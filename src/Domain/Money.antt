-- ===== src/Domain/Money.antt =====
-- domain/value_objects.py: `Currency` and `Money`.
pub mod Laws
use ticket_genius.Prelude.{ℕ, Bool, true, false, not, ltb, if◌then◌else◌}
use ticket_genius.Prelude.Int.{ℤ}
use ticket_genius.Prelude.Text.{Text, codes}
use ticket_genius.Python.{Result, ok, err, value_error}
use ticket_genius.Domain.Decimal
use ticket_genius.Domain.Decimal.{Decimal, is_negative}

pub data Currency : Type 0 where
  eur usd gbp : Currency

abbrev pub currency_value : Currency → Text
currency_value Currency.eur = codes "EUR"
currency_value Currency.usd = codes "USD"
currency_value Currency.gbp = codes "GBP"

-- `==` on the members of the enumeration
abbrev pub currency_eq : Currency → Currency → Bool
currency_eq Currency.eur Currency.eur = true
currency_eq Currency.usd Currency.usd = true
currency_eq Currency.gbp Currency.gbp = true
currency_eq a b = false

pub record Money : Type 0 where
  pub amount : Decimal
  pub currency : Currency

-- What the code hands to `Money(...)`: a `Decimal`, or an int, which goes through `str`.
pub data RawAmount : Type 0 where
  decimal : Decimal → RawAmount
  integer : ℤ → RawAmount

unfoldable pub to_decimal : RawAmount → Decimal
to_decimal (RawAmount.decimal d) = d
to_decimal (RawAmount.integer n) = Decimal.of_int n

-- The two tests of `__post_init__` behind the conversion.
unfoldable pub check_money : Decimal → Currency → Result Money
check_money a c =
    if is_negative a
    then err (value_error (codes "Money amount cannot be negative"))
    else if ltb 2 a.places
    then err (value_error (codes "Money amount cannot have more than 2 decimal places"))
    else ok (record { amount = a; currency = c })

-- `Money(amount, currency)`
unfoldable pub make_money : RawAmount → Currency → Result Money
unfolding to_decimal check_money
make_money a c = check_money (to_decimal a) c

-- `__add__`
unfoldable pub add : Money → Money → Result Money
unfolding check_money
add a b =
    if not (currency_eq a.currency b.currency)
    then err (value_error (codes "Cannot add Money with different currencies"))
    else check_money (Decimal.add a.amount b.amount) a.currency

-- `__sub__`
unfoldable pub sub : Money → Money → Result Money
unfolding check_money
sub a b =
    if not (currency_eq a.currency b.currency)
    then err (value_error (codes "Cannot subtract Money with different currencies"))
    else check_money (Decimal.sub a.amount b.amount) a.currency

-- `__mul__`
unfoldable pub mul : Money → ℤ → Result Money
unfolding check_money
mul a factor = check_money (Decimal.times a.amount factor) a.currency
