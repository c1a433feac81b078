-- ===== src/Mappers/Laws.antt =====
-- What is read back of what was written.
use ticket_genius.Prelude.{ℕ, ◌<◌, ◌*◌, ◌≡◌, refl, true, none, List, [], ◌∷◌, arith}
use ticket_genius.Prelude.Int.{pos}
use ticket_genius.Python.{Result, ok, is_ok}
use ticket_genius.Python.Json.{Json}
use ticket_genius.Domain.Decimal.{Decimal, hundredths, int_hundred, of_int}
use ticket_genius.Domain.Decimal.Laws.{int_hundred-hundredths, hundredths-IsCents}
use ticket_genius.Domain.Money.{Money, Currency, make_money, to_decimal}
use ticket_genius.Domain.Money.Laws.{cents, check_money-eq_ok}
use ticket_genius.Domain.SeatId.{Seat}
use ticket_genius.Domain.Payment.{Payment}
use ticket_genius.Domain.Order.{Order}
use ticket_genius.Repositories.Tables.{OrderRow, PaymentRow}
use ticket_genius.Mappers.{
  make_money_composite, make_money_values, make_seats, seats_to_json, load_order, load_payment,
  store_payment,
}

make_money_composite-eq :
    (n : ℕ) (c : Currency)
    → make_money_composite n c ≡ ok (record { amount = hundredths n; currency = c })
unfolding make_money_composite make_money to_decimal
make_money_composite-eq n c = check_money-eq_ok (hundredths n) c (hundredths-IsCents n)

-- Every amount of cents that a column holds is loaded as an amount that `_make_money`'s own
-- `__composite_values__` gives back.
pub make_money_values-make_money :
    (n : ℕ) (c : Currency)
    → (m : Money) × (make_money_composite n c ≡ ok m) × (make_money_values m ≡ (n, c))
unfolding make_money_values
make_money_values-make_money n c = (
  record { amount = hundredths n; currency = c },
  make_money_composite-eq n c,
  ground (arith, int_hundred-hundredths n),
)

int_hundred-of_int : (n : ℕ) → int_hundred (of_int (pos n)) ≡ 100 * n
unfolding int_hundred of_int
int_hundred-of_int n = omega arith

-- A payment of `n` whole units of a currency, fewer than 2 ^ 31, is stored where a whole amount in
-- the range of an Integer column goes into it as it is; and it is loaded with an amount of `n`
-- cents, where it had `100 * n`.
pub load_payment-store_payment :
    (to_integer : Decimal → Result ℕ) (p : Payment) (n : ℕ)
    → ((k : ℕ) → k < 2147483648 → to_integer (of_int (pos k)) ≡ ok k)
    → p.amount.amount ≡ of_int (pos n)
    → n < 2147483648
    → (row : PaymentRow) × (q : Payment) × (store_payment to_integer p ≡ ok row)
      × (load_payment row ≡ ok q)
      × (cents p.amount ≡ 100 * n)
      × (cents q.amount ≡ n)
unfolding load_payment store_payment
load_payment-store_payment to_integer p n whole e small = (
  record {
    id = p.payment_id;
    order_id = p.order_id;
    amount_cents = n;
    currency = p.amount.currency;
    provider = p.provider;
    status = p.status;
    provider_ref = p.provider_ref;
    intent_id = p.intent_id;
    version = p.version;
  },
  record p { amount = record { amount = hundredths n; currency = p.amount.currency } },
  rw (e, whole n small) refl,
  rw (make_money_composite-eq n p.amount.currency) refl,
  rw e (int_hundred-of_int n),
  int_hundred-hundredths n,
)

-- The seats that are written cannot be read back, unless there are none.
pub make_seats-seats_to_json :
    (seats : List Seat) → is_ok (make_seats (seats_to_json seats)) ≡ true → seats ≡ []
unfolding make_seats
make_seats-seats_to_json [] h = refl
make_seats-seats_to_json (s ∷ seats) h = ground arith

-- Loading gives no seats, or raises.
make_seats_empty : (js : List Json) (seats : List Seat) → make_seats js ≡ ok seats → seats ≡ []
unfolding make_seats
make_seats_empty [] seats h = ground arith
make_seats_empty (j ∷ js) seats h = ground arith

-- An order that is loaded has no seats and no event list.
pub load_order_bare :
    (r : OrderRow) (o : Order) → load_order r ≡ ok o → (o.seats ≡ []) × (o.domain_events ≡ none)
unfolding load_order
load_order_bare r o h = grind (arith, make_seats_empty)
