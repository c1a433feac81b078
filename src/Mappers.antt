-- ===== src/Mappers.antt =====
-- The mappers of adapters/orm.py: how a row of Repositories/Tables becomes an object, and what is
-- stored of one. The library calls the first argument of a `composite` with the columns when it
-- loads, and the value's own method `__composite_values__` when it stores.
pub mod Laws
use ticket_genius.Prelude.{
  ℕ, ◌*◌, ◌/◌, ◌^◌, Bool, true, false, not, Option, none, some, List, [], ◌∷◌, is_empty,
  if◌then◌else◌,
}
use ticket_genius.Prelude.Int.{ℤ, pos}
use ticket_genius.Prelude.Text.{Text, codes, text_eq}
use ticket_genius.Prelude.Dict.{Dict, insert}
use ticket_genius.Python.{Result, ok, err, type_error, value_error, ◌>>=◌}
use ticket_genius.Python.Json.{
  Json, null, bool, number, text, obj, arr, nil, cons, end, field, truthy, items,
}
use ticket_genius.Domain.Decimal.{Decimal, hundredths, int_hundred}
use ticket_genius.Domain.Money.{Money, Currency, RawAmount, eur, make_money}
use ticket_genius.Domain.SeatId.{Seat}
use ticket_genius.Domain.Values.{make_quantity, make_attendee, make_date_range}
use ticket_genius.Domain.Order.{Order}
use ticket_genius.Domain.Payment.{Payment}
use ticket_genius.Domain.Plan.{Plan}
use ticket_genius.Repositories.Tables.{OrderRow, PaymentRow, PlanRow}

-- `_make_money`
unfoldable pub make_money_composite : ℕ → Currency → Result Money
unfolding make_money
make_money_composite cents curr = make_money (RawAmount.decimal (hundredths cents)) curr

-- The attribute that is set on the function `_make_money`, where the library does not look.
unfoldable pub make_money_values : Money → ℕ × Currency
make_money_values self = (int_hundred self.amount, self.currency)

-- `Money.__composite_values__`
abbrev pub composite_values : Money → Decimal × Currency
composite_values self = (self.amount, self.currency)

-- `_make_seat_prices`
abbrev set_prices : Dict Money → List (Text × ℕ) → Result (Dict Money)
set_prices result [] = ok result
set_prices result ((section, price_cents) ∷ entries) =
    make_money_composite price_cents eur >>= λ price.
    set_prices (insert section price result) entries

unfoldable pub make_seat_prices : Option (Dict ℕ) → Result (Dict Money)
make_seat_prices none = ok []
make_seat_prices (some prices_json) = set_prices [] prices_json

-- `Seat(**s)`: the class has the one field `seat_id`, which must be a `SeatId`.
abbrev pub seat_of : Json → Result Seat
seat_of (obj (field k j end)) =
    if text_eq k (codes "seat_id")
    then err (value_error (codes "Seat must have a SeatId"))
    else err (type_error (codes "Seat.__init__() got an unexpected keyword argument"))
seat_of (obj fs) = err (type_error (codes "Seat.__init__() got an unexpected keyword argument"))
seat_of j = err (type_error (codes "argument after ** must be a mapping"))

abbrev seats_of : List Json → Result (List Seat)
seats_of [] = ok []
seats_of (j ∷ js) = seat_of j >>= λ seat. seats_of js >>= λ seats. ok (seat ∷ seats)

-- `_make_seats`, for the arrays that `_seats_to_json` writes, and null
unfoldable pub make_seats : List Json → Result (List Seat)
make_seats seats_json = seats_of seats_json

-- `_seats_to_json`
abbrev seat_json : Seat → Json
seat_json s = obj (
    field (codes "section") (text s.seat_id.section) (
      field (codes "row") (text s.seat_id.row)
        (field (codes "number") (text s.seat_id.number) end)))

abbrev pub seats_to_json : List Seat → List Json
seats_to_json [] = []
seats_to_json (s ∷ seats) = seat_json s ∷ seats_to_json seats

-- A row of `orders`. The constructor is not called, so that the order has no event list.
unfoldable pub load_order : OrderRow → Result Order
load_order r = do
  quantity ← make_quantity r.quantity_value
  total ← make_money_composite r.amount_cents r.currency
  attendee ← make_attendee r.attendee_name r.attendee_email r.attendee_phone
  seats ← make_seats r.seats_json
  ok (record {
    order_id = r.id;
    plan_id = r.plan_id;
    quantity = quantity;
    total_amount = total;
    attendee_info = attendee;
    status = r.status;
    payment_id = r.payment_id;
    seats = seats;
    version = r.version;
    domain_events = none;
  })

-- A row of `payments`
unfoldable pub load_payment : PaymentRow → Result Payment
load_payment r = do
  amount ← make_money_composite r.amount_cents r.currency
  ok (record {
    payment_id = r.id;
    order_id = r.order_id;
    amount = amount;
    provider = r.provider;
    status = r.status;
    provider_ref = r.provider_ref;
    intent_id = r.intent_id;
    version = r.version;
  })

-- A row of `plans`
unfoldable pub load_plan : PlanRow → Result Plan
load_plan r = do
  range ← make_date_range r.start_date r.end_date r.timezone
  min_price ← make_money_composite r.min_price_cents r.currency
  max_price ← make_money_composite r.max_price_cents r.currency
  ok (record {
    plan_id = r.id;
    tm_plan_id = r.tm_plan_id;
    name = r.name;
    url = r.url;
    image_url = r.image_url;
    date_range = range;
    venue_name = r.venue_name;
    venue_city = r.venue_city;
    venue_state = r.venue_state;
    min_price = min_price;
    max_price = max_price;
    last_synced_at = r.last_synced_at;
    tm_last_modified = r.tm_last_modified;
    version = r.version;
    seat_prices_json = r.seat_prices_json;
  })

-- What is stored of a payment; `to_integer` is what an Integer column makes of a decimal, which
-- the database refuses out of its range.
unfoldable pub store_payment : (Decimal → Result ℕ) → Payment → Result PaymentRow
store_payment to_integer p = do
  amount_cents ← to_integer (composite_values p.amount).0
  ok (record {
    id = p.payment_id;
    order_id = p.order_id;
    amount_cents = amount_cents;
    currency = (composite_values p.amount).1;
    provider = p.provider;
    status = p.status;
    provider_ref = p.provider_ref;
    intent_id = p.intent_id;
    version = p.version;
  })
