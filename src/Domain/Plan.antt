-- ===== src/Domain/Plan.antt =====
-- domain/models.py: `Plan`. What comes from the provider is kept as it came, as JSON. The
-- class is not given an event list: no method of it raises an event.
pub mod Prices
use ticket_genius.Prelude.{
  ℕ, Bool, true, false, not, Option, none, some, List, [], ◌∷◌, ◌++◌, map, if◌then◌else◌, ◌==◌,
}
use ticket_genius.Prelude.Int.{ℤ, pos}
use ticket_genius.Prelude.Text.{Text, codes}
use ticket_genius.Prelude.Dict.{Dict, lookup}
use ticket_genius.Python.{Result, ok, err, value_error, name_error, attribute_error, ◌>>=◌, ◌>>◌}
use ticket_genius.Python.Json
use ticket_genius.Python.Json.{
  Json, null, number, text, obj, arr, end, cons, nil, item, get, first, truthy,
}
use ticket_genius.Python.Std.{Std}
use ticket_genius.Domain.Decimal.{Decimal, int_hundred, of_int}
use ticket_genius.Domain.Money
use ticket_genius.Domain.Money.{Money, eur, make_money, RawAmount}
use ticket_genius.Domain.SeatId.{Seat}
use ticket_genius.Domain.Values.{Uuid, Datetime, DateRange, make_date_range}

pub record Plan : Type 0 where
  pub plan_id : Uuid
  pub tm_plan_id : Json
  pub name : Json
  pub url : Json
  pub image_url : Json
  pub date_range : DateRange
  pub venue_name : Json
  pub venue_city : Json
  pub venue_state : Json
  pub min_price : Money
  pub max_price : Money
  pub last_synced_at : Datetime
  pub tm_last_modified : Datetime
  pub version : ℕ
  pub seat_prices_json : Option (Dict ℕ)

-- `__post_init__`
unfoldable pub check_plan : Plan → Result Plan
check_plan p =
    if not (truthy p.tm_plan_id) then err (value_error (codes "tm_plan_id is required")) else ok p

-- models.py imports `Decimal` in `from_ticketmaster` alone: the other methods that name it find
-- no such name.
abbrev pub no_decimal : {A : Type 0} → Result A
no_decimal = err (name_error (codes "name 'Decimal' is not defined"))

-- the getter `seat_prices`: the body of its loop names `Decimal`, and the column of a plan that was
-- loaded may be NULL
unfoldable pub seat_prices : Plan → Result (Dict Money)
seat_prices p = elim p.seat_prices_json [
  | none ↦ err (attribute_error (codes "'NoneType' object has no attribute 'items'"))
  | some prices_json ↦ elim prices_json [ [] ↦ ok [] | entry ∷ entries ↦ no_decimal ]
]

-- the setter `seat_prices`
unfoldable pub set_seat_prices : Dict Money → Plan → Plan
set_seat_prices value p = record p {
  seat_prices_json = some (map (λ entry. (entry.0, int_hundred entry.1.amount)) value);
}

-- A `Money` always counts as true.
abbrev pub or_min_price : Option Money → Plan → Money
or_min_price none p = p.min_price
or_min_price (some price) p = price

unfoldable pub get_seat_price : Seat → Plan → Result Money
unfolding seat_prices
get_seat_price seat p = do
  prices ← seat_prices p
  ok (or_min_price (lookup seat.seat_id.section prices) p)

unfoldable pub add_seats : Plan → Money → List Seat → Result Money
add_seats p total [] = ok total
add_seats p total (seat ∷ seats) =
    get_seat_price seat p >>= λ price. Money.add total price >>= λ sum. add_seats p sum seats

-- `calculate_total_for_seats`: its first statement is `total = Money(Decimal("0"), ...)`.
unfoldable pub calculate_total_for_seats : Plan → List Seat → Result Money
calculate_total_for_seats p seats = do
  zero_amount ← no_decimal
  total ← make_money (RawAmount.decimal zero_amount) p.min_price.currency
  add_seats p total seats

-- `s.replace("Z", "+00:00")`
unfoldable pub replace_z : Text → Text
replace_z [] = []
replace_z (c ∷ s) = if c == b'Z' then codes "+00:00" ++ replace_z s else c ∷ replace_z s

-- A method call on a value that should be a text.
abbrev as_text : Json → Result Text
as_text (text t) = ok t
as_text j = err (attribute_error (codes "object has no attribute 'replace'"))

module _ (std : Std) where
  unfoldable pub parse_time : Json → Result Datetime
  parse_time j = do s ← as_text j; std.fromisoformat (replace_z s)

  -- `Decimal(str(j))`
  unfoldable pub to_decimal : Json → Result Decimal
  to_decimal (number d) = ok d
  to_decimal j = std.parse_decimal (std.str j)

  -- `Money(Decimal(str(price_range.get(k, 0))), Currency.EUR)`
  unfoldable pub price_of : Text → Json → Result Money
  price_of k range = do
    j ← get k (number (of_int (pos 0))) range
    d ← to_decimal j
    make_money (RawAmount.decimal d) eur

  -- `tm_data.get("priceRanges", [{}])[0]`
  unfoldable pub price_range : Json → Result Json
  price_range tm_data = do
    ranges ← get (codes "priceRanges") (arr (cons (obj end) nil)) tm_data
    first ranges

  -- `tm_data["images"][0]["url"] if tm_data.get("images") else None`
  unfoldable pub image_of : Json → Result Json
  image_of tm_data = do
    images ← get (codes "images") null tm_data
    if not (truthy images) then ok null else (do image ← first images; item (codes "url") image)

  -- `tm_data["_embedded"]["venues"][0]`
  unfoldable pub venue_of : Json → Result Json
  venue_of tm_data = do
    embedded ← item (codes "_embedded") tm_data
    venues ← item (codes "venues") embedded
    first venues

  -- `venue[k]["name"]`
  unfoldable pub name_in : Text → Json → Result Json
  name_in k venue = do j ← item k venue; item (codes "name") j

  -- The first block of `from_ticketmaster`: the start, the end and the time zone. Of the time
  -- zone only its text is kept.
  unfoldable pub dates_of : Json → Result (Datetime × Datetime × Text)
  dates_of tm_data = do
    dates ← item (codes "dates") tm_data
    start_dict ← item (codes "start") dates
    start_str ← item (codes "dateTime") start_dict
    end_dict ← get (codes "end") (obj end) dates
    end_str ← get (codes "dateTime") start_str end_dict
    tz ← item (codes "timezone") dates
    start ← parse_time start_str
    stop ← parse_time end_str
    ok (start, stop, if truthy tz then std.str tz else [])

  -- The prices are computed before the fields of the constructor call.
  unfoldable pub from_ticketmaster : Datetime → Json → Result Plan
  from_ticketmaster now tm_data = do
    dates ← dates_of tm_data
    prices ← price_range tm_data
    min_price ← price_of (codes "min") prices
    max_price ← price_of (codes "max") prices
    tm_id ← item (codes "id") tm_data
    name ← item (codes "name") tm_data
    url ← item (codes "url") tm_data
    image ← image_of tm_data
    range ← make_date_range dates.0 dates.1 dates.2
    venue ← venue_of tm_data
    venue_name ← item (codes "name") venue
    venue_city ← name_in (codes "city") venue
    venue_state ← name_in (codes "state") venue
    updated ← item (codes "lastUpdated") tm_data
    modified ← parse_time updated
    check_plan (record {
      plan_id = std.uuid5 (codes "ticketmaster.com/events/" ++ std.str tm_id);
      tm_plan_id = tm_id;
      name = name;
      url = url;
      image_url = image;
      date_range = range;
      venue_name = venue_name;
      venue_city = venue_city;
      venue_state = venue_state;
      min_price = min_price;
      max_price = max_price;
      last_synced_at = now;
      tm_last_modified = modified;
      version = 1;
      seat_prices_json = some [];
    })
