-- ===== src/Domain/Plan/Prices.antt =====
-- What a plan made from the provider's data satisfies, and seat prices in cents.
use ticket_genius.Prelude.{some, ◌≡◌, ◌<◌, ◌≢◌, refl, true, false, List, [], ◌++◌, arith}
use ticket_genius.Prelude.Text.{Text, codes}
use ticket_genius.Prelude.Dict.{lookup}
use ticket_genius.Python.{Result, ok, err, is_ok}
use ticket_genius.Python.Json.{Json, truthy}
use ticket_genius.Python.Std.{Std}
use ticket_genius.Domain.Decimal.{is_negative}
use ticket_genius.Domain.Money.{Currency, make_money, RawAmount}
use ticket_genius.Domain.Money.Laws.{IsValid}
use ticket_genius.Domain.SeatId.{Seat}
use ticket_genius.Domain.Values.{Datetime, make_date_range}
use ticket_genius.Domain.Plan.{
  Plan, check_plan, from_ticketmaster, price_of, seat_prices, get_seat_price,
  calculate_total_for_seats,
}

-- What a call that returns ensures of its result.
abbrev pub Ensures {ℓ κ} : {A : Type ℓ} → (A → Type κ) → Result A → Type κ
Ensures P (ok a) = P a
Ensures P (err e) = Unit

pub make_money-Ensures : (a : RawAmount) (c : Currency) → Ensures IsValid (make_money a c)
unfolding make_money is_negative
make_money-Ensures a c = ground arith

make_date_range-Ensures :
    (start stop : Datetime) (tz : Text)
    → Ensures (λ r. r.start < r.end) (make_date_range start stop tz)
unfolding make_date_range
make_date_range-Ensures start stop tz = ground arith

module _ (std : Std) where
  price_of-Ensures : (k : Text) (range : Json) → Ensures IsValid (price_of std k range)
  unfolding price_of
  price_of-Ensures k range = grind (arith, make_money-Ensures)

  pub record IsImported (now : Datetime) (p : Plan) : Type 0 where
    pub identified :
        p.plan_id ≡ std.uuid5 (codes "ticketmaster.com/events/" ++ std.str p.tm_plan_id)
    pub sourced : truthy p.tm_plan_id ≡ true
    pub priced : IsValid p.min_price × IsValid p.max_price
    pub ordered : p.date_range.start < p.date_range.end
    pub synced : p.last_synced_at ≡ now
    pub fresh : (p.version ≡ 1) × (p.seat_prices_json ≡ some [])

  -- A plan that `from_ticketmaster` makes has the id that its provider id determines, a provider
  -- id that counts as true, valid prices, a start before its end, version 1 and no seat prices.
  pub from_ticketmaster-IsImported :
      (now : Datetime) (tm_data : Json) (p : Plan)
      → from_ticketmaster std now tm_data ≡ ok p
      → IsImported now p
  unfolding from_ticketmaster check_plan
  from_ticketmaster-IsImported now tm_data p h =
      grind (arith, price_of-Ensures, make_date_range-Ensures)

-- While the section prices of a plan are empty every seat costs its minimum price; as soon as it
-- has one, or where the column is NULL, no price can be read, and in both cases the total of a list of seats raises.
pub seat_price_cases :
    (p : Plan) (seat : Seat) (seats : List Seat)
    → (is_ok (calculate_total_for_seats p seats) ≡ false)
      × (p.seat_prices_json ≡ some [] → get_seat_price seat p ≡ ok p.min_price)
      × (p.seat_prices_json ≢ some [] → is_ok (get_seat_price seat p) ≡ false)
unfolding calculate_total_for_seats get_seat_price seat_prices lookup
seat_price_cases p seat seats = (refl, ground arith, ground arith)
