-- ===== src/Tests/Values.antt =====
-- Amounts, seat ids and plans.
use ticket_genius.Prelude.{some, ℕ, ◌+◌, ◌≡◌, refl, [], ◌∷◌, arith}
use ticket_genius.Prelude.Int.{pos}
use ticket_genius.Prelude.Text.{Text, codes, text_eq, contains_char}
use ticket_genius.Python.{ok}
use ticket_genius.Python.Json.{
  Json, text, number, obj, arr, null, fields, items, find, item, get, first, truthy,
}
use ticket_genius.Domain.Decimal
use ticket_genius.Domain.Decimal.{precision, int_hundred, of_int, is_negative}
use ticket_genius.Domain.Money
use ticket_genius.Domain.Money.{Money, eur, add, sub, mul, make_money, check_money}
use ticket_genius.Domain.Values.{make_date_range}
use ticket_genius.Domain.Money.Laws.{cents, IsValid, add_refines}
use ticket_genius.Domain.SeatId.{SeatId, str, from_string}
use ticket_genius.Domain.SeatId.Laws.{IsPlain, from_string-str}
use ticket_genius.Domain.Plan.{
  Plan, from_ticketmaster, dates_of, parse_time, price_range, price_of, to_decimal, image_of,
  replace_z, check_plan, name_in, venue_of,
}
use ticket_genius.Domain.Plan.Prices.{IsImported, from_ticketmaster-IsImported}
use ticket_genius.Tests.Sample.{sample}
use ticket_genius.Tests.Orders.{euros}

add_refines_example :
    (m : Money) × (add (euros 20) (euros 5) ≡ ok m)
    × IsValid m
    × (m.currency ≡ eur)
    × (cents m ≡ cents (euros 20) + cents (euros 5))
unfolding precision int_hundred
add_refines_example =
    add_refines (euros 20) (euros 5) (ground arith) (ground arith) refl (ground arith)

-- 99999999999999999999999999.99 and 0.02 have a sum of 29 digits, which is rounded.
large_sum :
    Decimal.add
      (record { mantissa = pos 9999999999999999999999999999; places = 2 })
      (record { mantissa = pos 2; places = 2 })
    ≡ record { mantissa = pos 1000000000000000000000000000; places = 1 }
unfolding Decimal.add Decimal.rounded Decimal.exact_add precision
large_sum = refl

abbrev stall : SeatId
stall = record { section = codes "B"; row = codes "12"; number = codes "3" }

stall-IsPlain : IsPlain stall
unfolding contains_char
stall-IsPlain = record {
  section_given = refl;
  row_given = refl;
  number_given = refl;
  section_plain = refl;
  row_plain = refl;
  number_plain = refl;
}

from_string-str_example : from_string (str stall) ≡ ok stall
from_string-str_example = from_string-str stall stall-IsPlain

abbrev cents_of : ℕ → Json
cents_of n = number (record { mantissa = pos n; places = 2 })

abbrev named : Text → Json
named s = obj (fields ((codes "name", text s) ∷ []))

abbrev venue : Json
venue = obj (
    fields (
      (codes "name", text (codes "Arena"))
      ∷ (codes "city", named (codes "Madrid"))
      ∷ (codes "state", named (codes "Madrid"))
      ∷ []))

-- An event of the provider; the sample library reads a date as its digits.
abbrev pub event : Json
event = obj (
    fields (
      (codes "id", text (codes "e1"))
      ∷ (codes "name", text (codes "Concert"))
      ∷ (codes "url", text (codes "u"))
      ∷ (
        codes "dates",
        obj (
            fields (
              (codes "start", obj (fields ((codes "dateTime", text (codes "1")) ∷ [])))
              ∷ (codes "end", obj (fields ((codes "dateTime", text (codes "2")) ∷ [])))
              ∷ (codes "timezone", text (codes "UTC"))
              ∷ [])),
      )
      ∷ (
        codes "priceRanges",
        arr (
            items (
              obj (fields ((codes "min", cents_of 1050) ∷ (codes "max", cents_of 9900) ∷ []))
              ∷ [])),
      )
      ∷ (codes "_embedded", obj (fields ((codes "venues", arr (items (venue ∷ []))) ∷ [])))
      ∷ (codes "lastUpdated", text (codes "1"))
      ∷ []))

abbrev pub plan : Plan
plan = record {
  plan_id = codes "ticketmaster.com/events/e1";
  tm_plan_id = text (codes "e1");
  name = text (codes "Concert");
  url = text (codes "u");
  image_url = null;
  date_range = record { start = 1; end = 2; timezone = codes "UTC" };
  venue_name = text (codes "Arena");
  venue_city = text (codes "Madrid");
  venue_state = text (codes "Madrid");
  min_price = record { amount = record { mantissa = pos 1050; places = 2 }; currency = eur };
  max_price = record { amount = record { mantissa = pos 9900; places = 2 }; currency = eur };
  last_synced_at = 9;
  tm_last_modified = 1;
  version = 1;
  seat_prices_json = some [];
}

pub imports : from_ticketmaster sample 9 event ≡ ok plan
unfolding from_ticketmaster dates_of item fields text_eq get parse_time price_range first items
    price_of to_decimal make_money is_negative image_of truthy make_date_range replace_z of_int
    check_money Money.to_decimal check_plan name_in venue_of find
imports = refl

from_ticketmaster-IsImported_example : IsImported sample 9 plan
from_ticketmaster-IsImported_example = from_ticketmaster-IsImported sample 9 event plan imports
