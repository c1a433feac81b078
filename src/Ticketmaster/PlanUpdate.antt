-- ===== src/Ticketmaster/PlanUpdate.antt =====
-- adapters/ticketmaster.py: `update_plan_from_ticketmaster`, which writes a plan field by field,
-- so that one that raises has written the fields before.
pub mod Laws
use ticket_genius.Prelude.{◌+◌, ℕ, Option, none, some, []}
use ticket_genius.Prelude.Dict.{Dict}
use ticket_genius.Prelude.Text.{codes}
use ticket_genius.Python.{Result, ok, err}
use ticket_genius.Python.Json.{Json, item}
use ticket_genius.Python.Exec.{Exec, continue, lift, modify, ◌>>=◌, ◌>>◌}
use ticket_genius.Python.Std.{Std}
use ticket_genius.Domain.Values.{Datetime}
use ticket_genius.Domain.Plan.{Plan, image_of, venue_of, name_in, price_range, price_of, parse_time}

module _ (std : Std) where
  -- A statement `plan.field = value`
  abbrev assign : {A : Type 0} → Result A → (A → Plan → Plan) → Exec Plan (Unit {0})
  assign r set p = elim r [ err e ↦ (err e, p) | ok a ↦ (ok tt, set a p) ]

  -- `tm_data["_embedded"]["venues"][0]`, and what is read of it
  abbrev pub of_venue : (Json → Result Json) → Json → Result Json
  of_venue read tm_data = elim (venue_of std tm_data) [ err e ↦ err e | ok venue ↦ read venue ]

  abbrev pub last_updated : Json → Result Datetime
  last_updated tm_data = elim (item (codes "lastUpdated") tm_data) [
    | err e ↦ err e
    | ok j ↦ parse_time std j
  ]

  -- `if plan.seat_prices_json is None: plan.seat_prices_json = {}`
  abbrev pub or_empty : Option (Dict ℕ) → Option (Dict ℕ)
  or_empty none = some []
  or_empty (some prices_json) = some prices_json

  -- Every plan has the attribute `seat_prices_json`, which its class and its mapper set.
  unfoldable pub update_plan_from_ticketmaster : Datetime → Json → Exec Plan (Unit {0})
  update_plan_from_ticketmaster now tm_data = do
    assign (item (codes "name") tm_data) (λ j p. record p { name = j })
    assign (item (codes "url") tm_data) (λ j p. record p { url = j })
    assign (image_of std tm_data) (λ j p. record p { image_url = j })
    assign (of_venue (item (codes "name")) tm_data) (λ j p. record p { venue_name = j })
    assign (of_venue (name_in std (codes "city")) tm_data) (λ j p. record p { venue_city = j })
    assign (of_venue (name_in std (codes "state")) tm_data) (λ j p. record p { venue_state = j })
    range ← lift (price_range std tm_data)
    assign (price_of std (codes "min") range) (λ m p. record p { min_price = m })
    assign (price_of std (codes "max") range) (λ m p. record p { max_price = m })
    modify (λ p. record p { last_synced_at = now })
    assign (last_updated tm_data) (λ t p. record p { tm_last_modified = t })
    modify (λ p. record p { version = p.version + 1 })
    modify (λ p. record p { seat_prices_json = or_empty p.seat_prices_json })
