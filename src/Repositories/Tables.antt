-- ===== src/Repositories/Tables.antt =====
-- The rows of adapters/orm.py, by their columns. The time columns that the database fills in and
-- no code reads are left out; a list of seats that is NULL is the empty one.
use ticket_genius.Prelude.{ℕ, Option, List}
use ticket_genius.Prelude.Int.{ℤ}
use ticket_genius.Prelude.Text.{Text}
use ticket_genius.Prelude.Dict.{Dict}
use ticket_genius.Python.Json.{Json}
use ticket_genius.Domain.Money.{Currency}
use ticket_genius.Domain.Values.{Uuid, Datetime}
use ticket_genius.Domain.Order.{OrderStatus}
use ticket_genius.Domain.Payment.{PaymentStatus}

-- `orders_table`
pub record OrderRow : Type 0 where
  pub id : Uuid
  pub plan_id : Uuid
  pub quantity_value : ℤ
  pub amount_cents : ℕ
  pub currency : Currency
  pub status : OrderStatus
  pub payment_id : Option Uuid
  pub version : ℕ
  pub created_at : Datetime
  pub attendee_name : Text
  pub attendee_email : Text
  pub attendee_phone : Option Text
  pub seats_json : List Json

-- `payments_table`
pub record PaymentRow : Type 0 where
  pub id : Uuid
  pub order_id : Uuid
  pub amount_cents : ℕ
  pub currency : Currency
  pub provider : Text
  pub status : PaymentStatus
  pub provider_ref : Option Text
  pub intent_id : Option Text
  pub version : ℕ

-- `plans_table`. The texts of the provider are kept as its JSON has them.
pub record PlanRow : Type 0 where
  pub id : Uuid
  pub tm_plan_id : Json
  pub name : Json
  pub url : Json
  pub image_url : Json
  pub start_date : Datetime
  pub end_date : Datetime
  pub timezone : Text
  pub venue_name : Json
  pub venue_city : Json
  pub venue_state : Json
  pub min_price_cents : ℕ
  pub max_price_cents : ℕ
  pub currency : Currency
  pub seat_prices_json : Option (Dict ℕ)
  pub last_synced_at : Datetime
  pub tm_last_modified : Datetime
  pub version : ℕ
