-- ===== src/Repositories/Read.antt =====
-- adapters/repositories_read.py: the summaries of orders, and one plan. A query is the list of
-- the rows that it gives, in its order; `float` of an amount and the comparisons of the database
-- are parameters.
use ticket_genius.Prelude.{ℕ, Option, none, some, List, [], map, take}
use ticket_genius.Prelude.Int.{ℤ}
use ticket_genius.Prelude.Text.{Text, codes}
use ticket_genius.Python.{Result, ok, err, type_error}
use ticket_genius.Python.Encoding.{Encoding}
use ticket_genius.Python.Json.{Json}
use ticket_genius.Domain.Decimal.{Decimal}
use ticket_genius.Domain.Money.{currency_value}
use ticket_genius.Domain.Values.{Uuid, DateRange}
use ticket_genius.Domain.Order.{Order, OrderStatus}
use ticket_genius.Domain.Plan.{Plan}
use ticket_genius.Cursor.{Columns, apply_cursor_filter}

module _ (Float : Type 0) where
  -- `OrderBase`, to which `OrderSummary` adds nothing
  pub record OrderSummary : Type 0 where
    pub order_id : Uuid
    pub plan_id : Uuid
    pub plan_name : Text
    pub status : OrderStatus
    pub quantity : ℤ
    pub total_amount : Float
    pub currency : Text
    pub created_at : Text

  -- `PlanBase` and `PlanDetail`
  pub record PlanDetail : Type 0 where
    pub plan_id : Uuid
    pub name : Json
    pub url : Json
    pub image_url : Json
    pub start_date : Text
    pub start_time : Text
    pub timezone : Text
    pub venue_name : Json
    pub venue_city : Json
    pub venue_state : Json
    pub min_price : Float
    pub max_price : Float
    pub currency : Text
    pub date_range : DateRange
    pub seat_map : List Json

  module _ (float : Decimal → Float) (columns : Columns Order) (enc : Encoding) where
    -- The columns of `Order` are those of a cursor: its id and its `created_at`, which the mapper
    -- adds to the class.
    abbrev pub summary : Order → OrderSummary
    summary o = record {
      order_id = o.order_id;
      plan_id = o.plan_id;
      plan_name = [];
      status = o.status;
      quantity = o.quantity.value;
      total_amount = float o.total_amount.amount;
      currency = currency_value o.total_amount.currency;
      created_at = columns.sort_key o;
    }

    abbrev pub get_order_summary : Option Order → Option OrderSummary
    get_order_summary none = none
    get_order_summary (some o) = some (summary o)

    unfoldable pub list_orders : Text → Option Text → ℕ → List Order → List OrderSummary
    unfolding apply_cursor_filter
    list_orders customer_email cursor limit orders =
        map summary (take limit (apply_cursor_filter columns enc orders cursor).0)

  -- `get_plan`: the call of `PlanDetail` leaves out three fields that have no default.
  abbrev pub get_plan : Option Plan → Result (Option PlanDetail)
  get_plan none = ok none
  get_plan (some p) = err (
      type_error (
        codes
          "PlanBase.__init__() missing 3 required positional arguments: 'start_date', 'start_time', and 'timezone'"))
