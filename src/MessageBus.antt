-- ===== src/MessageBus.antt =====
-- service_layer/messagebus.py, with the commands and queries as the routes build them.
pub mod Process
pub mod Laws
use ticket_genius.Prelude.{ℕ, Bool, true, false, not, Option, none, some, List, [], ◌∷◌, ◌++◌}
use ticket_genius.Prelude.Int.{ℤ}
use ticket_genius.Prelude.Text.{Text, codes}
use ticket_genius.Python.{Exn, Result, ok, err, value_error, attribute_error, ◌>>=◌}
use ticket_genius.Python.Exec.{Exec}
use ticket_genius.Python.Json.{Json, Fields}
use ticket_genius.Domain.Decimal.{Decimal}
use ticket_genius.Domain.Money.{Money}
use ticket_genius.Domain.SeatId.{Seat}
use ticket_genius.Domain.Values.{Uuid, Datetime}
use ticket_genius.Handlers.Commands.{
  ConfirmPaymentCommand, CancelOrderCommand, RefundOrderCommand, OrderCreatedResult,
  PaymentConfirmedResult,
}
use ticket_genius.UnitOfWork.{Session, UnitOfWork, commit}

-- The routes hand over the attendee as a dict and the seats as texts.
pub record RawOrder : Type 0 where
  pub plan_id : Uuid
  pub quantity : ℤ
  pub attendee_info : Fields
  pub seat_ids : Option (List Text)

pub record SyncPlansCommand : Type 0 where
  pub since : Option Datetime
  pub stale_only : Bool

pub record ReserveSeatsCommand : Type 0 where
  pub order_id : Uuid
  pub seats : List Seat

pub record SearchPlansQuery : Type 0 where
  pub query : Option Text
  pub lat : Option Decimal
  pub lon : Option Decimal
  pub radius_km : Option ℤ
  pub date_from : Option Text
  pub date_to : Option Text
  pub min_price : Option Decimal
  pub max_price : Option Decimal
  pub cursor : Option Text
  pub limit : ℤ

-- A limit is not negative; no route builds this query.
pub record ListOrdersQuery : Type 0 where
  pub customer_email : Text
  pub cursor : Option Text
  pub limit : ℕ

pub data Command : Type 0 where
  create_order : RawOrder → Command
  confirm_payment : ConfirmPaymentCommand → Command
  cancel_order : CancelOrderCommand → Command
  refund_order : RefundOrderCommand → Command
  sync_plans : SyncPlansCommand → Command
  reserve_seats : ReserveSeatsCommand → Command

pub data Query : Type 0 where
  search_plans : SearchPlansQuery → Query
  get_plan get_order : Uuid → Query
  list_orders : ListOrdersQuery → Query

-- The classes that a call can be dispatched on.
pub data Class : Type 0 where
  message_bus : Class
  create_order_command confirm_payment_command cancel_order_command : Class
  refund_order_command sync_plans_command reserve_seats_command : Class
  search_plans_query get_plan_query get_order_query list_orders_query : Class

-- `type(x).__name__`
unfoldable pub class_name : Class → Text
class_name Class.message_bus = codes "MessageBus"
class_name Class.create_order_command = codes "CreateOrderCommand"
class_name Class.confirm_payment_command = codes "ConfirmPaymentCommand"
class_name Class.cancel_order_command = codes "CancelOrderCommand"
class_name Class.refund_order_command = codes "RefundOrderCommand"
class_name Class.sync_plans_command = codes "SyncPlansCommand"
class_name Class.reserve_seats_command = codes "ReserveSeatsCommand"
class_name Class.search_plans_query = codes "SearchPlansQuery"
class_name Class.get_plan_query = codes "GetPlanQuery"
class_name Class.get_order_query = codes "GetOrderQuery"
class_name Class.list_orders_query = codes "ListOrdersQuery"

unfoldable pub class_of_command : Command → Class
class_of_command (Command.create_order c) = Class.create_order_command
class_of_command (Command.confirm_payment c) = Class.confirm_payment_command
class_of_command (Command.cancel_order c) = Class.cancel_order_command
class_of_command (Command.refund_order c) = Class.refund_order_command
class_of_command (Command.sync_plans c) = Class.sync_plans_command
class_of_command (Command.reserve_seats c) = Class.reserve_seats_command

unfoldable pub class_of_query : Query → Class
class_of_query (Query.search_plans q) = Class.search_plans_query
class_of_query (Query.get_plan i) = Class.get_plan_query
class_of_query (Query.get_order i) = Class.get_order_query
class_of_query (Query.list_orders q) = Class.list_orders_query

-- The handlers' methods that the registered functions call.
pub data Method : Type 0 where
  handle_create_order handle_confirm_payment handle_cancel_order handle_refund_order : Method
  handle_sync_plans handle_reserve_seats : Method
  handle_search_plans handle_get_plan handle_get_order handle_list_orders : Method

-- service_layer/queries.py; the summaries of the plans are values of their own
pub record PlanSearchResult : Type 0 where
  pub plans : List Json
  pub cursor : Option Text
  pub has_more : Bool

-- What a method returns: a result object, a count, nothing, or what the read side gives.
pub data Reply : Type 0 where
  order_created : OrderCreatedResult → Reply
  payment_confirmed : PaymentConfirmedResult → Reply
  count : ℕ → Reply
  nothing : Reply
  searched : PlanSearchResult → Reply
  found : Json → Reply

-- The registries of the two `singledispatch` functions.
unfoldable pub command_registry : Class → Option Method
command_registry Class.create_order_command = some handle_create_order
command_registry Class.confirm_payment_command = some handle_confirm_payment
command_registry Class.cancel_order_command = some handle_cancel_order
command_registry Class.refund_order_command = some handle_refund_order
command_registry Class.sync_plans_command = some handle_sync_plans
command_registry Class.reserve_seats_command = some handle_reserve_seats
command_registry c = none

unfoldable pub query_registry : Class → Option Method
query_registry Class.search_plans_query = some handle_search_plans
query_registry Class.get_plan_query = some handle_get_plan
query_registry Class.get_order_query = some handle_get_order
query_registry Class.list_orders_query = some handle_list_orders
query_registry c = none

-- `functools.singledispatch` looks the class of the first argument up, and falls back to the
-- decorated function where no function is registered for it.
abbrev dispatch : {A : Type 0} → (Class → Option Method) → (Method → A) → A → Class → A
dispatch registry call default c = elim (registry c) [ none ↦ default | some m ↦ call m ]

module _ {W : Type 0} (commands : Method → Command → Exec W Reply)
    (queries : Method → Query → Exec W Reply) where
  -- `_handle_command(self, command)`: the first argument is the bus.
  unfoldable pub handle_command : Command → Exec W Reply
  unfolding command_registry class_name class_of_command
  handle_command cmd =
      dispatch command_registry (λ m. commands m cmd)
        (λ w.
          (err (value_error (codes "Unknown command: " ++ class_name (class_of_command cmd))), w))
        Class.message_bus

  unfoldable pub handle_query : Query → Exec W Reply
  unfolding query_registry class_name class_of_query
  handle_query q =
      dispatch query_registry (λ m. queries m q)
        (λ w. (err (value_error (codes "Unknown query: " ++ class_name (class_of_query q))), w))
        Class.message_bus
