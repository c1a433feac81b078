-- ===== src/Entrypoints/Schemas.antt =====
-- entrypoints/schemas.py: the requests and the body of an error. What pydantic makes of a JSON
-- value, and of a result for a response, is a parameter.
use ticket_genius.Prelude.{ℕ, Option, List}
use ticket_genius.Prelude.Int.{ℤ}
use ticket_genius.Prelude.Text.{Text}
use ticket_genius.Python.{Result}
use ticket_genius.Python.Json.{Json, Fields}
use ticket_genius.Domain.Decimal.{Decimal}
use ticket_genius.Domain.Values.{Uuid}
use ticket_genius.MessageBus.{Reply}

pub record MoneySchema : Type 0 where
  pub amount : Decimal
  pub currency : Text

-- `attendee_info` is kept as `model_dump` gives it.
pub record CreateOrderRequest : Type 0 where
  pub plan_id : Uuid
  pub quantity : ℤ
  pub attendee_info : Fields
  pub seat_ids : Option (List Text)

pub record ConfirmPaymentRequest : Type 0 where
  pub payment_intent_id : Text
  pub idempotency_key : Text

pub record CancelOrderRequest : Type 0 where
  pub reason : Text

pub record RefundOrderRequest : Type 0 where
  pub amount : Option MoneySchema
  pub reason : Text

pub record SearchPlansRequest : Type 0 where
  pub query : Option Text
  pub lat : Option Decimal
  pub lon : Option Decimal
  pub radius_km : Option ℤ
  pub date_from : Option Text
  pub date_to : Option Text
  pub min_price : Option Decimal
  pub max_price : Option Decimal
  pub cursor : Option Text
  pub limit : ℤ

pub record ErrorResponse : Type 0 where
  pub type_ : Text
  pub title : Text
  pub status : ℕ
  pub detail : Text
  pub instance_ : Option Text

-- `model_validate` of each request, and `model_validate(result).model_dump()` of a response. A
-- value that does not fit raises a `ValueError`.
pub record Pydantic : Type 0 where
  pub create_order_request : Json → Result CreateOrderRequest
  pub confirm_payment_request : Json → Result ConfirmPaymentRequest
  pub cancel_order_request : Json → Result CancelOrderRequest
  pub refund_order_request : Json → Result RefundOrderRequest
  pub search_plans_request : Json → Result SearchPlansRequest
  pub dump : Reply → Result Json
