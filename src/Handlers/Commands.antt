-- ===== src/Handlers/Commands.antt =====
-- service_layer/commands.py: the commands of the order handlers and their results.
use ticket_genius.Prelude.{Option, List}
use ticket_genius.Prelude.Int.{ℤ}
use ticket_genius.Prelude.Text.{Text}
use ticket_genius.Domain.Money.{Money}
use ticket_genius.Domain.SeatId.{SeatId}
use ticket_genius.Domain.Values.{Uuid, AttendeeInfo}
use ticket_genius.Domain.Events.{Envelope}
use ticket_genius.Domain.Order.{OrderStatus}

pub record CreateOrderCommand : Type 0 where
  pub plan_id : Uuid
  pub quantity : ℤ
  pub attendee_info : AttendeeInfo
  pub seat_ids : Option (List SeatId)

pub record ConfirmPaymentCommand : Type 0 where
  pub order_id : Uuid
  pub payment_intent_id : Text
  pub idempotency_key : Text

pub record CancelOrderCommand : Type 0 where
  pub order_id : Uuid
  pub reason : Text

-- The handler does not read the reason of a refund.
pub record RefundOrderCommand : Type 0 where
  pub order_id : Uuid
  pub amount : Option Money

pub record OrderCreatedResult : Type 0 where
  pub order_id : Uuid
  pub payment_intent_id : Text
  pub client_secret : Text
  pub status : OrderStatus

pub record PaymentConfirmedResult : Type 0 where
  pub order_id : Uuid
  pub payment_id : Uuid
  pub status : OrderStatus
  pub provider_ref : Text

-- The random ids and texts that creating an order draws.
pub record Fresh : Type 0 where
  pub order_id : Uuid
  pub payment_id : Uuid
  pub intent_hex : Text
  pub secret_hex : Text
  pub envelope : Envelope
