-- ===== src/Domain/Events.antt =====
-- domain/events.py: the event classes. The defaults of the envelope, a random id and the time,
-- come from outside, so the code that makes an event takes its envelope.
use ticket_genius.Prelude.{Option}
use ticket_genius.Prelude.Int.{ℤ}
use ticket_genius.Prelude.Text.{Text, codes}
use ticket_genius.Python.Json.{Json}
use ticket_genius.Domain.Money.{Money}
use ticket_genius.Domain.Values.{Uuid, Datetime}

pub record Envelope : Type 0 where
  pub event_id : Uuid
  pub occurred_at : Datetime
  pub correlation_id : Option Uuid
  pub causation_id : Option Uuid

-- The tickets of a confirmed order: a JSON list of dicts.
abbrev pub Tickets : Type 0
Tickets = Json

pub record OrderCreated : Type 0 where
  pub order_id : Uuid
  pub plan_id : Uuid
  pub quantity : ℤ
  pub total_amount : Money
  pub attendee_name : Text
  pub attendee_email : Text
  pub attendee_phone : Option Text

pub data EventBody : Type 0 where
  order_created : OrderCreated → EventBody
  -- order, payment, provider, intent
  payment_initiated : Uuid → Uuid → Text → Text → EventBody
  -- order, payment, provider reference
  payment_confirmed : Uuid → Uuid → Text → EventBody
  -- order, payment, reason
  payment_failed : Uuid → Uuid → Text → EventBody
  order_confirmed : Uuid → Tickets → EventBody
  order_cancelled : Uuid → Text → EventBody

pub record Event : Type 0 where
  pub envelope : Envelope
  pub body : EventBody

-- `type(event).__name__`
unfoldable pub event_type : Event → Text
event_type e = elim e.body [
  | order_created c ↦ codes "OrderCreated"
  | payment_initiated o p v i ↦ codes "PaymentInitiated"
  | payment_confirmed o p r ↦ codes "PaymentConfirmed"
  | payment_failed o p r ↦ codes "PaymentFailed"
  | order_confirmed o t ↦ codes "OrderConfirmed"
  | order_cancelled o r ↦ codes "OrderCancelled"
]
