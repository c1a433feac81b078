-- ===== src/Domain/Order.antt =====
-- domain/models.py: `AggregateRoot`, `OrderStatus` and `Order`. A method changes the order in
-- place and may raise; what it wrote before stays written.
pub mod Machine
pub mod Laws
pub mod Invariant
pub mod Runs
use ticket_genius.Prelude.{
  ℕ, ◌+◌, Bool, true, false, not, Option, none, some, List, [], ◌∷◌, ◌++◌, length, if◌then◌else◌,
}
use ticket_genius.Prelude.Int.{ℤ, pos, eqb_ℤ}
use ticket_genius.Prelude.Text.{Text, codes, str_ℕ, str_ℤ}
use ticket_genius.Python.{Exn, ok, err, value_error, attribute_error}
use ticket_genius.Python.Exec.{Exec, raise, ◌>>=◌, ◌>>◌, modify, raise_when}
use ticket_genius.Domain.Money.{Money}
use ticket_genius.Domain.SeatId.{Seat}
use ticket_genius.Domain.Values.{Uuid, TicketQuantity, AttendeeInfo}
use ticket_genius.Domain.Events.{
  Event, Envelope, Tickets, order_created, order_confirmed, order_cancelled,
}

pub data OrderStatus : Type 0 where
  pending seats_reserved payment_initiated paid fulfilled cancelled refunded : OrderStatus

-- `domain_events` is `none` where the attribute `_domain_events` was never set: only
-- `__post_init__` sets it, which runs in a constructor call and not when a mapper loads a row.
pub record Order : Type 0 where
  pub order_id : Uuid
  pub plan_id : Uuid
  pub quantity : TicketQuantity
  pub total_amount : Money
  pub attendee_info : AttendeeInfo
  pub status : OrderStatus
  pub payment_id : Option Uuid
  pub seats : List Seat
  pub version : ℕ
  pub domain_events : Option (List Event)

-- The value of a member, which is what the database and the responses show.
unfoldable pub status_value : OrderStatus → Text
status_value OrderStatus.pending = codes "PENDING"
status_value OrderStatus.seats_reserved = codes "SEATS_RESERVED"
status_value OrderStatus.payment_initiated = codes "PAYMENT_INITIATED"
status_value OrderStatus.paid = codes "PAID"
status_value OrderStatus.fulfilled = codes "FULFILLED"
status_value OrderStatus.cancelled = codes "CANCELLED"
status_value OrderStatus.refunded = codes "REFUNDED"

-- An f-string shows a member by its qualified name.
unfoldable pub status_error : Text → OrderStatus → Exn
unfolding status_value
status_error what s =
    value_error (codes "Cannot " ++ (what ++ (codes " in status OrderStatus." ++ status_value s)))

-- `==` on the members
abbrev pub status_eq : OrderStatus → OrderStatus → Bool
status_eq OrderStatus.pending OrderStatus.pending = true
status_eq OrderStatus.seats_reserved OrderStatus.seats_reserved = true
status_eq OrderStatus.payment_initiated OrderStatus.payment_initiated = true
status_eq OrderStatus.paid OrderStatus.paid = true
status_eq OrderStatus.fulfilled OrderStatus.fulfilled = true
status_eq OrderStatus.cancelled OrderStatus.cancelled = true
status_eq OrderStatus.refunded OrderStatus.refunded = true
status_eq a b = false

-- `self.status not in (...)`
abbrev pub may_cancel : OrderStatus → Bool
may_cancel OrderStatus.pending = true
may_cancel OrderStatus.seats_reserved = true
may_cancel OrderStatus.payment_initiated = true
may_cancel s = false

abbrev pub may_refund : OrderStatus → Bool
may_refund OrderStatus.paid = true
may_refund OrderStatus.fulfilled = true
may_refund s = false

-- `AggregateRoot.add_domain_event`
unfoldable pub add_domain_event : Event → Exec Order (Unit {0})
add_domain_event e o = elim o.domain_events [
  | none ↦ (err (attribute_error (codes "'Order' object has no attribute '_domain_events'")), o)
  | some es ↦ (ok tt, record o { domain_events = some (es ++ e ∷ []) })
]

-- `AggregateRoot.clear_domain_events`, behind a `hasattr` test in its only caller
unfoldable pub clear_domain_events : Order → Order
clear_domain_events o = elim o.domain_events [
  | none ↦ o
  | some es ↦ record o { domain_events = some [] }
]

-- `Order.create`: `order_id` is the new `uuid4()`.
unfoldable pub create : Uuid → Envelope → Uuid → TicketQuantity → Money → AttendeeInfo → Order
create order_id envelope plan_id quantity total attendee = record {
  order_id = order_id;
  plan_id = plan_id;
  quantity = quantity;
  total_amount = total;
  attendee_info = attendee;
  status = OrderStatus.pending;
  payment_id = none;
  seats = [];
  version = 1;
  domain_events = some (
      record {
        envelope = envelope;
        body = order_created (record {
          order_id = order_id;
          plan_id = plan_id;
          quantity = quantity.value;
          total_amount = total;
          attendee_name = attendee.name;
          attendee_email = attendee.email;
          attendee_phone = attendee.phone;
        });
      }
      ∷ []);
}

abbrev enter : OrderStatus → Order → Order
enter s o = record o { status = s; version = o.version + 1 }

unfoldable pub seat_count_error : Order → List Seat → Exn
seat_count_error o seats = value_error (
    codes "Expected " ++ (str_ℤ o.quantity.value ++ (codes " seats, got " ++ str_ℕ (length seats))))

unfoldable pub reserve_seats : List Seat → Exec Order (Unit {0})
reserve_seats seats o =
    if not (status_eq o.status OrderStatus.pending)
    then (err (status_error (codes "reserve seats") o.status), o)
    else if not (eqb_ℤ (pos (length seats)) o.quantity.value)
    then (err (seat_count_error o seats), o)
    else (ok tt, enter OrderStatus.seats_reserved (record o { seats = seats }))

unfoldable pub initiate_payment : Uuid → Exec Order (Unit {0})
initiate_payment payment_id o =
    if not (status_eq o.status OrderStatus.seats_reserved)
    then (err (status_error (codes "initiate payment") o.status), o)
    else (ok tt, enter OrderStatus.payment_initiated (record o { payment_id = some payment_id }))

unfoldable pub confirm_payment : Exec Order (Unit {0})
confirm_payment o =
    if not (status_eq o.status OrderStatus.payment_initiated)
    then (err (status_error (codes "confirm payment") o.status), o)
    else (ok tt, enter OrderStatus.paid o)

unfoldable pub fulfill : Envelope → Tickets → Exec Order (Unit {0})
unfolding add_domain_event
fulfill envelope tickets o =
    if not (status_eq o.status OrderStatus.paid)
    then (err (status_error (codes "fulfill") o.status), o)
    else add_domain_event
        (record { envelope = envelope; body = order_confirmed o.order_id tickets })
        (enter OrderStatus.fulfilled o)

unfoldable pub cancel : Envelope → Text → Exec Order (Unit {0})
unfolding add_domain_event
cancel envelope reason o =
    if not (may_cancel o.status)
    then (err (status_error (codes "cancel") o.status), o)
    else add_domain_event (record { envelope = envelope; body = order_cancelled o.order_id reason })
        (enter OrderStatus.cancelled o)

unfoldable pub refund : Exec Order (Unit {0})
refund o =
    if not (may_refund o.status)
    then (err (status_error (codes "refund") o.status), o)
    else (ok tt, enter OrderStatus.refunded o)
