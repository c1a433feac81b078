-- ===== src/Domain/Order/Invariant.antt =====
-- What the state of an order says of its seats, its payment and its version, whatever calls
-- were made and however they ended.
use ticket_genius.Prelude.{◌+◌, ◌≡◌, ◌≤◌, Bool, true, false, length, arith, is_some, is_empty}
use ticket_genius.Prelude.Int.{pos}
use ticket_genius.Domain.Order.{
  Order, OrderStatus, pending, create, reserve_seats, initiate_payment, confirm_payment, fulfill,
  cancel, refund,
}
use ticket_genius.Domain.Order.Machine.{rank}
use ticket_genius.Domain.Order.Laws.{Operation, reserving, apply}
use ticket_genius.Domain.Values.{Uuid, TicketQuantity, AttendeeInfo}
use ticket_genius.Domain.Events.{Envelope}
use ticket_genius.Domain.Money.{Money}

-- The states that only an order with its seats is in, and those with a payment.
abbrev pub has_seats : OrderStatus → Bool
has_seats OrderStatus.pending = false
has_seats OrderStatus.cancelled = false
has_seats s = true

abbrev pub has_payment : OrderStatus → Bool
has_payment OrderStatus.payment_initiated = true
has_payment OrderStatus.paid = true
has_payment OrderStatus.fulfilled = true
has_payment OrderStatus.refunded = true
has_payment s = false

pub record IsConsistent (o : Order) : Type 0 where
  pub seated : has_seats o.status ≡ true → pos (length o.seats) ≡ o.quantity.value
  pub unseated : o.status ≡ pending → is_empty o.seats ≡ true
  pub payable : has_payment o.status ≡ true → is_some o.payment_id ≡ true
  pub unpaid : o.status ≡ pending → is_some o.payment_id ≡ false
  -- a version counts the steps since the creation, and no path has more than five
  pub counted : o.version ≤ rank o.status + 1
  pub positive : 1 ≤ o.version

pub create-IsConsistent :
    (order_id : Uuid) (envelope : Envelope) (plan_id : Uuid) (quantity : TicketQuantity)
    (total : Money) (attendee : AttendeeInfo)
    → IsConsistent (create order_id envelope plan_id quantity total attendee)
unfolding create
create-IsConsistent order_id envelope plan_id quantity total attendee = ground arith

-- Every call keeps the order consistent, also one that raises, and also on an order without an
-- event list.
pub apply-IsConsistent : (op : Operation) (o : Order) → IsConsistent o → IsConsistent (apply op o).1
unfolding apply reserve_seats initiate_payment confirm_payment fulfill cancel refund
apply-IsConsistent (reserving seats) o h = ground arith
apply-IsConsistent _ o h = ground arith
