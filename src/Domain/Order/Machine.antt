-- ===== src/Domain/Order/Machine.antt =====
-- The order's state machine, as the transitions that CONTEXT.md draws, and what an operation of
-- the aggregate must do to follow it.
use ticket_genius.Prelude.{ℕ, ◌<◌, arith}
use ticket_genius.Domain.Order.{
  OrderStatus, pending, seats_reserved, payment_initiated, paid, fulfilled, cancelled, refunded,
}

pub data Transition : OrderStatus → OrderStatus → Type 0 where
  reserve : Transition pending seats_reserved
  initiate : Transition seats_reserved payment_initiated
  confirm : Transition payment_initiated paid
  deliver : Transition paid fulfilled
  cancel_pending : Transition pending cancelled
  cancel_reserved : Transition seats_reserved cancelled
  cancel_initiated : Transition payment_initiated cancelled
  refund_paid : Transition paid refunded
  refund_fulfilled : Transition fulfilled refunded

-- The length of the longest path to a state.
abbrev pub rank : OrderStatus → ℕ
rank OrderStatus.pending = 0
rank OrderStatus.seats_reserved = 1
rank OrderStatus.payment_initiated = 2
rank OrderStatus.paid = 3
rank OrderStatus.fulfilled = 4
rank OrderStatus.cancelled = 3
rank OrderStatus.refunded = 5

pub Transition-rank : {s t : OrderStatus} → Transition s t → rank s < rank t
Transition-rank reserve = omega arith
Transition-rank initiate = omega arith
Transition-rank confirm = omega arith
Transition-rank deliver = omega arith
Transition-rank cancel_pending = omega arith
Transition-rank cancel_reserved = omega arith
Transition-rank cancel_initiated = omega arith
Transition-rank refund_paid = omega arith
Transition-rank refund_fulfilled = omega arith
