-- ===== src/Domain/Order/Laws.antt =====
-- One operation of `Order`: it follows the state machine or raises, and keeps the order
-- consistent.
use ticket_genius.Prelude.{◌⊎◌, ◌+◌, ◌≡◌, true, false, none, some, List, [], length, arith}
use ticket_genius.Prelude.Int.{pos}
use ticket_genius.Prelude.Text.{Text}
use ticket_genius.Python.{Result, ok, err, is_ok}
use ticket_genius.Python.Json.{arr, nil}
use ticket_genius.Python.Exec.{Exec}
use ticket_genius.Domain.SeatId.{Seat}
use ticket_genius.Domain.Values.{Uuid}
use ticket_genius.Domain.Events.{Event, Envelope, Tickets}
use ticket_genius.Domain.Order.{
  Order, OrderStatus, pending, seats_reserved, payment_initiated, paid, fulfilled, cancelled,
  refunded, reserve_seats, initiate_payment, confirm_payment, fulfill, cancel, refund, status_eq,
  may_cancel, may_refund,
}
use ticket_genius.Domain.Order.Machine.{
  Transition, reserve, initiate, confirm, deliver, cancel_pending, cancel_reserved,
  cancel_initiated, refund_paid, refund_fulfilled,
}

-- A call of one of the methods.
pub data Operation : Type 0 where
  reserving : List Seat → Operation
  initiating : Uuid → Operation
  confirming : Operation
  fulfilling : Envelope → Tickets → Operation
  cancelling : Envelope → Text → Operation
  refunding : Operation

unfoldable pub apply : Operation → Exec Order (Unit {0})
apply (reserving seats) = reserve_seats seats
apply (initiating payment_id) = initiate_payment payment_id
apply confirming = confirm_payment
apply (fulfilling envelope tickets) = fulfill envelope tickets
apply (cancelling envelope reason) = cancel envelope reason
apply refunding = refund

-- How a call may end: by a transition that raises the version by one, or by an exception that
-- leaves the order alone.
abbrev pub Follows : Order → Result (Unit {0}) × Order → Type 0
Follows o (ok _, o') = Transition o.status o'.status × (o'.version ≡ o.version + 1)
Follows o (err _, o') = o' ≡ o

-- The transition behind each passed test.
pending_reserve : (s : OrderStatus) → status_eq s pending ≡ true → Transition s seats_reserved
pending_reserve OrderStatus.pending e = reserve
pending_reserve s e = cc

reserved_initiate :
    (s : OrderStatus) → status_eq s seats_reserved ≡ true → Transition s payment_initiated
reserved_initiate OrderStatus.seats_reserved e = initiate
reserved_initiate s e = cc

initiated_confirm : (s : OrderStatus) → status_eq s payment_initiated ≡ true → Transition s paid
initiated_confirm OrderStatus.payment_initiated e = confirm
initiated_confirm s e = cc

paid_deliver : (s : OrderStatus) → status_eq s paid ≡ true → Transition s fulfilled
paid_deliver OrderStatus.paid e = deliver
paid_deliver s e = cc

may_cancel-Transition : (s : OrderStatus) → may_cancel s ≡ true → Transition s cancelled
may_cancel-Transition OrderStatus.pending e = cancel_pending
may_cancel-Transition OrderStatus.seats_reserved e = cancel_reserved
may_cancel-Transition OrderStatus.payment_initiated e = cancel_initiated
may_cancel-Transition s e = cc

may_refund-Transition : (s : OrderStatus) → may_refund s ≡ true → Transition s refunded
may_refund-Transition OrderStatus.paid e = refund_paid
may_refund-Transition OrderStatus.fulfilled e = refund_fulfilled
may_refund-Transition s e = cc

-- How a call on any order may end. One that raises may have written the status and the version of
-- an order without an event list.
abbrev pub Ends : Order → Result (Unit {0}) × Order → Type 0
Ends o (ok _, o') = Transition o.status o'.status × (o'.version ≡ o.version + 1)
Ends o (err _, o') =
    (o' ≡ o)
    ⊎ ((o.domain_events ≡ none)
        × Transition o.status o'.status
        × (o' ≡ record o { status = o'.status; version = o.version + 1 }))

-- On every order, whether it holds an event list or was loaded without one, a call that returns
-- took one transition of the state machine and raised the version by one. A call that raises left
-- the order as it was, or the order holds no event list and the call wrote the status of a
-- transition and the version raised by one, and nothing else.
pub apply-Ends : (op : Operation) (o : Order) → Ends o (apply op o)
unfolding apply reserve_seats initiate_payment confirm_payment fulfill cancel refund
apply-Ends (reserving seats) o = ground (arith, pending_reserve o.status)
apply-Ends (initiating payment_id) o = ground (arith, reserved_initiate o.status)
apply-Ends confirming o = ground (arith, initiated_confirm o.status)
apply-Ends (fulfilling envelope tickets) o = ground (arith, paid_deliver o.status)
apply-Ends (cancelling envelope reason) o = ground (arith, may_cancel-Transition o.status)
apply-Ends refunding o = ground (arith, may_refund-Transition o.status)

-- An order that holds an event list, as one made by `Order.create` does: every call either
-- takes one transition of the state machine and raises the version by one, or raises and leaves
-- the order as it was.
pub apply-Follows :
    (op : Operation) (o : Order) {es : List Event}
    → o.domain_events ≡ some es
    → Follows o (apply op o)
unfolding apply reserve_seats initiate_payment confirm_payment fulfill cancel refund
apply-Follows (reserving seats) o live = ground (arith, pending_reserve o.status)
apply-Follows (initiating payment_id) o live = ground (arith, reserved_initiate o.status)
apply-Follows confirming o live = ground (arith, initiated_confirm o.status)
apply-Follows (fulfilling envelope tickets) o live = ground (arith, paid_deliver o.status)
apply-Follows (cancelling envelope reason) o live = ground (arith, may_cancel-Transition o.status)
apply-Follows refunding o live = ground (arith, may_refund-Transition o.status)

-- The call that a transition stands for, with seats, a payment and an envelope to hand.
abbrev pub call_of : {s t : OrderStatus} → List Seat → Uuid → Envelope → Transition s t → Operation
call_of seats payment_id envelope reserve = reserving seats
call_of seats payment_id envelope initiate = initiating payment_id
call_of seats payment_id envelope confirm = confirming
call_of seats payment_id envelope deliver = fulfilling envelope (arr nil)
call_of seats payment_id envelope cancel_pending = cancelling envelope []
call_of seats payment_id envelope cancel_reserved = cancelling envelope []
call_of seats payment_id envelope cancel_initiated = cancelling envelope []
call_of seats payment_id envelope refund_paid = refunding
call_of seats payment_id envelope refund_fulfilled = refunding

-- Every transition of the state machine is taken by a call, from any order in its source state
-- that holds an event list, where as many seats are at hand as the order asks for.
pub Transition-apply :
    {s t : OrderStatus} (step : Transition s t) (o : Order) {es : List Event} (seats : List Seat)
    (payment_id : Uuid) (envelope : Envelope)
    → o.domain_events ≡ some es
    → o.status ≡ s
    → o.quantity.value ≡ pos (length seats)
    → let (r, o') = apply (call_of seats payment_id envelope step) o in
      (r ≡ ok tt) × (o'.status ≡ t)
unfolding apply reserve_seats initiate_payment confirm_payment fulfill cancel refund
Transition-apply reserve o seats payment_id envelope live at count = ground arith
Transition-apply initiate o seats payment_id envelope live at count = ground arith
Transition-apply _ o seats payment_id envelope live at count = ground arith

-- Cancelling an order without an event list, as a mapper loads it, in a status that allows it
-- raises, after the status and the version are written.
pub cancel_loaded :
    (envelope : Envelope) (reason : Text) (o : Order)
    → o.domain_events ≡ none
    → may_cancel o.status ≡ true
    → let (r, o') = cancel envelope reason o in
      (is_ok r ≡ false) × (o'.status ≡ cancelled) × (o'.version ≡ o.version + 1)
unfolding cancel
cancel_loaded envelope reason o absent allowed = ground arith
