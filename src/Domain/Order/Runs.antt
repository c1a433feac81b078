-- ===== src/Domain/Order/Runs.antt =====
-- Any sequence of calls on one order, whose exceptions are caught: what every caller can rely on.
use ticket_genius.Prelude.{
  ℕ, ◌+◌, ◌≡◌, ◌≤◌, refl, Bool, true, false, none, some, List, [], ◌∷◌, ◌++◌, length, arith,
}
use ticket_genius.Prelude.Int.{pos}
use ticket_genius.Prelude.Text.{Text}
use ticket_genius.Domain.SeatId.{Seat}
use ticket_genius.Domain.Values.{Uuid, TicketQuantity, AttendeeInfo}
use ticket_genius.Domain.Money.{Money}
use ticket_genius.Domain.Events.{Event, Envelope, Tickets, order_cancelled, order_confirmed}
use ticket_genius.Domain.Order.{
  Order, OrderStatus, fulfilled, create, reserve_seats, initiate_payment, confirm_payment, fulfill,
  cancel, refund,
}
use ticket_genius.Domain.Order.Machine.{rank}
use ticket_genius.Domain.Order.Laws.{
  Operation, reserving, initiating, confirming, fulfilling, cancelling, apply,
}
use ticket_genius.Domain.Order.Invariant.{IsConsistent, apply-IsConsistent, create-IsConsistent}

unfoldable pub run : List Operation → Order → Order
run [] o = o
run (op ∷ ops) o = run ops (apply op o).1

pub run-IsConsistent :
    (ops : List Operation) (o : Order) → IsConsistent o → IsConsistent (run ops o)
unfolding run
run-IsConsistent [] o h = h
run-IsConsistent (op ∷ ops) o h = run-IsConsistent ops (apply op o).1 (apply-IsConsistent op o h)

-- The events of each kind that an order has raised.
abbrev pub count_cancelled : List Event → ℕ
count_cancelled [] = 0
count_cancelled (e ∷ es) = elim e.body [ order_cancelled o r ↦ 1 | _ ↦ 0 ] + count_cancelled es

abbrev pub count_confirmed : List Event → ℕ
count_confirmed [] = 0
count_confirmed (e ∷ es) = elim e.body [ order_confirmed o t ↦ 1 | _ ↦ 0 ] + count_confirmed es

abbrev pub is_cancelled : OrderStatus → ℕ
is_cancelled OrderStatus.cancelled = 1
is_cancelled s = 0

abbrev pub is_fulfilled : OrderStatus → ℕ
is_fulfilled OrderStatus.fulfilled = 1
is_fulfilled s = 0

count_cancelled-append :
    (es : List Event) (e : Event)
    → count_cancelled (es ++ e ∷ []) ≡ count_cancelled es + count_cancelled (e ∷ [])
count_cancelled-append [] e = omega arith
count_cancelled-append (x ∷ es) e = omega (arith, count_cancelled-append es e)

count_confirmed-append :
    (es : List Event) (e : Event)
    → count_confirmed (es ++ e ∷ []) ≡ count_confirmed es + count_confirmed (e ∷ [])
count_confirmed-append [] e = omega arith
count_confirmed-append (x ∷ es) e = omega (arith, count_confirmed-append es e)

abbrev pub events_of : Order → List Event
events_of o = elim o.domain_events [ none ↦ [] | some es ↦ es ]

-- The order has its event list, which announces a cancellation exactly in the cancelled state,
-- and one confirmation at most, which it does in the fulfilled state and in none before it.
pub record IsAnnounced (o : Order) : Type 0 where
  pub held : o.domain_events ≡ some (events_of o)
  pub cancellations : count_cancelled (events_of o) ≡ is_cancelled o.status
  pub confirmed : is_fulfilled o.status ≤ count_confirmed (events_of o)
  pub unconfirmed : rank o.status ≤ 3 → count_confirmed (events_of o) ≡ 0
  pub once : count_confirmed (events_of o) ≤ 1

abbrev confirmation : Envelope → Tickets → Order → Event
confirmation envelope tickets o = record {
  envelope = envelope;
  body = order_confirmed o.order_id tickets;
}

abbrev cancellation : Envelope → Text → Order → Event
cancellation envelope reason o = record {
  envelope = envelope;
  body = order_cancelled o.order_id reason;
}

apply-IsAnnounced : (op : Operation) (o : Order) → IsAnnounced o → IsAnnounced (apply op o).1
unfolding apply reserve_seats initiate_payment confirm_payment fulfill cancel refund
apply-IsAnnounced (fulfilling envelope tickets) o h = ground (
  arith,
  count_cancelled-append (events_of o) (confirmation envelope tickets o),
  count_confirmed-append (events_of o) (confirmation envelope tickets o),
)
apply-IsAnnounced (cancelling envelope reason) o h = ground (
  arith,
  count_cancelled-append (events_of o) (cancellation envelope reason o),
  count_confirmed-append (events_of o) (cancellation envelope reason o),
)
apply-IsAnnounced _ o h = ground arith

run-IsAnnounced : (ops : List Operation) (o : Order) → IsAnnounced o → IsAnnounced (run ops o)
unfolding run
run-IsAnnounced [] o h = h
run-IsAnnounced (op ∷ ops) o h = run-IsAnnounced ops (apply op o).1 (apply-IsAnnounced op o h)

create-IsAnnounced :
    (order_id : Uuid) (envelope : Envelope) (plan_id : Uuid) (quantity : TicketQuantity)
    (total : Money) (attendee : AttendeeInfo)
    → IsAnnounced (create order_id envelope plan_id quantity total attendee)
unfolding create
create-IsAnnounced order_id envelope plan_id quantity total attendee = ground arith

version_bound : (o : Order) → IsConsistent o → o.version ≤ 6
version_bound o h = ground arith

module _ (order_id : Uuid) (envelope : Envelope) (plan_id : Uuid) (quantity : TicketQuantity)
    (total : Money) (attendee : AttendeeInfo) (ops : List Operation) where
  abbrev reached : Order
  reached = run ops (create order_id envelope plan_id quantity total attendee)

  -- An order made by `Order.create` has, after any calls, its seats and its payment in every
  -- state that rests on them, and a version between 1 and 6.
  pub run-create-IsConsistent : IsConsistent reached × (1 ≤ reached.version) × (reached.version ≤ 6)
  run-create-IsConsistent =
      let h : IsConsistent reached =
        run-IsConsistent ops (create order_id envelope plan_id quantity total attendee)
          (create-IsConsistent order_id envelope plan_id quantity total attendee) in
      (h, h.positive, version_bound reached h)

  -- An order made by `Order.create` has, after any calls of the six methods, one `OrderCancelled` event
  -- if it is cancelled and none if it is not, and at most one `OrderConfirmed`, which is there when it is
  -- fulfilled.
  pub run-create-IsAnnounced : IsAnnounced reached
  run-create-IsAnnounced =
      run-IsAnnounced ops (create order_id envelope plan_id quantity total attendee)
        (create-IsAnnounced order_id envelope plan_id quantity total attendee)

-- The states that no call leaves.
abbrev pub is_final : OrderStatus → Bool
is_final OrderStatus.cancelled = true
is_final OrderStatus.refunded = true
is_final s = false

apply_final : (op : Operation) (o : Order) → is_final o.status ≡ true → (apply op o).1 ≡ o
unfolding apply reserve_seats initiate_payment confirm_payment fulfill cancel refund
apply_final (reserving seats) o h = ground arith
apply_final _ o h = ground arith

-- Nothing changes a cancelled or refunded order.
pub run_final : (ops : List Operation) (o : Order) → is_final o.status ≡ true → run ops o ≡ o
unfolding run
run_final [] o h = refl
run_final (op ∷ ops) o h = rw (apply_final op o h) (run_final ops o h)

-- The calls of a purchase, made in order with as many seats as tickets, fulfil the order: it
-- has the seats and the payment, its version is 5, and it has two events.
pub run_purchase :
    (order_id : Uuid) (envelope delivery : Envelope) (plan_id payment_id : Uuid)
    (quantity : TicketQuantity) (total : Money) (attendee : AttendeeInfo) (seats : List Seat)
    (tickets : Tickets)
    → pos (length seats) ≡ quantity.value
    → let o =
        run
          (reserving seats ∷ initiating payment_id ∷ confirming ∷ fulfilling delivery tickets ∷ [])
          (create order_id envelope plan_id quantity total attendee) in
      (o.status ≡ fulfilled)
      × (o.version ≡ 5)
      × (o.seats ≡ seats)
      × (o.payment_id ≡ some payment_id)
      × (length (events_of o) ≡ 2)
unfolding run create apply reserve_seats initiate_payment confirm_payment fulfill
run_purchase order_id envelope delivery plan_id payment_id quantity total attendee seats tickets h =
    ground arith
