-- ===== src/Handlers.antt =====
-- service_layer/handlers.py: the handlers of the order commands, with service_layer/commands.py.
-- They work on the Redis client, the unit of work and the payment adapter's intents. Random ids
-- and times come from outside.
pub mod Commands
pub mod Steps
pub mod Laws
pub mod Outcomes
pub mod Sync
pub mod Queries
use ticket_genius.Prelude.{
  ℕ, ◌-◌, Bool, true, false, not, Option, none, some, List, [], ◌∷◌, ◌++◌, length, is_empty,
  if◌then◌else◌,
}
use ticket_genius.Prelude.Int.{ℤ, pos, pos_part, eqb_ℤ}
use ticket_genius.Prelude.Text.{Text, codes, text_eq}
use ticket_genius.Prelude.Dict.{Dict, lookup}
use ticket_genius.Python.{Result, ok, err, domain_error, attribute_error}
use ticket_genius.Python.Exec.{Exec, ◌>>=◌, ◌>>◌, pure, lift, or_raise, raise_when}
use ticket_genius.Python.Std.{Std}
use ticket_genius.Domain.Exceptions.{
  plan_not_found, order_not_found, payment_not_found, seat_mismatch, insufficient_inventory,
  idempotency_key_used, payment_declined,
}
use ticket_genius.Domain.Money
use ticket_genius.Domain.Money.{Money, eur}
use ticket_genius.Domain.SeatId.{Seat, SeatId}
use ticket_genius.Domain.Values.{Uuid, TicketQuantity, make_quantity}
use ticket_genius.Domain.Events.{Envelope}
use ticket_genius.Domain.Order
use ticket_genius.Domain.Order.{Order}
use ticket_genius.Domain.Payment
use ticket_genius.Domain.Payment.{Payment}
use ticket_genius.Domain.Plan.{Plan, calculate_total_for_seats}
use ticket_genius.Redis.{Redis}
use ticket_genius.SeatHolds.{release_seat_holds, check_payment_idempotency}
use ticket_genius.PaymentSimulator.{PaymentIntent, Intents, create_payment_intent}
use ticket_genius.PaymentSimulator
use ticket_genius.Ticketmaster.Commerce.{acquire_seat_holds}
use ticket_genius.Fulfillment.{fulfill, seat_labels}
use ticket_genius.UnitOfWork.{Session, UnitOfWork, exit_ok, exit_raised}
use ticket_genius.Handlers.Steps.{
  World, get_order, get_plan, get_payment, save_order, save_payment, on_order, on_payment, release,
  in_uow, with_session,
}
use ticket_genius.Handlers.Commands.{
  CreateOrderCommand, ConfirmPaymentCommand, CancelOrderCommand, RefundOrderCommand,
  OrderCreatedResult, PaymentConfirmedResult, Fresh,
}

-- `_parse_seats`: a `SeatId` has no method `to_seat`.
unfoldable pub parse_seats : Option (List SeatId) → Result (List Seat)
parse_seats none = ok []
parse_seats (some []) = ok []
parse_seats (some (i ∷ is)) =
    err (attribute_error (codes "'SeatId' object has no attribute 'to_seat'"))

-- `_calculate_total`
unfoldable pub calculate_total : Plan → List Seat → ℤ → Result Money
calculate_total plan [] quantity = Money.mul plan.min_price quantity
calculate_total plan (seat ∷ seats) quantity = calculate_total_for_seats plan (seat ∷ seats)

-- `intent.metadata.get("failure_reason", "Payment failed")`, and `get("captured_at", "")`
abbrev or_text : Text → Option Text → Text
or_text default none = default
or_text default (some t) = t

unfoldable pub failure_reason : PaymentIntent → Text
failure_reason i = or_text (codes "Payment failed") (lookup (codes "failure_reason") i.metadata)

unfoldable pub captured_at : PaymentIntent → Text
captured_at i = or_text [] (lookup (codes "captured_at") i.metadata)

-- `getattr(cmd, "idempotency_key", None) or f"payment_{payment.payment_id}"`
unfoldable pub payment_key : Text → Uuid → Text
payment_key key payment_id = if is_empty key then codes "payment_" ++ payment_id else key

module _ (R : Redis) (std : Std) (S : Session) where
  -- `handle_cancel_order`
  cancel_body : Envelope → CancelOrderCommand → Exec (World R std S) (Unit {0})
  cancel_body envelope cmd = do
    o ← get_order R std S cmd.order_id
    release R std S o
    o' ← on_order R std S (Order.cancel envelope cmd.reason) o
    save_order R std S o'

  unfoldable pub handle_cancel_order :
      Envelope → CancelOrderCommand → Exec (World R std S) (Unit {0})
  unfolding in_uow cancel_body
  handle_cancel_order envelope cmd = in_uow R std S (cancel_body envelope cmd)

  -- `handle_refund_order`: an amount that is given counts as true.
  refund_body : RefundOrderCommand → Exec (World R std S) (Unit {0})
  refund_body cmd = do
    o ← get_order R std S cmd.order_id
    p ← get_payment R std S cmd.order_id
    p' ← on_payment R std S (Payment.refund cmd.amount) p
    o' ← on_order R std S Order.refund o
    save_order R std S o'
    save_payment R std S p'

  unfoldable pub handle_refund_order : RefundOrderCommand → Exec (World R std S) (Unit {0})
  unfolding in_uow refund_body
  handle_refund_order cmd = in_uow R std S (refund_body cmd)

  -- A method call on an order that the session does not have yet.
  abbrev on_new : Exec Order (Unit {0}) → Order → Exec (World R std S) Order
  on_new method o w = let (r, o') = method o in (elim r [ err e ↦ err e | ok _ ↦ ok o' ], w)

  -- `_validate_seat_count`
  abbrev validate_seat_count : TicketQuantity → List Seat → Exec (World R std S) (Unit {0})
  validate_seat_count quantity seats =
      raise_when (not (eqb_ℤ (pos (length seats)) quantity.value))
        (domain_error (seat_mismatch (pos_part quantity.value) (length seats)))

  -- `_acquire_seat_holds`
  abbrev acquire : Uuid → List Seat → Uuid → Exec (World R std S) (Unit {0})
  acquire plan_id seats order_id w =
      let (won, client) = acquire_seat_holds R std plan_id (seat_labels seats) order_id w.redis in
      (
        if won
            then ok tt
            else err
                (domain_error (insufficient_inventory plan_id (length seats) (length seats - 1))),
        record w { redis = client },
      )

  -- the branch `if seats:`
  reserve_for : TicketQuantity → List Seat → Order → Exec (World R std S) Order
  reserve_for quantity [] o = pure o
  reserve_for quantity (seat ∷ seats) o = do
    validate_seat_count quantity (seat ∷ seats)
    acquire o.plan_id (seat ∷ seats) o.order_id
    on_new (Order.reserve_seats (seat ∷ seats)) o

  -- the call of the payment adapter in `_create_payment_and_intent`
  abbrev request_intent : Fresh → Money → Uuid → Exec (World R std S) PaymentIntent
  request_intent fresh total order_id w =
      let (i, intents) =
        create_payment_intent fresh.intent_hex fresh.secret_hex total eur
          (some ((codes "order_id", order_id) ∷ [])) w.intents in
      (ok i, record w { intents = intents })

  create_body : Fresh → CreateOrderCommand → Exec (World R std S) OrderCreatedResult
  unfolding reserve_for
  create_body fresh cmd = do
    plan ← get_plan R std S cmd.plan_id
    seats ← lift (parse_seats cmd.seat_ids)
    quantity ← lift (make_quantity cmd.quantity)
    total ← lift (calculate_total plan seats cmd.quantity)
    order ←
        reserve_for quantity seats
          (Order.create fresh.order_id fresh.envelope cmd.plan_id quantity total cmd.attendee_info)
    intent ← request_intent fresh total order.order_id
    initiated ← on_new (Order.initiate_payment fresh.payment_id) order
    save_order R std S initiated
    save_payment R std S
        (record (Payment.create fresh.payment_id order.order_id total (codes "simulated") []) {
          intent_id = some intent.id;
        })
    pure (record {
      order_id = initiated.order_id;
      payment_intent_id = intent.id;
      client_secret = intent.client_secret;
      status = initiated.status;
    })

  unfoldable pub handle_create_order :
      Fresh → CreateOrderCommand → Exec (World R std S) OrderCreatedResult
  unfolding in_uow create_body
  handle_create_order fresh cmd = in_uow R std S (create_body fresh cmd)

  abbrev check_key : Uuid → Text → Exec (World R std S) (Unit {0})
  check_key payment_id key w =
      let (first, client) = check_payment_idempotency R payment_id key w.redis in
      (
        if first then ok tt else err (domain_error (idempotency_key_used key)),
        record w { redis = client },
      )

  abbrev confirm_intent : ℕ → Text → Exec (World R std S) PaymentIntent
  confirm_intent now intent_id w =
      let (r, intents) =
        PaymentSimulator.confirm_payment now intent_id (codes "pm_card_visa") w.intents in
      (r, record w { intents = intents })

  abbrev fulfill_order : ℕ → Envelope → Plan → Order → Exec (World R std S) Order
  fulfill_order now envelope plan o w =
      let (r, (client, o')) = fulfill R std now envelope plan (w.redis, o) in
      (
        elim r [ err e ↦ err e | ok _ ↦ ok o' ],
        with_session R std S (S.put_order o') (record w { redis = client }),
      )

  -- the branch of an intent that did not succeed
  abbrev decline : Order → Payment → PaymentIntent → Exec (World R std S) PaymentConfirmedResult
  decline o p i = do
    _ ← on_payment R std S (Payment.fail (failure_reason i)) p
    release R std S o
    lift (err (domain_error (payment_declined p.payment_id (failure_reason i))))

  abbrev take_payment :
      ℕ → Envelope → Order → Payment → PaymentIntent → Exec (World R std S) PaymentConfirmedResult
  take_payment now envelope o p i = do
    p' ← on_payment R std S (Payment.capture (captured_at i)) p
    o' ← on_order R std S Order.confirm_payment o
    plan ← get_plan R std S o'.plan_id
    done ← fulfill_order now envelope plan o'
    pure (record {
      order_id = done.order_id;
      payment_id = p'.payment_id;
      status = done.status;
      provider_ref = or_text [] p'.provider_ref;
    })

  confirm_body : ℕ → Envelope → ConfirmPaymentCommand → Exec (World R std S) PaymentConfirmedResult
  confirm_body now envelope cmd = do
    o ← get_order R std S cmd.order_id
    p ← get_payment R std S cmd.order_id
    check_key p.payment_id (payment_key cmd.idempotency_key p.payment_id)
    i ← confirm_intent now cmd.payment_intent_id
    elim (text_eq i.status (codes "succeeded")) [
      | true ↦ take_payment now envelope o p i
      | false ↦ decline o p i
    ]

  unfoldable pub handle_confirm_payment :
      ℕ → Envelope → ConfirmPaymentCommand → Exec (World R std S) PaymentConfirmedResult
  unfolding in_uow confirm_body
  handle_confirm_payment now envelope cmd = in_uow R std S (confirm_body now envelope cmd)
