-- ===== src/Handlers/Outcomes.antt =====
-- How the order commands end.
use ticket_genius.Prelude.{◌≡◌, refl, false, Option, none, some, arith}
use ticket_genius.Python.{Exn, Result, ok, err, is_ok}
use ticket_genius.Python.Std.{Std}
use ticket_genius.Domain.Order
use ticket_genius.Domain.Order.{Order}
use ticket_genius.Domain.Events.{Envelope}
use ticket_genius.Redis.{Redis}
use ticket_genius.UnitOfWork.{Session}
use ticket_genius.Handlers.Commands.{CreateOrderCommand, CancelOrderCommand, Fresh}
use ticket_genius.Handlers.Laws.{handle, cancelling, handle_atomic}
use ticket_genius.Handlers.Steps.{World, in_uow}
use ticket_genius.Handlers.{
  parse_seats, handle_create_order, handle_cancel_order, create_body, reserve_for, cancel_body,
}

module _ (R : Redis) (std : Std) (S : Session) where
  create_body_raises :
      (fresh : Fresh) (cmd : CreateOrderCommand) (w : World R std S)
      → is_ok (create_body R std S fresh cmd w).0 ≡ false
  unfolding create_body parse_seats Order.create Order.initiate_payment reserve_for
  create_body_raises fresh cmd w = ground arith

  -- Creating an order never succeeds: whatever the plan, the quantity and the seats asked for, the
  -- command raises.
  pub create_never_succeeds :
      (fresh : Fresh) (cmd : CreateOrderCommand) (w : World R std S)
      → is_ok (handle_create_order R std S fresh cmd w).0 ≡ false
  unfolding handle_create_order in_uow
  create_never_succeeds fresh cmd w = ground (arith, create_body_raises fresh cmd w)

  cancel_body_raises :
      (envelope : Envelope) (cmd : CancelOrderCommand) (w : World R std S)
      → ((o : Order)
          → S.get_order cmd.order_id w.uow.session ≡ ok (some o)
          → o.domain_events ≡ none)
      → is_ok (cancel_body R std S envelope cmd w).0 ≡ false
  unfolding cancel_body Order.cancel
  cancel_body_raises envelope cmd w loaded = go (S.get_order cmd.order_id w.uow.session) refl
    where
      go :
          (r : Result (Option Order))
          → S.get_order cmd.order_id w.uow.session ≡ r
          → is_ok (cancel_body R std S envelope cmd w).0 ≡ false
      go (err e) h = ground arith
      go (ok none) h = ground arith
      go (ok (some o)) h = ground (arith, loaded o h)

  unless_returned {ℓ} :
      {P : Type ℓ} (r : Result (Unit {0})) → is_ok r ≡ false → ((e : Exn) → r ≡ err e → P) → P
  unless_returned (ok _) h k = absurd (cc h)
  unless_returned (err e) h k = k e refl

  -- Where the order that a session gives was loaded by its mapper, so that it has no event list,
  -- cancelling it never succeeds: whatever its status, and also if the session gives none or
  -- raises, the command raises and the database is as it was.
  pub cancel_never_succeeds :
      (envelope : Envelope) (cmd : CancelOrderCommand) (w : World R std S)
      → ((o : Order)
          → S.get_order cmd.order_id w.uow.session ≡ ok (some o)
          → o.domain_events ≡ none)
      → let (r, after) = handle_cancel_order R std S envelope cmd w in
        (is_ok r ≡ false) × (S.stored after.uow.session ≡ S.stored w.uow.session)
  unfolding handle_cancel_order in_uow handle
  cancel_never_succeeds envelope cmd w loaded =
      let raises : is_ok (handle_cancel_order R std S envelope cmd w).0 ≡ false =
        ground (arith, cancel_body_raises envelope cmd w loaded) in
      (
        raises,
        unless_returned (handle_cancel_order R std S envelope cmd w).0 raises
            (handle_atomic R std S (cancelling envelope cmd) w),
      )
