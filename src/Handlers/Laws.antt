-- ===== src/Handlers/Laws.antt =====
-- What the order commands do to the database.
use ticket_genius.Prelude.{ap, ℕ, ◌≡◌, refl, ◌∙◌, List, [], ◌∷◌, arith}
use ticket_genius.Python.{Exn, Result, ok, err}
use ticket_genius.Python.Exec.{Exec}
use ticket_genius.Python.Std.{Std}
use ticket_genius.Domain.Order.{Order}
use ticket_genius.Domain.SeatId.{Seat}
use ticket_genius.Domain.Values.{TicketQuantity}
use ticket_genius.Domain.Events.{Envelope}
use ticket_genius.Redis.{Redis}
use ticket_genius.UnitOfWork.{Session}
use ticket_genius.UnitOfWork.Laws.{exit_raised-stored, exit_failed-stored}
use ticket_genius.Handlers.Commands.{
  CreateOrderCommand, ConfirmPaymentCommand, CancelOrderCommand, RefundOrderCommand, Fresh,
}
use ticket_genius.Handlers.Steps.{World, in_uow}
use ticket_genius.Handlers.{
  handle_create_order, handle_confirm_payment, handle_cancel_order, handle_refund_order,
  cancel_body, refund_body, create_body, confirm_body, reserve_for,
}

-- A call of one of the handlers, with the ids and times that it draws.
pub data Call : Type 0 where
  creating : Fresh → CreateOrderCommand → Call
  confirming : ℕ → Envelope → ConfirmPaymentCommand → Call
  cancelling : Envelope → CancelOrderCommand → Call
  refunding : RefundOrderCommand → Call

abbrev pub forget : {A W : Type 0} → Result A × W → Result (Unit {0}) × W
forget (ok a, w) = (ok tt, w)
forget (err e, w) = (err e, w)

module _ (R : Redis) (std : Std) (S : Session) where
  abbrev pub stored : World R std S → S.Stored
  stored w = S.stored w.uow.session

  -- Code that may change objects of the session, and commits nothing.
  abbrev pub Keeps : {A : Type 0} → Exec (World R std S) A → Type 0
  Keeps m = (w : World R std S) → stored (m w).1 ≡ stored w

  in_uow_failed :
      {A : Type 0} (body : Exec (World R std S) A) (w : World R std S) (e : Exn)
      → Keeps body
      → (in_uow R std S body w).0 ≡ err e
      → stored (in_uow R std S body w).1 ≡ stored w
  unfolding in_uow
  in_uow_failed body w e keeps h = grind (arith, keeps, exit_raised-stored S, exit_failed-stored S)

  cancel-Keeps :
      (envelope : Envelope) (cmd : CancelOrderCommand) → Keeps (cancel_body R std S envelope cmd)
  unfolding cancel_body
  cancel-Keeps envelope cmd w = grind (arith, S.stored-put_order)

  refund-Keeps : (cmd : RefundOrderCommand) → Keeps (refund_body R std S cmd)
  unfolding refund_body
  refund-Keeps cmd w = grind (arith, S.stored-put_order, S.stored-put_payment)

  reserve_for-Keeps :
      (quantity : TicketQuantity) (seats : List Seat) (o : Order)
      → Keeps (reserve_for R std S quantity seats o)
  unfolding reserve_for
  reserve_for-Keeps quantity [] o w = refl
  reserve_for-Keeps quantity (seat ∷ seats) o w = grind arith

  create-Keeps : (fresh : Fresh) (cmd : CreateOrderCommand) → Keeps (create_body R std S fresh cmd)
  unfolding create_body
  create-Keeps fresh cmd w =
      grind (arith, S.stored-put_order, S.stored-put_payment, reserve_for-Keeps)

  confirm-Keeps :
      (now : ℕ) (envelope : Envelope) (cmd : ConfirmPaymentCommand)
      → Keeps (confirm_body R std S now envelope cmd)
  unfolding confirm_body
  confirm-Keeps now envelope cmd w = grind (arith, S.stored-put_order, S.stored-put_payment)

  unfoldable pub handle : Call → World R std S → Result (Unit {0}) × World R std S
  handle (creating fresh cmd) w = forget (handle_create_order R std S fresh cmd w)
  handle (confirming now envelope cmd) w =
      forget (handle_confirm_payment R std S now envelope cmd w)
  handle (cancelling envelope cmd) w = handle_cancel_order R std S envelope cmd w
  handle (refunding cmd) w = handle_refund_order R std S cmd w

  forget_failed :
      {A W : Type 0} (p : Result A × W) (e : Exn)
      → (forget p).0 ≡ err e
      → (p.0 ≡ err e) × ((forget p).1 ≡ p.1)
  forget_failed (ok a, w) e h = cc
  forget_failed (err x, w) e h = (cc h, refl)

  -- A command that raises leaves the database as it was, whether its own code raised or the
  -- commit at its end.
  pub handle_atomic :
      (c : Call) (w : World R std S) (e : Exn)
      → (handle c w).0 ≡ err e
      → stored (handle c w).1 ≡ stored w
  unfolding handle handle_create_order handle_confirm_payment handle_cancel_order
      handle_refund_order
  handle_atomic (creating fresh cmd) w e h =
      let both = forget_failed (handle_create_order R std S fresh cmd w) e h in
      ap stored both.1
      ∙ in_uow_failed (create_body R std S fresh cmd) w e (create-Keeps fresh cmd) both.0
  handle_atomic (confirming now envelope cmd) w e h =
      let both = forget_failed (handle_confirm_payment R std S now envelope cmd w) e h in
      ap stored both.1
      ∙ in_uow_failed (confirm_body R std S now envelope cmd) w e (confirm-Keeps now envelope cmd)
          both.0
  handle_atomic (cancelling envelope cmd) w e h =
      in_uow_failed (cancel_body R std S envelope cmd) w e (cancel-Keeps envelope cmd) h
  handle_atomic (refunding cmd) w e h =
      in_uow_failed (refund_body R std S cmd) w e (refund-Keeps cmd) h
