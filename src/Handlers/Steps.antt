-- ===== src/Handlers/Steps.antt =====
-- What the handlers of the orders work on, how they leave their unit of work, and the steps that
-- they share.
use ticket_genius.Prelude.{Option, ◌++◌}
use ticket_genius.Prelude.Text.{codes}
use ticket_genius.Python.{Exn, Result, ok, err, domain_error}
use ticket_genius.Python.Exec.{Exec, or_raise}
use ticket_genius.Python.Std.{Std}
use ticket_genius.Domain.Exceptions.{plan_not_found, order_not_found, payment_not_found}
use ticket_genius.Domain.Values.{Uuid}
use ticket_genius.Domain.Order.{Order}
use ticket_genius.Domain.Payment.{Payment}
use ticket_genius.Domain.Plan.{Plan}
use ticket_genius.Redis.{Redis}
use ticket_genius.SeatHolds.{release_seat_holds}
use ticket_genius.PaymentSimulator.{Intents}
use ticket_genius.Fulfillment.{seat_labels}
use ticket_genius.UnitOfWork.{Session, UnitOfWork, exit_ok, exit_raised}

module _ (R : Redis) (std : Std) (S : Session) where
  pub record World : Type 0 where
    pub redis : Option R.State
    pub uow : UnitOfWork S
    pub intents : Intents

  abbrev pub with_session : (S.State → S.State) → World → World
  with_session f w = record w { uow = record w.uow { session = f w.uow.session } }

  -- `with self._uow:`
  abbrev leave : {A : Type 0} → Result A × World → Result A × World
  leave (err e, w) = (err e, record w { uow = exit_raised S w.uow })
  leave (ok a, w) =
      let (r, u) = exit_ok S w.uow in (elim r [ err e ↦ err e | ok _ ↦ ok a ], record w { uow = u })

  unfoldable pub in_uow : {A : Type 0} → Exec World A → Exec World A
  in_uow body w = leave (body w)

  -- The result of a query, or the exception where it finds nothing.
  abbrev found : {A : Type 0} → Result (Option A) → Exn → Exec World A
  found (err e) missing w = (err e, w)
  found (ok r) missing w = or_raise r missing w

  abbrev pub get_order : Uuid → Exec World Order
  get_order i w = found (S.get_order i w.uow.session) (domain_error (order_not_found i)) w

  abbrev pub get_plan : Uuid → Exec World Plan
  get_plan i w = found (S.get_plan i w.uow.session) (domain_error (plan_not_found i)) w

  abbrev pub get_payment : Uuid → Exec World Payment
  get_payment order_id w =
      found (S.get_payment_by_order order_id w.uow.session)
        (domain_error
          (payment_not_found (codes "Payment for order " ++ (order_id ++ codes " not found"))))
        w

  abbrev pub save_order : Order → Exec World (Unit {0})
  save_order o w = (ok tt, with_session (S.put_order o) w)

  abbrev pub save_payment : Payment → Exec World (Unit {0})
  save_payment p w = (ok tt, with_session (S.put_payment p) w)

  -- A method call on an object that the session has: the session sees what the call wrote, also
  -- beside an exception.
  abbrev pub on_order : Exec Order (Unit {0}) → Order → Exec World Order
  on_order method o w =
      let (r, o') = method o in
      (elim r [ err e ↦ err e | ok _ ↦ ok o' ], with_session (S.put_order o') w)

  abbrev pub on_payment : Exec Payment (Unit {0}) → Payment → Exec World Payment
  on_payment method p w =
      let (r, p') = method p in
      (elim r [ err e ↦ err e | ok _ ↦ ok p' ], with_session (S.put_payment p') w)

  abbrev pub release : Order → Exec World (Unit {0})
  release o w = (
    ok tt,
    record w { redis = release_seat_holds R o.plan_id (seat_labels o.seats) o.order_id w.redis },
  )
