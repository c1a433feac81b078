-- ===== src/Tests/Commands.antt =====
-- The order commands, over a server and a session in memory.
use ticket_genius.Prelude.{arith, ◌≡◌, refl, false, none, some, [], ◌∷◌}
use ticket_genius.Prelude.Int.{pos}
use ticket_genius.Prelude.Text.{codes, text_eq}
use ticket_genius.Prelude.Dict.{lookup}
use ticket_genius.Python.{ok, is_ok, domain_error}
use ticket_genius.Domain.Exceptions.{order_not_found}
use ticket_genius.Domain.Order
use ticket_genius.Domain.Order.{Order}
use ticket_genius.Redis.Memory.{memory}
use ticket_genius.UnitOfWork.Memory as Db
use ticket_genius.SeatHolds.{hold_key}
use ticket_genius.Handlers.Commands.{CreateOrderCommand, CancelOrderCommand, Fresh}
use ticket_genius.Handlers.Steps.{World}
use ticket_genius.Handlers.{handle_create_order, handle_cancel_order}
use ticket_genius.Handlers.Laws.{cancelling, handle, handle_atomic}
use ticket_genius.Handlers.Outcomes.{create_never_succeeds, cancel_never_succeeds}
use ticket_genius.Tests.Sample.{sample}
use ticket_genius.Tests.Orders.{seat, envelope, loaded, captured_payment}
use ticket_genius.Tests.Values.{plan}

abbrev paid_order : Order
paid_order = record loaded { status = Order.paid; seats = seat ∷ seat ∷ []; version = 4 }

abbrev tables : Db.Tables
tables = record {
  orders = (codes "o1", paid_order) ∷ [];
  payments = (codes "o1", captured_payment) ∷ [];
  plans = (codes "p", plan) ∷ [];
  outbox = [];
}

abbrev world : World memory sample Db.memory
world = record {
  redis = some ((hold_key (codes "p") (codes "A-1-1"), codes "o1") ∷ []);
  uow = record {
    session = record { working = tables; unsaved = []; committed = tables };
    domain_events = [];
  };
  intents = [];
}

abbrev draw : Fresh
draw = record {
  order_id = codes "o2";
  payment_id = codes "x2";
  intent_hex = codes "00";
  secret_hex = codes "11";
  envelope = envelope;
}

abbrev wish : CreateOrderCommand
wish = record {
  plan_id = codes "p";
  quantity = pos 2;
  attendee_info = paid_order.attendee_info;
  seat_ids = none;
}

abbrev cancel_missing : CancelOrderCommand
cancel_missing = record { order_id = codes "o9"; reason = [] }

abbrev cancel_paid : CancelOrderCommand
cancel_paid = record { order_id = codes "o1"; reason = [] }

handle_atomic_example :
    (handle memory sample Db.memory
      (cancelling envelope cancel_missing)
      world).1.uow.session.committed
    ≡ tables
unfolding handle handle_cancel_order lookup text_eq
handle_atomic_example =
    handle_atomic memory sample Db.memory (cancelling envelope cancel_missing) world
      (domain_error (order_not_found (codes "o9"))) refl

create_never_succeeds_example :
    is_ok (handle_create_order memory sample Db.memory draw wish world).0 ≡ false
create_never_succeeds_example = create_never_succeeds memory sample Db.memory draw wish world

paid_order_loaded :
    (o : Order)
    → Db.memory.get_order (codes "o1") world.uow.session ≡ ok (some o)
    → o.domain_events ≡ none
unfolding lookup text_eq
paid_order_loaded o h = ground arith

cancel_never_succeeds_example :
    let (r, after) = handle_cancel_order memory sample Db.memory envelope cancel_paid world in
    (is_ok r ≡ false) × (after.uow.session.committed ≡ tables)
unfolding lookup text_eq
cancel_never_succeeds_example =
    cancel_never_succeeds memory sample Db.memory envelope cancel_paid world paid_order_loaded
