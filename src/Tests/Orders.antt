-- ===== src/Tests/Orders.antt =====
-- Orders and payments.
use ticket_genius.Prelude.{ℕ, ◌*◌, ◌≤◌, ◌≡◌, refl, none, some, List, [], ◌∷◌}
use ticket_genius.Prelude.Int.{pos}
use ticket_genius.Prelude.Text.{codes}
use ticket_genius.Python.{ok}
use ticket_genius.Domain.Money.{Money, eur}
use ticket_genius.Domain.SeatId.{Seat}
use ticket_genius.Domain.Values.{TicketQuantity, AttendeeInfo}
use ticket_genius.Domain.Events.{Envelope}
use ticket_genius.Domain.Order.{
  Order, OrderStatus, pending, seats_reserved, cancelled, fulfilled, create, cancel,
  add_domain_event,
}
use ticket_genius.Domain.Order.Machine.{reserve}
use ticket_genius.Domain.Order.Laws.{
  Operation, reserving, cancelling, apply, Ends, call_of, apply-Ends, Transition-apply,
}
use ticket_genius.Domain.Order.Invariant.{IsConsistent}
use ticket_genius.Domain.Order.Runs.{run, run-create-IsConsistent}
use ticket_genius.Domain.Payment
use ticket_genius.Domain.Payment.Laws
use ticket_genius.Domain.Payment.{Payment, PaymentStatus}

abbrev pub euros : ℕ → Money
euros n = record { amount = record { mantissa = pos (n * 100); places = 2 }; currency = eur }

abbrev pub seat : Seat
seat = record { seat_id = record { section = codes "A"; row = codes "1"; number = codes "1" } }

abbrev two : TicketQuantity
two = record { value = pos 2 }

abbrev ann : AttendeeInfo
ann = record { name = codes "Ann"; email = codes "a@b"; phone = none }

abbrev pub envelope : Envelope
envelope = record {
  event_id = codes "e";
  occurred_at = 7;
  correlation_id = none;
  causation_id = none;
}

abbrev pub fresh : Order
fresh = record {
  order_id = codes "o1";
  plan_id = codes "p";
  quantity = two;
  total_amount = euros 20;
  attendee_info = ann;
  status = pending;
  payment_id = none;
  seats = [];
  version = 1;
  domain_events = some [];
}

abbrev pub loaded : Order
loaded = record fresh { domain_events = none }

-- Reserve one seat of two, reserve two, cancel, and reserve once more: two of them raise.
abbrev calls : List Operation
calls =
    reserving (seat ∷ [])
    ∷ reserving (seat ∷ seat ∷ [])
    ∷ cancelling envelope (codes "late")
    ∷ reserving (seat ∷ seat ∷ [])
    ∷ []

run-calls : (run calls fresh).status ≡ cancelled
unfolding run apply ticket_genius.Domain.Order.reserve_seats cancel
run-calls = refl

apply-Ends_example :
    Ends
      (record fresh { domain_events = none })
      (apply (cancelling envelope (codes "ill")) (record fresh { domain_events = none }))
apply-Ends_example =
    apply-Ends (cancelling envelope (codes "ill")) (record fresh { domain_events = none })

Transition-apply_example :
    let (r, o') = apply (call_of (seat ∷ seat ∷ []) (codes "x") envelope reserve) fresh in
    (r ≡ ok tt) × (o'.status ≡ seats_reserved)
Transition-apply_example =
    Transition-apply reserve fresh (seat ∷ seat ∷ []) (codes "x") envelope refl refl refl

run-create-IsConsistent_example :
    let o = run calls (create (codes "o") envelope (codes "p") two (euros 20) ann) in
    IsConsistent o × (1 ≤ o.version) × (o.version ≤ 6)
run-create-IsConsistent_example =
    run-create-IsConsistent (codes "o") envelope (codes "p") two (euros 20) ann calls

abbrev pub captured_payment : Payment
captured_payment = record {
  payment_id = codes "x";
  order_id = codes "o1";
  amount = euros 20;
  provider = codes "simulated";
  status = PaymentStatus.captured;
  provider_ref = some (codes "r");
  intent_id = none;
  version = 3;
}

apply-Steps_example :
    Payment.Laws.Steps captured_payment
      (Payment.Laws.apply (Payment.Laws.refunds (some (euros 5))) captured_payment)
apply-Steps_example =
    Payment.Laws.apply-Steps (Payment.Laws.refunds (some (euros 5))) captured_payment

run-create-IsReferenced_example : Payment.Laws.IsReferenced (
    Payment.Laws.run
      (Payment.Laws.authorizes ∷ Payment.Laws.captures (codes "r") ∷ Payment.Laws.refunds none ∷ [])
      (Payment.create (codes "x") (codes "o") (euros 20) (codes "simulated") []))
run-create-IsReferenced_example =
    Payment.Laws.run-create-IsReferenced (codes "x") (codes "o") (euros 20) (codes "simulated") []
      (Payment.Laws.authorizes ∷ Payment.Laws.captures (codes "r") ∷ Payment.Laws.refunds none ∷ [])
