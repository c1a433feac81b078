-- ===== src/Tests/Provider.antt =====
-- The provider's adapter, fulfilment, the payment simulator and the unit of work.
use ticket_genius.Prelude.{
  arith, ltb, if◌then◌else◌, ℕ, zero, suc, ◌≡◌, ◌≢◌, ◌⊎◌, refl, some, [], ◌∷◌,
}
use ticket_genius.Prelude.Int.{pos}
use ticket_genius.Prelude.Text.{Text, text_eq, codes}
use ticket_genius.Prelude.Dict.{lookup, insert}
use ticket_genius.Python.{ok, err, attribute_error}
use ticket_genius.Python.Json.{null}
use ticket_genius.Domain.Events.{Event, event_type, order_cancelled}
use ticket_genius.Redis.Memory.{memory}
use ticket_genius.Ticketmaster.Commerce.{create_order}
use ticket_genius.Ticketmaster.Commerce.Laws.{create_order_once}
use ticket_genius.Ticketmaster.Request.{Response, Attempt, responded, request_with_retries}
use ticket_genius.Ticketmaster.Request.Laws.{Answered, request-Answered}
use ticket_genius.PaymentSimulator.{PaymentIntent, Intents, confirm_payment, get_payment_intent}
use ticket_genius.PaymentSimulator.Laws.{outcome_text, confirm_settles}
use ticket_genius.Domain.Money.Laws.{cents}
use ticket_genius.UnitOfWork
use ticket_genius.UnitOfWork.{UnitOfWork, exit_ok}
use ticket_genius.UnitOfWork.Memory
use ticket_genius.UnitOfWork.Laws.{exit_with_event}
use ticket_genius.Tests.Sample.{sample}
use ticket_genius.Tests.Orders.{euros, envelope, fresh}
use ticket_genius.Tests.Values.{event}

create_order_once_example :
    let (first, after) =
      create_order memory sample (codes "e1") (pos 2) [] (codes "order_1") 5 (some []) in
    (create_order memory sample (codes "e2") (pos 1) (codes "A" ∷ []) (codes "order_1") 9 after).0
    ≡ first
unfolding lookup
create_order_once_example =
    create_order_once memory sample (codes "e1") (codes "e2") (pos 2) (pos 1) [] (codes "A" ∷ [])
      (codes "order_1") 5 9 [] refl

-- A limited answer with a delay of 90 seconds, a server error, and an answer.
abbrev limited : Response
limited = record { status = 429; retry_after = ok (pos 90); error_text = []; body = ok null }

abbrev down : Response
down = record { status = 503; retry_after = ok (pos 60); error_text = []; body = ok null }

abbrev fine : Response
fine = record { status = 200; retry_after = ok (pos 60); error_text = []; body = ok event }

abbrev recovering : ℕ → Attempt
recovering zero = responded limited
recovering (suc zero) = responded down
recovering (suc (suc n)) = responded fine

request_recovers : request_with_retries recovering ≡ (ok event, 60 ∷ 2 ∷ [])
unfolding request_with_retries
request_recovers = refl

request-Answered_example :
    Answered (recovering 0) event ⊎ Answered (recovering 1) event ⊎ Answered (recovering 2) event
unfolding request_with_retries
request-Answered_example = request-Answered recovering event refl

abbrev intent : ℕ → PaymentIntent
intent n = record {
  id = codes "pi";
  client_secret = codes "s";
  status = codes "requires_payment_method";
  amount = euros n;
  metadata = [];
}

abbrev intents : Intents
intents = (codes "pi", intent 120) ∷ []

abbrev empty_tables : UnitOfWork.Memory.Tables
empty_tables = record { orders = []; payments = []; plans = []; outbox = [] }

abbrev session : UnitOfWork.Memory.Memory
session = record { working = empty_tables; unsaved = []; committed = empty_tables }

abbrev cancelled_event : Event
cancelled_event = record { envelope = envelope; body = order_cancelled (codes "o1") [] }

abbrev with_order : UnitOfWork UnitOfWork.Memory.memory
with_order = record {
  session =
      UnitOfWork.Memory.put_order (record fresh { domain_events = some (cancelled_event ∷ []) })
        session;
  domain_events = [];
}

exit_with_event_example :
    let (r, after) = exit_ok UnitOfWork.Memory.memory with_order in
    (r ≡ err (attribute_error (codes "'OrderCancelled' object has no attribute '__dict__'")))
    × (after.session.committed ≡ empty_tables)
    × (after.domain_events ≢ [])
unfolding insert event_type
exit_with_event_example =
    exit_with_event UnitOfWork.Memory.memory with_order cancelled_event [] refl

confirm_settles_example :
    let (r, after) = confirm_payment 7 (codes "pi") (codes "card") intents in
    (settled again : PaymentIntent) × (r ≡ ok settled)
    × (settled.status ≡ outcome_text (ltb 10000 (cents (euros 120))))
    × (settled.amount ≡ euros 120)
    × ((j : Text)
        → get_payment_intent j after
          ≡ (if text_eq (codes "pi") j then some settled else get_payment_intent j intents))
    × ((confirm_payment 9 (codes "pi") (codes "card") after).0 ≡ ok again)
    × (again.status ≡ settled.status)
unfolding get_payment_intent lookup text_eq
confirm_settles_example =
    confirm_settles 7 9 (codes "pi") (codes "card") intents (intent 120) (ground arith) refl
