-- ===== src/Tests/Requests.antt =====
-- Requests, the bus and a synchronisation, over handlers that would answer.
use ticket_genius.Prelude.{
  ltb, ℕ, suc, ◌≡◌, false, Option, none, List, [], ◌∷◌, ◌==◌, if◌then◌else◌,
}
use ticket_genius.Prelude.Int.{pos}
use ticket_genius.Prelude.Text.{codes}
use ticket_genius.Python.{Result, ok, err, value_error}
use ticket_genius.Python.Exec.{Exec}
use ticket_genius.Python.Json.{Json, null, obj, end}
use ticket_genius.Domain.Plan.{Plan}
use ticket_genius.UnitOfWork.Memory as Db
use ticket_genius.MessageBus.{Command, Query, Method, Reply, SyncPlansCommand}
use ticket_genius.Entrypoints.Schemas.{Pydantic}
use ticket_genius.Entrypoints.Requests.{post_order}
use ticket_genius.Entrypoints.Api.{respond}
use ticket_genius.Entrypoints.Api.Laws.{only_health_succeeds}
use ticket_genius.Handlers.Sync.{handle_sync_plans}
use ticket_genius.Handlers.Sync.Laws.{sync_uncommitted}
use ticket_genius.Tests.Sample.{sample}
use ticket_genius.Tests.Values.{event}

-- Handlers that count their calls.
abbrev commands : Method → Command → Exec ℕ Reply
commands m cmd w = (ok Reply.nothing, suc w)

abbrev queries : Method → Query → Exec ℕ Reply
queries m q w = (ok Reply.nothing, suc w)

abbrev pydantic : Pydantic
pydantic = record {
  create_order_request = λ j.
      ok (record { plan_id = codes "p"; quantity = pos 2; attendee_info = end; seat_ids = none });
  confirm_payment_request = λ j. err (value_error []);
  cancel_order_request = λ j. ok (record { reason = codes "ill" });
  refund_order_request = λ j. ok (record { amount = none; reason = [] });
  search_plans_request = λ j. err (value_error []);
  dump = λ r. ok null;
}

only_health_succeeds_example :
    let (response, after) =
      respond commands queries pydantic sample (codes "/orders") (post_order (obj end)) 7 in
    (ltb response.status 400 ≡ false) × (after ≡ 7)
only_health_succeeds_example =
    only_health_succeeds commands queries pydantic sample (codes "/orders") (post_order (obj end)) 7

-- A provider with one event, on its first page.
abbrev search : ℕ → ℕ → Result (List Json)
search page size = ok (if page == 0 then event ∷ [] else [])

abbrev get_by_tm_id : Json → Db.Memory → Option Plan
get_by_tm_id j s = none

abbrev all_plans : SyncPlansCommand
all_plans = record { since = none; stale_only = false }

abbrev tables : Db.Tables
tables = record { orders = []; payments = []; plans = []; outbox = [] }

abbrev session : Db.Memory
session = record { working = tables; unsaved = []; committed = tables }

sync_uncommitted_example :
    (handle_sync_plans sample Db.memory search get_by_tm_id 1 9 all_plans session).1.committed
    ≡ tables
sync_uncommitted_example =
    sync_uncommitted sample Db.memory search get_by_tm_id 9 all_plans 1 session
