-- ===== src/Tests/Operations.antt =====
-- The command line and the observability of the program on concrete input.
use ticket_genius.Prelude.{
  is_some, ◌*◌, ◌+◌, ◌≡◌, refl, true, false, not, ◌&&◌, none, some, List, [], ◌∷◌, any, length,
  ◌==◌, arith, if◌then◌else◌,
}
use ticket_genius.Prelude.Int.{pos, ◌+ℤ◌, ◌-ℤ◌}
use ticket_genius.Prelude.Text.{Text, codes, text_eq, text_eq_iff, mentions, starts_with}
use ticket_genius.Prelude.Dict.{Dict, lookup}
use ticket_genius.Python.Json.{null}
use ticket_genius.Redis.Memory.{memory}
use ticket_genius.Redis.Scan.{is_held}
use ticket_genius.Redis.Scanner.{keys_of}
use ticket_genius.Handlers.Sync.{is_fresh, stale_threshold}
use ticket_genius.Cli.Ended.{exit_code}
use ticket_genius.Cli.Keys.{printed_keys, purge_cache, purge_cache_lem}
use ticket_genius.Cli.Stale.{is_stale}
use ticket_genius.Cli.Stale.Laws.{is_stale-is_fresh}
use ticket_genius.Cli.Outbox.{OutboxRow, OutboxTable, replay_outbox, replay_outbox_lem}
use ticket_genius.Observability.Requests.{
  Context, header_name, before_request, after_request, teardown_request, correlation_id_returned,
}
use ticket_genius.Observability.Metrics.{
  Call, order_created, order_cancelled, order_refunded, record_calls, no_metrics, record_call,
}
use ticket_genius.Tests.Values.{plan}

-- KEYS of the server in memory, for a pattern that is a prefix.
keys_of-held :
    (prefix k : Text) (d : Dict Text)
    → mentions k (keys_of prefix d) ≡ (if starts_with prefix k then is_held (lookup k d) else false)
unfolding lookup
keys_of-held prefix k [] = ground arith
keys_of-held prefix k ((j, w) ∷ d) = ground (arith, keys_of-held prefix k d, text_eq_iff j k)

abbrev cached : Dict Text
cached = (codes "tm:1", codes "x") ∷ (codes "FF:a", codes "y") ∷ []

purge_cache_lem_example :
    let (ended, after) = purge_cache memory keys_of (some (codes "redis")) (codes "tm") cached in
    (exit_code ended ≡ 0)
    × (mentions (codes "tm:1") (printed_keys ended) ≡ true)
    × (lookup (codes "tm:1") after ≡ none)
unfolding starts_with lookup ticket_genius.Prelude.Text.text_eq
purge_cache_lem_example =
    purge_cache_lem memory keys_of starts_with keys_of-held (some (codes "redis")) (codes "tm")
      (codes "tm:1") cached

abbrev row : OutboxRow
row = record {
  id = codes "a";
  aggregate_id = codes "o";
  aggregate_type = codes "OrderCancelled";
  event_type = codes "OrderCancelled";
  payload = null;
  created_at = 5;
  processed_at = none;
  retry_count = 0;
}

-- Three rows, of which one is processed and one has another id.
abbrev rows : List OutboxRow
rows = row ∷ record row { processed_at = some 7 } ∷ record row { id = codes "b" } ∷ []

-- A table in the order of its rows, whose ids are compared for equality.
abbrev table : OutboxTable
table = record {
  from_on = λ t id. text_eq id t;
  by_created_at = λ rs. rs;
  any-by_created_at = λ p rs. refl;
  length-by_created_at = λ rs. refl;
}

replays : replay_outbox table (some (codes "a")) rows ≡ row ∷ []
unfolding replay_outbox text_eq
replays = refl

replay_outbox_lem_example :
    let replayed = replay_outbox table (some (codes "a")) rows in
    (any (λ r. is_some r.processed_at) replayed ≡ false)
    × (any (λ r. not (text_eq r.id (codes "a"))) replayed ≡ false)
    × (length replayed ≡ 1)
unfolding replay_outbox text_eq
replay_outbox_lem_example = replay_outbox_lem table (some (codes "a")) rows

abbrev before : Context
before = record { correlation_id_var = some (codes "old"); log = [] }

correlation_id_returned_example :
    let during = before_request (some (codes "given")) (codes "new") before in
    let (headers', after) = after_request [] during in
    (lookup header_name headers' ≡ some (codes "given"))
    × (after.log
        ≡ record { event = codes "request_completed"; correlation_id = some (codes "given") }
          ∷ during.log)
    × (after.correlation_id_var ≡ none)
    × ((teardown_request true after).log
        ≡ record { event = codes "request_failed"; correlation_id = none } ∷ after.log)
correlation_id_returned_example =
    correlation_id_returned (some (codes "given")) (codes "new") [] before
      (before_request (some (codes "given")) (codes "new") before) refl refl

abbrev calls : List Call
calls =
    order_created (codes "pending")
    ∷ order_created (codes "pending")
    ∷ order_cancelled
    ∷ order_refunded
    ∷ []

gauge_after_refund : (record_calls calls no_metrics).active_orders_gauge ≡ pos 1
unfolding record_call ◌+ℤ◌ ◌-ℤ◌
gauge_after_refund = refl

-- A plan that was synchronised just before the day that ends now.
is_stale-is_fresh_example : is_stale 90000000000 (pos 24) plan ≡ (
    not (is_fresh 90000000000 true (some plan))
    && not (90000000000 == plan.last_synced_at + stale_threshold))
is_stale-is_fresh_example = is_stale-is_fresh 90000000000 plan
