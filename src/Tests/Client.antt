-- ===== src/Tests/Client.antt =====
-- The provider's client, over a server in memory.
use ticket_genius.Prelude.{
  Option, ◌*◌, length, All, false, List, ℕ, ◌+◌, ◌<◌, ◌≤◌, ◌≡◌, refl, true, none, some, [], ◌∷◌,
  arith,
}
use ticket_genius.Prelude.Text.{Text, codes, starts_with, text_eq}
use ticket_genius.Python.{ok, value_error}
use ticket_genius.Python.Json.{Json, text, obj, field, end}
use ticket_genius.Prelude.Int.{pos}
use ticket_genius.Prelude.Dict.{Dict, lookup}
use ticket_genius.Redis.Memory.{memory}
use ticket_genius.Redis.Scanner.{scanner}
use ticket_genius.Ticketmaster.Cache.{event_key, get_cached_event}
use ticket_genius.Ticketmaster.Invalidation.{
  invalidate_all_event_cache, handle_plan_updated_webhook,
}
use ticket_genius.Ticketmaster.Invalidation.Laws.{invalidate_all_lem, webhook_forgets}
use ticket_genius.Ticketmaster.Request.{Attempt}
use ticket_genius.Ticketmaster.Client.{Web, Client, Outcome, make_request, get_plan}
use ticket_genius.Ticketmaster.Client.Laws.{request_again, request_sleeps}
use ticket_genius.Tests.Sample.{sample}

abbrev web : Web
web = record { urlencode_sorted = λ d. []; sha256 = λ t. t }

abbrev client : Client memory sample web
client = record {
  client_id = codes "c";
  redis = some [];
  rate_limiter = record { capacity = 500; refill_rate = 5; tokens = 500; last_refill = 0 };
}

abbrev event : Json
event = obj (field (codes "id") (text (codes "e1")) end)

-- A provider that answers, and one that cannot be reached.
abbrev answers : ℕ → Attempt
answers attempt =
    Attempt.responded
      (record { status = 200; retry_after = ok (pos 60); error_text = []; body = ok event })

abbrev unreachable : ℕ → Attempt
unreachable attempt = Attempt.failed (value_error (codes "down"))

abbrev first : Outcome memory sample web
first = make_request memory sample web 100 1 answers (codes "GET") (codes "/e") [] true client

-- The client some time later, with nothing gone from Redis.
abbrev later : Client memory sample web
later = record first.client { rate_limiter = client.rate_limiter }

request_again_example :
    make_request memory sample web 100 2 unreachable (codes "GET") (codes "/e") [] true later
    ≡ record { result = ok event; waited = 0; slept = []; client = later }
unfolding make_request ticket_genius.Prelude.Dict.lookup ticket_genius.Prelude.Text.text_eq
request_again_example =
    request_again memory sample web 100 1 2 answers unreachable (codes "/e") [] client later []
      (kept later.redis) event refl refl refl refl refl
  where
    kept : Option (Dict Text) → Dict Text
    kept none = []
    kept (some s) = s

request_sleeps_example :
    let o =
      make_request memory sample web 100 1 answers (codes "GET") (codes "/e") [] true client in
    (o.waited * 5 ≤ 100) × (length o.slept ≤ 3) × All (λ n. n ≤ 60) o.slept
request_sleeps_example =
    request_sleeps memory sample web 100 1 answers (codes "GET") (codes "/e") [] true client

abbrev after : Client memory sample web
after = (get_plan memory sample web 100 1 answers (codes "e1") client).1

-- A server with two events and a search.
abbrev cached : Dict Text
cached =
    (event_key (codes "e1"), codes "x")
    ∷ (event_key (codes "e2"), codes "y")
    ∷ (codes "tm:search:a", codes "z")
    ∷ []

invalidate_all_lem_example :
    (after : Dict Text) × (invalidate_all_event_cache memory scanner 1 cached ≡ some after)
    × ((event_id : Text) → get_cached_event memory sample event_id (some after) ≡ ok none)
    × ((k : Text) → starts_with (codes "tm:event:") k ≡ false → lookup k after ≡ lookup k cached)
invalidate_all_lem_example = invalidate_all_lem memory scanner sample 1 cached (omega arith)

webhook_forgets_example :
    (after : Dict Text) × (handle_plan_updated_webhook memory scanner 1 (codes "e1") cached
      ≡ some after)
    × (get_cached_event memory sample (codes "e1") (some after) ≡ ok none)
    × ((k : Text) → starts_with (codes "tm:search:") k ≡ true → lookup k after ≡ none)
    × ((other : Text)
        → text_eq (codes "e1") other ≡ false
        → get_cached_event memory sample other (some after)
          ≡ get_cached_event memory sample other (some cached))
webhook_forgets_example = webhook_forgets memory scanner sample 1 (codes "e1") cached (omega arith)
