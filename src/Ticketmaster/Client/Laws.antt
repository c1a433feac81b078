-- ===== src/Ticketmaster/Client/Laws.antt =====
-- A request that was answered is answered from the cache.
use ticket_genius.Prelude.{
  ℕ, Bool, ◌*◌, ◌≤◌, length, All, ◌≡◌, refl, true, false, Option, none, some, List, [], ◌++◌,
  if◌then◌else◌, arith, is_empty,
}
use ticket_genius.Prelude.Text.{Text, codes, text_eq_iff}
use ticket_genius.Prelude.Dict.{Dict, insert}
use ticket_genius.Python.{Result, ok, err}
use ticket_genius.Python.Json.{Json, text, null, obj, end, field, get, truthy, find}
use ticket_genius.Python.Std.{Std}
use ticket_genius.Redis.{Redis}
use ticket_genius.Ticketmaster.TokenBucket.{consume}
use ticket_genius.Ticketmaster.TokenBucket.Laws.{consume_wait}
use ticket_genius.Ticketmaster.Request.{Attempt, request_with_retries}
use ticket_genius.Ticketmaster.Request.Laws.{retry_sleeps}
use ticket_genius.Ticketmaster.Client.{
  Web, Client, Outcome, make_request, cache_key, read_cache, send_request, unless_cached,
  after_loop, get_plan, after_request, unless_found, is_some,
}
use ticket_genius.Ticketmaster.Cache.{get_cached_event}
use ticket_genius.Ticketmaster.Cache.Laws.{cached_event}

module _ (R : Redis) (std : Std) (web : Web) where
  -- The key of a GET request in the cache.
  abbrev pub request_key : Text → Dict Text → Client R std web → Text
  request_key path params c =
      cache_key R std web (codes "GET") path (insert (codes "apikey") c.client_id params)

  abbrev pub get_in : Text → Option R.State → Option Text
  get_in key none = none
  get_in key (some s) = R.get key s

  -- With a Redis client, a cached GET request that returned is answered with the same data when it
  -- is made again while Redis keeps its key, which it does for 300 seconds unless the key is
  -- deleted: from whatever client with the same id finds there what the first request left, and
  -- whatever the provider would answer then. Nobody waits, and the rate limiter and the cache stay
  -- as they are.
  pub request_again :
      (unit now later : ℕ) (send send' : ℕ → Attempt) (path : Text) (params : Dict Text)
      (c c' : Client R std web) (s kept : R.State) (body : Json)
      → c.redis ≡ some s
      → c'.redis ≡ some kept
      → c'.client_id ≡ c.client_id
      → (make_request R std web unit now send (codes "GET") path params true c).result ≡ ok body
      → let key = request_key path params c in
        R.get key kept
          ≡ get_in key
              (make_request R std web unit now send (codes "GET") path params true c).client.redis
        → make_request R std web unit later send' (codes "GET") path params true c'
          ≡ record { result = ok body; waited = 0; slept = []; client = c' }
  unfolding make_request
  request_again unit now later send send' path params c c' s kept body given given' same h keeps =
      let key = request_key path params c in
      ground (
        arith,
        R.get-setex key (std.dumps body) 300 s key,
        std.loads-dumps body,
        std.dumps_given body,
        text_eq_iff key key,
        text_eq_iff (codes "GET") (codes "GET"),
      )

  -- What a request waits and sleeps, by the rate of its limiter.
  abbrev IsPatient : ℕ → ℕ → Outcome R std web → Type 0
  IsPatient unit rate o =
      (o.waited * rate ≤ unit) × (length o.slept ≤ 3) × All (λ n. n ≤ 60) o.slept

  after_loop-IsPatient :
      (unit rate wait : ℕ) (use_cache : Bool) (method key : Text) (c : Client R std web)
      (loop : Result Json × List ℕ)
      → wait * rate ≤ unit
      → (length loop.1 ≤ 3) × All (λ n. n ≤ 60) loop.1
      → IsPatient unit rate (after_loop R std web use_cache method key wait loop c)
  after_loop-IsPatient unit rate wait use_cache method key c (ok body, slept) short h =
      (short, h.0, h.1)
  after_loop-IsPatient unit rate wait use_cache method key c (err e, slept) short h =
      (short, h.0, h.1)

  unless_cached-IsPatient :
      (unit rate : ℕ) (cached : Option Text) (sent : Outcome R std web) (c : Client R std web)
      → IsPatient unit rate sent
      → IsPatient unit rate (unless_cached R std web cached sent c)
  unless_cached-IsPatient unit rate none sent c h = h
  unless_cached-IsPatient unit rate (some cached) sent c h = choose (is_empty cached)
    where
      choose :
          (b : Bool)
          → IsPatient unit rate (
              if b
              then sent
              else record { result = std.loads cached; waited = 0; slept = []; client = c })
      choose true = h
      choose false = (omega arith, omega arith, tt)

  -- Whatever the HTTP client gives, a request waits for the rate limiter no longer than one token
  -- takes to be refilled, and sleeps at most three times besides, at most a minute each time.
  pub request_sleeps :
      (unit now : ℕ) (send : ℕ → Attempt) (method path : Text) (params : Dict Text)
      (use_cache : Bool) (c : Client R std web)
      → let o = make_request R std web unit now send method path params use_cache c in
        (o.waited * c.rate_limiter.refill_rate ≤ unit)
        × (length o.slept ≤ 3)
        × All (λ n. n ≤ 60) o.slept
  unfolding make_request
  request_sleeps unit now send method path params use_cache c =
      let key = cache_key R std web method path (insert (codes "apikey") c.client_id params) in
      let (wait, bucket) = consume unit now c.rate_limiter in
      unless_cached-IsPatient unit c.rate_limiter.refill_rate
        (read_cache R std web use_cache key c.redis)
        (send_request R std web unit now send use_cache method key c) c
        (after_loop-IsPatient unit c.rate_limiter.refill_rate wait use_cache method key
          (record c { rate_limiter = bucket }) (request_with_retries send)
          (consume_wait unit now c.rate_limiter) (retry_sleeps send))

  truthy-text : (t : Text) → is_empty t ≡ false → truthy (text t) ≡ true
  unfolding truthy
  truthy-text t given = rw given refl

  get-truthy : (k : Text) (t : Text) (j : Json) → get k null j ≡ ok (text t) → truthy j ≡ true
  unfolding get truthy find
  get-truthy k t (obj end) h = ground arith
  get-truthy k t (obj (field l j fs)) h = refl
  get-truthy k t j h = ground arith

  -- A request keeps a Redis client.
  make_request_has_redis :
      (unit now : ℕ) (send : ℕ → Attempt) (path : Text) (c : Client R std web)
      → is_some c.redis ≡ true
      → is_some (make_request R std web unit now send (codes "GET") path [] true c).client.redis
        ≡ true
  unfolding make_request
  make_request_has_redis unit now send path c given = ground arith

  -- What a request found is cached under its id.
  after_request_cached :
      (plan_id : Text) (o : Outcome R std web) (body : Json) (after : Client R std web)
      → is_some o.client.redis ≡ true
      → after_request R std web o ≡ (ok (some body), after)
      → get (codes "id") null body ≡ ok (text plan_id)
      → is_empty plan_id ≡ false
      → get_cached_event R std plan_id after.redis ≡ ok (some body)
  after_request_cached plan_id o body after given h own named = go o.client.redis refl
    where
      go :
          (redis : Option R.State)
          → o.client.redis ≡ redis
          → get_cached_event R std plan_id after.redis ≡ ok (some body)
      go none e = ground arith
      go (some s) e = grind (
        arith,
        cached_event R std body (text plan_id) s plan_id own (truthy-text plan_id named),
        std.str-text plan_id,
        text_eq_iff plan_id plan_id,
      )

  get_plan-eq_cached :
      (unit now : ℕ) (send : ℕ → Attempt) (plan_id : Text) (c : Client R std web) (body : Json)
      → get_cached_event R std plan_id c.redis ≡ ok (some body)
      → truthy body ≡ true
      → get_plan R std web unit now send plan_id c ≡ (ok (some body), c)
  unfolding get_plan
  get_plan-eq_cached unit now send plan_id c body cached given = rw (cached) (rw given refl)

  get_plan_cached :
      (unit now : ℕ) (send : ℕ → Attempt) (plan_id : Text) (c after : Client R std web)
      (body : Json)
      → is_some c.redis ≡ true
      → get_plan R std web unit now send plan_id c ≡ (ok (some body), after)
      → get (codes "id") null body ≡ ok (text plan_id)
      → is_empty plan_id ≡ false
      → get_cached_event R std plan_id after.redis ≡ ok (some body)
  unfolding get_plan
  get_plan_cached unit now send plan_id c after body given h own named =
      go (get_cached_event R std plan_id c.redis) refl h
    where
      asked : Outcome R std web
      asked =
          make_request R std web unit now send (codes "GET")
            (codes "/events/" ++ (plan_id ++ codes ".json")) [] true c

      found :
          after_request R std web asked ≡ (ok (some body), after)
          → get_cached_event R std plan_id after.redis ≡ ok (some body)
      found e =
          after_request_cached plan_id asked body after
            (make_request_has_redis unit now send (codes "/events/" ++ (plan_id ++ codes ".json")) c
              given)
            e own named

      go :
          (r : Result (Option Json))
          → get_cached_event R std plan_id c.redis ≡ r
          → unless_found R std web r (after_request R std web asked) c ≡ (ok (some body), after)
          → get_cached_event R std plan_id after.redis ≡ ok (some body)
      go (err x) e h = ground arith
      go (ok none) e h = found h
      go (ok (some cached)) e h = ground (arith, found)

  -- With a Redis client, a plan that was found under its own id is found again without a request,
  -- whatever the provider would answer then, and the client stays as it is.
  pub plan_again :
      (unit now later : ℕ) (send send' : ℕ → Attempt) (plan_id : Text) (c after : Client R std web)
      (body : Json)
      → is_some c.redis ≡ true
      → get_plan R std web unit now send plan_id c ≡ (ok (some body), after)
      → get (codes "id") null body ≡ ok (text plan_id)
      → is_empty plan_id ≡ false
      → get_plan R std web unit later send' plan_id after ≡ (ok (some body), after)
  plan_again unit now later send send' plan_id c after body given h own named =
      get_plan-eq_cached unit later send' plan_id after body
        (get_plan_cached unit now send plan_id c after body given h own named)
        (get-truthy (codes "id") plan_id body own)
