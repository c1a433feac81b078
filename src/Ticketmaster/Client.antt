-- ===== src/Ticketmaster/Client.antt =====
-- adapters/ticketmaster.py: `_make_request` around its retry loop, and `get_plan`.
pub mod Laws
use ticket_genius.Prelude.{
  ℕ, Bool, true, false, ◌&&◌, not, Option, none, some, List, [], ◌∷◌, ◌++◌, is_empty, ◌==◌,
  if◌then◌else◌,
}
use ticket_genius.Prelude.Text.{Text, codes, text_eq}
use ticket_genius.Prelude.Dict.{Dict, insert, erase}
use ticket_genius.Python.{Exn, Result, ok, err, domain}
use ticket_genius.Python.Json.{Json, text, truthy}
use ticket_genius.Python.Std.{Std}
use ticket_genius.Domain.Exceptions.{ErrorKind, plan_not_found}
use ticket_genius.Redis.{Redis}
use ticket_genius.Ticketmaster.TokenBucket.{TokenBucket, consume}
use ticket_genius.Ticketmaster.Request.{Attempt, request_with_retries}
use ticket_genius.Ticketmaster.Cache.{cache_event, get_cached_event}

-- Functions of the standard library that the cache key is made with.
pub record Web : Type 0 where
  -- `urlencode` of the sorted items
  pub urlencode_sorted : Dict Text → Text
  -- `hashlib.sha256(...).hexdigest()[:32]`
  pub sha256 : Text → Text

-- `if self.redis`
abbrev pub is_some {ℓ} : {A : Type ℓ} → Option A → Bool
is_some none = false
is_some (some a) = true

abbrev is_plan_kind : ErrorKind → Bool
is_plan_kind (plan_not_found m) = true
is_plan_kind k = false

module _ (R : Redis) (std : Std) (web : Web) where
  pub record Client : Type 0 where
    pub client_id : Text
    pub redis : Option R.State
    pub rate_limiter : TokenBucket

  -- `_cache_key`
  unfoldable pub cache_key : Text → Text → Dict Text → Text
  cache_key method path params =
      codes "tm:search:"
      ++ web.sha256 (
          method
          ++ (codes ":"
              ++ (path ++ (codes ":" ++ web.urlencode_sorted (erase (codes "apikey") params)))))

  -- `self.redis.get(cache_key)`, where a cache is used
  abbrev pub read_cache : Bool → Text → Option R.State → Option Text
  read_cache false key redis = none
  read_cache true key none = none
  read_cache true key (some s) = R.get key s

  -- `if use_cache and self.redis and cache_key and method == "GET"`
  abbrev write_cache : Bool → Text → Text → Json → Option R.State → Option R.State
  write_cache false method key body redis = redis
  write_cache true method key body none = none
  write_cache true method key body (some s) =
      if text_eq method (codes "GET") then some (R.setex key 300 (std.dumps body) s) else some s

  -- What a call gives: its result, what it slept, in units of the rate limiter for the first
  -- and in seconds for the others, and the client.
  pub record Outcome : Type 0 where
    pub result : Result Json
    pub waited : ℕ
    pub slept : List ℕ
    pub client : Client

  abbrev pub after_loop : Bool → Text → Text → ℕ → Result Json × List ℕ → Client → Outcome
  after_loop use_cache method key wait (err e, slept) c = record {
    result = err e;
    waited = wait;
    slept = slept;
    client = c;
  }
  after_loop use_cache method key wait (ok body, slept) c = record {
    result = ok body;
    waited = wait;
    slept = slept;
    client = record c { redis = write_cache use_cache method key body c.redis };
  }

  -- The rate limiter and the retry loop: `unit` is one token, and `now` the time.
  abbrev pub send_request : ℕ → ℕ → (ℕ → Attempt) → Bool → Text → Text → Client → Outcome
  send_request unit now send use_cache method key c =
      let (wait, bucket) = consume unit now c.rate_limiter in
      after_loop use_cache method key wait (request_with_retries send)
        (record c { rate_limiter = bucket })

  abbrev pub unless_cached : Option Text → Outcome → Client → Outcome
  unless_cached none sent c = sent
  unless_cached (some cached) sent c =
      if is_empty cached
      then sent
      else record { result = std.loads cached; waited = 0; slept = []; client = c }

  -- `_make_request`; `send` is what the HTTP client would give at each attempt.
  unfoldable pub make_request :
      ℕ → ℕ → (ℕ → Attempt) → Text → Text → Dict Text → Bool → Client → Outcome
  unfolding cache_key consume request_with_retries insert
  make_request unit now send method path params use_cache c =
      let key = cache_key method path (insert (codes "apikey") c.client_id params) in
      unless_cached (read_cache use_cache key c.redis)
        (send_request unit now send use_cache method key c) c

  -- `except PlanNotFoundError`
  abbrev is_plan_not_found : Exn → Bool
  is_plan_not_found (domain e) = is_plan_kind e.kind
  is_plan_not_found e = false

  abbrev with_redis : Option R.State → Client → Client
  with_redis redis c = record c { redis = redis }

  abbrev pub after_request : Outcome → Result (Option Json) × Client
  after_request o = elim o.result [
    | err e ↦ (if is_plan_not_found e then ok none else err e, o.client)
    | ok response ↦
        let (r, redis) = cache_event R std response o.client.redis in
        (elim r [ err e ↦ err e | ok _ ↦ ok (some response) ], with_redis redis o.client)
  ]

  -- `if cached`
  abbrev pub unless_found :
      Result (Option Json) → Result (Option Json) × Client → Client → Result (Option Json) × Client
  unless_found (err e) asked c = (err e, c)
  unless_found (ok none) asked c = asked
  unless_found (ok (some cached)) asked c = if truthy cached then (ok (some cached), c) else asked

  -- `get_plan`
  unfoldable pub get_plan : ℕ → ℕ → (ℕ → Attempt) → Text → Client → Result (Option Json) × Client
  unfolding make_request cache_event get_cached_event
  get_plan unit now send plan_id c =
      unless_found (get_cached_event R std plan_id c.redis)
        (after_request (
          make_request unit now send (codes "GET") (codes "/events/" ++ (plan_id ++ codes ".json"))
            [] true c))
        c
