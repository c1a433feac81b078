-- ===== src/Ticketmaster/Request/Laws.antt =====
-- How the retry loop ends, and how long it sleeps.
use ticket_genius.Prelude.{
  ℕ, zero, suc, ◌≤◌, ◌≡◌, ◌⊎◌, refl, true, [], ◌∷◌, arith, length, All, min,
}
use ticket_genius.Prelude.Int.{pos}
use ticket_genius.Prelude.Text.{codes}
use ticket_genius.Python.{ok, err, retryable_error, domain_error, Exn}
use ticket_genius.Python.Json.{Json}
use ticket_genius.Domain.Exceptions.{provider_error}
use ticket_genius.Ticketmaster.Request.{
  Response, Attempt, responded, token_refused, failed, Pass, again, returns, raises, try_once,
  request_with_retries, is_success,
}

-- The three passes of the loop, written out: what the loop means.
abbrev pub give_up : Exn
give_up = domain_error (provider_error (codes "Ticketmaster") (codes "Max retries exceeded"))

pub retry_loop_lem :
    (send : ℕ → Attempt)
    → request_with_retries send ≡ elim (try_once 0 (send 0)) [
      | returns j ↦ (ok j, [])
      | raises e ↦ (err e, [])
      | again n ↦ elim (try_once 1 (send 1)) [
        | returns j ↦ (ok j, n ∷ [])
        | raises e ↦ (err e, n ∷ [])
        | again m ↦ elim (try_once 2 (send 2)) [
          | returns j ↦ (ok j, n ∷ m ∷ [])
          | raises e ↦ (err e, n ∷ m ∷ [])
          | again k ↦ (err give_up, n ∷ m ∷ k ∷ [])
        ]
      ]
    ]
unfolding request_with_retries
retry_loop_lem send = ground arith

abbrev pub SleepsUpTo60 : Pass → Type 0
SleepsUpTo60 (again n) = n ≤ 60
SleepsUpTo60 p = Unit

pub try_once-sleep : (attempt : ℕ) (a : Attempt) → SleepsUpTo60 (try_once attempt a)
unfolding try_once
try_once-sleep zero (responded r) = ground arith
try_once-sleep (suc zero) (responded r) = ground arith
try_once-sleep (suc (suc n)) (responded r) = ground arith
try_once-sleep zero (token_refused r) = ground arith
try_once-sleep (suc zero) (token_refused r) = ground arith
try_once-sleep (suc (suc n)) (token_refused r) = ground arith
try_once-sleep n (failed e) = tt

-- Whatever the client gives, the retry loop sleeps at most three times, and at most a minute each
-- time.
pub retry_sleeps :
    (send : ℕ → Attempt)
    → let slept = (request_with_retries send).1 in (length slept ≤ 3) × All (λ n. n ≤ 60) slept
retry_sleeps send = rw retry_loop_lem (
    ground (arith, try_once-sleep 0 (send 0), try_once-sleep 1 (send 1), try_once-sleep 2 (send 2)))

-- A pass that returns has read a successful response with that body.
abbrev pub Answered : Attempt → Json → Type 0
Answered a j = (r : Response) × (a ≡ responded r) × (is_success r.status ≡ true) × (r.body ≡ ok j)

try_once-returns :
    (attempt : ℕ) (a : Attempt) (j : Json) → try_once attempt a ≡ returns j → Answered a j
unfolding try_once
try_once-returns attempt (responded r) j h = (r, refl, ground arith, ground arith)
try_once-returns attempt (token_refused r) j h = ground arith
try_once-returns attempt (failed e) j h = cc

-- What a request returns is the body of a successful response to one of the three attempts.
pub request-Answered :
    (send : ℕ → Attempt) (j : Json)
    → (request_with_retries send).0 ≡ ok j
    → Answered (send 0) j ⊎ Answered (send 1) j ⊎ Answered (send 2) j
request-Answered send j h = ground (
  arith,
  retry_loop_lem send,
  try_once-returns 0 (send 0) j,
  try_once-returns 1 (send 1) j,
  try_once-returns 2 (send 2) j,
)

-- Three answers 429, each with a delay that `int` reads as a number of zero or more: the request
-- sleeps after every one of them, the last included, and raises `ProviderError`. It never raises
-- `ProviderRateLimitedError`.
pub request_limited :
    (send : ℕ → Attempt) (first second third : Response) (n m k : ℕ)
    → send 0 ≡ responded first
    → send 1 ≡ responded second
    → send 2 ≡ responded third
    → (first.status ≡ 429) × (second.status ≡ 429) × (third.status ≡ 429)
    → (first.retry_after ≡ ok (pos n))
      × (second.retry_after ≡ ok (pos m))
      × (third.retry_after ≡ ok (pos k))
    → request_with_retries send ≡ (err give_up, min n 60 ∷ min m 60 ∷ min k 60 ∷ [])
unfolding try_once
request_limited send first second third n m k e0 e1 e2 limited delays =
    ground (arith, retry_loop_lem send)

server_error_first : (r : Response) → 500 ≤ r.status → try_once 0 (responded r) ≡ again 1
unfolding try_once
server_error_first r h = ground arith

server_error_second : (r : Response) → 500 ≤ r.status → try_once 1 (responded r) ≡ again 2
unfolding try_once
server_error_second r h = ground arith

server_error_last :
    (r : Response)
    → 500 ≤ r.status
    → try_once 2 (responded r) ≡ raises (retryable_error (codes "Server error"))
unfolding try_once
server_error_last r h = ground arith

-- Three server errors: the request sleeps one and two seconds and raises `RetryableError`, which
-- is no domain exception.
pub request_server_error :
    (send : ℕ → Attempt) (first second third : Response)
    → send 0 ≡ responded first
    → send 1 ≡ responded second
    → send 2 ≡ responded third
    → (500 ≤ first.status) × (500 ≤ second.status) × (500 ≤ third.status)
    → request_with_retries send ≡ (err (retryable_error (codes "Server error")), 1 ∷ 2 ∷ [])
request_server_error send first second third e0 e1 e2 down = rw (
  retry_loop_lem,
  e0,
  server_error_first first down.0,
  e1,
  server_error_second second down.1,
  e2,
  server_error_last third down.2,
)
