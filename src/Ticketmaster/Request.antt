-- ===== src/Ticketmaster/Request.antt =====
-- `_handle_http_error` and the retry loop of `_make_request`.
pub mod Laws
use ticket_genius.Prelude.{
  ℕ, zero, suc, ◌+◌, ◌-◌, ◌^◌, Bool, true, false, ◌&&◌, ◌||◌, Option, none, some, List, [], ◌∷◌,
  ◌++◌, leb, ltb, ◌==◌, if◌then◌else◌,
}
use ticket_genius.Prelude.Int.{ℤ, pos, pos_part, leb_ℤ, ltb_ℤ}
use ticket_genius.Prelude.Text.{Text, codes}
use ticket_genius.Python.{Exn, Result, ok, err, value_error, retryable_error, domain_error}
use ticket_genius.Python.Json.{Json}
use ticket_genius.Domain.Exceptions.{
  plan_not_found, provider_authentication_failed, provider_rate_limited, provider_error,
}

-- What the HTTP client gives for one attempt. A response has its status, `int` of its
-- `Retry-After` header (60 where there is none), `str` of the error that `raise_for_status`
-- makes of it, and its body as `response.json()` gives it.
pub record Response : Type 0 where
  pub status : ℕ
  pub retry_after : Result ℤ
  pub error_text : Text
  pub body : Result Json

-- `token_refused` is a status error of the call in `_get_access_token`, which the loop's `try`
-- encloses; any other exception of the client goes through.
pub data Attempt : Type 0 where
  responded : Response → Attempt
  token_refused : Response → Attempt
  failed : Exn → Attempt

abbrev max_retries : ℕ
max_retries = 3

-- `_handle_http_error`: it always raises.
unfoldable pub handle_http_error : Response → Exn
handle_http_error r =
    if r.status == 404
    then domain_error (plan_not_found (codes "Plan not found"))
    else if r.status == 401
    then domain_error (provider_authentication_failed (codes "Ticketmaster"))
    else if r.status == 429
    then elim r.retry_after [
      | err e ↦ e
      | ok n ↦ domain_error (provider_rate_limited (codes "Ticketmaster") (some n))
    ]
    else if leb 500 r.status
    then retryable_error (codes "Server error")
    else domain_error (provider_error (codes "Ticketmaster") r.error_text)

-- What one pass of the loop does: it sleeps and goes on, returns, or raises.
pub data Pass : Type 0 where
  again : ℕ → Pass
  returns : Json → Pass
  raises : Exn → Pass

-- `time.sleep(min(retry_after, 60))`, which raises for a negative number
unfoldable pub sleep_for : ℤ → Pass
sleep_for n =
    if ltb_ℤ n (pos 0)
    then raises (value_error (codes "sleep length must be non-negative"))
    else if leb_ℤ n (pos 60)
    then again (pos_part n)
    else again 60

-- `raise_for_status` lets a success through.
abbrev pub is_success : ℕ → Bool
is_success status = leb 200 status && ltb status 300

-- The `except RetryableError` around the handler: a server error is tried again while there are
-- attempts left.
unfoldable pub on_status_error : ℕ → Response → Pass
unfolding handle_http_error
on_status_error attempt r = elim (handle_http_error r) [
  | retryable_error m ↦
      if ltb attempt (max_retries - 1) then again (2 ^ attempt) else raises (retryable_error m)
  | e ↦ raises e
]

-- A response to the `attempt`-th request, from 0: the two tests of the loop's own, and then
-- `raise_for_status`, whose error goes to the handler.
unfoldable pub on_response : ℕ → Response → Pass
unfolding sleep_for on_status_error
on_response attempt r =
    if r.status == 429
    then elim r.retry_after [ err e ↦ raises e | ok n ↦ sleep_for n ]
    else if leb 500 r.status && ltb attempt (max_retries - 1)
    then again (2 ^ attempt)
    else if is_success r.status
    then elim r.body [ err e ↦ raises e | ok j ↦ returns j ]
    else on_status_error attempt r

unfoldable pub try_once : ℕ → Attempt → Pass
unfolding on_response
try_once attempt (responded r) = on_response attempt r
try_once attempt (token_refused r) = on_status_error attempt r
try_once attempt (failed e) = raises e

-- `for attempt in range(max_retries)`: the result and the sleeps. `rounds` counts the attempts
-- left, and `send` is what the client gives at each.
unfoldable pub retry_loop : (ℕ → Attempt) → ℕ → ℕ → List ℕ → Result Json × List ℕ
unfolding try_once
retry_loop send zero attempt slept = (
  err (domain_error (provider_error (codes "Ticketmaster") (codes "Max retries exceeded"))),
  slept,
)
retry_loop send (suc rounds) attempt slept = elim (try_once attempt (send attempt)) [
  | returns j ↦ (ok j, slept)
  | raises e ↦ (err e, slept)
  | again n ↦ retry_loop send rounds (attempt + 1) (slept ++ n ∷ [])
]

unfoldable pub request_with_retries : (ℕ → Attempt) → Result Json × List ℕ
unfolding retry_loop
request_with_retries send = retry_loop send max_retries 0 []
