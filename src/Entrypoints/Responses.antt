-- ===== src/Entrypoints/Responses.antt =====
-- The responses of entrypoints/api.py: the error handlers, and what a view computes by itself.
use ticket_genius.Prelude.{
  ℕ, Bool, true, false, not, Option, none, some, List, ◌++◌, if◌then◌else◌, ◌==◌,
}
use ticket_genius.Prelude.Text.{Text, codes, contains, lower, text_eq}
use ticket_genius.Python.{Exn, Result, ok, err, value_error, type_error, ◌>>=◌}
use ticket_genius.Python.Json.{Json, arr, to_list, truthy}
use ticket_genius.Domain.Money.{Money, Currency, eur, usd, gbp, RawAmount, make_money}
use ticket_genius.MessageBus.{Reply, found, searched, count}
use ticket_genius.Entrypoints.Schemas.{MoneySchema, ErrorResponse}

-- A response: a JSON body, an error's body, or no body.
pub data Body : Type 0 where
  json : Json → Body
  error : ErrorResponse → Body
  empty : Body

pub record Response : Type 0 where
  pub status : ℕ
  pub body : Body

abbrev error_response : ErrorResponse → Response
error_response e = record { status = e.status; body = error e }

-- `internal_error`, which Flask calls with any exception that has no handler of its own
unfoldable pub internal_error : Text → Response
internal_error path = error_response (record {
  type_ = codes "https://tools.ietf.org/html/rfc7231#section-6.6.1";
  title = codes "Internal Server Error";
  status = 500;
  detail = codes "An unexpected error occurred";
  instance_ = some path;
})

-- `handle_value_error`
unfoldable pub handle_value_error : Text → Text → Response
handle_value_error path message =
    if contains (codes "not found") (lower message)
    then error_response (record {
      type_ = codes "not_found";
      title = codes "Not Found";
      status = 404;
      detail = message;
      instance_ = some path;
    })
    else error_response (record {
      type_ = codes "bad_request";
      title = codes "Bad Request";
      status = 400;
      detail = message;
      instance_ = some path;
    })

-- Which handler answers an exception of a view: a domain exception is no `ValueError`.
unfoldable pub on_exception : Text → Exn → Response
unfolding internal_error handle_value_error
on_exception path (value_error m) = handle_value_error path m
on_exception path e = internal_error path

-- The answer of a query that gave nothing.
unfoldable pub not_found : Text → Text → Text → Response
not_found path title detail = error_response (record {
  type_ = codes "not_found";
  title = title;
  status = 404;
  detail = detail;
  instance_ = some path;
})

-- `Currency(value)`
unfoldable pub currency_of : Text → Result Currency
currency_of t =
    if text_eq t (codes "EUR")
    then ok eur
    else if text_eq t (codes "USD")
    then ok usd
    else if text_eq t (codes "GBP")
    then ok gbp
    else err (value_error (t ++ codes " is not a valid Currency"))

-- `Money(amount=data.amount.amount, currency=Currency(data.amount.currency))`
unfoldable pub refund_amount : Option MoneySchema → Result (Option Money)
refund_amount none = ok none
refund_amount (some m) = do
  currency ← currency_of m.currency
  amount ← make_money (RawAmount.decimal m.amount) currency
  ok (some amount)

-- `not result`
abbrev pub is_missing : Reply → Bool
is_missing Reply.nothing = true
is_missing (found j) = not (truthy j)
is_missing (count n) = n == 0
is_missing r = false

-- `len(result)` of what a search gave, and the plans that it lists
unfoldable pub plans_of : Reply → Result (List Json)
plans_of (found (arr js)) = ok (to_list js)
plans_of (searched r) = err (type_error (codes "'PlanSearchResult' object is not iterable"))
plans_of r = err (type_error (codes "object is not iterable"))
