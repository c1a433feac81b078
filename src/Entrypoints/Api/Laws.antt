-- ===== src/Entrypoints/Api/Laws.antt =====
-- How requests are answered.
use ticket_genius.Prelude.{ltb, Bool, ◌≤◌, ◌≡◌, refl, true, false, some, arith}
use ticket_genius.Prelude.Text.{Text, codes, contains, lower, starts_with}
use ticket_genius.Python.{Exn, Result, ok, err, is_ok}
use ticket_genius.Python.Exec.{Exec}
use ticket_genius.Python.Json.{Json}
use ticket_genius.Python.Std.{Std}
use ticket_genius.MessageBus.{Command, Query, Method, Reply, handle_command, handle_query}
use ticket_genius.Entrypoints.Schemas.{Pydantic, CreateOrderRequest}
use ticket_genius.Entrypoints.Responses.{Response, error, handle_value_error, on_exception}
use ticket_genius.Entrypoints.Requests.{
  Request, post_order, post_confirmation, post_refund, delete_order, order_status, plan_details,
  search, post_sync, health,
}
use ticket_genius.Entrypoints.Api.{
  view, respond, answer, create_order_view, confirm_payment_view, get_order_view, cancel_order_view,
  refund_order_view, search_plans_view, get_plan_view, sync_plans_view,
}

on_exception-status : (path : Text) (e : Exn) → 400 ≤ (on_exception path e).status
unfolding on_exception
on_exception-status path e = ground arith

module _ {W : Type 0} (commands : Method → Command → Exec W Reply)
    (queries : Method → Query → Exec W Reply) (py : Pydantic) (std : Std) where
  abbrev pub is_health : Request → Bool
  is_health health = true
  is_health request = false

  -- A view that returns just for the health check, with the status 200, and changes nothing.
  abbrev RaisesUnless : Bool → Exec W Response → Type 0
  RaisesUnless returns m =
      (w : W)
      → (is_ok (m w).0 ≡ returns)
        × ((m w).1 ≡ w)
        × ((r : Response) → (m w).0 ≡ ok r → r.status ≡ 200)

  view-RaisesUnless :
      (path : Text) (request : Request)
      → RaisesUnless (is_health request) (view commands queries py std path request)
  unfolding view create_order_view confirm_payment_view get_order_view cancel_order_view
      refund_order_view search_plans_view get_plan_view sync_plans_view handle_command handle_query
  view-RaisesUnless path (post_order body) w = ground arith
  view-RaisesUnless path (post_confirmation order_id body) w = ground arith
  view-RaisesUnless path (post_refund order_id body) w = ground arith
  view-RaisesUnless path (delete_order order_id body) w = ground arith
  view-RaisesUnless path (order_status order_id) w = ground arith
  view-RaisesUnless path (plan_details plan_id) w = ground arith
  view-RaisesUnless path (search a) w = ground arith
  view-RaisesUnless path (post_sync body) w = ground arith
  view-RaisesUnless path health w = ground arith

  -- Whatever the handlers, the database and the provider would do, a request of a route of the API
  -- is answered with a status under 400 just if it is the health check, and no request changes
  -- anything: every request for an order, a payment or a plan is answered with an error.
  pub only_health_succeeds :
      (path : Text) (request : Request) (w : W)
      → let (response, after) = respond commands queries py std path request w in
        (ltb response.status 400 ≡ is_health request) × (after ≡ w)
  unfolding respond
  only_health_succeeds path request w =
      go (is_health request) (view commands queries py std path request w)
        (view-RaisesUnless path request w)
    where
      go :
          (returns : Bool) (done : Result Response × W)
          → (is_ok done.0 ≡ returns)
            × (done.1 ≡ w)
            × ((r : Response) → done.0 ≡ ok r → r.status ≡ 200)
          → let (response, after) = answer commands queries py std path done in
            (ltb response.status 400 ≡ returns) × (after ≡ w)
      go returns (ok r, w') (e, same, status) = (ground (arith, e, status r refl), same)
      go returns (err x, w') (e, same, status) =
          (ground (arith, e, on_exception-status path x), same)

  -- A request for a new order that is valid is answered with 400 and the text that the bus gives for
  -- a command that it does not know.
  pub valid_order_refused :
      (path : Text) (body : Json) (request : CreateOrderRequest) (w : W)
      → py.create_order_request body ≡ ok request
      → let response = (respond commands queries py std path (post_order body) w).0 in
        (response.status ≡ 400)
        × (response.body
            ≡ error (record {
              type_ = codes "bad_request";
              title = codes "Bad Request";
              status = 400;
              detail = codes "Unknown command: CreateOrderCommand";
              instance_ = some path;
            }))
  unfolding respond view create_order_view handle_command handle_value_error on_exception contains
      lower starts_with
  valid_order_refused path body request w valid = ground arith
