-- ===== src/Entrypoints/Api.antt =====
-- The view functions of entrypoints/api.py. The decorators of flask_apispec are not modelled.
pub mod Laws
use ticket_genius.Prelude.{
  ℕ, Bool, true, false, Option, none, some, List, [], ◌∷◌, ◌++◌, if◌then◌else◌, length,
}
use ticket_genius.Prelude.Int.{ℤ, pos, leb_ℤ}
use ticket_genius.Prelude.Text.{Text, codes, str_ℕ}
use ticket_genius.Python.{Result, ok, err, attribute_error, type_error}
use ticket_genius.Python.Exec.{Exec, ◌>>=◌, ◌>>◌, lift, pure}
use ticket_genius.Python.Json.{
  Json, text, number, bool, null, obj, arr, items, end, fields, get, item, truthy,
}
use ticket_genius.Python.Std.{Std}
use ticket_genius.Domain.Decimal.{Decimal, of_int}
use ticket_genius.Domain.Values.{Uuid, Datetime}
use ticket_genius.MessageBus.{
  Command, Query, Method, Reply, count, create_order, confirm_payment, cancel_order, refund_order,
  sync_plans, search_plans, get_order, get_plan, handle_command, handle_query,
}
use ticket_genius.Entrypoints.Schemas.{Pydantic}
use ticket_genius.Entrypoints.Responses.{
  Body, json, empty, Response, on_exception, not_found, refund_amount, is_missing, plans_of,
}
use ticket_genius.Entrypoints.Requests.{
  SearchArgs, Request, post_order, post_confirmation, post_refund, delete_order, order_status,
  plan_details, search, post_sync, health, query_params, since_of, or_empty,
}

module _ {W : Type 0} (commands : Method → Command → Exec W Reply)
    (queries : Method → Query → Exec W Reply) (py : Pydantic) (std : Std) where
  abbrev bus : Command → Exec W Reply
  bus = handle_command commands queries

  abbrev ask : Query → Exec W Reply
  ask = handle_query commands queries

  abbrev json_response : ℕ → Json → Response
  json_response status j = record { status = status; body = json j }

  abbrev no_content : Response
  no_content = record { status = 204; body = empty }

  unfoldable pub create_order_view : Json → Exec W Response
  create_order_view body = do
    request ← lift (py.create_order_request body)
    result ← bus (
        create_order (record {
          plan_id = request.plan_id;
          quantity = request.quantity;
          attendee_info = request.attendee_info;
          seat_ids = request.seat_ids;
        }))
    dumped ← lift (py.dump result)
    pure (json_response 201 dumped)

  unfoldable pub confirm_payment_view : Uuid → Json → Exec W Response
  confirm_payment_view order_id body = do
    request ← lift (py.confirm_payment_request body)
    result ← bus (
        confirm_payment (record {
          order_id = order_id;
          payment_intent_id = request.payment_intent_id;
          idempotency_key = request.idempotency_key;
        }))
    dumped ← lift (py.dump result)
    pure (json_response 200 dumped)

  abbrev dumped_or_missing : Text → Text → Text → Reply → Exec W Response
  dumped_or_missing path title detail result =
      if is_missing result
      then pure (not_found path title detail)
      else (do dumped ← lift (py.dump result); pure (json_response 200 dumped))

  unfoldable pub get_order_view : Text → Uuid → Exec W Response
  get_order_view path order_id = do
    result ← ask (get_order order_id)
    dumped_or_missing path (codes "Order Not Found")
        (codes "Order " ++ (order_id ++ codes " not found")) result

  unfoldable pub cancel_order_view : Uuid → Json → Exec W Response
  cancel_order_view order_id body = do
    request ← lift (py.cancel_order_request body)
    _ ← bus (cancel_order (record { order_id = order_id; reason = request.reason }))
    pure no_content

  unfoldable pub refund_order_view : Uuid → Json → Exec W Response
  unfolding refund_amount
  refund_order_view order_id body = do
    request ← lift (py.refund_order_request body)
    amount ← lift (refund_amount request.amount)
    _ ← bus (refund_order (record { order_id = order_id; amount = amount }))
    pure no_content

  unfoldable pub search_plans_view : SearchArgs → Exec W Response
  unfolding query_params plans_of
  search_plans_view a = do
    request ← lift (py.search_plans_request (query_params a))
    result ← ask (
        search_plans (record {
          query = request.query;
          lat = request.lat;
          lon = request.lon;
          radius_km = request.radius_km;
          date_from = request.date_from;
          date_to = request.date_to;
          min_price = request.min_price;
          max_price = request.max_price;
          cursor = request.cursor;
          limit = request.limit;
        }))
    plans ← lift (plans_of result)
    pure (
        json_response 200 (
          obj (
            fields (
              (codes "plans", arr (items plans))
              ∷ (codes "cursor", null)
              ∷ (codes "has_more", bool (leb_ℤ request.limit (pos (length plans))))
              ∷ []))))

  unfoldable pub get_plan_view : Text → Uuid → Exec W Response
  get_plan_view path plan_id = do
    result ← ask (get_plan plan_id)
    dumped_or_missing path (codes "Plan Not Found")
        (codes "Plan " ++ (plan_id ++ codes " not found")) result

  -- `SyncPlansResponse(synced_count=synced, ...)`
  abbrev synced_response : Reply → Exec W Response
  synced_response (count n) = pure (
      json_response 200 (
        obj (
          fields (
            (codes "synced_count", number (of_int (pos n)))
            ∷ (codes "message", text (codes "Synced " ++ (str_ℕ n ++ codes " plans")))
            ∷ []))))
  synced_response r = lift (err (type_error (codes "synced_count is no number")))

  unfoldable pub sync_plans_view : Json → Exec W Response
  unfolding since_of
  sync_plans_view body = do
    since ← lift (since_of std (or_empty body))
    stale_only ← lift (get (codes "stale_only") (bool false) (or_empty body))
    synced ← bus (sync_plans (record { since = since; stale_only = truthy stale_only }))
    synced_response synced

  -- `/health` of the blueprint
  abbrev pub health_view : Exec W Response
  health_view = pure (json_response 200 (obj (fields ((codes "status", text (codes "ok")) ∷ []))))

  unfoldable pub view : Text → Request → Exec W Response
  view path (post_order body) = create_order_view body
  view path (post_confirmation order_id body) = confirm_payment_view order_id body
  view path (post_refund order_id body) = refund_order_view order_id body
  view path (delete_order order_id body) = cancel_order_view order_id body
  view path (order_status order_id) = get_order_view path order_id
  view path (plan_details plan_id) = get_plan_view path plan_id
  view path (search a) = search_plans_view a
  view path (post_sync body) = sync_plans_view body
  view path health = health_view

  abbrev pub answer : Text → Result Response × W → Response × W
  answer path (ok r, w) = (r, w)
  answer path (err e, w) = (on_exception path e, w)

  -- A request of the blueprint: the view, and the error handlers around it.
  unfoldable pub respond : Text → Request → W → Response × W
  unfolding view
  respond path request w = answer path (view path request w)
