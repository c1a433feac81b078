-- ===== src/Handlers/Queries.antt =====
-- service_layer/handlers.py: `QueryHandler`, over its search port and the read repositories.
pub mod Laws
use ticket_genius.Prelude.{ℕ, Option, none, some, List, [], ◌∷◌, length}
use ticket_genius.Prelude.Int.{ℤ, pos, eqb_ℤ}
use ticket_genius.Prelude.Text.{Text, codes}
use ticket_genius.Python.{Result, ok, err, name_error}
use ticket_genius.Python.Json.{Json}
use ticket_genius.Python.Exec.{Exec, pure, lift, ◌>>=◌}
use ticket_genius.Python.Encoding.{Encoding}
use ticket_genius.Domain.Decimal.{Decimal}
use ticket_genius.Domain.Values.{Uuid}
use ticket_genius.Domain.Order.{Order}
use ticket_genius.Cursor.{Columns}
use ticket_genius.UnitOfWork.{Session, UnitOfWork, exit_ok, exit_raised}
use ticket_genius.Repositories.Read.{
  OrderSummary, PlanDetail, get_order_summary, list_orders, get_plan,
}
use ticket_genius.MessageBus.{SearchPlansQuery, ListOrdersQuery, PlanSearchResult}

module _ (S : Session) where
  -- `with self._uow:`
  abbrev pub leave : {A : Type 0} → Result A × UnitOfWork S → Result A × UnitOfWork S
  leave (err e, u) = (err e, exit_raised S u)
  leave (ok a, u) = let (r, u') = exit_ok S u in (elim r [ err e ↦ err e | ok _ ↦ ok a ], u')

  -- The list of the summaries: handlers.py imports no `PlanSummary`.
  abbrev pub summaries : List Json → Result (List Json)
  summaries [] = ok []
  summaries (e ∷ events) = err (name_error (codes "name 'PlanSummary' is not defined"))

  -- `self._search.search_plans(...)` is a parameter.
  unfoldable pub handle_search_plans :
      (SearchPlansQuery → Result (List Json))
      → SearchPlansQuery
      → Exec (UnitOfWork S) PlanSearchResult
  handle_search_plans search query u = leave (
      (do
        events ← lift (search query)
        plans ← lift (summaries events)
        pure (record {
          plans = plans;
          cursor = none;
          has_more = eqb_ℤ (pos (length events)) query.limit;
        }))
        u)

  module _ (Float : Type 0) (float : Decimal → Float) (columns : Columns Order)
      (enc : Encoding) where
    unfoldable pub handle_get_plan : Uuid → Exec (UnitOfWork S) (Option (PlanDetail Float))
    handle_get_plan i u =
        leave (elim (S.get_plan i u.session) [ err e ↦ err e | ok p ↦ get_plan Float p ], u)

    unfoldable pub handle_get_order : Uuid → Exec (UnitOfWork S) (Option (OrderSummary Float))
    handle_get_order i u = leave (
      elim (S.get_order i u.session) [
        | err e ↦ err e
        | ok o ↦ ok (get_order_summary Float float columns enc o)
      ],
      u,
    )

    -- `listed` is what `query(Order).order_by(...)` gives.
    unfoldable pub handle_list_orders :
        (S.State → List Order) → ListOrdersQuery → Exec (UnitOfWork S) (List (OrderSummary Float))
    unfolding list_orders
    handle_list_orders listed query u = leave (
      ok (
          list_orders Float float columns enc query.customer_email query.cursor query.limit
            (listed u.session)),
      u,
    )
