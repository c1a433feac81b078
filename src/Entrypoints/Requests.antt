-- ===== src/Entrypoints/Requests.antt =====
-- The requests of entrypoints/api.py as its views find them: a body as `request.get_json()` gives
-- it, and an argument of the search as `request.args.get` gives it, with `None` for a text that the
-- type does not read.
use ticket_genius.Prelude.{Option, none, some, List, [], ◌∷◌, ◌++◌, if◌then◌else◌}
use ticket_genius.Prelude.Int.{ℤ, pos}
use ticket_genius.Prelude.Text.{Text, codes}
use ticket_genius.Python.{Result, ok, err, type_error}
use ticket_genius.Python.Json.{Json, text, number, null, obj, end, fields, get, truthy}
use ticket_genius.Python.Std.{Std}
use ticket_genius.Domain.Decimal.{Decimal, of_int}
use ticket_genius.Domain.Values.{Uuid, Datetime}

pub record SearchArgs : Type 0 where
  pub q : Option Text
  pub lat : Option Decimal
  pub lon : Option Decimal
  pub radius_km : Option ℤ
  pub date_from : Option Text
  pub date_to : Option Text
  pub min_price : Option Decimal
  pub max_price : Option Decimal
  pub cursor : Option Text
  pub limit : Option ℤ

-- A request of one of the routes.
pub data Request : Type 0 where
  post_order : Json → Request
  post_confirmation post_refund delete_order : Uuid → Json → Request
  order_status plan_details : Uuid → Request
  search : SearchArgs → Request
  post_sync : Json → Request
  health : Request

abbrev given : Text → Option Json → List (Text × Json)
given k none = []
given k (some j) = (k, j) ∷ []

abbrev as_text : Option Text → Option Json
as_text none = none
as_text (some t) = some (text t)

abbrev as_number : Option Decimal → Option Json
as_number none = none
as_number (some d) = some (number d)

abbrev as_int : Option ℤ → Option Json
as_int none = none
as_int (some n) = some (number (of_int n))

-- `query_params` without its `None` values; the limit has the default 20
unfoldable pub query_params : SearchArgs → Json
query_params a = obj (
    fields (
      given (codes "query") (as_text a.q)
      ++ (given (codes "lat") (as_number a.lat)
          ++ (given (codes "lon") (as_number a.lon)
              ++ (given (codes "radius_km") (as_int a.radius_km)
                  ++ (given (codes "date_from") (as_text a.date_from)
                      ++ (given (codes "date_to") (as_text a.date_to)
                          ++ (given (codes "min_price") (as_number a.min_price)
                              ++ (given (codes "max_price") (as_number a.max_price)
                                  ++ (given (codes "cursor") (as_text a.cursor)
                                      ++ given (codes "limit") (
                                          as_int (elim a.limit [
                                            | none ↦ some (pos 20)
                                            | some n ↦ some n
                                          ]))))))))))))

-- `datetime.fromisoformat(data["since"]) if data.get("since") else None`
unfoldable pub since_of : Std → Json → Result (Option Datetime)
since_of std j = elim (get (codes "since") null j) [
  | err e ↦ err e
  | ok (text t) ↦
      if truthy (text t)
      then elim (std.fromisoformat t) [ err e ↦ err e | ok d ↦ ok (some d) ]
      else ok none
  | ok s ↦
      if truthy s then err (type_error (codes "fromisoformat: argument must be str")) else ok none
]

-- `request.get_json() or {}`
abbrev pub or_empty : Json → Json
or_empty j = if truthy j then j else obj end
