-- ===== src/Repositories/Write.antt =====
-- The `update` methods of adapters/repositories_write.py: UPDATE statements that write a row only
-- where its version is the one of the object.
pub mod Laws
use ticket_genius.Prelude.{
  ℕ, ◌+◌, ◌≡◌, refl, Bool, true, false, ◌&&◌, Option, none, some, List, [], ◌∷◌, ◌==◌,
  if◌then◌else◌,
}
use ticket_genius.Prelude.Text.{Text, codes, text_eq}
use ticket_genius.Python.{Exn, Result, ok, err, domain_error}
use ticket_genius.Domain.Exceptions.{optimistic_lock}
use ticket_genius.Domain.Decimal.{int_hundred}
use ticket_genius.Domain.Values.{Uuid}
use ticket_genius.Domain.Order.{Order}
use ticket_genius.Domain.Payment.{Payment}
use ticket_genius.Domain.Plan.{Plan}
use ticket_genius.Repositories.Tables.{OrderRow, PaymentRow, PlanRow}

-- What an update is about: the rows of a table, the objects of a class, and the columns that
-- `values(...)` sets.
pub record Versioned : Type 1 where
  pub Row : Type 0
  pub Object : Type 0
  pub row_id : Row → Uuid
  pub row_version : Row → ℕ
  pub object_id : Object → Uuid
  pub object_version : Object → ℕ
  pub bump : Object → Object
  pub values : Object → Row → Row
  pub entity : Text
  pub id-values : (o : Object) (r : Row) → row_id (values o r) ≡ row_id r
  pub version-values : (o : Object) (r : Row) → row_version (values o r) ≡ object_version o + 1

module _ (V : Versioned) where
  -- the two `where` clauses
  abbrev pub matches : V.Object → V.Row → Bool
  matches o r = text_eq (V.row_id r) (V.object_id o) && V.row_version r == V.object_version o

  -- UPDATE: how many rows match, and the table after it
  abbrev pub rowcount : V.Object → List V.Row → ℕ
  rowcount o [] = 0
  rowcount o (r ∷ rs) = (if matches o r then 1 else 0) + rowcount o rs

  abbrev pub updated : V.Object → List V.Row → List V.Row
  updated o [] = []
  updated o (r ∷ rs) = (if matches o r then V.values o r else r) ∷ updated o rs

  -- `update`: the table and the object after it
  unfoldable pub update : V.Object → List V.Row → Result (Unit {0}) × List V.Row × V.Object
  update o rows =
      if rowcount o rows == 0
      then (err (domain_error (optimistic_lock V.entity (V.object_id o))), updated o rows, o)
      else (ok tt, updated o rows, V.bump o)

abbrev pub order_values : Order → OrderRow → OrderRow
order_values o r = record r {
  status = o.status;
  payment_id = o.payment_id;
  version = o.version + 1;
}

abbrev pub payment_values : Payment → PaymentRow → PaymentRow
payment_values p r = record r {
  status = p.status;
  provider_ref = p.provider_ref;
  version = p.version + 1;
}

abbrev pub plan_values : Plan → PlanRow → PlanRow
plan_values p r = record r {
  name = p.name;
  url = p.url;
  image_url = p.image_url;
  venue_name = p.venue_name;
  venue_city = p.venue_city;
  venue_state = p.venue_state;
  min_price_cents = int_hundred p.min_price.amount;
  max_price_cents = int_hundred p.max_price.amount;
  currency = p.min_price.currency;
  seat_prices_json = p.seat_prices_json;
  last_synced_at = p.last_synced_at;
  tm_last_modified = p.tm_last_modified;
  version = p.version + 1;
}

abbrev pub orders : Versioned
orders = record {
  Row = OrderRow;
  Object = Order;
  row_id = λ r. r.id;
  row_version = λ r. r.version;
  object_id = λ o. o.order_id;
  object_version = λ o. o.version;
  bump = λ o. record o { version = o.version + 1 };
  values = order_values;
  entity = codes "Order";
  id-values = λ o r. refl;
  version-values = λ o r. refl;
}

abbrev pub payments : Versioned
payments = record {
  Row = PaymentRow;
  Object = Payment;
  row_id = λ r. r.id;
  row_version = λ r. r.version;
  object_id = λ p. p.payment_id;
  object_version = λ p. p.version;
  bump = λ p. record p { version = p.version + 1 };
  values = payment_values;
  entity = codes "Payment";
  id-values = λ p r. refl;
  version-values = λ p r. refl;
}

abbrev pub plans : Versioned
plans = record {
  Row = PlanRow;
  Object = Plan;
  row_id = λ r. r.id;
  row_version = λ r. r.version;
  object_id = λ p. p.plan_id;
  object_version = λ p. p.version;
  bump = λ p. record p { version = p.version + 1 };
  values = plan_values;
  entity = codes "Plan";
  id-values = λ p r. refl;
  version-values = λ p r. refl;
}
