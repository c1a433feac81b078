-- ===== src/Migrations/Mapped.antt =====
-- adapters/orm.py: the columns of the mapped tables, and those of them that a created table lacks.
use ticket_genius.Prelude.{Bool, false, ◌||◌, List, [], ◌∷◌, if◌then◌else◌}
use ticket_genius.Prelude.Text.{Text, codes, text_eq}
use ticket_genius.Migrations.{
  Column, Table, string, integer, timestamp, json, uuid, currency_enum, required, optional, key_of,
}

abbrev pub mapped_orders : Table
mapped_orders = record {
  name = codes "orders";
  columns =
      required (codes "id") uuid
      ∷ key_of (required (codes "plan_id") uuid) (codes "plans")
      ∷ required (codes "quantity_value") integer
      ∷ required (codes "amount_cents") integer
      ∷ required (codes "currency") currency_enum
      ∷ required (codes "status") (string 30)
      ∷ key_of (optional (codes "payment_id") uuid) (codes "payments")
      ∷ required (codes "version") integer
      ∷ required (codes "created_at") timestamp
      ∷ required (codes "updated_at") timestamp
      ∷ optional (codes "attendee_name") (string 255)
      ∷ optional (codes "attendee_email") (string 255)
      ∷ optional (codes "attendee_phone") (string 50)
      ∷ optional (codes "seats_json") json
      ∷ [];
}

abbrev pub mapped_payments : Table
mapped_payments = record {
  name = codes "payments";
  columns =
      required (codes "id") uuid
      ∷ key_of (required (codes "order_id") uuid) (codes "orders")
      ∷ required (codes "amount_cents") integer
      ∷ required (codes "currency") currency_enum
      ∷ required (codes "provider") (string 50)
      ∷ required (codes "status") (string 30)
      ∷ optional (codes "provider_ref") (string 255)
      ∷ optional (codes "intent_id") (string 255)
      ∷ required (codes "version") integer
      ∷ required (codes "created_at") timestamp
      ∷ required (codes "updated_at") timestamp
      ∷ [];
}

abbrev pub mapped_plans : Table
mapped_plans = record {
  name = codes "plans";
  columns =
      required (codes "id") uuid
      ∷ required (codes "tm_plan_id") (string 100)
      ∷ required (codes "name") (string 500)
      ∷ required (codes "url") (string 1000)
      ∷ optional (codes "image_url") (string 1000)
      ∷ required (codes "start_date") timestamp
      ∷ required (codes "end_date") timestamp
      ∷ required (codes "timezone") (string 50)
      ∷ required (codes "venue_name") (string 255)
      ∷ required (codes "venue_city") (string 100)
      ∷ required (codes "venue_state") (string 100)
      ∷ required (codes "min_price_cents") integer
      ∷ required (codes "max_price_cents") integer
      ∷ required (codes "currency") currency_enum
      ∷ optional (codes "seat_prices_json") json
      ∷ required (codes "last_synced_at") timestamp
      ∷ required (codes "tm_last_modified") timestamp
      ∷ required (codes "version") integer
      ∷ required (codes "created_at") timestamp
      ∷ required (codes "updated_at") timestamp
      ∷ [];
}

abbrev pub mapped_outbox : Table
mapped_outbox = record {
  name = codes "outbox";
  columns =
      required (codes "id") uuid
      ∷ required (codes "aggregate_id") uuid
      ∷ required (codes "aggregate_type") (string 50)
      ∷ required (codes "event_type") (string 100)
      ∷ required (codes "payload") json
      ∷ required (codes "created_at") timestamp
      ∷ optional (codes "processed_at") timestamp
      ∷ required (codes "retry_count") integer
      ∷ [];
}

abbrev has_column : Text → List Column → Bool
has_column name [] = false
has_column name (c ∷ cs) = text_eq c.name name || has_column name cs

-- The names of the columns that a created table lacks.
unfoldable pub lacking : List Column → List Column → List Text
lacking created [] = []
lacking created (c ∷ cs) =
    let rest = lacking created cs in if has_column c.name created then rest else c.name ∷ rest
