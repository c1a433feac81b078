-- ===== src/Migrations.antt =====
-- migrations/versions/6e20502a83a3_initial_migration_orders_payments_plans_.py: the tables that the
-- migration creates, and the statements of its upgrade and its downgrade in their order.
pub mod Mapped
pub mod Laws
use ticket_genius.Prelude.{
  ℕ, ◌≡◌, Bool, true, false, not, ◌&&◌, ◌||◌, Option, none, some, List, [], ◌∷◌, if◌then◌else◌,
}
use ticket_genius.Prelude.Text.{Text, codes, text_eq}

pub data ColumnType : Type 0 where
  string : ℕ → ColumnType
  integer timestamp json uuid currency_enum : ColumnType

-- A column, whether it may be null, and the table that its foreign key references.
pub record Column : Type 0 where
  pub name : Text
  pub kind : ColumnType
  pub nullable : Bool
  pub references : Option Text

pub record Table : Type 0 where
  pub name : Text
  pub columns : List Column

pub data Statement : Type 0 where
  create_table : Table → Statement
  create_index : Text → Text → List Text → Statement
  drop_table : Text → Statement

abbrev pub required : Text → ColumnType → Column
required name kind = record { name = name; kind = kind; nullable = false; references = none }

abbrev pub optional : Text → ColumnType → Column
optional name kind = record { name = name; kind = kind; nullable = true; references = none }

abbrev pub key_of : Column → Text → Column
key_of c table = record c { references = some table }

abbrev id_column : Column
id_column = required (codes "id") (string 36)

abbrev order_key : Column
order_key = key_of (required (codes "order_id") (string 36)) (codes "orders")

abbrev pub plans_table : Table
plans_table = record {
  name = codes "plans";
  columns =
      id_column
      ∷ required (codes "tm_plan_id") (string 100)
      ∷ required (codes "name") (string 500)
      ∷ required (codes "url") (string 1000)
      ∷ optional (codes "image_url") (string 1000)
      ∷ required (codes "start_date") timestamp
      ∷ required (codes "end_date") timestamp
      ∷ required (codes "timezone") (string 50)
      ∷ required (codes "venue_name") (string 255)
      ∷ required (codes "venue_city") (string 100)
      ∷ required (codes "venue_state") (string 100)
      ∷ required (codes "min_price_cents") integer
      ∷ required (codes "max_price_cents") integer
      ∷ required (codes "currency") (string 3)
      ∷ required (codes "last_synced_at") timestamp
      ∷ required (codes "tm_last_modified") timestamp
      ∷ required (codes "version") integer
      ∷ required (codes "created_at") timestamp
      ∷ required (codes "updated_at") timestamp
      ∷ [];
}

abbrev pub orders_table : Table
orders_table = record {
  name = codes "orders";
  columns =
      id_column
      ∷ key_of (required (codes "plan_id") (string 36)) (codes "plans")
      ∷ required (codes "quantity_value") integer
      ∷ required (codes "amount_cents") integer
      ∷ required (codes "currency") (string 3)
      ∷ required (codes "status") (string 30)
      ∷ key_of (optional (codes "payment_id") (string 36)) (codes "payments")
      ∷ required (codes "version") integer
      ∷ required (codes "created_at") timestamp
      ∷ required (codes "updated_at") timestamp
      ∷ [];
}

abbrev pub payments_table : Table
payments_table = record {
  name = codes "payments";
  columns =
      id_column
      ∷ order_key
      ∷ required (codes "amount_cents") integer
      ∷ required (codes "currency") (string 3)
      ∷ required (codes "provider") (string 50)
      ∷ required (codes "status") (string 30)
      ∷ optional (codes "provider_ref") (string 255)
      ∷ optional (codes "intent_id") (string 255)
      ∷ required (codes "version") integer
      ∷ required (codes "created_at") timestamp
      ∷ required (codes "updated_at") timestamp
      ∷ [];
}

abbrev pub attendees_table : Table
attendees_table = record {
  name = codes "attendees";
  columns =
      id_column
      ∷ order_key
      ∷ required (codes "name") (string 255)
      ∷ required (codes "email") (string 255)
      ∷ optional (codes "phone") (string 50)
      ∷ [];
}

abbrev pub seats_table : Table
seats_table = record {
  name = codes "seats";
  columns =
      id_column
      ∷ order_key
      ∷ required (codes "section") (string 50)
      ∷ required (codes "row") (string 50)
      ∷ required (codes "number") (string 50)
      ∷ [];
}

abbrev pub outbox_table : Table
outbox_table = record {
  name = codes "outbox";
  columns =
      id_column
      ∷ required (codes "aggregate_id") (string 36)
      ∷ required (codes "aggregate_type") (string 50)
      ∷ required (codes "event_type") (string 100)
      ∷ required (codes "payload") json
      ∷ required (codes "created_at") timestamp
      ∷ optional (codes "processed_at") timestamp
      ∷ required (codes "retry_count") integer
      ∷ [];
}

unfoldable pub upgrade : List Statement
upgrade =
    create_table plans_table
    ∷ create_index (codes "ix_plans_tm_plan_id") (codes "plans") (codes "tm_plan_id" ∷ [])
    ∷ create_index (codes "ix_plans_date_range") (codes "plans")
        (codes "start_date" ∷ codes "end_date" ∷ [])
    ∷ create_index (codes "ix_plans_venue_city") (codes "plans") (codes "venue_city" ∷ [])
    ∷ create_table orders_table
    ∷ create_index (codes "ix_orders_plan_id") (codes "orders") (codes "plan_id" ∷ [])
    ∷ create_index (codes "ix_orders_status") (codes "orders") (codes "status" ∷ [])
    ∷ create_index (codes "ix_orders_payment_id") (codes "orders") (codes "payment_id" ∷ [])
    ∷ create_table payments_table
    ∷ create_index (codes "ix_payments_order_id") (codes "payments") (codes "order_id" ∷ [])
    ∷ create_index (codes "ix_payments_status") (codes "payments") (codes "status" ∷ [])
    ∷ create_table attendees_table
    ∷ create_index (codes "ix_attendees_order_id") (codes "attendees") (codes "order_id" ∷ [])
    ∷ create_table seats_table
    ∷ create_index (codes "ix_seats_order_id") (codes "seats") (codes "order_id" ∷ [])
    ∷ create_table outbox_table
    ∷ create_index (codes "ix_outbox_unprocessed") (codes "outbox") (codes "processed_at" ∷ [])
    ∷ create_index (codes "ix_outbox_aggregate") (codes "outbox")
        (codes "aggregate_id" ∷ codes "aggregate_type" ∷ [])
    ∷ []

unfoldable pub downgrade : List Statement
downgrade =
    drop_table (codes "outbox")
    ∷ drop_table (codes "seats")
    ∷ drop_table (codes "attendees")
    ∷ drop_table (codes "payments")
    ∷ drop_table (codes "orders")
    ∷ drop_table (codes "plans")
    ∷ []
