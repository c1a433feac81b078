-- ===== src/Repositories/Search.antt =====
-- adapters/repositories_read.py: the search of plans in the database, with `PlanSearchQuery` and
-- `PlanSummary` of domain/repositories.py. The query's list has its order, newest start first; how
-- the database compares, and how a date is shown, are parameters.
pub mod Laws
use ticket_genius.Prelude.{
  ℕ, Bool, true, false, Option, none, some, List, [], map, take, is_empty, if◌then◌else◌,
}
use ticket_genius.Prelude.Text.{Text}
use ticket_genius.Python.Encoding.{Encoding}
use ticket_genius.Python.Json.{Json}
use ticket_genius.Domain.Decimal.{Decimal}
use ticket_genius.Domain.Money.{currency_value}
use ticket_genius.Domain.Values.{Uuid, Datetime}
use ticket_genius.Domain.Plan.{Plan}
use ticket_genius.Cursor.{Columns, filter, apply_cursor_filter}

-- The fields that the search reads.
pub record PlanSearchQuery : Type 0 where
  pub query : Option Text
  pub date_from : Option Text
  pub date_to : Option Text
  pub cursor : Option Text
  pub limit : ℕ

pub record PlanSummary (Float : Type 0) : Type 0 where
  pub plan_id : Uuid
  pub name : Json
  pub url : Json
  pub image_url : Json
  pub start_date : Text
  pub start_time : Text
  pub timezone : Text
  pub venue_name : Json
  pub venue_city : Json
  pub venue_state : Json
  pub min_price : Float
  pub max_price : Float
  pub currency : Text

pub record Database : Type 0 where
  -- `Plan.name.ilike(f"%{query}%")`, and `>=` and `<=` of a date and a text
  pub ilike : Text → Json → Bool
  pub not_before : Text → Datetime → Bool
  pub not_after : Text → Datetime → Bool
  -- `isoformat()` and `strftime("%H:%M")`
  pub iso : Datetime → Text
  pub clock : Datetime → Text

module _ (Float : Type 0) (float : Decimal → Float) (db : Database) (columns : Columns Plan)
    (enc : Encoding) where
  -- `if text: q = q.filter(...)`
  abbrev pub passes : (Text → Plan → Bool) → Option Text → Plan → Bool
  passes test none p = true
  passes test (some t) p = if is_empty t then true else test t p

  abbrev pub by_name : PlanSearchQuery → Plan → Bool
  by_name q = passes (λ t p. db.ilike t p.name) q.query

  abbrev pub by_start : PlanSearchQuery → Plan → Bool
  by_start q = passes (λ t p. db.not_before t p.date_range.start) q.date_from

  abbrev pub by_end : PlanSearchQuery → Plan → Bool
  by_end q = passes (λ t p. db.not_after t p.date_range.start) q.date_to

  -- the plans behind `q.limit(query.limit).all()`
  unfoldable pub found_plans : PlanSearchQuery → List Plan → List Plan
  unfolding apply_cursor_filter
  found_plans q plans =
      take q.limit
        (apply_cursor_filter columns enc
          (filter columns (by_end q)
            (filter columns (by_start q) (filter columns (by_name q) plans)))
          q.cursor).0

  abbrev pub plan_summary : Plan → PlanSummary Float
  plan_summary p = record {
    plan_id = p.plan_id;
    name = p.name;
    url = p.url;
    image_url = p.image_url;
    start_date = db.iso p.date_range.start;
    start_time = db.clock p.date_range.start;
    timezone = p.date_range.timezone;
    venue_name = p.venue_name;
    venue_city = p.venue_city;
    venue_state = p.venue_state;
    min_price = float p.min_price.amount;
    max_price = float p.max_price.amount;
    currency = currency_value p.min_price.currency;
  }

  unfoldable pub search_plans : PlanSearchQuery → List Plan → List (PlanSummary Float)
  unfolding found_plans
  search_plans q plans = map plan_summary (found_plans q plans)
