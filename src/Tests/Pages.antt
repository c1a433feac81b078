-- ===== src/Tests/Pages.antt =====
-- Pages, tables and mappers on concrete rows.
use ticket_genius.Prelude.{
  inl, inr, ◌<◌, if◌then◌else◌, List, [], arith, ltb, none, refl, some, ℕ, ◌*◌, ◌+◌, ◌/◌, ◌==◌, ◌^◌,
  ◌∷◌, ◌≡◌,
}
use ticket_genius.Prelude.Int.{pos, pos_part}
use ticket_genius.Prelude.Text.{Text, codes}
use ticket_genius.Python.{Result, ok, err, domain_error, value_error}
use ticket_genius.Python.Json.{Json, text}
use ticket_genius.Python.Encoding.{Encoding}
use ticket_genius.Domain.Exceptions.{optimistic_lock}
use ticket_genius.Domain.Decimal.{Decimal, of_int}
use ticket_genius.Domain.Money.{eur}
use ticket_genius.Domain.Money.Laws.{cents}
use ticket_genius.Domain.Order
use ticket_genius.Domain.Order.{Order}
use ticket_genius.Domain.Payment.{Payment}
use ticket_genius.Domain.Plan.{Plan}
use ticket_genius.Cursor.{Columns}
use ticket_genius.Cursor.Pages.{Ordering, follow_pages, follow_pages-all}
use ticket_genius.Repositories.Tables.{OrderRow, PaymentRow}
use ticket_genius.Repositories.Write.{orders, update}
use ticket_genius.Repositories.Write.Laws.{update_conflict}
use ticket_genius.Mappers.{load_payment, store_payment}
use ticket_genius.Mappers.Laws.{load_payment-store_payment}
use ticket_genius.Ticketmaster.PlanUpdate.{update_plan_from_ticketmaster}
use ticket_genius.Ticketmaster.PlanUpdate.Laws.{update_plan-from_ticketmaster}
use ticket_genius.Tests.Sample as Sample
use ticket_genius.Tests.Sample.{sample}
use ticket_genius.Tests.Orders.{loaded, captured_payment}
use ticket_genius.Tests.Values.{plan, event, imports}

-- Base 64 is left out, and every text is an UUID.
abbrev pub encoding : Encoding
encoding = record {
  dumps = Sample.dumps;
  loads = Sample.loads;
  loads-dumps = Sample.loads-dumps;
  b64encode = λ s. s;
  b64decode = λ s. ok s;
  b64decode-b64encode = λ s. refl;
  b64encode_given = λ s given. given;
  dumps_given = λ j. refl;
  parse_uuid = λ s. ok s;
}

-- A row is a number, and its sort key the half of it, so that two rows share a key.
abbrev key : ℕ → Text
key row = row / 2 ∷ []

abbrev first_code : Text → ℕ
first_code [] = 0
first_code (c ∷ s) = c

abbrev code_of : Json → ℕ
code_of (text t) = first_code t
code_of j = 0

abbrev columns : Columns ℕ
columns = record {
  id = λ row. row ∷ [];
  sort_key = key;
  sort_lt = λ row j. ltb (row / 2) (code_of j);
  sort_eq = λ row j. row / 2 == code_of j;
  id_lt = λ row i. ltb row (first_code i);
}

abbrev ranks : Ordering columns
ranks = record {
  sort_rank = λ row. row / 2;
  id_rank = λ row. row;
  sort_lt_lem = λ row x. refl;
  sort_eq_lem = λ row x. refl;
  id_lt_lem = λ row x. refl;
}

-- Two rows with one sort key, and an earlier one.
abbrev rows : List ℕ
rows = 5 ∷ 4 ∷ 1 ∷ []

follow_pages-all_example : follow_pages columns encoding 4 2 none rows ≡ rows
follow_pages-all_example =
    follow_pages-all columns encoding ranks rows
      ((inr (refl, omega arith), (inl (omega arith), tt)), ((inl (omega arith), tt), (tt, tt)))
      (λ row. refl) 4 2 (omega arith) (omega arith)

abbrev row : OrderRow
row = record {
  id = codes "o1";
  plan_id = codes "p";
  quantity_value = pos 2;
  amount_cents = 2100;
  currency = eur;
  status = Order.paid;
  payment_id = none;
  version = 3;
  created_at = 0;
  attendee_name = codes "Ann";
  attendee_email = codes "a@b";
  attendee_phone = none;
  seats_json = [];
}

abbrev read_order : Order
read_order = record loaded { order_id = codes "o1"; status = Order.paid; version = 3 }

abbrev others : List OrderRow
others = record row { id = codes "o2" } ∷ []

update_conflict_example :
    let (first, rows', a') = update orders read_order (row ∷ others) in
    update orders read_order rows'
    ≡ (err (domain_error (optimistic_lock (codes "Order") (codes "o1"))), rows', read_order)
update_conflict_example = update_conflict orders read_order read_order (row ∷ others) refl refl

abbrev to_integer : Decimal → Result ℕ
to_integer d =
    let n = pos_part d.mantissa / 10 ^ d.places in
    if ltb n 2147483648 then ok n else err (value_error (codes "out of range"))

to_integer-of_int : (k : ℕ) → k < 2147483648 → to_integer (of_int (pos k)) ≡ ok k
unfolding of_int
to_integer-of_int k small = ground arith

abbrev of_twenty : Payment
of_twenty = record captured_payment { amount = record { amount = of_int (pos 20); currency = eur } }

load_payment-store_payment_example :
    (row : PaymentRow) × (q : Payment) × (store_payment to_integer of_twenty ≡ ok row)
    × (load_payment row ≡ ok q)
    × (cents of_twenty.amount ≡ 100 * 20)
    × (cents q.amount ≡ 20)
load_payment-store_payment_example =
    load_payment-store_payment to_integer of_twenty 20 to_integer-of_int refl (omega arith)

-- A plan that was imported before with other dates, and whose seat prices are NULL.
abbrev old_plan : Plan
old_plan = record plan {
  name = text (codes "Recital");
  date_range = record { start = 3; end = 4; timezone = codes "CET" };
  last_synced_at = 2;
  version = 3;
  seat_prices_json = none;
}

update_plan-from_ticketmaster_example : update_plan_from_ticketmaster sample 9 event old_plan ≡ (
  ok tt,
  record plan {
    plan_id = old_plan.plan_id;
    tm_plan_id = old_plan.tm_plan_id;
    date_range = old_plan.date_range;
    version = old_plan.version + 1;
    seat_prices_json = some [];
  },
)
update_plan-from_ticketmaster_example =
    update_plan-from_ticketmaster sample 9 event old_plan plan imports
