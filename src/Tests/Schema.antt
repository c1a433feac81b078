-- ===== src/Tests/Schema.antt =====
-- The migration on a database that keeps the list of its tables.
use ticket_genius.Prelude.{
  ◌≡◌, refl, subst, ap, Bool, true, false, not, ◌&&◌, ◌||◌, Option, none, some, List, [], ◌∷◌,
  arith, if◌then◌else◌,
}
use ticket_genius.Prelude.Text.{Text, codes, text_eq, text_eq_iff}
use ticket_genius.Migrations.{
  Column, Table, upgrade, orders_table, payments_table, plans_table, outbox_table,
}
use ticket_genius.Migrations.Mapped.{
  lacking, mapped_orders, mapped_payments, mapped_plans, mapped_outbox,
}
use ticket_genius.Migrations.Laws.{
  Database, names, any_reference, refers_to, execute_all, upgrade_refused,
}

abbrev has : Text → List Table → Bool
has t [] = false
has t (u ∷ us) = text_eq u.name t || has t us

abbrev refers : Text → Text → List Table → Bool
refers u t [] = false
refers u t (v ∷ vs) = (text_eq v.name u && any_reference t v.columns) || refers u t vs

-- Whether what a column references is there, or is the table itself.
abbrev is_there : Text → Option Text → List Table → Bool
is_there name none s = true
is_there name (some t) s = text_eq name t || has t s

abbrev all_there : Text → List Column → List Table → Bool
all_there name [] s = true
all_there name (c ∷ cs) s = is_there name c.references s && all_there name cs s

abbrev create : Table → List Table → Option (List Table)
create table s = if all_there table.name table.columns s then some (table ∷ s) else none

-- Whether another table references a table.
abbrev is_referenced : Text → List Table → Bool
is_referenced t [] = false
is_referenced t (v ∷ vs) =
    (not (text_eq v.name t) && any_reference t v.columns) || is_referenced t vs

abbrev without : Text → List Table → List Table
without t [] = []
without t (v ∷ vs) = let rest = without t vs in if text_eq v.name t then rest else v ∷ rest

abbrev drop : Text → List Table → Option (List Table)
drop t s = if is_referenced t s then none else some (without t s)

is_there-missing :
    (name t : Text) (r : Option Text) (s : List Table)
    → names r t ≡ true
    → text_eq name t ≡ false
    → has t s ≡ false
    → is_there name r s ≡ false
is_there-missing name t none s n own gone = absurd (ground arith)
is_there-missing name t (some u) s n own gone = ground (arith, text_eq_iff u t)

all_there-missing :
    (name t : Text) (cs : List Column) (s : List Table)
    → any_reference t cs ≡ true
    → text_eq name t ≡ false
    → has t s ≡ false
    → all_there name cs s ≡ false
all_there-missing name t [] s r own gone = absurd (ground arith)
all_there-missing name t (c ∷ cs) s r own gone =
    ground (arith, is_there-missing name t c.references s, all_there-missing name t cs s)

refers-is_referenced :
    (t u : Text) (s : List Table)
    → text_eq u t ≡ false
    → refers u t s ≡ true
    → is_referenced t s ≡ true
refers-is_referenced t u [] other r = absurd (ground arith)
refers-is_referenced t u (v ∷ vs) other r =
    ground (arith, refers-is_referenced t u vs, text_eq_iff v.name u)

has-without : (t u : Text) (s : List Table) → has u (without t s) ≡ true → has u s ≡ true
has-without t u [] h = h
has-without t u (v ∷ vs) h = ground (arith, has-without t u vs)

refers-without :
    (t u v : Text) (s : List Table) → refers u v (without t s) ≡ (not (text_eq t u) && refers u v s)
refers-without t u v [] = ground arith
refers-without t u v (w ∷ ws) =
    ground
      (arith, refers-without t u v ws, text_eq_iff w.name t, text_eq_iff w.name u, text_eq_iff t u)

created_as : (table : Table) (s s' : List Table) → create table s ≡ some s' → s' ≡ table ∷ s
created_as table s s' h = ground (arith, h)

created :
    (table : Table) (t : Text) (s s' : List Table)
    → create table s ≡ some s'
    → has t s' ≡ (text_eq table.name t || has t s)
created table t s s' h = rw (created_as table s s' h) refl

refused :
    (table : Table) (t : Text) (s : List Table)
    → refers_to table t ≡ true
    → has t s ≡ false
    → create table s ≡ none
refused table t s r gone =
    rw (all_there-missing table.name t table.columns s (ground (arith, r)) (ground (arith, r)) gone)
      refl

dropped : (t : Text) (s s' : List Table) → drop t s ≡ some s' → s' ≡ without t s
dropped t s s' h = ground (arith, h)

has-dropped :
    (t u : Text) (s s' : List Table) → drop t s ≡ some s' → has u s' ≡ true → has u s ≡ true
has-dropped t u s s' h there =
    has-without t u s (subst (λ d. has u d ≡ true) (dropped t s s' h) there)

same_state : (s s' : List Table) → ◌≡◌ {A = Option (List Table)} (some s) (some s') → s' ≡ s
same_state s s' h = ground (arith, h)

abbrev list_of_tables : Database
list_of_tables = record {
  State = List Table;
  has = has;
  refers = refers;
  create = create;
  index = λ i t cs s. some s;
  drop = drop;
  create_refused = refused;
  has-create = created;
  has-index = λ i t u cs s s' h. ap (has t) (same_state s s' h);
  drop_refused = λ t u s other r. rw (refers-is_referenced t u s other r) refl;
  has-drop = has-dropped;
  refers-drop = λ t u v s s' h. rw (dropped t s s' h) (refers-without t u v s);
}

upgrade_refused_example : execute_all list_of_tables upgrade [] ≡ none
upgrade_refused_example = upgrade_refused list_of_tables [] refl

orders_lack :
    lacking orders_table.columns mapped_orders.columns
    ≡ codes "attendee_name"
      ∷ codes "attendee_email"
      ∷ codes "attendee_phone"
      ∷ codes "seats_json"
      ∷ []
unfolding lacking text_eq
orders_lack = refl

plans_lack : lacking plans_table.columns mapped_plans.columns ≡ codes "seat_prices_json" ∷ []
unfolding lacking text_eq
plans_lack = refl

payments_lack : lacking payments_table.columns mapped_payments.columns ≡ []
unfolding lacking text_eq
payments_lack = refl

outbox_lacks : lacking outbox_table.columns mapped_outbox.columns ≡ []
unfolding lacking text_eq
outbox_lacks = refl
