-- ===== src/Migrations/Laws.antt =====
-- How the migration runs on a database that checks references, as PostgreSQL does.
use ticket_genius.Prelude.{
  ◌≡◌, refl, ◌∙◌, Bool, true, false, not, ◌&&◌, ◌||◌, Option, none, some, List, [], ◌∷◌, arith,
}
use ticket_genius.Prelude.Text.{Text, codes, text_eq, text_eq_iff}
use ticket_genius.Migrations.{
  Column, Table, Statement, create_table, create_index, drop_table, upgrade, downgrade,
}

abbrev pub names : Option Text → Text → Bool
names none t = false
names (some u) t = text_eq u t

-- Whether a column of a table references another table.
abbrev pub any_reference : Text → List Column → Bool
any_reference t [] = false
any_reference t (c ∷ cs) = names c.references t || any_reference t cs

abbrev pub refers_to : Table → Text → Bool
refers_to table t = not (text_eq table.name t) && any_reference t table.columns

-- A database: its tables, and which of them reference which. A statement that it refuses is `none`.
pub record Database : Type 1 where
  pub State : Type 0
  pub has : Text → State → Bool
  pub refers : Text → Text → State → Bool
  pub create : Table → State → Option State
  pub index : Text → Text → List Text → State → Option State
  pub drop : Text → State → Option State
  -- a table is not created that references one that is not there
  pub create_refused :
      (table : Table) (t : Text) (s : State)
      → refers_to table t ≡ true
      → has t s ≡ false
      → create table s ≡ none
  pub has-create :
      (table : Table) (t : Text) (s s' : State)
      → create table s ≡ some s'
      → has t s' ≡ (text_eq table.name t || has t s)
  pub has-index :
      (i t u : Text) (cs : List Text) (s s' : State) → index i u cs s ≡ some s' → has t s' ≡ has t s
  -- a table is not dropped that another one references
  pub drop_refused :
      (t u : Text) (s : State) → text_eq u t ≡ false → refers u t s ≡ true → drop t s ≡ none
  pub has-drop : (t u : Text) (s s' : State) → drop t s ≡ some s' → has u s' ≡ true → has u s ≡ true
  pub refers-drop :
      (t u v : Text) (s s' : State)
      → drop t s ≡ some s'
      → refers u v s' ≡ (not (text_eq t u) && refers u v s)

abbrev pub and_then : {A : Type 0} → Option A → (A → Option A) → Option A
and_then none next = none
and_then (some a) next = next a

module _ (D : Database) where
  abbrev pub execute : Statement → D.State → Option D.State
  execute (create_table table) s = D.create table s
  execute (create_index i t cs) s = D.index i t cs s
  execute (drop_table t) s = D.drop t s

  -- The statements in their order, up to one that is refused.
  abbrev pub execute_all : List Statement → D.State → Option D.State
  execute_all [] s = some s
  execute_all (st ∷ sts) s = and_then (execute st s) (execute_all sts)

  -- A statement that leads to states in which what follows is refused is refused with it.
  and_then-none :
      (r : Option D.State) (next : D.State → Option D.State)
      → ((s' : D.State) → r ≡ some s' → next s' ≡ none)
      → and_then r next ≡ none
  and_then-none none next h = refl
  and_then-none (some s') next h = h s' refl

  -- Whether a table is referenced before it is created.
  abbrev pub references_early : Text → List Statement → Bool
  references_early t [] = false
  references_early t (create_table table ∷ sts) =
      refers_to table t || (not (text_eq table.name t) && references_early t sts)
  references_early t (create_index i u cs ∷ sts) = references_early t sts
  references_early t (drop_table u ∷ sts) = references_early t sts

  execute_all-refused :
      (t : Text) (sts : List Statement) (s : D.State)
      → references_early t sts ≡ true
      → D.has t s ≡ false
      → execute_all sts s ≡ none
  execute_all-refused t [] s early gone = absurd (ground arith)
  execute_all-refused t (create_table table ∷ sts) s early gone =
      and_then-none (D.create table s) (execute_all sts) λ s' made.
        execute_all-refused t sts s' (ground (arith, D.create_refused table t s, made))
          (ground (arith, D.create_refused table t s, D.has-create table t s s' made, made))
  execute_all-refused t (create_index i u cs ∷ sts) s early gone =
      and_then-none (D.index i u cs s) (execute_all sts)
        λ s' made. execute_all-refused t sts s' early (D.has-index i t u cs s s' made ∙ gone)
  execute_all-refused t (drop_table u ∷ sts) s early gone =
      and_then-none (D.drop u s) (execute_all sts)
        λ s' made. execute_all-refused t sts s' early (ground (arith, D.has-drop u t s s' made))

  -- On a database that refuses a table whose foreign key references a table that is not there, and
  -- that has no table `payments`, the upgrade does not run to its end: it creates `orders`, which
  -- references `payments`, before `payments`.
  pub upgrade_refused :
      (s : D.State) → D.has (codes "payments") s ≡ false → execute_all upgrade s ≡ none
  unfolding upgrade text_eq
  upgrade_refused s gone = execute_all-refused (codes "payments") upgrade s refl gone

  -- Whether a table is dropped while another one, which is not dropped before it, references it.
  abbrev pub drops_early : Text → Text → List Statement → Bool
  drops_early u t [] = false
  drops_early u t (drop_table v ∷ sts) = not (text_eq v u) && (text_eq v t || drops_early u t sts)
  drops_early u t (create_table table ∷ sts) = false
  drops_early u t (create_index i v cs ∷ sts) = false

  execute_all-drop_refused :
      (u t : Text) (sts : List Statement) (s : D.State)
      → drops_early u t sts ≡ true
      → D.refers u t s ≡ true
      → execute_all sts s ≡ none
  execute_all-drop_refused u t [] s early refers = absurd (ground arith)
  execute_all-drop_refused u t (drop_table v ∷ sts) s early refers =
      and_then-none (D.drop v s) (execute_all sts) λ s' made.
        execute_all-drop_refused u t sts s'
          (ground
            (arith, D.drop_refused v u s, made, text_eq_iff v t, text_eq_iff v u, text_eq_iff u v))
          (ground (arith, D.refers-drop v u t s s' made))
  execute_all-drop_refused u t (create_table table ∷ sts) s early refers = absurd (ground arith)
  execute_all-drop_refused u t (create_index i v cs ∷ sts) s early refers = absurd (ground arith)

  -- On a database that refuses to drop a table that another one references, and on which `orders`
  -- references `payments`, the downgrade does not run to its end.
  pub downgrade_refused :
      (s : D.State)
      → D.refers (codes "orders") (codes "payments") s ≡ true
      → execute_all downgrade s ≡ none
  unfolding downgrade text_eq
  downgrade_refused s refers =
      execute_all-drop_refused (codes "orders") (codes "payments") downgrade s refl refers
