-- ===== src/Repositories/Search/Laws.antt =====
-- What a search of the database finds.
use ticket_genius.Prelude.{
  ℕ, zero, suc, ◌≤◌, ◌≡◌, refl, Bool, true, false, Option, none, some, List, [], ◌∷◌, length, map,
  take, All, is_empty, arith, if◌then◌else◌,
}
use ticket_genius.Prelude.Text.{Text}
use ticket_genius.Python.Encoding.{Encoding}
use ticket_genius.Python.Json.{Json}
use ticket_genius.Domain.Decimal.{Decimal}
use ticket_genius.Domain.Values.{Uuid}
use ticket_genius.Domain.Plan.{Plan}
use ticket_genius.Cursor.{
  Columns, filter, is_after, decode_cursor, apply_decoded, apply_cursor_filter,
}
use ticket_genius.Repositories.Search.{
  PlanSearchQuery, Database, by_name, by_start, by_end, found_plans, plan_summary, search_plans,
}

module _ {Row : Type 0} (columns : Columns Row) where
  All-filter :
      (P : Row → Type 0) (p : Row → Bool) (rows : List Row)
      → All P rows
      → All P (filter columns p rows)
  All-filter P p [] h = tt
  All-filter P p (r ∷ rs) (first, rest) = keep (p r) (All-filter P p rs rest)
    where
      keep :
          (b : Bool)
          → All P (filter columns p rs)
          → All P (if b then r ∷ filter columns p rs else filter columns p rs)
      keep true h = (first, h)
      keep false h = h

  All-both :
      (P : Row → Type 0) (p : Row → Bool) (rows : List Row)
      → All P rows
      → All (λ r. P r × (p r ≡ true)) (filter columns p rows)
  All-both P p [] h = tt
  All-both P p (r ∷ rs) (first, rest) = keep (p r) refl (All-both P p rs rest)
    where
      keep :
          (b : Bool)
          → p r ≡ b
          → All (λ r. P r × (p r ≡ true)) (filter columns p rs)
          → All
              (λ r. P r × (p r ≡ true))
              (if b then r ∷ filter columns p rs else filter columns p rs)
      keep true e h = ((first, e), h)
      keep false e h = h

  filter-All : (p : Row → Bool) (rows : List Row) → All (λ r. p r ≡ true) (filter columns p rows)
  filter-All p [] = tt
  filter-All p (r ∷ rs) = keep (p r) refl (filter-All p rs)
    where
      keep :
          (b : Bool)
          → p r ≡ b
          → All (λ r. p r ≡ true) (filter columns p rs)
          → All (λ r. p r ≡ true) (if b then r ∷ filter columns p rs else filter columns p rs)
      keep true e h = (e, h)
      keep false e h = h

  All-cursor :
      (P : Row → Type 0) (enc : Encoding) (rows : List Row) (cursor : Option Text)
      → All P rows
      → All P (apply_cursor_filter columns enc rows cursor).0
  unfolding apply_cursor_filter
  All-cursor P enc rows none h = h
  All-cursor P enc rows (some c) h = go (is_empty c) (decode_cursor enc c)
    where
      go :
          (b : Bool) (d : Option (Uuid × Json))
          → All P (if b then (rows, none) else apply_decoded columns d rows).0
      go true d = h
      go false none = h
      go false (some d) = All-filter P (is_after columns d) rows h

All-take : {A : Type 0} (P : A → Type 0) (n : ℕ) (xs : List A) → All P xs → All P (take n xs)
All-take P zero xs h = tt
All-take P (suc n) [] h = tt
All-take P (suc n) (x ∷ xs) (first, rest) = (first, All-take P n xs rest)

length-take_le : {A : Type 0} (n : ℕ) (xs : List A) → length (take n xs) ≤ n
length-take_le zero xs = omega arith
length-take_le (suc n) [] = omega arith
length-take_le (suc n) (x ∷ xs) = omega (arith, length-take_le n xs)

length-map : {A B : Type 0} (f : A → B) (xs : List A) → length (map f xs) ≡ length xs
length-map f [] = refl
length-map f (x ∷ xs) = omega (arith, length-map f xs)

module _ (Float : Type 0) (float : Decimal → Float) (db : Database) (columns : Columns Plan)
    (enc : Encoding) where
  -- What a plan that is found has passed.
  abbrev pub Passes : PlanSearchQuery → Plan → Type 0
  Passes q p =
      ((by_name Float float db columns enc q p ≡ true)
        × (by_start Float float db columns enc q p ≡ true))
      × (by_end Float float db columns enc q p ≡ true)

  -- Every plan that a search of the database finds passes the tests of its name and of its start
  -- that the query gives, with or without a cursor, and no more are found than the query's limit.
  pub search_plans_lem :
      (q : PlanSearchQuery) (plans : List Plan)
      → All (Passes q) (found_plans Float float db columns enc q plans)
        × (length (search_plans Float float db columns enc q plans) ≤ q.limit)
  unfolding search_plans found_plans
  search_plans_lem q plans =
      let by_name = by_name Float float db columns enc q in
      let by_start = by_start Float float db columns enc q in
      let by_end = by_end Float float db columns enc q in
      let named = filter columns by_name plans in
      let started = filter columns by_start named in
      let shown = (apply_cursor_filter columns enc (filter columns by_end started) q.cursor).0 in
      (
        All-take (Passes q) q.limit shown (
            All-cursor columns (Passes q) enc (filter columns by_end started) q.cursor (
              All-both columns _ by_end started
                (All-both columns _ by_start named (filter-All columns by_name plans)))),
        rw (length-map (plan_summary Float float db columns enc) (take q.limit shown))
            (length-take_le q.limit shown),
      )
