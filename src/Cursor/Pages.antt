-- ===== src/Cursor/Pages.antt =====
-- Pages that follow the cursors list every row once and in order.
use ticket_genius.Prelude.{
  ltb, ◌==◌, ◌⊎◌, ℕ, zero, suc, ◌≤◌, ◌<◌, ◌≡◌, refl, sym, ap, subst, append_assoc, ◌∙◌, Bool, true,
  false, Option, none, some, List, [], ◌∷◌, ◌++◌, arith, length, take, drop, All,
}
use ticket_genius.Prelude.Text.{Text}
use ticket_genius.Python.{ok}
use ticket_genius.Python.Json.{text}
use ticket_genius.Python.Encoding.{Encoding}
use ticket_genius.Cursor.{
  Columns, is_after, filter, encode_cursor, get_next_cursor, apply_cursor_filter,
}
use ticket_genius.Cursor.Laws.{decode_cursor-encode_cursor, encode_cursor_given}

-- How a database orders rows: each has a rank by its sort column and one by its id. A comparison
-- with the value of a row, as a cursor writes it, is one with the rank of that row.
pub record Ordering {ℓ} {Row : Type ℓ} (c : Columns Row) : Type ℓ where
  pub sort_rank : Row → ℕ
  pub id_rank : Row → ℕ
  pub sort_lt_lem :
      (row x : Row) → c.sort_lt row (text (c.sort_key x)) ≡ ltb (sort_rank row) (sort_rank x)
  pub sort_eq_lem :
      (row x : Row) → c.sort_eq row (text (c.sort_key x)) ≡ (sort_rank row == sort_rank x)
  pub id_lt_lem : (row x : Row) → c.id_lt row (c.id x) ≡ ltb (id_rank row) (id_rank x)

module _ {ℓ} {Row : Type ℓ} {c : Columns Row} (ranks : Ordering c) where
  -- `ORDER BY sort_column DESC, id_column DESC`
  abbrev pub Precedes : Row → Row → Type 0
  Precedes x y =
      (ranks.sort_rank y < ranks.sort_rank x)
      ⊎ ((ranks.sort_rank y ≡ ranks.sort_rank x) × (ranks.id_rank y < ranks.id_rank x))

  -- Rows in that order, of which no two have both ranks in common.
  abbrev pub IsOrdered : List Row → Type ℓ
  IsOrdered [] = Unit
  IsOrdered (x ∷ xs) = All (Precedes x) xs × IsOrdered xs

module _ {ℓ} {Row : Type ℓ} (c : Columns Row) where
  -- Whether the listing shows `row` after `earlier`.
  abbrev pub follows : Row → Row → Bool
  follows earlier row = is_after c (c.id earlier, text (c.sort_key earlier)) row

  -- Each row is shown after all before it, and none after itself.
  abbrev IsListed : List Row → Type 0
  IsListed [] = Unit
  IsListed (x ∷ xs) =
      (follows x x ≡ false)
      × All (λ y. (follows x y ≡ true) × (follows y x ≡ false)) xs
      × IsListed xs

  follows-Precedes :
      (ranks : Ordering c) (x y : Row)
      → Precedes ranks x y
      → (follows x y ≡ true) × (follows y x ≡ false)
  follows-Precedes ranks x y h = ground (
    arith,
    ranks.sort_lt_lem y x,
    ranks.sort_eq_lem y x,
    ranks.id_lt_lem y x,
    ranks.sort_lt_lem x y,
    ranks.sort_eq_lem x y,
    ranks.id_lt_lem x y,
  )

  follows_self : (ranks : Ordering c) (x : Row) → follows x x ≡ false
  follows_self ranks x =
      ground (arith, ranks.sort_lt_lem x x, ranks.sort_eq_lem x x, ranks.id_lt_lem x x)

  All-follows :
      (ranks : Ordering c) (x : Row) (ys : List Row)
      → All (Precedes ranks x) ys
      → All (λ y. (follows x y ≡ true) × (follows y x ≡ false)) ys
  All-follows ranks x [] h = tt
  All-follows ranks x (y ∷ ys) (h, hs) = (follows-Precedes ranks x y h, All-follows ranks x ys hs)

  -- In the order of the database the filter finds each row behind all before it.
  IsListed-IsOrdered : (ranks : Ordering c) (xs : List Row) → IsOrdered ranks xs → IsListed xs
  IsListed-IsOrdered ranks [] h = tt
  IsListed-IsOrdered ranks (x ∷ xs) (below, rest) =
      (follows_self ranks x, All-follows ranks x xs below, IsListed-IsOrdered ranks xs rest)

  All-follow :
      (x : Row) (ys : List Row)
      → All (λ y. (follows x y ≡ true) × (follows y x ≡ false)) ys
      → filter c (follows x) ys ≡ ys
  All-follow x [] h = refl
  All-follow x (y ∷ ys) ((after, _), rest) = rw after (ap (λ zs. y ∷ zs) (All-follow x ys rest))

  -- Filtering by the last row of a page leaves the rows after the page.
  pub filter-follows :
      (xs : List Row) (x : Row) (ys : List Row)
      → IsListed (xs ++ x ∷ ys)
      → filter c (follows x) (xs ++ x ∷ ys) ≡ ys
  filter-follows [] x ys (self, below, rest) = rw self (All-follow x ys below)
  filter-follows (z ∷ xs) x ys (self, below, rest) =
      rw (before x xs ys z below) (filter-follows xs x ys rest)
    where
      before :
          (x : Row) (xs ys : List Row) (z : Row)
          → All (λ y. (follows z y ≡ true) × (follows y z ≡ false)) (xs ++ x ∷ ys)
          → follows x z ≡ false
      before x [] ys z ((_, never), _) = never
      before x (w ∷ xs) ys z (_, h) = before x xs ys z h

take-drop {ℓ} : {A : Type ℓ} (n : ℕ) (xs : List A) → take n xs ++ drop n xs ≡ xs
take-drop zero xs = refl
take-drop (suc n) [] = refl
take-drop (suc n) (x ∷ xs) = ap (λ ys. x ∷ ys) (take-drop n xs)

length-drop_lt {ℓ} :
    {A : Type ℓ} (n : ℕ) (x : A) (xs : List A) → length (drop (suc n) (x ∷ xs)) < length (x ∷ xs)
length-drop_lt zero x xs = omega arith
length-drop_lt (suc n) x [] = omega arith
length-drop_lt (suc n) x (y ∷ ys) = omega (arith, length-drop_lt n y ys)

module _ {ℓ} {Row : Type ℓ} (c : Columns Row) (enc : Encoding) where
  abbrev cursor_of : Row → Text
  cursor_of x = encode_cursor enc (c.id x) (c.sort_key x)

  -- The last row of a page is the one that the next cursor names.
  next_cursor_last :
      (y : Row) (ys : List Row)
      → (ps : List Row) × (x : Row) × (y ∷ ys ≡ ps ++ x ∷ [])
        × (get_next_cursor enc (y ∷ ys) c.id c.sort_key ≡ some (cursor_of x))
  unfolding get_next_cursor
  next_cursor_last y [] = ([], y, refl, refl)
  next_cursor_last y (z ∷ zs) =
      let (ps, x, split, cursor) = next_cursor_last z zs in
      (y ∷ ps, x, ap (λ l. y ∷ l) split, cursor)

  -- A client that asks for pages of `limit` rows and follows the cursors until a page is empty.
  abbrev pub follow_pages : ℕ → ℕ → Option Text → List Row → List Row
  follow_pages zero limit cursor rows = []
  follow_pages (suc fuel) limit cursor rows =
      let page = take limit (apply_cursor_filter c enc rows cursor).0 in
      page ++ elim (get_next_cursor enc page c.id c.sort_key) [
        | none ↦ []
        | some next ↦ follow_pages fuel limit (some next) rows
      ]

  module _ (ranks : Ordering c) (rows : List Row) (ordered : IsOrdered ranks rows)
      (valid : (r : Row) → enc.parse_uuid (c.id r) ≡ ok (c.id r)) where
    after_cursor :
        (xs : List Row) (x : Row) (ys : List Row)
        → rows ≡ xs ++ x ∷ ys
        → (apply_cursor_filter c enc rows (some (cursor_of x))).0 ≡ ys
    unfolding apply_cursor_filter
    after_cursor xs x ys e =
        rw
          (
            encode_cursor_given enc (c.id x) (c.sort_key x),
            decode_cursor-encode_cursor enc (c.id x) (c.sort_key x) (valid x),
          )
          (rw e (
            filter-follows c xs x ys
              (subst (IsListed c) e (IsListed-IsOrdered c ranks rows ordered))))

    pages_from :
        (fuel n : ℕ) (cursor : Option Text) (xs ys : List Row)
        → rows ≡ xs ++ ys
        → (apply_cursor_filter c enc rows cursor).0 ≡ ys
        → length ys < fuel
        → follow_pages fuel (suc n) cursor rows ≡ ys
    unfolding get_next_cursor
    pages_from zero n cursor xs ys e shown enough = absurd (omega arith)
    pages_from (suc fuel) n cursor xs [] e shown enough = rw shown refl
    pages_from (suc fuel) n cursor xs (y ∷ ys) e shown enough =
        let (ps, x, split, cursor') = next_cursor_last y (take n ys) in
        let rejoin : y ∷ ys ≡ (y ∷ take n ys) ++ drop n ys =
          ap (λ l. y ∷ l) (sym (take-drop n ys)) in
        let page_end : rows ≡ (xs ++ ps) ++ x ∷ drop n ys =
          e
          ∙ ap (λ l. xs ++ l)
              (rejoin ∙ ap (λ l. l ++ drop n ys) split ∙ append_assoc ps (x ∷ []) (drop n ys))
          ∙ sym (append_assoc xs ps (x ∷ drop n ys)) in
        let rest =
          pages_from fuel n (some (cursor_of x)) (xs ++ y ∷ take n ys) (drop n ys)
            (e ∙ ap (λ l. xs ++ l) rejoin ∙ sym (append_assoc xs (y ∷ take n ys) (drop n ys)))
            (after_cursor (xs ++ ps) x (drop n ys) page_end)
            (omega (arith, length-drop_lt n y ys)) in
        rw (shown, cursor', rest) (sym rejoin)

    -- Rows in the order of `ORDER BY sort_column DESC, id_column DESC`, no two of them equal in both
    -- columns, with UUIDs for their ids, where the database compares the sort key and the id of a
    -- cursor as it compares the columns that they come from: a client that starts without a
    -- cursor and follows the cursors of its pages, of at least one row each, is shown every row
    -- once and in order, and ends after at most as many pages as there are rows, and one that is
    -- empty.
    pub follow_pages-all :
        (fuel limit : ℕ) → 1 ≤ limit → length rows < fuel → follow_pages fuel limit none rows ≡ rows
    unfolding apply_cursor_filter
    follow_pages-all fuel zero some_rows enough = absurd (omega arith)
    follow_pages-all fuel (suc n) some_rows enough = pages_from fuel n none [] rows refl refl enough
