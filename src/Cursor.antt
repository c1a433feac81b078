-- ===== src/Cursor.antt =====
-- service_layer/cursor.py. A query is the list of the rows that it would give; how a database
-- compares its columns with the values of a cursor is a parameter.
pub mod Laws
pub mod Pages
use ticket_genius.Prelude.{
  ℕ, ◌≡◌, Bool, true, false, ◌&&◌, ◌||◌, Option, none, some, List, [], ◌∷◌, is_empty, if◌then◌else◌,
}
use ticket_genius.Prelude.Text.{Text, codes}
use ticket_genius.Python.{Result, ok, err, type_error, ◌>>=◌}
use ticket_genius.Python.Json.{Json, text, obj, field, end, item}
use ticket_genius.Python.Encoding.{Encoding}
use ticket_genius.Domain.Values.{Uuid}

module _ (enc : Encoding) where
  unfoldable pub encode_cursor : Uuid → Text → Text
  encode_cursor last_seen_id last_seen_sort_key = enc.b64encode (
      enc.dumps (
        obj (
          field (codes "id") (text last_seen_id)
            (field (codes "sort_key") (text last_seen_sort_key) end))))

  -- `UUID(data["id"])`, for which a value that is no text is an error
  abbrev as_uuid : Json → Result Uuid
  as_uuid (text t) = enc.parse_uuid t
  as_uuid j = err (type_error (codes "badly formed UUID"))

  -- the block behind `try`
  abbrev try_decode : Text → Result (Uuid × Json)
  try_decode cursor = do
    json_str ← enc.b64decode cursor
    j ← enc.loads json_str
    id ← item (codes "id") j
    uuid ← as_uuid id
    sort_key ← item (codes "sort_key") j
    ok (uuid, sort_key)

  unfoldable pub decode_cursor : Text → Option (Uuid × Json)
  decode_cursor cursor = elim (try_decode cursor) [ ok d ↦ some d | err e ↦ none ]

  -- `get_next_cursor`: the attributes are functions, the sort key in its ISO form.
  unfoldable pub get_next_cursor {ℓ} : {A : Type ℓ} → List A → (A → Uuid) → (A → Text) → Option Text
  unfolding encode_cursor
  get_next_cursor [] id_attr sort_attr = none
  get_next_cursor (x ∷ []) id_attr sort_attr = some (encode_cursor (id_attr x) (sort_attr x))
  get_next_cursor (x ∷ y ∷ xs) id_attr sort_attr = get_next_cursor (y ∷ xs) id_attr sort_attr

-- The columns of a table that a cursor is about, and the comparisons of the database.
pub record Columns {ℓ} (Row : Type ℓ) : Type ℓ where
  pub id : Row → Uuid
  -- the ISO text of the sort column
  pub sort_key : Row → Text
  -- `sort_column < key`, `sort_column == key` and `id_column < id`
  pub sort_lt : Row → Json → Bool
  pub sort_eq : Row → Json → Bool
  pub id_lt : Row → Uuid → Bool

module _ {ℓ} {Row : Type ℓ} (c : Columns Row) where
  -- the condition of the `or_`
  abbrev pub is_after : Uuid × Json → Row → Bool
  is_after (cursor_id, key) row = c.sort_lt row key || (c.sort_eq row key && c.id_lt row cursor_id)

  -- `query.filter(...)`
  abbrev pub filter : (Row → Bool) → List Row → List Row
  filter p [] = []
  filter p (row ∷ rows) = let rest = filter p rows in if p row then row ∷ rest else rest

  abbrev pub apply_decoded : Option (Uuid × Json) → List Row → List Row × Option (Uuid × Json)
  apply_decoded none rows = (rows, none)
  apply_decoded (some d) rows = (filter (is_after d) rows, some d)

  -- `if not cursor`
  unfoldable pub apply_cursor_filter :
      Encoding → List Row → Option Text → List Row × Option (Uuid × Json)
  unfolding decode_cursor
  apply_cursor_filter enc rows none = (rows, none)
  apply_cursor_filter enc rows (some cursor) =
      if is_empty cursor then (rows, none) else apply_decoded (decode_cursor enc cursor) rows
