-- ===== src/Cursor/Laws.antt =====
-- A cursor is read back as it was written.
use ticket_genius.Prelude.{◌≡◌, false, some, arith, is_empty}
use ticket_genius.Prelude.Text.{Text, codes, text_eq}
use ticket_genius.Python.{ok}
use ticket_genius.Python.Json.{Json, text, obj, field, end, item, find}
use ticket_genius.Python.Encoding.{Encoding}
use ticket_genius.Domain.Values.{Uuid}
use ticket_genius.Cursor.{encode_cursor, decode_cursor}

module _ (enc : Encoding) where
  -- A cursor made from the text of an UUID and a sort key decodes to the two.
  pub decode_cursor-encode_cursor :
      (id : Uuid) (sort_key : Text)
      → enc.parse_uuid id ≡ ok id
      → decode_cursor enc (encode_cursor enc id sort_key) ≡ some (id, text sort_key)
  unfolding decode_cursor encode_cursor item find text_eq
  decode_cursor-encode_cursor id sort_key valid =
      let j : Json =
        obj (field (codes "id") (text id) (field (codes "sort_key") (text sort_key) end)) in
      ground (arith, enc.b64decode-b64encode (enc.dumps j), enc.loads-dumps j)

  pub encode_cursor_given :
      (id : Uuid) (sort_key : Text) → is_empty (encode_cursor enc id sort_key) ≡ false
  unfolding encode_cursor
  encode_cursor_given id sort_key = enc.b64encode_given _ (enc.dumps_given _)
