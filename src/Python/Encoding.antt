-- ===== src/Python/Encoding.antt =====
-- Encodings of the standard library that the program only calls.
use ticket_genius.Prelude.{◌≡◌, false, is_empty}
use ticket_genius.Prelude.Text.{Text}
use ticket_genius.Python.{Result, ok}
use ticket_genius.Python.Json.{Json}

pub record Encoding : Type 0 where
  -- `json.dumps(data, separators=(",", ":"))`, and `json.loads`
  pub dumps : Json → Text
  pub loads : Text → Result Json
  pub loads-dumps : (j : Json) → loads (dumps j) ≡ ok j
  -- `base64.urlsafe_b64encode(s.encode()).decode()` and `base64.urlsafe_b64decode(s.encode()).decode()`
  pub b64encode : Text → Text
  pub b64decode : Text → Result Text
  pub b64decode-b64encode : (s : Text) → b64decode (b64encode s) ≡ ok s
  pub b64encode_given : (s : Text) → is_empty s ≡ false → is_empty (b64encode s) ≡ false
  -- no JSON text is empty
  pub dumps_given : (j : Json) → is_empty (dumps j) ≡ false
  -- `UUID(s)`
  pub parse_uuid : Text → Result Text
