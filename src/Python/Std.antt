-- ===== src/Python/Std.antt =====
-- Functions of the standard library that the program only calls: dates, name-based ids, texts of
-- numbers, JSON texts and hashes. They are a parameter of the code that uses them.
use ticket_genius.Prelude.{ℕ, ◌≡◌, false, is_empty}
use ticket_genius.Prelude.Text.{Text}
use ticket_genius.Python.{Result, ok}
use ticket_genius.Python.Json.{Json, text}
use ticket_genius.Domain.Decimal.{Decimal}

pub record Std : Type 0 where
  -- `datetime.fromisoformat`, in microseconds
  pub fromisoformat : Text → Result ℕ
  -- `uuid5(NAMESPACE_URL, name)`
  pub uuid5 : Text → Text
  -- `Decimal(s)`
  pub parse_decimal : Text → Result Decimal
  -- `str(j)`
  pub str : Json → Text
  pub str-text : (t : Text) → str (text t) ≡ t
  -- `json.dumps`, `json.loads`
  pub dumps : Json → Text
  pub loads : Text → Result Json
  pub loads-dumps : (j : Json) → loads (dumps j) ≡ ok j
  -- no JSON text is empty
  pub dumps_given : (j : Json) → is_empty (dumps j) ≡ false
