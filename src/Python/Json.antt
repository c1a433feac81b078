-- ===== src/Python/Json.antt =====
-- The values that `json.loads` gives, and how the program takes them apart. A number is the
-- `Decimal` of its `str`.
use ticket_genius.Prelude.{
  ◌+◌, Bool, true, false, not, Option, none, some, List, [], ◌∷◌, is_empty, ◌==◌, if◌then◌else◌,
}
use ticket_genius.Prelude.Int.{pos_part, neg_part}
use ticket_genius.Prelude.Text.{Text, codes, text_eq}
use ticket_genius.Python.{Result, ok, err, key_error, type_error, attribute_error, index_error}
use ticket_genius.Domain.Decimal.{Decimal}

mutual
  pub data Json : Type 0 where
    null : Json
    bool : Bool → Json
    number : Decimal → Json
    text : Text → Json
    arr : Items → Json
    obj : Fields → Json

  pub data Items : Type 0 where
    nil : Items
    cons : Json → Items → Items

  pub data Fields : Type 0 where
    end : Fields
    field : Text → Json → Fields → Fields

unfoldable pub items : List Json → Items
items [] = nil
items (j ∷ js) = cons j (items js)

unfoldable pub to_list : Items → List Json
to_list nil = []
to_list (cons j js) = j ∷ to_list js

unfoldable pub fields : List (Text × Json) → Fields
fields [] = end
fields ((k, j) ∷ fs) = field k j (fields fs)

unfoldable pub find : Text → Fields → Option Json
find k end = none
find k (field l j fs) = if text_eq l k then some j else find k fs

-- `j[k]` for a text `k`
unfoldable pub item : Text → Json → Result Json
unfolding find
item k (obj fs) = elim (find k fs) [ none ↦ err (key_error k) | some j ↦ ok j ]
item k _ = err (type_error (codes "indices must be integers"))

-- `j.get(k, default)`
unfoldable pub get : Text → Json → Json → Result Json
unfolding find
get k default (obj fs) = elim (find k fs) [ none ↦ ok default | some j ↦ ok j ]
get k default _ = err (attribute_error (codes "object has no attribute 'get'"))

-- `j[0]`
unfoldable pub first : Json → Result Json
first (arr nil) = err (index_error (codes "list index out of range"))
first (arr (cons j js)) = ok j
first (obj fs) = err (key_error (codes "0"))
first _ = err (type_error (codes "object is not subscriptable"))

-- Whether a value counts as true.
unfoldable pub truthy : Json → Bool
truthy null = false
truthy (bool b) = b
truthy (number d) = not (pos_part d.mantissa + neg_part d.mantissa == 0)
truthy (text t) = not (is_empty t)
truthy (arr nil) = false
truthy (arr (cons j js)) = true
truthy (obj end) = false
truthy (obj (field k j fs)) = true
