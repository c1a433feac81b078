-- ===== src/Tests/Sample.antt =====
-- A standard library that meets the laws: JSON texts are written in postfix, one code for a
-- constructor and one for a character, and read by a stack machine.
use ticket_genius.Prelude.{
  ℕ, zero, suc, ◌+◌, ◌-◌, ◌*◌, ◌≡◌, refl, ap, ◌∙◌, true, false, List, [], ◌∷◌,
}
use ticket_genius.Prelude.Int.{ℤ, pos, negsuc}
use ticket_genius.Prelude.Text.{Text, codes}
use ticket_genius.Python.{Result, ok, err, value_error}
use ticket_genius.Python.Json.{
  Json, Items, Fields, null, bool, number, text, arr, obj, nil, cons, end, field,
}
use ticket_genius.Python.Std.{Std}
use ticket_genius.Domain.Decimal.{Decimal, of_int}

pub data Frame : Type 0 where
  text_frame : Text → Frame
  json_frame : Json → Frame
  items_frame : Items → Frame
  fields_frame : Fields → Frame

pub data Code : Type 0 where
  new_text new_null new_true new_false new_nil new_end : Code
  add_item add_field to_text to_arr to_obj to_pos to_negsuc : Code
  char : ℕ → Code

abbrev pub step : Code → List Frame → List Frame
step new_text st = text_frame [] ∷ st
step new_null st = json_frame null ∷ st
step new_true st = json_frame (bool true) ∷ st
step new_false st = json_frame (bool false) ∷ st
step new_nil st = items_frame nil ∷ st
step new_end st = fields_frame end ∷ st
step add_item (json_frame j ∷ items_frame js ∷ st) = items_frame (cons j js) ∷ st
step add_field (json_frame j ∷ text_frame k ∷ fields_frame fs ∷ st) =
    fields_frame (field k j fs) ∷ st
step to_text (text_frame t ∷ st) = json_frame (text t) ∷ st
step to_arr (items_frame js ∷ st) = json_frame (arr js) ∷ st
step to_obj (fields_frame fs ∷ st) = json_frame (obj fs) ∷ st
step to_pos (text_frame (m ∷ p ∷ []) ∷ st) =
    json_frame (number (record { mantissa = pos m; places = p })) ∷ st
step to_negsuc (text_frame (m ∷ p ∷ []) ∷ st) =
    json_frame (number (record { mantissa = negsuc m; places = p })) ∷ st
step (char c) (text_frame t ∷ st) = text_frame (c ∷ t) ∷ st
step c st = st

abbrev pub of_number : ℕ → Code
of_number zero = new_text
of_number (suc zero) = new_null
of_number (suc (suc zero)) = new_true
of_number (suc (suc (suc zero))) = new_false
of_number (suc (suc (suc (suc zero)))) = new_nil
of_number (suc (suc (suc (suc (suc zero))))) = new_end
of_number (suc (suc (suc (suc (suc (suc zero)))))) = add_item
of_number (suc (suc (suc (suc (suc (suc (suc zero))))))) = add_field
of_number (suc (suc (suc (suc (suc (suc (suc (suc zero)))))))) = to_text
of_number (suc (suc (suc (suc (suc (suc (suc (suc (suc zero))))))))) = to_arr
of_number (suc (suc (suc (suc (suc (suc (suc (suc (suc (suc zero)))))))))) = to_obj
of_number (suc (suc (suc (suc (suc (suc (suc (suc (suc (suc (suc zero))))))))))) = to_pos
of_number (suc (suc (suc (suc (suc (suc (suc (suc (suc (suc (suc (suc zero)))))))))))) = to_negsuc
of_number (suc (suc (suc (suc (suc (suc (suc (suc (suc (suc (suc (suc (suc c))))))))))))) = char c

abbrev pub machine : List ℕ → List Frame → List Frame
machine [] st = st
machine (n ∷ ns) st = machine ns (step (of_number n) st)

abbrev pub write_text : Text → List ℕ → List ℕ
write_text [] rest = 0 ∷ rest
write_text (c ∷ t) rest =
    write_text t
      (suc (suc (suc (suc (suc (suc (suc (suc (suc (suc (suc (suc (suc c)))))))))))) ∷ rest)

machine-write_text :
    (t : Text) (rest : List ℕ) (st : List Frame)
    → machine (write_text t rest) st ≡ machine rest (text_frame t ∷ st)
machine-write_text [] rest st = refl
machine-write_text (c ∷ t) rest st =
    machine-write_text t
      (suc (suc (suc (suc (suc (suc (suc (suc (suc (suc (suc (suc (suc c)))))))))))) ∷ rest) st

abbrev pub write_number : Decimal → List ℕ → List ℕ
write_number d rest = elim d.mantissa [
  | pos n ↦ write_text (n ∷ d.places ∷ []) (11 ∷ rest)
  | negsuc n ↦ write_text (n ∷ d.places ∷ []) (12 ∷ rest)
]

abbrev mutual
  pub write : Json → List ℕ → List ℕ
  write null rest = 1 ∷ rest
  write (bool true) rest = 2 ∷ rest
  write (bool false) rest = 3 ∷ rest
  write (number d) rest = write_number d rest
  write (text t) rest = write_text t (8 ∷ rest)
  write (arr js) rest = write_items js (9 ∷ rest)
  write (obj fs) rest = write_fields fs (10 ∷ rest)

  pub write_items : Items → List ℕ → List ℕ
  write_items nil rest = 4 ∷ rest
  write_items (cons j js) rest = write_items js (write j (6 ∷ rest))

  pub write_fields : Fields → List ℕ → List ℕ
  write_fields end rest = 5 ∷ rest
  write_fields (field k j fs) rest = write_fields fs (write_text k (write j (7 ∷ rest)))

of_mantissa :
    (m : ℤ) (p : ℕ) (rest : List ℕ) (st : List Frame)
    → machine (write_number (record { mantissa = m; places = p }) rest) st
      ≡ machine rest (json_frame (number (record { mantissa = m; places = p })) ∷ st)
of_mantissa (pos n) p rest st = machine-write_text (n ∷ p ∷ []) (11 ∷ rest) st
of_mantissa (negsuc n) p rest st = machine-write_text (n ∷ p ∷ []) (12 ∷ rest) st

machine-write_number :
    (d : Decimal) (rest : List ℕ) (st : List Frame)
    → machine (write_number d rest) st ≡ machine rest (json_frame (number d) ∷ st)
machine-write_number d rest st = of_mantissa d.mantissa d.places rest st

mutual
  machine-write :
      (j : Json) (rest : List ℕ) (st : List Frame)
      → machine (write j rest) st ≡ machine rest (json_frame j ∷ st)
  machine-write null rest st = refl
  machine-write (bool true) rest st = refl
  machine-write (bool false) rest st = refl
  machine-write (number d) rest st = machine-write_number d rest st
  machine-write (text t) rest st = machine-write_text t (8 ∷ rest) st
  machine-write (arr js) rest st = machine-write_items js (9 ∷ rest) st
  machine-write (obj fs) rest st = machine-write_fields fs (10 ∷ rest) st

  machine-write_items :
      (js : Items) (rest : List ℕ) (st : List Frame)
      → machine (write_items js rest) st ≡ machine rest (items_frame js ∷ st)
  machine-write_items nil rest st = refl
  machine-write_items (cons j js) rest st =
      machine-write_items js (write j (6 ∷ rest)) st
      ∙ machine-write j (6 ∷ rest) (items_frame js ∷ st)

  machine-write_fields :
      (fs : Fields) (rest : List ℕ) (st : List Frame)
      → machine (write_fields fs rest) st ≡ machine rest (fields_frame fs ∷ st)
  machine-write_fields end rest st = refl
  machine-write_fields (field k j fs) rest st =
      machine-write_fields fs (write_text k (write j (7 ∷ rest))) st
      ∙ machine-write_text k (write j (7 ∷ rest)) (fields_frame fs ∷ st)
      ∙ machine-write j (7 ∷ rest) (text_frame k ∷ fields_frame fs ∷ st)

abbrev pub result_of : List Frame → Result Json
result_of (json_frame j ∷ []) = ok j
result_of st = err (value_error (codes "no JSON text"))

-- A first code keeps the text from being empty.
abbrev pub dumps : Json → Text
dumps j = 0 ∷ write j []

abbrev pub loads : Text → Result Json
loads [] = err (value_error (codes "no JSON text"))
loads (c ∷ s) = result_of (machine s [])

pub loads-dumps : (j : Json) → loads (dumps j) ≡ ok j
loads-dumps j = ap result_of (machine-write j [] [])

abbrev pub str : Json → Text
str (text t) = t
str j = dumps j

-- The digits of a text as one number.
abbrev pub digits : ℕ → Text → ℕ
digits n [] = n
digits n (c ∷ s) = digits (n * 10 + (c - 48)) s

abbrev pub sample : Std
sample = record {
  fromisoformat = λ s. ok (digits 0 s);
  uuid5 = λ name. name;
  parse_decimal = λ s. ok (of_int (pos (digits 0 s)));
  str = str;
  str-text = λ t. refl;
  dumps = dumps;
  loads = loads;
  loads-dumps = loads-dumps;
  dumps_given = λ j. refl;
}
