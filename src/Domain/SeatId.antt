-- ===== src/Domain/SeatId.antt =====
-- domain/value_objects.py: `SeatId` and `Seat`. A `Seat` is its `SeatId`: the class adds only
-- the properties, and its `isinstance` test holds by typing.
pub mod Laws
use ticket_genius.Prelude.{Bool, ◌||◌, List, [], ◌∷◌, ◌++◌, is_empty, if◌then◌else◌}
use ticket_genius.Prelude.Text.{Text, codes, split}
use ticket_genius.Python.{Result, ok, err, value_error}

pub record SeatId : Type 0 where
  pub section : Text
  pub row : Text
  pub number : Text

pub record Seat : Type 0 where
  pub seat_id : SeatId

-- `SeatId(section, row, number)`, with the test of `__post_init__`
unfoldable pub make_seat_id : Text → Text → Text → Result SeatId
make_seat_id section row number =
    if is_empty section || is_empty row || is_empty number
    then err (value_error (codes "SeatId section, row, and number are required"))
    else ok (record { section = section; row = row; number = number })

-- `__str__`
unfoldable pub str : SeatId → Text
str s = s.section ++ b'-' ∷ (s.row ++ b'-' ∷ s.number)

format_error : Text → Text
format_error s = codes "Invalid SeatId format: " ++ (s ++ codes ". Expected 'section-row-number'")

-- the test `len(parts) != 3`
unfoldable pub of_parts : Text → List Text → Result SeatId
unfolding make_seat_id format_error
of_parts s (section ∷ row ∷ number ∷ []) = make_seat_id section row number
of_parts s parts = err (value_error (format_error s))

unfoldable pub from_string : Text → Result SeatId
unfolding of_parts
from_string s = of_parts s (split b'-' s)

-- `Seat.from_parts`
unfoldable pub seat_from_parts : Text → Text → Text → Result Seat
unfolding make_seat_id
seat_from_parts section row number = elim (make_seat_id section row number) [
  | ok i ↦ ok (record { seat_id = i })
  | err e ↦ err e
]

-- `Seat.from_string`
unfoldable pub seat_from_string : Text → Result Seat
unfolding from_string
seat_from_string s = elim (from_string s) [ ok i ↦ ok (record { seat_id = i }) | err e ↦ err e ]

-- The f-string by which the handlers and the fulfilment service name a seat:
-- `f"{s.section}-{s.row}-{s.number}"`, over the properties of `Seat`.
unfoldable pub seat_label : Seat → Text
seat_label s = s.seat_id.section ++ b'-' ∷ (s.seat_id.row ++ b'-' ∷ s.seat_id.number)
