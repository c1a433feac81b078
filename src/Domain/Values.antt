-- ===== src/Domain/Values.antt =====
-- domain/value_objects.py: `DateRange`, `TicketQuantity` and `AttendeeInfo`. A `UUID` is its
-- canonical text, so that `str` of it is the identity; a `datetime` is a number of microseconds.
use ticket_genius.Prelude.{ℕ, ◌||◌, ◌&&◌, not, Option, is_empty, leb, if◌then◌else◌}
use ticket_genius.Prelude.Int.{ℤ, pos, leb_ℤ}
use ticket_genius.Prelude.Text.{Text, codes, is_blank, contains_char}
use ticket_genius.Python.{Result, ok, err, value_error}

abbrev pub Uuid : Type 0
Uuid = Text

abbrev pub Datetime : Type 0
Datetime = ℕ

pub record DateRange : Type 0 where
  pub start : Datetime
  pub end : Datetime
  pub timezone : Text

unfoldable pub make_date_range : Datetime → Datetime → Text → Result DateRange
make_date_range start end timezone =
    if leb end start
    then err (value_error (codes "DateRange start must be before end"))
    else if is_empty timezone
    then err (value_error (codes "DateRange timezone is required"))
    else ok (record { start = start; end = end; timezone = timezone })

pub record TicketQuantity : Type 0 where
  pub value : ℤ

unfoldable pub make_quantity : ℤ → Result TicketQuantity
make_quantity n =
    if not (leb_ℤ (pos 1) n && leb_ℤ n (pos 8))
    then err (value_error (codes "TicketQuantity must be between 1 and 8"))
    else ok (record { value = n })

pub record AttendeeInfo : Type 0 where
  pub name : Text
  pub email : Text
  pub phone : Option Text

unfoldable pub make_attendee : Text → Text → Option Text → Result AttendeeInfo
make_attendee name email phone =
    if is_empty name || is_blank name
    then err (value_error (codes "Attendee name is required"))
    else if is_empty email || not (contains_char b'@' email)
    then err (value_error (codes "Valid attendee email is required"))
    else ok (record { name = name; email = email; phone = phone })
