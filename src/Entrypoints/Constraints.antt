-- ===== src/Entrypoints/Constraints.antt =====
-- entrypoints/schemas.py: the constraints that the fields of the requests declare, and what the
-- value objects of domain/value_objects.py make of a request that meets them. What pydantic takes
-- for an e-mail address is a parameter.
use ticket_genius.Prelude.{
  ℕ, ◌≡◌, Bool, true, false, not, ◌&&◌, Option, none, some, [], ◌∷◌, length, leb, is_empty, arith,
}
use ticket_genius.Prelude.Int.{ℤ, pos, leb_ℤ}
use ticket_genius.Prelude.Text.{Text, contains_char, is_blank}
use ticket_genius.Python.{is_ok}
use ticket_genius.Domain.Values.{make_quantity, make_attendee}
use ticket_genius.Entrypoints.Schemas.{CancelOrderRequest, SearchPlansRequest}

-- `Field(..., ge=low, le=high)`
abbrev pub fits_range : ℤ → ℤ → ℤ → Bool
fits_range low high n = leb_ℤ low n && leb_ℤ n high

abbrev pub fits_optional : ℤ → ℤ → Option ℤ → Bool
fits_optional low high none = true
fits_optional low high (some n) = fits_range low high n

-- `Field(..., min_length=low, max_length=high)`
abbrev pub fits_length : ℕ → ℕ → Text → Bool
fits_length low high t = leb low (length t) && leb (length t) high

pub record AttendeeInfoSchema : Type 0 where
  pub name : Text
  pub email : Text
  pub phone : Option Text

unfoldable pub fits_quantity : ℤ → Bool
fits_quantity quantity = fits_range (pos 1) (pos 8) quantity

unfoldable pub fits_attendee : (Text → Bool) → AttendeeInfoSchema → Bool
fits_attendee is_email a = fits_length 1 255 a.name && is_email a.email

unfoldable pub fits_cancel : CancelOrderRequest → Bool
fits_cancel r = fits_length 1 500 r.reason

unfoldable pub fits_search : SearchPlansRequest → Bool
fits_search r = fits_optional (pos 1) (pos 500) r.radius_km && fits_range (pos 1) (pos 100) r.limit

-- The schema takes just the quantities that `TicketQuantity` takes. Where every address that it
-- takes has an `@`, `AttendeeInfo` takes the attendee of a request that meets the schema, but for a
-- name of white space alone, which the schema takes too.
pub accepted_attendee :
    (is_email : Text → Bool) (quantity : ℤ) (a : AttendeeInfoSchema)
    → ((t : Text) → is_email t ≡ true → contains_char b'@' t ≡ true)
    → fits_attendee is_email a ≡ true
    → (fits_quantity quantity ≡ is_ok (make_quantity quantity))
      × (is_ok (make_attendee a.name a.email a.phone) ≡ not (is_blank a.name))
unfolding fits_attendee fits_quantity make_quantity make_attendee contains_char
accepted_attendee is_email quantity a has_at fits = (
  ground arith,
  attendee a.name a.email a.phone (ground (arith, fits)) (has_at a.email (ground (arith, fits))),
)
  where
    attendee :
        (name email : Text) (phone : Option Text)
        → is_empty name ≡ false
        → contains_char b'@' email ≡ true
        → is_ok (make_attendee name email phone) ≡ not (is_blank name)
    attendee name [] phone given at = absurd (ground arith)
    attendee name (e ∷ es) phone given at = ground (arith, given, at)
