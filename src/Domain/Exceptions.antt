-- ===== src/Domain/Exceptions.antt =====
-- domain/exceptions.py: the exception classes with their codes, messages and details.
use ticket_genius.Prelude.{ℕ, Option, none, some, [], ◌∷◌, ◌++◌}
use ticket_genius.Prelude.Int.{ℤ, pos}
use ticket_genius.Prelude.Text.{Text, codes, str_ℕ}
use ticket_genius.Prelude.Dict.{Dict}

-- `ErrorCode`; the last is the bare literal of `OptimisticLockError`.
pub data ErrorCode : Type 0 where
  plan_not_found plan_stale plan_inactive : ErrorCode
  order_not_found order_invalid_status order_insufficient_inventory order_seat_mismatch : ErrorCode
  payment_not_found payment_declined payment_invalid_status payment_intent_expired : ErrorCode
  idempotency_key_used : ErrorCode
  provider_error provider_unavailable provider_rate_limited provider_authentication_failed :
      ErrorCode
  validation_error invalid_input : ErrorCode
  optimistic_lock_error : ErrorCode

-- One constructor for each class, with the arguments of its `__init__` before `details`.
pub data ErrorKind : Type 0 where
  plan_not_found plan_stale order_not_found payment_not_found : Text → ErrorKind
  order_invalid_status payment_invalid_status : Text → Text → Text → ErrorKind
  insufficient_inventory : Text → ℕ → ℕ → ErrorKind
  seat_mismatch : ℕ → ℕ → ErrorKind
  payment_declined : Text → Text → ErrorKind
  idempotency_key_used : Text → ErrorKind
  provider_error : Text → Text → ErrorKind
  provider_unavailable provider_authentication_failed : Text → ErrorKind
  provider_rate_limited : Text → Option ℤ → ErrorKind
  validation_error : Text → Option Text → ErrorKind
  optimistic_lock : Text → Text → ErrorKind

-- The values of a `details` dict.
pub data Detail : Type 0 where
  text : Text → Detail
  number : ℤ → Detail
  missing : Detail

pub record DomainException : Type 0 where
  pub kind : ErrorKind
  pub message : Text
  pub code : ErrorCode
  pub details : Dict Detail

unfoldable pub code_of : ErrorKind → ErrorCode
code_of (ErrorKind.plan_not_found i) = ErrorCode.plan_not_found
code_of (ErrorKind.plan_stale i) = ErrorCode.plan_stale
code_of (ErrorKind.order_not_found i) = ErrorCode.order_not_found
code_of (ErrorKind.payment_not_found i) = ErrorCode.payment_not_found
code_of (ErrorKind.order_invalid_status i c e) = ErrorCode.order_invalid_status
code_of (ErrorKind.payment_invalid_status i c e) = ErrorCode.payment_invalid_status
code_of (ErrorKind.insufficient_inventory i r a) = ErrorCode.order_insufficient_inventory
code_of (ErrorKind.seat_mismatch e g) = ErrorCode.order_seat_mismatch
code_of (ErrorKind.payment_declined i r) = ErrorCode.payment_declined
code_of (ErrorKind.idempotency_key_used k) = ErrorCode.idempotency_key_used
code_of (ErrorKind.provider_error p m) = ErrorCode.provider_error
code_of (ErrorKind.provider_unavailable p) = ErrorCode.provider_unavailable
code_of (ErrorKind.provider_authentication_failed p) = ErrorCode.provider_authentication_failed
code_of (ErrorKind.provider_rate_limited p r) = ErrorCode.provider_rate_limited
code_of (ErrorKind.validation_error m f) = ErrorCode.validation_error
code_of (ErrorKind.optimistic_lock t i) = ErrorCode.optimistic_lock_error

-- The f-strings handed to `super().__init__`.
unfoldable pub message_of : ErrorKind → Text
message_of (ErrorKind.plan_not_found i) = codes "Plan " ++ (i ++ codes " not found")
message_of (ErrorKind.plan_stale i) = codes "Plan " ++ (i ++ codes " data is stale")
message_of (ErrorKind.order_not_found i) = codes "Order " ++ (i ++ codes " not found")
message_of (ErrorKind.payment_not_found i) = codes "Payment " ++ (i ++ codes " not found")
message_of (ErrorKind.order_invalid_status i c e) =
    codes "Order " ++ (i ++ (codes " is in status " ++ (c ++ (codes ", expected " ++ e))))
message_of (ErrorKind.payment_invalid_status i c e) =
    codes "Payment " ++ (i ++ (codes " is in status " ++ (c ++ (codes ", expected " ++ e))))
message_of (ErrorKind.insufficient_inventory i r a) =
    codes "Insufficient inventory for plan "
    ++ (i ++ (codes ": requested " ++ (str_ℕ r ++ (codes ", available " ++ str_ℕ a))))
message_of (ErrorKind.seat_mismatch e g) =
    codes "Seat mismatch: expected " ++ (str_ℕ e ++ (codes " seats, got " ++ str_ℕ g))
message_of (ErrorKind.payment_declined i r) = codes "Payment " ++ (i ++ (codes " declined: " ++ r))
message_of (ErrorKind.idempotency_key_used k) =
    codes "Idempotency key " ++ (k ++ codes " already used")
message_of (ErrorKind.provider_error p m) = codes "Provider " ++ (p ++ (codes " error: " ++ m))
message_of (ErrorKind.provider_unavailable p) = codes "Provider " ++ (p ++ codes " is unavailable")
message_of (ErrorKind.provider_authentication_failed p) =
    codes "Provider " ++ (p ++ codes " authentication failed")
message_of (ErrorKind.provider_rate_limited p r) = codes "Provider " ++ (p ++ codes " rate limited")
message_of (ErrorKind.validation_error m f) = m
message_of (ErrorKind.optimistic_lock t i) =
    t ++ (codes " " ++ (i ++ codes " was modified by another transaction"))

abbrev retry_detail : Option ℤ → Detail
retry_detail none = missing
retry_detail (some n) = number n

-- `{"field": field}` stands only behind a field that is not empty.
abbrev field_detail : Option Text → Dict Detail
field_detail none = []
field_detail (some []) = []
field_detail (some (c ∷ f)) = (codes "field", text (c ∷ f)) ∷ []

-- The dict that stands behind `details or`, and `{}` where none does.
unfoldable pub default_details : ErrorKind → Dict Detail
default_details (ErrorKind.order_invalid_status i c e) =
    (codes "current_status", text c) ∷ (codes "expected_status", text e) ∷ []
default_details (ErrorKind.payment_invalid_status i c e) =
    (codes "current_status", text c) ∷ (codes "expected_status", text e) ∷ []
default_details (ErrorKind.insufficient_inventory i r a) =
    (codes "plan_id", text i)
    ∷ (codes "requested", number (pos r))
    ∷ (codes "available", number (pos a))
    ∷ []
default_details (ErrorKind.seat_mismatch e g) =
    (codes "expected", number (pos e)) ∷ (codes "got", number (pos g)) ∷ []
default_details (ErrorKind.payment_declined i r) =
    (codes "payment_id", text i) ∷ (codes "reason", text r) ∷ []
default_details (ErrorKind.idempotency_key_used k) = (codes "key", text k) ∷ []
default_details (ErrorKind.provider_error p m) =
    (codes "provider", text p) ∷ (codes "message", text m) ∷ []
default_details (ErrorKind.provider_unavailable p) = (codes "provider", text p) ∷ []
default_details (ErrorKind.provider_authentication_failed p) = (codes "provider", text p) ∷ []
default_details (ErrorKind.provider_rate_limited p r) =
    (codes "provider", text p) ∷ (codes "retry_after", retry_detail r) ∷ []
default_details (ErrorKind.validation_error m f) = field_detail f
default_details (ErrorKind.optimistic_lock t i) =
    (codes "entity_type", text t) ∷ (codes "entity_id", text i) ∷ []
default_details k = []

-- `details or default`: an empty dict counts as absent.
abbrev or_default : Option (Dict Detail) → Dict Detail → Dict Detail
or_default none d = d
or_default (some []) d = d
or_default (some (e ∷ es)) d = e ∷ es

unfoldable pub make_exception : ErrorKind → Option (Dict Detail) → DomainException
unfolding code_of message_of default_details
make_exception k given = record {
  kind = k;
  message = message_of k;
  code = code_of k;
  details = or_default given (default_details k);
}
