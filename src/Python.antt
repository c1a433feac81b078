-- ===== src/Python.antt =====
-- What Python code does when it runs: it returns or raises, and what it wrote before a raise
-- stays written. The exceptions are those of domain/exceptions.py, of adapters/, and those that
-- the interpreter raises itself.
pub mod Exec
pub mod Json
pub mod Std
pub mod Encoding
use ticket_genius.Prelude.{Bool, true, false, none}
use ticket_genius.Prelude.Text.{Text}
use ticket_genius.Domain.Exceptions.{DomainException, ErrorKind, make_exception}

pub data Exn : Type 0 where
  value_error attribute_error name_error type_error key_error index_error : Text → Exn
  -- `RetryableError` of adapters/ticketmaster.py
  retryable_error : Text → Exn
  -- `PaymentNotFoundError` of adapters/payment.py, which is no domain exception
  intent_not_found : Text → Exn
  domain : DomainException → Exn

pub data Result {ℓ} (A : Type ℓ) : Type ℓ where
  ok : A → Result A
  err : Exn → Result A

-- `raise C(...)` of a domain exception with no `details` argument
abbrev pub domain_error : ErrorKind → Exn
domain_error k = domain (make_exception k none)

-- Whether a call returned.
abbrev pub is_ok {ℓ} : {A : Type ℓ} → Result A → Bool
is_ok (err raised) = false
is_ok (ok value) = true

-- The next statement runs on what the last one returned, and not at all after a raise.
module _ {ℓ κ} {A : Type ℓ} {B : Type κ} where
  infixl 5 ◌>>=◌ ◌>>◌
  abbrev pub ◌>>=◌ : Result A → (A → Result B) → Result B
  (err raised) >>= next = err raised
  (ok value) >>= next = next value

  abbrev pub ◌>>◌ : Result A → Result B → Result B
  first >> next = first >>= λ value. next
