-- ===== src/Domain/Payment.antt =====
-- domain/models.py: `PaymentStatus` and `Payment`.
pub mod Laws
use ticket_genius.Prelude.{
  ℕ, ◌+◌, Bool, true, false, not, Option, none, some, List, [], ◌++◌, if◌then◌else◌,
}
use ticket_genius.Prelude.Text.{Text, codes}
use ticket_genius.Python.{Exn, ok, err, value_error}
use ticket_genius.Python.Exec.{Exec}
use ticket_genius.Domain.Decimal.{less_eq}
use ticket_genius.Domain.Money.{Money}
use ticket_genius.Domain.Values.{Uuid}

pub data PaymentStatus : Type 0 where
  created authorized captured failed refunded partially_refunded : PaymentStatus

-- No method of the class raises an event, so its event list is left out.
pub record Payment : Type 0 where
  pub payment_id : Uuid
  pub order_id : Uuid
  pub amount : Money
  pub provider : Text
  pub status : PaymentStatus
  pub provider_ref : Option Text
  pub intent_id : Option Text
  pub version : ℕ

unfoldable pub status_value : PaymentStatus → Text
status_value PaymentStatus.created = codes "CREATED"
status_value PaymentStatus.authorized = codes "AUTHORIZED"
status_value PaymentStatus.captured = codes "CAPTURED"
status_value PaymentStatus.failed = codes "FAILED"
status_value PaymentStatus.refunded = codes "REFUNDED"
status_value PaymentStatus.partially_refunded = codes "PARTIALLY_REFUNDED"

unfoldable pub status_error : Text → PaymentStatus → Exn
status_error what s =
    value_error (codes "Cannot " ++ (what ++ (codes " in status PaymentStatus." ++ status_value s)))

abbrev pub is_created : PaymentStatus → Bool
is_created PaymentStatus.created = true
is_created s = false

abbrev pub is_authorized : PaymentStatus → Bool
is_authorized PaymentStatus.authorized = true
is_authorized s = false

abbrev pub is_captured : PaymentStatus → Bool
is_captured PaymentStatus.captured = true
is_captured s = false

abbrev pub may_fail : PaymentStatus → Bool
may_fail PaymentStatus.created = true
may_fail PaymentStatus.authorized = true
may_fail s = false

-- `Payment.create`: `payment_id` is the new `uuid4()`.
unfoldable pub create : Uuid → Uuid → Money → Text → Text → Payment
create payment_id order_id amount provider intent_id = record {
  payment_id = payment_id;
  order_id = order_id;
  amount = amount;
  provider = provider;
  status = PaymentStatus.created;
  provider_ref = none;
  intent_id = some intent_id;
  version = 1;
}

abbrev enter : PaymentStatus → Payment → Payment
enter s p = record p { status = s; version = p.version + 1 }

unfoldable pub authorize : Exec Payment (Unit {0})
authorize p =
    if not (is_created p.status)
    then (err (status_error (codes "authorize") p.status), p)
    else (ok tt, enter PaymentStatus.authorized p)

unfoldable pub capture : Text → Exec Payment (Unit {0})
capture provider_ref p =
    if not (is_authorized p.status)
    then (err (status_error (codes "capture") p.status), p)
    else (ok tt, enter PaymentStatus.captured (record p { provider_ref = some provider_ref }))

-- The method does not use its reason.
unfoldable pub fail : Text → Exec Payment (Unit {0})
fail reason p =
    if not (may_fail p.status)
    then (err (status_error (codes "fail") p.status), p)
    else (ok tt, enter PaymentStatus.failed p)

-- `amount is None or amount.amount >= self.amount.amount`
unfoldable pub refunds_all : Option Money → Payment → Bool
refunds_all none p = true
refunds_all (some m) p = less_eq p.amount.amount m.amount

unfoldable pub refund : Option Money → Exec Payment (Unit {0})
unfolding refunds_all
refund amount p =
    if not (is_captured p.status)
    then (err (status_error (codes "refund") p.status), p)
    else if refunds_all amount p
    then (ok tt, enter PaymentStatus.refunded p)
    else (ok tt, enter PaymentStatus.partially_refunded p)
