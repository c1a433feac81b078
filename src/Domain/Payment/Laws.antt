-- ===== src/Domain/Payment/Laws.antt =====
-- The payment's state machine, and what a refund says of the amount.
use ticket_genius.Prelude.{
  ℕ, ◌+◌, ◌≡◌, ◌≤◌, true, Option, some, List, [], ◌∷◌, arith, if◌then◌else◌, leb, is_some,
}
use ticket_genius.Prelude.Text.{Text}
use ticket_genius.Python.{Result, ok, err}
use ticket_genius.Domain.Decimal.Laws.{order_cents}
use ticket_genius.Domain.Money.{Money}
use ticket_genius.Domain.Money.Laws.{cents, IsValid}
use ticket_genius.Domain.Payment.{
  Payment, PaymentStatus, created, authorized, captured, failed, refunded, partially_refunded,
  create, authorize, capture, fail, refund, is_created, is_authorized, is_captured, may_fail,
}
use ticket_genius.Domain.Values.{Uuid}

pub data Transition : PaymentStatus → PaymentStatus → Type 0 where
  authorizing : Transition created authorized
  capturing : Transition authorized captured
  failing_created : Transition created failed
  failing_authorized : Transition authorized failed
  refunding : Transition captured refunded
  refunding_part : Transition captured partially_refunded

pub data Operation : Type 0 where
  authorizes : Operation
  captures fails : Text → Operation
  refunds : Option Money → Operation

unfoldable pub apply : Operation → Payment → Result (Unit {0}) × Payment
apply authorizes = authorize
apply (captures provider_ref) = capture provider_ref
apply (fails reason) = fail reason
apply (refunds amount) = refund amount

abbrev pub Steps : Payment → Result (Unit {0}) × Payment → Type 0
Steps p (ok _, p') = Transition p.status p'.status × (p'.version ≡ p.version + 1)
Steps p (err _, p') = p' ≡ p

created_authorized : (s : PaymentStatus) → is_created s ≡ true → Transition s authorized
created_authorized PaymentStatus.created e = authorizing
created_authorized s e = cc

authorized_captured : (s : PaymentStatus) → is_authorized s ≡ true → Transition s captured
authorized_captured PaymentStatus.authorized e = capturing
authorized_captured s e = cc

may_fail-Transition : (s : PaymentStatus) → may_fail s ≡ true → Transition s failed
may_fail-Transition PaymentStatus.created e = failing_created
may_fail-Transition PaymentStatus.authorized e = failing_authorized
may_fail-Transition s e = cc

captured_refunded : (s : PaymentStatus) → is_captured s ≡ true → Transition s refunded
captured_refunded PaymentStatus.captured e = refunding
captured_refunded s e = cc

captured_part : (s : PaymentStatus) → is_captured s ≡ true → Transition s partially_refunded
captured_part PaymentStatus.captured e = refunding_part
captured_part s e = cc

-- Every call on a payment takes one transition and raises the version by one, or raises and
-- changes nothing.
pub apply-Steps : (op : Operation) (p : Payment) → Steps p (apply op p)
unfolding apply authorize capture fail refund
apply-Steps authorizes p = ground (arith, created_authorized p.status)
apply-Steps (captures r) p = ground (arith, authorized_captured p.status)
apply-Steps (fails r) p = ground (arith, may_fail-Transition p.status)
apply-Steps (refunds amount) p = ground (arith, captured_refunded p.status, captured_part p.status)

unfoldable pub run : List Operation → Payment → Payment
run [] p = p
run (op ∷ ops) p = run ops (apply op p).1

abbrev pub rank : PaymentStatus → ℕ
rank PaymentStatus.created = 0
rank PaymentStatus.authorized = 1
rank PaymentStatus.captured = 2
rank s = 3

-- Money that was captured or given back has the provider's reference, and the version counts
-- the steps.
pub record IsReferenced (p : Payment) : Type 0 where
  pub referenced : p.status ≡ captured → is_some p.provider_ref ≡ true
  pub repaid : p.status ≡ refunded → is_some p.provider_ref ≡ true
  pub part_repaid : p.status ≡ partially_refunded → is_some p.provider_ref ≡ true
  pub counted : p.version ≤ rank p.status + 1

apply-IsReferenced : (op : Operation) (p : Payment) → IsReferenced p → IsReferenced (apply op p).1
unfolding apply authorize capture fail refund
apply-IsReferenced authorizes p h = ground arith
apply-IsReferenced _ p h = ground arith

run-IsReferenced : (ops : List Operation) (p : Payment) → IsReferenced p → IsReferenced (run ops p)
unfolding run
run-IsReferenced [] p h = h
run-IsReferenced (op ∷ ops) p h = run-IsReferenced ops (apply op p).1 (apply-IsReferenced op p h)

create-IsReferenced :
    (payment_id order_id : Uuid) (amount : Money) (provider intent_id : Text)
    → IsReferenced (create payment_id order_id amount provider intent_id)
unfolding create
create-IsReferenced payment_id order_id amount provider intent_id = ground arith

-- A payment made by `Payment.create` has, after any calls, the provider's reference in each
-- state that rests on a capture, and a version of at most its rank and one.
pub run-create-IsReferenced :
    (payment_id order_id : Uuid) (amount : Money) (provider intent_id : Text) (ops : List Operation)
    → IsReferenced (run ops (create payment_id order_id amount provider intent_id))
run-create-IsReferenced payment_id order_id amount provider intent_id ops =
    run-IsReferenced ops (create payment_id order_id amount provider intent_id)
      (create-IsReferenced payment_id order_id amount provider intent_id)

-- A refund of a captured payment of a valid amount ends in `REFUNDED` if the amount asked for
-- has at least the cents of the payment, and in `PARTIALLY_REFUNDED` if it has fewer. The
-- currencies are not compared, and the amount is kept.
pub refund_status :
    (p : Payment) (m : Money)
    → p.status ≡ captured
    → IsValid p.amount
    → IsValid m
    → let (r, p') = refund (some m) p in
      (r ≡ ok tt)
      × (p'.status ≡ (if leb (cents p.amount) (cents m) then refunded else partially_refunded))
      × (p'.amount ≡ p.amount)
unfolding refund
refund_status p m at hp hm = ground (arith, order_cents p.amount.amount m.amount hp hm)
