-- ===== src/PaymentSimulator/Laws.antt =====
-- The simulated provider settles an intent once and for all.
use ticket_genius.Prelude.{
  ℕ, ◌≡◌, refl, Bool, true, false, none, some, arith, if◌then◌else◌, ltb, ap, ◌∙◌, sym,
}
use ticket_genius.Prelude.Int.{pos}
use ticket_genius.Prelude.Text.{Text, codes, text_eq}
use ticket_genius.Prelude.Dict.{lookup, insert, lookup-insert, lookup-insert_self}
use ticket_genius.Python.{ok, is_ok}
use ticket_genius.Domain.Decimal.{of_int, int_hundred}
use ticket_genius.Domain.Decimal.Laws.{order_cents, IsCents}
use ticket_genius.Domain.Money.{Money}
use ticket_genius.Domain.Money.Laws.{cents, IsValid}
use ticket_genius.PaymentSimulator.{
  PaymentIntent, Intents, confirm_payment, get_payment_intent, settle, exceeds_limit,
}

hundred-IsCents : IsCents (of_int (pos 100))
unfolding of_int
hundred-IsCents = omega arith

hundred_cents : int_hundred (of_int (pos 100)) ≡ 10000
unfolding of_int int_hundred
hundred_cents = refl

exceeds_limit-cents : (m : Money) → IsValid m → exceeds_limit m ≡ ltb 10000 (cents m)
unfolding exceeds_limit
exceeds_limit-cents m h =
    (order_cents (of_int (pos 100)) m.amount hundred-IsCents h).1
    ∙ ap (λ n. ltb n (cents m)) hundred_cents

abbrev pub outcome_text : Bool → Text
outcome_text true = codes "failed"
outcome_text false = codes "succeeded"

settle_status :
    (now : ℕ) (method : Text) (i : PaymentIntent)
    → (settle now method i).status ≡ outcome_text (exceeds_limit i.amount)
unfolding settle
settle_status now method i = ground arith

settle_amount :
    (now : ℕ) (method : Text) (i : PaymentIntent) → (settle now method i).amount ≡ i.amount
unfolding settle
settle_amount now method i = ground arith

confirm_found :
    (now : ℕ) (intent_id method : Text) (intents : Intents) (i : PaymentIntent)
    → lookup intent_id intents ≡ some i
    → confirm_payment now intent_id method intents
      ≡ (ok (settle now method i), insert intent_id (settle now method i) intents)
unfolding confirm_payment
confirm_found now intent_id method intents i h = rw (h, confirm_payment)

-- Confirming a stored intent of a valid amount returns it settled: failed if the amount is over
-- 100.00, succeeded if not, of the same amount. The stored intent is the returned one, no other
-- changes, and confirming again returns the same status.
pub confirm_settles :
    (now later : ℕ) (intent_id method : Text) (intents : Intents) (i : PaymentIntent)
    → IsValid i.amount
    → get_payment_intent intent_id intents ≡ some i
    → let (r, after) = confirm_payment now intent_id method intents in
      (settled again : PaymentIntent) × (r ≡ ok settled)
      × (settled.status ≡ outcome_text (ltb 10000 (cents i.amount)))
      × (settled.amount ≡ i.amount)
      × ((j : Text)
          → get_payment_intent j after
            ≡ (if text_eq intent_id j then some settled else get_payment_intent j intents))
      × ((confirm_payment later intent_id method after).0 ≡ ok again)
      × (again.status ≡ settled.status)
unfolding get_payment_intent
confirm_settles now later intent_id method intents i valid h =
    let settled = settle now method i in
    let first = confirm_found now intent_id method intents i h in
    let stored = insert intent_id settled intents in
    (
      settled,
      settle later method settled,
      ap (λ p. p.0) first,
      settle_status now method i ∙ ap outcome_text (exceeds_limit-cents i.amount valid),
      settle_amount now method i,
      λ j. rw first (lookup-insert intent_id j settled intents),
      rw first (
          ap (λ p. p.0)
            (confirm_found later intent_id method stored settled
              (lookup-insert_self intent_id settled intents))),
      settle_status later method settled
          ∙ ap (λ m. outcome_text (exceeds_limit m)) (settle_amount now method i)
          ∙ sym (settle_status now method i),
    )

-- A confirmation of an id that was never created raises and changes nothing.
pub confirm_unknown :
    (now : ℕ) (intent_id method : Text) (intents : Intents)
    → get_payment_intent intent_id intents ≡ none
    → let (r, after) = confirm_payment now intent_id method intents in
      (is_ok r ≡ false) × (after ≡ intents)
unfolding confirm_payment get_payment_intent
confirm_unknown now intent_id method intents h = ground arith
