-- ===== src/PaymentSimulator.antt =====
-- adapters/payment.py: the simulated payment provider. The intents are in a dict of the adapter;
-- an intent that was returned is the object in the dict, so what `confirm_payment` writes is
-- read back by its id. The two `uuid4().hex` are arguments.
pub mod Laws
use ticket_genius.Prelude.{ℕ, Bool, Option, none, some, List, [], ◌∷◌, ◌++◌, take, if◌then◌else◌}
use ticket_genius.Prelude.Int.{pos}
use ticket_genius.Prelude.Text.{Text, codes, str_ℕ}
use ticket_genius.Prelude.Dict.{Dict, lookup, insert}
use ticket_genius.Python.{Result, ok, err, intent_not_found}
use ticket_genius.Domain.Decimal.{less, of_int}
use ticket_genius.Domain.Money.{Money, Currency}

pub record PaymentIntent : Type 0 where
  pub id : Text
  pub client_secret : Text
  pub status : Text
  pub amount : Money
  pub metadata : Dict Text

-- `self._intents`
abbrev pub Intents : Type 0
Intents = Dict PaymentIntent

abbrev or_empty : Option (Dict Text) → Dict Text
or_empty none = []
or_empty (some d) = d

unfoldable pub new_intent : Text → Text → Money → Option (Dict Text) → PaymentIntent
new_intent hex secret_hex amount metadata =
    let intent_id = codes "pi_test_" ++ take 24 hex in
    record {
      id = intent_id;
      client_secret = intent_id ++ (codes "_secret_" ++ take 16 secret_hex);
      status = codes "requires_payment_method";
      amount = amount;
      metadata = or_empty metadata;
    }

-- The currency is not used.
unfoldable pub create_payment_intent :
    Text → Text → Money → Currency → Option (Dict Text) → Intents → PaymentIntent × Intents
unfolding new_intent
create_payment_intent hex secret_hex amount currency metadata intents =
    let intent = new_intent hex secret_hex amount metadata in
    (intent, insert intent.id intent intents)

-- `intent.amount.amount > Decimal("100")`
unfoldable pub exceeds_limit : Money → Bool
exceeds_limit m = less (of_int (pos 100)) m.amount

unfoldable pub settle : ℕ → Text → PaymentIntent → PaymentIntent
unfolding exceeds_limit
settle now method i =
    if exceeds_limit i.amount
    then record i {
      status = codes "failed";
      metadata = insert (codes "failure_reason") (codes "amount_exceeds_limit") i.metadata;
    }
    else record i {
      status = codes "succeeded";
      metadata =
          insert (codes "captured_at") (str_ℕ now)
            (insert (codes "payment_method") method i.metadata);
    }

-- `confirm_payment`; `now` is `int(time.time())`.
unfoldable pub confirm_payment : ℕ → Text → Text → Intents → Result PaymentIntent × Intents
unfolding settle
confirm_payment now intent_id method intents = elim (lookup intent_id intents) [
  | none ↦ (
    err (intent_not_found (codes "Payment intent " ++ (intent_id ++ codes " not found"))),
    intents,
  )
  | some i ↦ (ok (settle now method i), insert intent_id (settle now method i) intents)
]

unfoldable pub get_payment_intent : Text → Intents → Option PaymentIntent
get_payment_intent intent_id intents = lookup intent_id intents
