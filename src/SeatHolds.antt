-- ===== src/SeatHolds.antt =====
-- service_layer/seat_holds.py: seat holds and the idempotency key of a payment, over Redis.
-- A client is an `Option`: `none` is the `None` for which the functions do nothing.
pub mod Keys
pub mod Acquire
pub mod Release
pub mod Concurrent
use ticket_genius.Prelude.{
  ℕ, Bool, true, false, Option, none, some, List, [], ◌∷◌, ◌++◌, if◌then◌else◌,
}
use ticket_genius.Prelude.Text.{Text, codes, text_eq}
use ticket_genius.Domain.Values.{Uuid}
use ticket_genius.Redis.{Redis}

abbrev pub seat_hold_ttl : ℕ
seat_hold_ttl = 600

abbrev pub payment_confirm_ttl : ℕ
payment_confirm_ttl = 86400

-- `f"{SEAT_HOLD_PREFIX}:{plan_id}:{seat_id}"`
unfoldable pub hold_key : Uuid → Text → Text
hold_key plan_id seat_id = codes "SEAT_HOLD" ++ b':' ∷ (plan_id ++ b':' ∷ seat_id)

-- `f"{PAYMENT_CONFIRM_PREFIX}:{payment_id}:{idempotency_key}"`
unfoldable pub confirm_key : Uuid → Text → Text
confirm_key payment_id key = codes "payment_confirm" ++ b':' ∷ (payment_id ++ b':' ∷ key)

-- `current == str(order_id)`: a key that is not set gives `None`
abbrev pub holds : Option Text → Uuid → Bool
holds none order_id = false
holds (some v) order_id = text_eq v order_id

module _ (R : Redis) where
  -- the loop that gives the seats back
  unfoldable pub delete_holds : Uuid → List Text → R.State → R.State
  delete_holds plan_id [] s = s
  delete_holds plan_id (seat ∷ seats) s =
      delete_holds plan_id seats (R.delete (hold_key plan_id seat) s)

  unfoldable pub acquire_loop : Uuid → Uuid → List Text → List Text → R.State → Bool × R.State
  acquire_loop plan_id order_id acquired [] s = (true, s)
  acquire_loop plan_id order_id acquired (seat ∷ seats) s =
      let (won, s') = R.set_nx (hold_key plan_id seat) order_id seat_hold_ttl s in
      let rest = acquire_loop plan_id order_id (acquired ++ seat ∷ []) seats s' in
      if won then rest else (false, delete_holds plan_id acquired s')

  unfoldable pub release_loop : Uuid → Uuid → List Text → R.State → R.State
  release_loop plan_id order_id [] s = s
  release_loop plan_id order_id (seat ∷ seats) s =
      let key = hold_key plan_id seat in
      release_loop plan_id order_id seats
        (if holds (R.get key s) order_id then R.delete key s else s)

  unfoldable pub acquire_seat_holds :
      Uuid → List Text → Uuid → Option R.State → Bool × Option R.State
  acquire_seat_holds plan_id seat_ids order_id none = (true, none)
  acquire_seat_holds plan_id seat_ids order_id (some s) =
      let (won, s') = acquire_loop plan_id order_id [] seat_ids s in (won, some s')

  unfoldable pub release_seat_holds : Uuid → List Text → Uuid → Option R.State → Option R.State
  release_seat_holds plan_id seat_ids order_id none = none
  release_seat_holds plan_id seat_ids order_id (some s) =
      some (release_loop plan_id order_id seat_ids s)

  unfoldable pub check_payment_idempotency : Uuid → Text → Option R.State → Bool × Option R.State
  check_payment_idempotency payment_id key none = (true, none)
  check_payment_idempotency payment_id key (some s) =
      let (won, s') = R.set_nx (confirm_key payment_id key) (codes "1") payment_confirm_ttl s in
      (won, some s')
