-- ===== src/SeatHolds/Release.antt =====
-- Releasing gives back the order's own holds and touches no other key.
use ticket_genius.Prelude.{
  ◌≡◌, ◌≢◌, refl, true, false, none, some, List, [], ◌∷◌, ◌&&◌, arith, if◌then◌else◌,
}
use ticket_genius.Prelude.Text.{Text, codes, text_eq_iff}
use ticket_genius.Domain.Values.{Uuid}
use ticket_genius.Redis.{Redis}
use ticket_genius.SeatHolds.{
  hold_key, holds, release_loop, release_seat_holds, acquire_seat_holds, check_payment_idempotency,
  confirm_key, payment_confirm_ttl,
}
use ticket_genius.SeatHolds.Keys.{is_hold_of}
use ticket_genius.SeatHolds.Acquire.{acquired_all}

module _ (R : Redis) (plan_id order_id : Uuid) where
  -- After a release a key is free if it is the hold of one of the seats for this order, and has
  -- its old value if it is not.
  pub get-release_loop :
      (seats : List Text) (s : R.State) (k : Text)
      → R.get k (release_loop R plan_id order_id seats s)
        ≡ (if is_hold_of plan_id seats k && holds (R.get k s) order_id then none else R.get k s)
  unfolding release_loop
  get-release_loop [] s k = refl
  get-release_loop (seat ∷ seats) s k =
      let key = hold_key plan_id seat in
      ground (
        arith,
        get-release_loop seats (if holds (R.get key s) order_id then R.delete key s else s) k,
        R.get-delete key s k,
        text_eq_iff key k,
      )

-- Releasing the seats that an order acquired puts every key back to what it was before.
pub release_acquired :
    (R : Redis) (plan_id order_id : Uuid) (seats : List Text) (s t : R.State)
    → acquire_seat_holds R plan_id seats order_id (some s) ≡ (true, some t)
    → (u : R.State) × (release_seat_holds R plan_id seats order_id (some t) ≡ some u)
      × ((k : Text) → R.get k u ≡ R.get k s)
unfolding release_seat_holds
release_acquired R plan_id order_id seats s t got =
    let mid = acquired_all R plan_id order_id seats s t got in
    (
      release_loop R plan_id order_id seats t,
      refl,
      λ k. ground (
        arith,
        get-release_loop R plan_id order_id seats t k,
        mid.held k,
        mid.were_free k,
        text_eq_iff order_id order_id,
      ),
    )

-- A release never frees or changes a key that another order holds.
pub release_keeps_others :
    (R : Redis) (plan_id order_id other : Uuid) (seats : List Text) (s : R.State) (k : Text)
    → other ≢ order_id
    → R.get k s ≡ some other
    → (t : R.State) × (release_seat_holds R plan_id seats order_id (some s) ≡ some t)
      × (R.get k t ≡ some other)
unfolding release_seat_holds
release_keeps_others R plan_id order_id other seats s k ne held = (
  release_loop R plan_id order_id seats s,
  refl,
  ground (arith, get-release_loop R plan_id order_id seats s k, text_eq_iff other order_id),
)

-- Of two confirmations of a payment with one key the first passes, if the key was free, and the
-- second does not.
pub idempotency_once :
    (R : Redis) (payment_id : Uuid) (key : Text) (s : R.State)
    → R.get (confirm_key payment_id key) s ≡ none
    → let (first, s') = check_payment_idempotency R payment_id key (some s) in
      (first ≡ true) × ((check_payment_idempotency R payment_id key s').0 ≡ false)
unfolding check_payment_idempotency
idempotency_once R payment_id key s free =
    let k = confirm_key payment_id key in
    let first = R.set_nx k (codes "1") payment_confirm_ttl s in
    let won : first.0 ≡ true = R.set_nx_free k (codes "1") payment_confirm_ttl s free in
    (
      won,
      R.set_nx_held k (codes "1") (codes "1") payment_confirm_ttl first.1 (
          ground (arith, won, R.get-set_nx k (codes "1") payment_confirm_ttl s k, text_eq_iff k k)),
    )
