-- ===== src/Ticketmaster/Commerce/Laws.antt =====
-- The calls of the Commerce API are idempotent, and the adapter's seat holds are those of
-- service_layer/seat_holds.py.
use mathlib.Core.Path.{ap₂}
use ticket_genius.Prelude.{
  ℕ, ◌≡◌, refl, sym, ◌∙◌, false, Option, none, some, List, [], ◌∷◌, ◌++◌, arith, if◌then◌else◌, ap,
}
use ticket_genius.Prelude.Int.{ℤ}
use ticket_genius.Prelude.Text.{Text, codes, text_eq_iff}
use ticket_genius.Python.{ok}
use ticket_genius.Python.Json.{Json}
use ticket_genius.Python.Std.{Std}
use ticket_genius.Domain.Values.{Uuid}
use ticket_genius.Redis.{Redis}
use ticket_genius.SeatHolds
use ticket_genius.SeatHolds.{hold_key, delete_holds, acquire_loop, seat_hold_ttl}
use ticket_genius.Ticketmaster.Commerce.{
  remember, new_offer, new_acceptance, create_order, accept_offer, give_back, hold_loop,
  acquire_seat_holds,
}

module _ (R : Redis) (std : Std) where
  -- What is remembered under a free key is given back for it from then on.
  remember_twice :
      (key : Text) (result other : Json) (s : R.State)
      → R.get key s ≡ none
      → let (first, after) = remember R std key result (some s) in
        (first ≡ ok result) × ((remember R std key other after).0 ≡ ok result)
  unfolding remember
  remember_twice key result other s free = ground (
    arith,
    R.get-setex key (std.dumps result) 86400 s key,
    text_eq_iff key key,
    std.loads-dumps result,
    std.dumps_given result,
  )

  -- While its key is kept, which was free before, a second offer for one key returns the first, whatever
  -- plan, quantity, seats and time it is asked for.
  pub create_order_once :
      (plan other : Text) (quantity amount : ℤ) (seats others : List Text) (key : Text)
      (now later : ℕ) (s : R.State)
      → R.get (codes "tm:offer:" ++ key) s ≡ none
      → let (first, after) = create_order R std plan quantity seats key now (some s) in
        (create_order R std other amount others key later after).0 ≡ first
  unfolding create_order
  create_order_once plan other quantity amount seats others key now later s free =
      let both =
        remember_twice (codes "tm:offer:" ++ key) (new_offer plan quantity seats key now)
          (new_offer other amount others key later) s free in
      both.1 ∙ sym both.0

  -- While its key is kept, a second acceptance for one idempotency key returns the first, whatever
  -- offer and seats it names; the key was free before the first.
  pub accept_offer_once :
      (offer other : Text) (seats others : List Text) (key : Text) (s : R.State)
      → R.get (codes "tm:accept:" ++ key) s ≡ none
      → let (first, after) = accept_offer R std offer key seats (some s) in
        (accept_offer R std other key others after).0 ≡ first
  unfolding accept_offer
  accept_offer_once offer other seats others key s free =
      let both =
        remember_twice (codes "tm:accept:" ++ key) (new_acceptance offer seats)
          (new_acceptance other others) s free in
      both.1 ∙ sym both.0

  give_back-eq :
      (plan_id : Uuid) (seats : List Text) (s : R.State)
      → give_back R std plan_id seats s ≡ delete_holds R plan_id seats s
  unfolding give_back delete_holds hold_key
  give_back-eq plan_id [] s = refl
  give_back-eq plan_id (seat ∷ seats) s =
      give_back-eq plan_id seats (R.delete (hold_key plan_id seat) s)

  hold_loop-eq :
      (plan_id order_id : Uuid) (acquired seats : List Text) (s : R.State)
      → hold_loop R std plan_id order_id acquired seats s
        ≡ acquire_loop R plan_id order_id acquired seats s
  unfolding hold_loop acquire_loop hold_key
  hold_loop-eq plan_id order_id acquired [] s = refl
  hold_loop-eq plan_id order_id acquired (seat ∷ seats) s =
      let tried = R.set_nx (hold_key plan_id seat) order_id seat_hold_ttl s in
      ap₂ (λ rest back. if tried.0 then rest else (false, back))
        (hold_loop-eq plan_id order_id (acquired ++ seat ∷ []) seats tried.1)
        (give_back-eq plan_id acquired tried.1)

  -- The adapter acquires seats exactly as the function of service_layer/seat_holds.py does.
  pub acquire_seat_holds-eq :
      (plan_id : Uuid) (seats : List Text) (order_id : Uuid) (client : Option R.State)
      → acquire_seat_holds R std plan_id seats order_id client
        ≡ SeatHolds.acquire_seat_holds R plan_id seats order_id client
  unfolding acquire_seat_holds SeatHolds.acquire_seat_holds
  acquire_seat_holds-eq plan_id seats order_id none = refl
  acquire_seat_holds-eq plan_id seats order_id (some s) =
      ap (λ r. (r.0, some r.1)) (hold_loop-eq plan_id order_id [] seats s)
