-- ===== src/Ticketmaster/Commerce.antt =====
-- The simulated Commerce API of `TicketmasterAdapter`, and its own copy of the seat holds. The
-- provider's plan id is the text that the f-strings show; `now` is `int(time.time())`.
pub mod Laws
use ticket_genius.Prelude.{
  ℕ, Bool, true, false, Option, none, some, List, [], ◌∷◌, ◌++◌, map, take, is_empty, if◌then◌else◌,
}
use ticket_genius.Prelude.Int.{ℤ}
use ticket_genius.Prelude.Text.{Text, codes, str_ℕ}
use ticket_genius.Python.{Result, ok, err}
use ticket_genius.Python.Json.{Json, number, text, arr, obj, nil, cons, end, field, items, fields}
use ticket_genius.Python.Std.{Std}
use ticket_genius.Domain.Decimal.{of_int}
use ticket_genius.Domain.Values.{Uuid}
use ticket_genius.Redis.{Redis}

-- `f"offer_{plan_id}_{idempotency_key[:8]}"`
unfoldable pub offer_id : Text → Text → Text
offer_id plan_id idempotency_key =
    codes "offer_" ++ (plan_id ++ (codes "_" ++ take 8 idempotency_key))

-- the dict that `create_order` makes
unfoldable pub new_offer : Text → ℤ → List Text → Text → ℕ → Json
unfolding offer_id
new_offer plan_id quantity seat_ids idempotency_key now = obj (
    fields (
      (codes "id", text (codes "tm_order_" ++ (plan_id ++ (codes "_" ++ str_ℕ now))))
      ∷ (codes "status", text (codes "CREATED"))
      ∷ (codes "offer_id", text (offer_id plan_id idempotency_key))
      ∷ (codes "quantity", number (of_int quantity))
      ∷ (codes "seat_ids", arr (items (map text seat_ids)))
      ∷ []))

-- `seat_ids[0] if 0 < len(seat_ids) else "GA-0"`
abbrev pub first_seat : List Text → Text
first_seat [] = codes "GA-0"
first_seat (seat ∷ seats) = seat

-- The comprehension runs over `range(1)`: one ticket.
unfoldable pub new_tickets : Text → List Text → Json
new_tickets offer seat_ids = arr (
    cons
      (obj (
        fields (
          (codes "id", text (codes "ticket_" ++ (offer ++ codes "_0")))
          ∷ (codes "seat_id", text (first_seat seat_ids))
          ∷ (codes "barcode", text (codes "BC-" ++ (offer ++ codes "-0")))
          ∷ [])))
      nil)

unfoldable pub new_acceptance : Text → List Text → Json
new_acceptance offer seat_ids = obj (
    fields (
      (codes "id", text offer)
      ∷ (codes "status", text (codes "ACCEPTED"))
      ∷ (codes "fulfillment", obj (field (codes "tickets") (new_tickets offer seat_ids) end))
      ∷ []))

module _ (R : Redis) (std : Std) where
  -- The idempotency test and the write that both calls make: a key that is set answers with what
  -- is stored, and else the result is stored for a day.
  unfoldable pub remember : Text → Json → Option R.State → Result Json × Option R.State
  remember key result none = (ok result, none)
  remember key result (some s) = elim (R.get key s) [
    | none ↦ (ok result, some (R.setex key 86400 (std.dumps result) s))
    | some cached ↦
        if is_empty cached
        then (ok result, some (R.setex key 86400 (std.dumps result) s))
        else (std.loads cached, some s)
  ]

  unfoldable pub create_order :
      Text → ℤ → List Text → Text → ℕ → Option R.State → Result Json × Option R.State
  unfolding remember
  create_order plan_id quantity seat_ids idempotency_key now =
      remember (codes "tm:offer:" ++ idempotency_key)
        (new_offer plan_id quantity seat_ids idempotency_key now)

  unfoldable pub accept_offer :
      Text → Text → List Text → Option R.State → Result Json × Option R.State
  unfolding remember
  accept_offer offer idempotency_key seat_ids =
      remember (codes "tm:accept:" ++ idempotency_key) (new_acceptance offer seat_ids)

  -- `acquire_seat_holds` of the adapter, its loops written out once more
  unfoldable pub give_back : Uuid → List Text → R.State → R.State
  give_back plan_id [] s = s
  give_back plan_id (seat ∷ seats) s =
      give_back plan_id seats (R.delete (codes "SEAT_HOLD:" ++ (plan_id ++ b':' ∷ seat)) s)

  unfoldable pub hold_loop : Uuid → Uuid → List Text → List Text → R.State → Bool × R.State
  hold_loop plan_id order_id acquired [] s = (true, s)
  hold_loop plan_id order_id acquired (seat ∷ seats) s =
      let (won, s') = R.set_nx (codes "SEAT_HOLD:" ++ (plan_id ++ b':' ∷ seat)) order_id 600 s in
      let rest = hold_loop plan_id order_id (acquired ++ seat ∷ []) seats s' in
      if won then rest else (false, give_back plan_id acquired s')

  unfoldable pub acquire_seat_holds :
      Uuid → List Text → Uuid → Option R.State → Bool × Option R.State
  acquire_seat_holds plan_id seat_ids order_id none = (true, none)
  acquire_seat_holds plan_id seat_ids order_id (some s) =
      let (won, s') = hold_loop plan_id order_id [] seat_ids s in (won, some s')
