-- ===== src/Fulfillment/Laws.antt =====
-- What a fulfilment issues.
use ticket_genius.Prelude.{ℕ, ◌≡◌, refl, false, none, some, List, [], ◌∷◌, ◌++◌, arith, ap}
use ticket_genius.Prelude.Text.{Text, codes, text_eq}
use ticket_genius.Python.{ok, is_ok}
use ticket_genius.Python.Json.{Json, item, get, find, fields}
use ticket_genius.Python.Std.{Std}
use ticket_genius.Domain.Events.{Event, Envelope, order_confirmed}
use ticket_genius.Domain.Order.{Order, add_domain_event}
use ticket_genius.Domain.Plan.{Plan}
use ticket_genius.Redis.{Redis}
use ticket_genius.SeatHolds.{release_seat_holds}
use ticket_genius.Ticketmaster.Commerce.{
  offer_id, new_offer, new_tickets, new_acceptance, create_order, accept_offer, remember,
}
use ticket_genius.Fulfillment.{seat_labels, offer_text, tickets_of, fulfill}

module _ (std : Std) (plan : Plan) (o : Order) where
  -- The offer of an order that is fulfilled.
  abbrev pub offer_of : Text
  offer_of = offer_id (std.str plan.tm_plan_id) (codes "order_" ++ o.order_id)

module _ (R : Redis) (std : Std) (now : ℕ) (plan : Plan) (o : Order) where
  abbrev offer : Text
  offer = offer_of std plan o

  abbrev offered : Json
  offered =
      new_offer (std.str plan.tm_plan_id) o.quantity.value (seat_labels o.seats)
        (codes "order_" ++ o.order_id) now

  offer_text-offered : offer_text std offered ≡ ok offer
  unfolding offer_text new_offer item find fields text_eq
  offer_text-offered = ap (λ t. ok t) (std.str-text offer)

  tickets_of-new_acceptance :
      (id : Text) (seats : List Text)
      → tickets_of (new_acceptance id seats) ≡ ok (new_tickets id seats)
  unfolding tickets_of new_acceptance get find fields text_eq
  tickets_of-new_acceptance id seats = refl

  remember_free :
      (key : Text) (result : Json) (s : R.State)
      → R.get key s ≡ none
      → remember R std key result (some s)
        ≡ (ok result, some (R.setex key 86400 (std.dumps result) s))
  unfolding remember
  remember_free key result s free = ground arith

  abbrev offer_key : Text
  offer_key = codes "tm:offer:" ++ codes "order_" ++ o.order_id

  abbrev accept_key : Text
  accept_key = codes "tm:accept:" ++ codes "accept_" ++ o.order_id

  abbrev accepted : Json
  accepted = new_acceptance offer (seat_labels o.seats)

  abbrev after_offer : R.State → R.State
  after_offer s = R.setex offer_key 86400 (std.dumps offered) s

  accept_key_free :
      (s : R.State) → R.get accept_key s ≡ none → R.get accept_key (after_offer s) ≡ none
  unfolding text_eq
  accept_key_free s free =
      ground (arith, R.get-setex offer_key (std.dumps offered) 86400 s accept_key)

  -- The server when both calls are remembered.
  abbrev pub after_acceptance : R.State → R.State
  after_acceptance s = R.setex accept_key 86400 (std.dumps accepted) (after_offer s)

  -- Fulfilling an order that holds an event list, while neither of its idempotency keys is set in
  -- Redis, returns the tickets that the acceptance makes for its offer and seats. Both
  -- calls are remembered, then the order's own seat holds are released; the order gets an
  -- `OrderConfirmed` event with the tickets and keeps its status.
  pub fulfill_issues :
      (envelope : Envelope) (s : R.State) (es : List Event)
      → R.get offer_key s ≡ none
      → R.get accept_key s ≡ none
      → o.domain_events ≡ some es
      → let tickets = new_tickets offer (seat_labels o.seats) in
        let (r, (client, after)) = fulfill R std now envelope plan (some s, o) in
        (r ≡ ok tickets)
        × (client
            ≡ release_seat_holds R o.plan_id
                (seat_labels o.seats)
                o.order_id
                (some (after_acceptance s)))
        × (after.domain_events
            ≡ some (
                es
                ++ record { envelope = envelope; body = order_confirmed o.order_id tickets } ∷ []))
        × (after.status ≡ o.status)
  unfolding fulfill create_order accept_offer add_domain_event
  fulfill_issues envelope s es unoffered unaccepted live =
      rw
        (
          remember_free offer_key offered s unoffered,
          offer_text-offered,
          remember_free accept_key accepted (after_offer s) (accept_key_free s unaccepted),
          tickets_of-new_acceptance,
        )
        (ground arith)

  -- Fulfilling an order without an event list, as a mapper loads it, while neither of its
  -- idempotency keys is set in Redis, raises; it has accepted the offer and released the order's
  -- seat holds by then, and the order is as it was.
  pub fulfill_loaded :
      (envelope : Envelope) (s : R.State)
      → R.get offer_key s ≡ none
      → R.get accept_key s ≡ none
      → o.domain_events ≡ none
      → let (r, (client, after)) = fulfill R std now envelope plan (some s, o) in
        (is_ok r ≡ false)
        × (client
            ≡ release_seat_holds R o.plan_id
                (seat_labels o.seats)
                o.order_id
                (some (after_acceptance s)))
        × (after ≡ o)
  unfolding fulfill create_order accept_offer add_domain_event
  fulfill_loaded envelope s unoffered unaccepted absent =
      rw
        (
          remember_free offer_key offered s unoffered,
          offer_text-offered,
          remember_free accept_key accepted (after_offer s) (accept_key_free s unaccepted),
          tickets_of-new_acceptance,
        )
        (ground arith)

-- Two orders for one plan whose ids begin with the same two characters get one offer id.
pub fulfill_collides :
    (std : Std) (plan : Plan) (first second : Order) (c d : ℕ) (s t : Text)
    → first.order_id ≡ c ∷ d ∷ s
    → second.order_id ≡ c ∷ d ∷ t
    → (offer_of std plan first ≡ offer_of std plan second)
unfolding offer_id
fulfill_collides std plan first second c d s t mine theirs = ground arith
