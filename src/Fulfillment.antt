-- ===== src/Fulfillment.antt =====
-- service_layer/fulfillment.py: `FulfillOrderService.fulfill`. It works on the Redis client of
-- the adapter and on the order, which gets an event.
pub mod Laws
use ticket_genius.Prelude.{ℕ, Option, none, some, List, [], ◌++◌, map}
use ticket_genius.Prelude.Text.{Text, codes}
use ticket_genius.Python.{Result, ok, err}
use ticket_genius.Python.Exec.{Exec, ◌>>=◌, ◌>>◌, lift}
use ticket_genius.Python.Json.{Json, obj, arr, end, nil, item, get}
use ticket_genius.Python.Std.{Std}
use ticket_genius.Domain.SeatId.{Seat, seat_label}
use ticket_genius.Domain.Events.{Envelope, order_confirmed}
use ticket_genius.Domain.Order.{Order, add_domain_event}
use ticket_genius.Domain.Plan.{Plan}
use ticket_genius.Redis.{Redis}
use ticket_genius.SeatHolds.{release_seat_holds}
use ticket_genius.Ticketmaster.Commerce.{create_order, accept_offer}

-- `[f"{s.section}-{s.row}-{s.number}" for s in order.seats]`
unfoldable pub seat_labels : List Seat → List Text
seat_labels seats = map seat_label seats

-- An offer id is used only in f-strings.
unfoldable pub offer_text : Std → Json → Result Text
offer_text std tm_order = elim (item (codes "offer_id") tm_order) [
  | ok j ↦ ok (std.str j)
  | err e ↦ err e
]

-- `acceptance.get("fulfillment", {}).get("tickets", [])`
unfoldable pub tickets_of : Json → Result Json
tickets_of acceptance = elim (get (codes "fulfillment") (obj end) acceptance) [
  | ok j ↦ get (codes "tickets") (arr nil) j
  | err e ↦ err e
]

module _ (R : Redis) (std : Std) where
  -- What the service changes: the Redis client and the order.
  abbrev pub Shop : Type 0
  Shop = Option R.State × Order

  abbrev with_redis : {A : Type 0} → (Option R.State → Result A × Option R.State) → Exec Shop A
  with_redis f (client, o) = let (r, client') = f client in (r, (client', o))

  abbrev release : Exec Shop (Unit {0})
  release (client, o) =
      (ok tt, (release_seat_holds R o.plan_id (seat_labels o.seats) o.order_id client, o))

  abbrev announce : Envelope → Json → Exec Shop (Unit {0})
  announce envelope tickets (client, o) =
      let (r, o') =
        add_domain_event (record { envelope = envelope; body = order_confirmed o.order_id tickets })
          o in
      (r, (client, o'))

  unfoldable pub fulfill : ℕ → Envelope → Plan → Exec Shop Json
  fulfill now envelope plan (client, o) =
      (do
        tm_order ← with_redis (
            create_order R std (std.str plan.tm_plan_id) o.quantity.value (seat_labels o.seats)
              (codes "order_" ++ o.order_id) now)
        offer ← lift (offer_text std tm_order)
        acceptance ←
            with_redis
              (accept_offer R std offer (codes "accept_" ++ o.order_id) (seat_labels o.seats))
        tickets ← lift (tickets_of acceptance)
        release
        announce envelope tickets
        lift (ok tickets))
        (client, o)
