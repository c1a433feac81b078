-- ===== src/Ticketmaster/PlanUpdate/Laws.antt =====
-- An update agrees with a new import, but for the fields that it leaves alone.
use ticket_genius.Prelude.{
  ◌+◌, ◌≡◌, ap, sym, refl, arith, ℕ, Option, none, some, [], is_some, if◌then◌else◌,
}
use ticket_genius.Prelude.Dict.{Dict}
use ticket_genius.Python.{Result, ok, err}
use ticket_genius.Prelude.Text.{Text, codes}
use ticket_genius.Python.Json.{Json, item}
use ticket_genius.Python.Std.{Std}
use ticket_genius.Domain.Values.{Datetime}
use ticket_genius.Domain.Plan.{
  Plan, from_ticketmaster, check_plan, image_of, name_in, price_range, price_of,
}
use ticket_genius.Domain.Money.{Money}
use ticket_genius.Ticketmaster.PlanUpdate.{
  or_empty, of_venue, last_updated, update_plan_from_ticketmaster,
}

or_empty-eq :
    (std : Std) (prices_json : Option (Dict ℕ))
    → or_empty std prices_json ≡ (if is_some prices_json then prices_json else some [])
or_empty-eq std none = refl
or_empty-eq std (some prices_json) = refl

module _ (std : Std) where
  abbrev price_in : Text → Json → Result Money
  price_in k tm_data = elim (price_range std tm_data) [
    | err e ↦ err e
    | ok range ↦ price_of std k range
  ]

  -- Where the fields of an imported plan come from.
  record IsReadFrom (now : Datetime) (tm_data : Json) (q : Plan) : Type 0 where
    name_read : item (codes "name") tm_data ≡ ok q.name
    url_read : item (codes "url") tm_data ≡ ok q.url
    image_read : image_of std tm_data ≡ ok q.image_url
    venue_read : of_venue std (item (codes "name")) tm_data ≡ ok q.venue_name
    city_read : of_venue std (name_in std (codes "city")) tm_data ≡ ok q.venue_city
    state_read : of_venue std (name_in std (codes "state")) tm_data ≡ ok q.venue_state
    min_read : price_in (codes "min") tm_data ≡ ok q.min_price
    max_read : price_in (codes "max") tm_data ≡ ok q.max_price
    updated_read : last_updated std tm_data ≡ ok q.tm_last_modified
    synced : q.last_synced_at ≡ now

  from_ticketmaster-IsReadFrom :
      (now : Datetime) (tm_data : Json) (q : Plan)
      → from_ticketmaster std now tm_data ≡ ok q
      → IsReadFrom now tm_data q
  unfolding from_ticketmaster check_plan
  from_ticketmaster-IsReadFrom now tm_data q h = grind arith

  read_prices :
      (range : Result Json) (min max : Money)
      → (elim range [ err e ↦ err e | ok r ↦ price_of std (codes "min") r ]) ≡ ok min
      → (elim range [ err e ↦ err e | ok r ↦ price_of std (codes "max") r ]) ≡ ok max
      → (r : Json) × (range ≡ ok r)
        × (price_of std (codes "min") r ≡ ok min)
        × (price_of std (codes "max") r ≡ ok max)
  read_prices (err e) min max h k = absurd (ground arith)
  read_prices (ok r) min max h k = (r, refl, h, k)

  -- Data from which `from_ticketmaster` makes a plan updates every plan: its ids and its dates
  -- stay, its seat prices stay or, where they are NULL, become empty, its version goes up by one, and
  -- every other field is that of the plan made.
  pub update_plan-from_ticketmaster :
      (now : Datetime) (tm_data : Json) (p q : Plan)
      → from_ticketmaster std now tm_data ≡ ok q
      → update_plan_from_ticketmaster std now tm_data p ≡ (
        ok tt,
        record q {
          plan_id = p.plan_id;
          tm_plan_id = p.tm_plan_id;
          date_range = p.date_range;
          version = p.version + 1;
          seat_prices_json = (if is_some p.seat_prices_json then p.seat_prices_json else some []);
        },
      )
  unfolding update_plan_from_ticketmaster
  update_plan-from_ticketmaster now tm_data p q h =
      let read = from_ticketmaster-IsReadFrom now tm_data q h in
      let (range, range_read, min_read, max_read) =
        read_prices (price_range std tm_data) q.min_price q.max_price read.min_read read.max_read in
      rw
        (
          read.name_read,
          read.url_read,
          read.image_read,
          read.venue_read,
          read.city_read,
          read.state_read,
          range_read,
          min_read,
          max_read,
          read.updated_read,
          or_empty-eq std p.seat_prices_json,
        )
        (ap
          (λ t. (
            ok tt,
            record q {
              plan_id = p.plan_id;
              tm_plan_id = p.tm_plan_id;
              date_range = p.date_range;
              last_synced_at = t;
              version = p.version + 1;
              seat_prices_json =
                  (if is_some p.seat_prices_json then p.seat_prices_json else some []);
            },
          ))
          (sym read.synced))
