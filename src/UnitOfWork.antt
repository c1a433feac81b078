-- ===== src/UnitOfWork.antt =====
-- adapters/unit_of_work.py over a SQLAlchemy session, which is a parameter.
pub mod Laws
pub mod Memory
use ticket_genius.Prelude.{
  ℕ, ◌≡◌, Bool, true, false, not, Option, none, some, List, [], ◌∷◌, ◌++◌, map, if◌then◌else◌, ◌==◌,
}
use ticket_genius.Prelude.Text.{Text, codes}
use ticket_genius.Prelude.Dict.{Dict}
use ticket_genius.Python.{Exn, Result, ok, err, attribute_error}
use ticket_genius.Python.Exec.{Exec}
use ticket_genius.Python.Json.{Json}
use ticket_genius.Domain.Values.{Uuid}
use ticket_genius.Domain.Events.{Event, event_type}
use ticket_genius.Domain.Order.{Order, clear_domain_events}
use ticket_genius.Domain.Payment.{Payment}
use ticket_genius.Domain.Plan.{Plan}

-- `OutboxEvent` of adapters/orm.py
pub record OutboxEvent : Type 0 where
  pub aggregate_id : Option Uuid
  pub aggregate_type : Text
  pub event_type : Text
  pub payload : Dict Json

-- A session. `put_` is both `add` and the attribute writes on an object that the session has:
-- either way the session knows the object with its new fields. `Stored` is what the database
-- shows to another transaction; only a commit changes it.
pub record Session : Type 1 where
  pub State : Type 0
  pub Stored : Type 0
  pub stored : State → Stored
  -- `session.get`, and the queries `filter_by(...).first()`: a mapper may raise on what a row has,
  -- as on an order with seats
  pub get_order : Uuid → State → Result (Option Order)
  pub get_payment_by_order : Uuid → State → Result (Option Payment)
  pub get_plan : Uuid → State → Result (Option Plan)
  pub put_order : Order → State → State
  pub put_payment : Payment → State → State
  pub put_plan : Plan → State → State
  -- the orders of `session.new`, then those of `session.dirty`
  pub unsaved_orders : State → List Order
  pub add_outbox : OutboxEvent → State → State
  pub commit : State → Result (Unit {0}) × State
  pub rollback : State → State
  pub close : State → State
  pub stored-put_order : (o : Order) (s : State) → stored (put_order o s) ≡ stored s
  pub stored-put_payment : (p : Payment) (s : State) → stored (put_payment p s) ≡ stored s
  pub stored-put_plan : (p : Plan) (s : State) → stored (put_plan p s) ≡ stored s
  -- a commit that raises writes nothing
  pub stored-commit_failed :
      (s : State) (e : Exn) → (commit s).0 ≡ err e → stored (commit s).1 ≡ stored s
  pub stored-rollback : (s : State) → stored (rollback s) ≡ stored s
  pub stored-close : (s : State) → stored (close s) ≡ stored s

-- The attributes of an object as `__dict__` shows them: a date with its ISO text, an object
-- with a `__dict__` of its own and its `str`, or a plain value.
pub data Attribute : Type 0 where
  date : Text → Attribute
  nested : Text → Attribute
  plain : Json → Attribute

abbrev is_private : Text → Bool
is_private [] = false
is_private (c ∷ s) = c == b'_'

abbrev to_json : Attribute → Json
to_json (date t) = Json.text t
to_json (nested t) = Json.text t
to_json (plain j) = j

serialize_items : Dict Attribute → Dict Json
serialize_items [] = []
serialize_items ((k, a) ∷ rest) =
    let others = serialize_items rest in if is_private k then others else (k, to_json a) ∷ others

-- `event.__dict__`: the event classes are declared with `slots=True`, and their instances have
-- none.
abbrev instance_dict : Event → Option (Dict Attribute)
instance_dict e = none

-- `_serialize_event`
unfoldable pub serialize_event : Event → Result (Dict Json)
unfolding serialize_items
serialize_event e = elim (instance_dict e) [
  | none ↦ err (
      attribute_error (codes "'" ++ (event_type e ++ codes "' object has no attribute '__dict__'")))
  | some d ↦ ok (serialize_items d)
]

-- Orders have events, and an order without an event list is passed over: `hasattr` of the
-- property is false there.
abbrev pub collected : List Order → List Event
collected [] = []
collected (o ∷ os) = elim o.domain_events [ none ↦ collected os | some es ↦ es ++ collected os ]

module _ (S : Session) where
  -- The unit of work: its session and `_domain_events`.
  pub record UnitOfWork : Type 0 where
    pub session : S.State
    pub domain_events : List Event

  abbrev pub clear_all : List Order → S.State → S.State
  clear_all [] s = s
  clear_all (o ∷ os) s = clear_all os (S.put_order (clear_domain_events o) s)

  -- `_collect_domain_events`
  unfoldable pub collect_domain_events : UnitOfWork → UnitOfWork
  collect_domain_events u =
      let orders = S.unsaved_orders u.session in
      record u {
        session = clear_all orders u.session;
        domain_events = u.domain_events ++ collected orders;
      }

  -- `_write_outbox_events`. The events are not taken off the list.
  write_events : List Event → S.State → Result (Unit {0}) × S.State
  write_events [] s = (ok tt, s)
  write_events (e ∷ es) s = elim (serialize_event e) [
    | err x ↦ (err x, s)
    | ok payload ↦ write_events es (
        S.add_outbox
          (record {
            aggregate_id = none;
            aggregate_type = event_type e;
            event_type = event_type e;
            payload = payload;
          })
          s)
  ]

  unfoldable pub write_outbox_events : Exec UnitOfWork (Unit {0})
  unfolding write_events serialize_event
  write_outbox_events u =
      let (r, s) = write_events u.domain_events u.session in (r, record u { session = s })

  abbrev commit_session : Exec UnitOfWork (Unit {0})
  commit_session u = let (r, s) = S.commit u.session in (r, record u { session = s })

  abbrev close_session : UnitOfWork → UnitOfWork
  close_session u = record u { session = S.close u.session }

  abbrev then_close : Result (Unit {0}) × UnitOfWork → Result (Unit {0}) × UnitOfWork
  then_close (err e, u) = (err e, u)
  then_close (ok _, u) = (ok tt, close_session u)

  abbrev then_commit : Result (Unit {0}) × UnitOfWork → Result (Unit {0}) × UnitOfWork
  then_commit (err e, u) = (err e, u)
  then_commit (ok _, u) = commit_session u

  -- `commit`, and `flush_outbox`, which has the same three lines
  unfoldable pub commit : Exec UnitOfWork (Unit {0})
  unfolding collect_domain_events write_outbox_events
  commit u = then_commit (write_outbox_events (collect_domain_events u))

  -- `__exit__` after a body that returned, and after one that raised
  unfoldable pub exit_ok : Exec UnitOfWork (Unit {0})
  unfolding commit
  exit_ok u = then_close (commit u)

  unfoldable pub exit_raised : UnitOfWork → UnitOfWork
  exit_raised u = close_session (record u { session = S.rollback u.session })
