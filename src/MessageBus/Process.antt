-- ===== src/MessageBus/Process.antt =====
-- The checks and the shutdown of service_layer/messagebus.py.
use ticket_genius.Prelude.{Bool, true, false, Option, none, some}
use ticket_genius.Prelude.Text.{Text, codes}
use ticket_genius.Python.{Result, ok, err, attribute_error, ◌>>=◌}
use ticket_genius.UnitOfWork.{Session, UnitOfWork, commit}

-- `self._order_handler._tm`: the handler of orders has `_uow`, `_fulfillment` and `_payment`.
abbrev tm_of_order_handler : {A : Type 0} → Result A
tm_of_order_handler =
    err (attribute_error (codes "'OrderCommandHandler' object has no attribute '_tm'"))

-- `try: ... except Exception: return False`
abbrev or_false : Result Bool → Bool
or_false (ok b) = b
or_false (err e) = false

-- `check_database`: the statement that the unit of work runs
unfoldable pub check_database : Result (Unit {0}) → Bool
check_database executed = elim executed [ ok _ ↦ true | err e ↦ false ]

-- `check_redis`: with the adapter, its client is sent a ping if it has one.
unfoldable pub check_redis : {T : Type 0} → (T → Option (Result (Unit {0}))) → Bool
check_redis ping = or_false (
    tm_of_order_handler >>= λ tm. elim (ping tm) [
      | none ↦ ok false
      | some (ok _) ↦ ok true
      | some (err e) ↦ err e
    ])

-- `check_ticketmaster`: `_get_access_token` gives a token or `None`.
unfoldable pub check_ticketmaster : {T : Type 0} → (T → Result (Option Text)) → Bool
check_ticketmaster get_token = or_false (
    tm_of_order_handler >>= λ tm.
    get_token tm >>= λ token. ok (elim token [ none ↦ false | some t ↦ true ]))

-- What a shutdown touches.
module _ (S : Session) where
  pub record Process : Type 0 where
    pub uow : UnitOfWork S
    pub engine_open : Bool
    pub redis_open : Bool

  -- `flush_outbox`
  unfoldable pub flush_outbox : Process → Result (Unit {0}) × Process
  unfolding commit
  flush_outbox p = let (r, u) = commit S p.uow in (r, record p { uow = u })

  -- The second and the third `try` of `shutdown`
  abbrev dispose_engine : Process → Process
  dispose_engine p = record p { engine_open = false }

  abbrev close_if : Result Bool → Process → Process
  close_if (ok true) p = record p { redis_open = false }
  close_if (ok false) p = p
  close_if (err e) p = p

  abbrev close_redis : Process → Process
  close_redis p = close_if (tm_of_order_handler) p

  -- `shutdown`: each block swallows its exception.
  unfoldable pub shutdown : Process → Process
  unfolding flush_outbox
  shutdown p = close_redis (dispose_engine (flush_outbox p).1)
