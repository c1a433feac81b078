-- ===== src/Entrypoints/Container.antt =====
-- container.py and `bootstrap` of entrypoints/bootstrap.py: what the message bus is wired of. A
-- factory makes a new object at each use; an object is known by its number, and the next number is
-- the state. The units of work and the adapters keep what they are given.
use ticket_genius.Prelude.{ℕ, suc, ◌≡◌, ◌≢◌, refl, Bool, Option, none, some, ◌∷◌, [], arith}
use ticket_genius.Prelude.Text.{Text}
use ticket_genius.Entrypoints.Settings.{AppSettings}

pub record RedisClient : Type 0 where
  pub self : ℕ
  pub url : Text

pub record TicketmasterAdapter : Type 0 where
  pub self : ℕ
  pub client_id : Text
  pub client_secret : Text
  pub redis_client : Option RedisClient
  pub sandbox : Bool

pub record SqlAlchemyUnitOfWork : Type 0 where
  pub self : ℕ
  pub database_url : Text

pub record OrderCommandHandler : Type 0 where
  pub uow : SqlAlchemyUnitOfWork
  -- the adapter of the fulfillment service
  pub tm_adapter : TicketmasterAdapter
  -- a `PaymentSimulatorAdapter`
  pub payment_adapter : ℕ

pub record PlanCommandHandler : Type 0 where
  pub uow : SqlAlchemyUnitOfWork
  pub tm_adapter : TicketmasterAdapter

pub record QueryHandler : Type 0 where
  pub uow : SqlAlchemyUnitOfWork
  pub search_port : TicketmasterAdapter

pub record MessageBus : Type 0 where
  pub order_handler : OrderCommandHandler
  pub plan_handler : PlanCommandHandler
  pub query_handler : QueryHandler

-- `get_redis_client` of adapters/redis.py, for the value of REDIS_URL: an empty one counts as none.
abbrev pub get_redis_client : Option Text → ℕ → Option RedisClient × ℕ
get_redis_client none next = (none, next)
get_redis_client (some []) next = (none, next)
get_redis_client (some (c ∷ cs)) next = (some (record { self = next; url = c ∷ cs }), suc next)

-- `container.config`, with the keys that `bootstrap` may override.
pub record Config : Type 0 where
  pub database_url : Text
  pub tm_client_id : Text
  pub tm_client_secret : Text
  pub test_mode : Bool
  pub sandbox : Bool

pub record Overrides : Type 0 where
  pub database_url : Option Text
  pub tm_client_id : Option Text
  pub tm_client_secret : Option Text
  pub test_mode : Option Bool
  pub sandbox : Option Bool

-- `container.config.from_pydantic(get_settings())`
abbrev pub config_of : AppSettings → Config
config_of settings = record {
  database_url = settings.database.url;
  tm_client_id = settings.ticketmaster.client_id;
  tm_client_secret = settings.ticketmaster.client_secret;
  test_mode = settings.payment.test_mode;
  sandbox = settings.ticketmaster.sandbox;
}

-- `if key in config: option.from_value(config[key])`
abbrev pub from_value : {A : Type 0} → Option A → A → A
from_value none old = old
from_value (some new) old = new

unfoldable pub override : Option Overrides → Config → Config
override none c = c
override (some o) c = record {
  database_url = from_value o.database_url c.database_url;
  tm_client_id = from_value o.tm_client_id c.tm_client_id;
  tm_client_secret = from_value o.tm_client_secret c.tm_client_secret;
  test_mode = from_value o.test_mode c.test_mode;
  sandbox = from_value o.sandbox c.sandbox;
}

-- A container: its configuration, its settings, and the environment.
pub record Container : Type 0 where
  pub config : Config
  pub settings : AppSettings
  pub redis_url : Option Text

abbrev pub create_container : AppSettings → Option Text → Container
create_container settings redis_url = record {
  config = config_of settings;
  settings = settings;
  redis_url = redis_url;
}

abbrev pub unit_of_work : Container → ℕ → SqlAlchemyUnitOfWork × ℕ
unit_of_work c next = (record { self = next; database_url = c.settings.database.url }, suc next)

abbrev pub ticketmaster_adapter : Container → ℕ → TicketmasterAdapter × ℕ
ticketmaster_adapter c next =
    let (redis_client, after) = get_redis_client c.redis_url next in
    (
      record {
        self = after;
        client_id = c.settings.ticketmaster.client_id;
        client_secret = c.settings.ticketmaster.client_secret;
        redis_client = redis_client;
        sandbox = c.settings.ticketmaster.sandbox;
      },
      suc after,
    )

abbrev pub order_command_handler : Container → ℕ → OrderCommandHandler × ℕ
order_command_handler c next =
    let (uow, n) = unit_of_work c next in
    let (tm_adapter, m) = ticketmaster_adapter c n in
    (record { uow = uow; tm_adapter = tm_adapter; payment_adapter = m }, suc m)

abbrev pub plan_command_handler : Container → ℕ → PlanCommandHandler × ℕ
plan_command_handler c next =
    let (uow, n) = unit_of_work c next in
    let (tm_adapter, m) = ticketmaster_adapter c n in
    (record { uow = uow; tm_adapter = tm_adapter }, m)

abbrev pub query_handler : Container → ℕ → QueryHandler × ℕ
query_handler c next =
    let (uow, n) = unit_of_work c next in
    let (search_port, m) = ticketmaster_adapter c n in
    (record { uow = uow; search_port = search_port }, m)

unfoldable pub message_bus : Container → ℕ → MessageBus × ℕ
message_bus c next =
    let (orders, n) = order_command_handler c next in
    let (plans, m) = plan_command_handler c n in
    let (queries, k) = query_handler c m in
    (record { order_handler = orders; plan_handler = plans; query_handler = queries }, k)

unfoldable pub bootstrap : Option Overrides → AppSettings → Option Text → MessageBus
unfolding override message_bus
bootstrap overrides settings redis_url =
    let c = create_container settings redis_url in
    (message_bus (record c { config = override overrides c.config }) 0).0

-- The overrides of `bootstrap` change nothing of the bus: its units of work and its adapters are
-- those that the settings give without them.
pub bootstrap_ignores_overrides :
    (overrides : Overrides) (settings : AppSettings) (redis_url : Option Text)
    → (bootstrap (some overrides) settings redis_url ≡ bootstrap none settings redis_url)
      × ((bootstrap (some overrides) settings redis_url).order_handler.uow.database_url
          ≡ settings.database.url)
unfolding bootstrap
bootstrap_ignores_overrides overrides settings redis_url = (refl, refl)

-- The three handlers share no object: each has a unit of work and an adapter of its own, so that the
-- token and the rate limit of an adapter are never those of another one.
pub handlers_share_nothing :
    (overrides : Option Overrides) (settings : AppSettings) (redis_url : Option Text)
    → let bus = bootstrap overrides settings redis_url in
      (bus.order_handler.tm_adapter.self ≢ bus.plan_handler.tm_adapter.self)
      × (bus.order_handler.tm_adapter.self ≢ bus.query_handler.search_port.self)
      × (bus.plan_handler.tm_adapter.self ≢ bus.query_handler.search_port.self)
      × (bus.order_handler.uow.self ≢ bus.plan_handler.uow.self)
      × (bus.order_handler.uow.self ≢ bus.query_handler.uow.self)
      × (bus.plan_handler.uow.self ≢ bus.query_handler.uow.self)
unfolding bootstrap
handlers_share_nothing overrides settings none =
    (ground arith, ground arith, ground arith, ground arith, ground arith, ground arith)
handlers_share_nothing overrides settings (some []) =
    (ground arith, ground arith, ground arith, ground arith, ground arith, ground arith)
handlers_share_nothing overrides settings (some (c ∷ cs)) =
    (ground arith, ground arith, ground arith, ground arith, ground arith, ground arith)
