-- ===== src/Lib.antt =====
-- Ticket Genius: orders, payments and seat holds for events of a ticket provider, from domain/,
-- adapters/, service_layer/ and entrypoints/ of the repository.
--
-- The program's parts and the files that model them:
--   * domain/value_objects.py: Domain/Money, Domain/SeatId and Domain/Values; `decimal.Decimal`
--     is Domain/Decimal, a whole number over a power of ten. A constructor that may raise is a
--     function to `Result`, named `make_` and the class.
--   * domain/models.py: Domain/Order, Domain/Payment and Domain/Plan. A class is a record, and
--     a method that changes the object and may raise is an `Exec` (Python/Exec): it gives a
--     result and the object, also beside an exception, since what a method wrote before it
--     raised stays written.
--   * domain/exceptions.py and domain/events.py: Domain/Exceptions and Domain/Events.
--   * service_layer/seat_holds.py: SeatHolds. The Redis client is a parameter (Redis, and
--     Redis/Scan for SCAN), a record of the commands that the program sends with laws on what
--     they do to keys; Redis/Memory and Redis/Scanner show that the laws can hold. A client is
--     an `Option`, for the `None` that the code tests. SeatHolds/Concurrent has the same code
--     as steps of one command, for processes whose steps are interleaved and for holds that
--     expire between two steps.
--   * adapters/payment.py: PaymentSimulator, over the dict of its intents.
--   * adapters/ticketmaster.py: Ticketmaster/TokenBucket, Token (the access token), Request
--     (the retry loop and the handling of HTTP errors), Client (a request with its cache),
--     Cache (the cached events), Invalidation (their removal), Commerce (offers, acceptances,
--     seat holds) and PlanUpdate (the update of a plan from an event).
--   * service_layer/fulfillment.py: Fulfillment, which calls Commerce, then SeatHolds, then
--     adds an event to the order.
--   * adapters/unit_of_work.py: UnitOfWork, over a database session that is a parameter; what
--     another transaction sees is `stored`, which only a commit changes. UnitOfWork/Memory
--     shows that its laws can hold.
--   * adapters/orm.py: Repositories/Tables, the rows of the tables by their columns, and
--     Mappers, how a row is loaded as an object and an object stored.
--   * adapters/repositories_write.py and repositories_read.py: Repositories/Write, the UPDATE
--     statements over the rows of a table, one definition for the three classes (`Versioned`),
--     Repositories/Read, the summaries of orders, and Repositories/Search,
--     the search of plans.
--   * migrations/versions/: Migrations, the tables and the statements of the migration, and
--     Migrations/Mapped, the columns of adapters/orm.py to compare them with.
--   * service_layer/cursor.py: Cursor. A query is the list of the rows that it gives.
--   * service_layer/handlers.py and commands.py: Handlers, the four order commands over the
--     Redis client, the unit of work and the intents (`World`). A command is its body and the
--     way its `with` block is left (`in_uow`). A method call on an object of the session is
--     followed by a write of the object to the session, also where the call raised
--     (Handlers/Steps). Handlers/Sync is the synchronisation of plans, over what it searches,
--     and Handlers/Queries the queries.
--   * service_layer/messagebus.py and queries.py: MessageBus, over what the methods of the
--     handlers do; `singledispatch` looks up the class of its first argument. Its checks and
--     its shutdown are MessageBus/Process.
--   * entrypoints/api.py and schemas.py: Entrypoints/Schemas, Constraints (the constraints of
--     the fields), Requests, Responses and Api, the views over the bus, with the error handlers
--     around them; entrypoints/bootstrap.py: Entrypoints/Health and Container, which is
--     container.py too, what the bus is wired of; config.py: Entrypoints/Settings.
--   * cli/commands.py: Cli/Bus (the commands that go through the bus, with the refund of Cli),
--     Keys (`purge_cache`, `toggle_flag`), Stale (`check_stale`, the dry run of `sync_stale`),
--     Outbox (`replay_outbox`) and Health (`health_check`). How a command ends is Cli/Ended.
--   * tasks.py: Tasks, the PID file and the processes of a machine that is a parameter, and
--     Tasks/Commands, the command lines of the other tasks.
--   * observability/: Observability/Requests (the correlation id of a request), Metrics (the
--     business metrics) and Validation (the validators of bodies and their decorators).
--   * Python, Python/Json, Python/Std and Python/Encoding: exceptions, the values of
--     `json.loads`, and the functions of the standard library that the program only calls, as
--     parameters with the laws it relies on. Prelude and its children: numbers, integers,
--     lists, texts and association lists.
-- Names of the code keep their words; a text is a list of character codes, a date a number.
--
-- Bounds and fuel: `str_ℕ` is given one more step than its number, which has fewer digits. The
-- retry loop counts down the three attempts of the source. A synchronisation, a walk with SCAN
-- and a client that follows cursors run on fuel, of one step for a page or a call: theorems say
-- how many are enough. The polls of a start count down the thirty of the source, and a watcher
-- runs for a number of changes. Sums, differences and products of decimals are rounded to the 28
-- digits of Python's default context; what a mapper or an adapter multiplies or divides by 100 is
-- taken as exact. The clock of the rate limiter counts whole units of time, of any fineness, where
-- the source has floats. The laws of Redis are those of one moment: a key that is set with a time
-- to live is there at once, theorems on a later call say while the key is kept, and only
-- SeatHolds/Concurrent has a key expire.
--
-- The classes name types in annotations that their modules do not import; the model takes the
-- modules as loaded, as where annotations are not evaluated.
--
-- Not modelled: the concurrent writes of others within one call, but for the seat holds; the HTTP
-- client, the database behind the session and how it compares columns, what pydantic accepts, the
-- decorators of the routes, the search of the provider's client but for its refusal of the call that
-- the handlers make, the static pages of the
-- application, latency histograms, and the set-up of logging and tracing, which only call their
-- libraries.
pub mod Prelude
pub mod Domain
pub mod Python
pub mod Redis
pub mod SeatHolds
pub mod PaymentSimulator
pub mod Tasks
pub mod Observability
pub mod Ticketmaster
pub mod Fulfillment
pub mod UnitOfWork
pub mod Handlers
pub mod MessageBus
pub mod Cursor
pub mod Repositories
pub mod Mappers
pub mod Migrations
pub mod Entrypoints
pub mod Cli
pub mod Tests
