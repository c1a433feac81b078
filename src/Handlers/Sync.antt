-- ===== src/Handlers/Sync.antt =====
-- service_layer/handlers.py: `PlanCommandHandler`. The search of its port is a parameter, by
-- page and size, for which `adapter_search` is what the program has; so is the query of a plan by its provider id. It does not enter its unit of work, so
-- that its state is the session alone. One time stands for the clock of a whole run.
pub mod Laws
use ticket_genius.Prelude.{
  ℕ, zero, suc, ◌+◌, Bool, true, false, ◌&&◌, not, Option, none, some, List, [], ◌∷◌, length, ltb,
  if◌then◌else◌,
}
use ticket_genius.Prelude.Text.{codes}
use ticket_genius.Python.{Result, ok, err, type_error}
use ticket_genius.Python.Json.{Json}
use ticket_genius.Python.Exec.{Exec, continue, pure, lift, gets, ◌>>=◌, ◌>>◌}
use ticket_genius.Python.Std.{Std}
use ticket_genius.Domain.Values.{Datetime}
use ticket_genius.Domain.Plan.{Plan, from_ticketmaster}
use ticket_genius.UnitOfWork.{Session}
use ticket_genius.Ticketmaster.PlanUpdate.{update_plan_from_ticketmaster}
use ticket_genius.MessageBus.{SyncPlansCommand}

-- `size`
abbrev pub page_size : ℕ
page_size = 100

-- `timedelta(hours=stale_threshold_hours)`
abbrev pub stale_threshold : ℕ
stale_threshold = 86400000000

-- `cmd.stale_only and existing`, and an age under the threshold
abbrev pub is_fresh : Datetime → Bool → Option Plan → Bool
is_fresh now stale_only none = false
is_fresh now stale_only (some existing) =
    stale_only && ltb now (existing.last_synced_at + stale_threshold)

-- `TicketmasterAdapter.search_plans(params: SearchParams)` of adapters/ticketmaster.py, called with
-- `page=` and `size=` as the handler calls its port.
abbrev pub adapter_search : ℕ → ℕ → Result (List Json)
adapter_search page size = err (
    type_error
      (codes "TicketmasterAdapter.search_plans() got an unexpected keyword argument 'page'"))

module _ (std : Std) (S : Session) (search : ℕ → ℕ → Result (List Json))
    (get_by_tm_id : Json → S.State → Option Plan) where
  -- `if existing`: an update writes the object that the session has, also beside an exception.
  abbrev store_plan : Datetime → Json → Plan → Option Plan → Exec S.State (Unit {0})
  store_plan now event plan none s = (ok tt, S.put_plan plan s)
  store_plan now event plan (some existing) s =
      let (r, p) = update_plan_from_ticketmaster std now event existing in (r, S.put_plan p s)

  -- the plan counts, unless `continue` passes it over
  abbrev store_unless : Bool → Datetime → Json → Plan → Option Plan → Exec S.State ℕ
  store_unless true now event plan existing = pure 0
  store_unless false now event plan existing = store_plan now event plan existing >> pure 1

  -- one turn of the inner loop: what it adds to `synced`
  unfoldable pub sync_event : Datetime → SyncPlansCommand → Json → Exec S.State ℕ
  unfolding update_plan_from_ticketmaster
  sync_event now cmd event = do
    plan ← lift (from_ticketmaster std now event)
    existing ← gets (get_by_tm_id plan.tm_plan_id)
    store_unless (is_fresh now cmd.stale_only existing) now event plan existing

  abbrev pub sync_events : Datetime → SyncPlansCommand → List Json → Exec S.State ℕ
  sync_events now cmd [] = pure 0
  sync_events now cmd (event ∷ events) = do
    n ← sync_event now cmd event
    m ← sync_events now cmd events
    pure (n + m)

  -- `if len(events) < size: break`
  abbrev pub unless_short : Bool → ℕ → (ℕ → Exec S.State (Option ℕ)) → Exec S.State (Option ℕ)
  unless_short true synced next = pure (some synced)
  unless_short false synced next = next synced

  -- One turn of the outer loop behind the search; `next` is the turn after it.
  abbrev pub turn :
      Datetime
      → SyncPlansCommand
      → List Json
      → ℕ
      → (ℕ → Exec S.State (Option ℕ))
      → Exec S.State (Option ℕ)
  turn now cmd [] synced next = pure (some synced)
  turn now cmd (e ∷ es) synced next = do
    n ← sync_events now cmd (e ∷ es)
    unless_short (ltb (length (e ∷ es)) page_size) (synced + n) next

  -- `while True` from one page on; `none` where the fuel runs out
  unfoldable pub sync_pages : ℕ → Datetime → SyncPlansCommand → ℕ → ℕ → Exec S.State (Option ℕ)
  sync_pages zero now cmd page synced = pure none
  sync_pages (suc fuel) now cmd page synced = do
    events ← lift (search page page_size)
    turn now cmd events synced (sync_pages fuel now cmd (page + 1))

  unfoldable pub handle_sync_plans : ℕ → Datetime → SyncPlansCommand → Exec S.State (Option ℕ)
  unfolding sync_pages
  handle_sync_plans fuel now cmd = sync_pages fuel now cmd 0 0
