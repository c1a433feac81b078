-- ===== src/Ticketmaster/Cache.antt =====
-- The event cache of `TicketmasterAdapter`: the keys `tm:event:{id}`.
pub mod Laws
use ticket_genius.Prelude.{Bool, not, Option, none, some, List, [], ◌++◌, is_empty, if◌then◌else◌}
use ticket_genius.Prelude.Text.{Text, codes}
use ticket_genius.Python.{Result, ok, err, domain}
use ticket_genius.Python.Json.{Json, null, get, truthy}
use ticket_genius.Python.Std.{Std}
use ticket_genius.Redis.{Redis}

-- `f"tm:event:{event_id}"`
unfoldable pub event_key : Text → Text
event_key event_id = codes "tm:event:" ++ event_id

module _ (R : Redis) (std : Std) where
  -- `_cache_event`
  unfoldable pub cache_event : Json → Option R.State → Result (Unit {0}) × Option R.State
  cache_event event none = (ok tt, none)
  cache_event event (some s) = elim (get (codes "id") null event) [
    | err e ↦ (err e, some s)
    | ok i ↦
        if not (truthy i)
        then (ok tt, some s)
        else (ok tt, some (R.setex (event_key (std.str i)) 300 (std.dumps event) s))
  ]

  abbrev pub read_cached : Option Text → Result (Option Json)
  read_cached none = ok none
  read_cached (some cached) =
      if is_empty cached
      then ok none
      else elim (std.loads cached) [ ok j ↦ ok (some j) | err e ↦ err e ]

  -- `get_cached_event`
  unfoldable pub get_cached_event : Text → Option R.State → Result (Option Json)
  get_cached_event event_id none = ok none
  get_cached_event event_id (some s) = read_cached (R.get (event_key event_id) s)

  -- `invalidate_event_cache`
  unfoldable pub invalidate_event_cache : Text → Option R.State → Option R.State
  invalidate_event_cache event_id none = none
  invalidate_event_cache event_id (some s) = some (R.delete (event_key event_id) s)
