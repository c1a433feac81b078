-- ===== src/Ticketmaster/Cache/Laws.antt =====
-- The event cache keeps the last event of each id until it is invalidated.
use ticket_genius.Prelude.{◌≡◌, true, none, some, [], ◌∷◌, ◌++◌, arith, if◌then◌else◌}
use ticket_genius.Prelude.Text.{Text, codes, text_eq, text_eq_iff}
use ticket_genius.Python.{ok}
use ticket_genius.Python.Json.{Json, null, get, truthy}
use ticket_genius.Python.Std.{Std}
use ticket_genius.Redis.{Redis}
use ticket_genius.Ticketmaster.Cache.{
  event_key, cache_event, get_cached_event, invalidate_event_cache,
}

append_cancel : (p s t : Text) → p ++ s ≡ p ++ t → s ≡ t
append_cancel [] s t e = e
append_cancel (c ∷ p) s t e = append_cancel p s t (cc)

event_key_injective : (i j : Text) → event_key i ≡ event_key j → i ≡ j
unfolding event_key
event_key_injective i j e = append_cancel (codes "tm:event:") i j e

-- Which key a lookup reads decides by the id alone.
pub event_key-eq : (i j : Text) → text_eq (event_key i) (event_key j) ≡ text_eq i j
event_key-eq i j =
    ground
      (arith, text_eq_iff (event_key i) (event_key j), text_eq_iff i j, event_key_injective i j)

module _ (R : Redis) (std : Std) where
  -- Caching an event whose `id` counts as true makes it the cached event of that id, and changes
  -- the cached event of no other; invalidating an id then forgets its event and no other.
  pub cached_event :
      (event i : Json) (s : R.State) (other : Text)
      → get (codes "id") null event ≡ ok i
      → truthy i ≡ true
      → let (r, after) = cache_event R std event (some s) in
        (r ≡ ok tt)
        × (get_cached_event R std other after ≡ (
            if text_eq (std.str i) other
            then ok (some event)
            else get_cached_event R std other (some s)))
        × (get_cached_event R std other (invalidate_event_cache R std (std.str i) after) ≡ (
            if text_eq (std.str i) other then ok none else get_cached_event R std other (some s)))
  unfolding cache_event get_cached_event invalidate_event_cache
  cached_event event i s other given counts =
      let stored = R.setex (event_key (std.str i)) 300 (std.dumps event) s in
      ground (
        arith,
        event_key-eq (std.str i) other,
        R.get-setex (event_key (std.str i)) (std.dumps event) 300 s (event_key other),
        R.get-delete (event_key (std.str i)) stored (event_key other),
        std.loads-dumps event,
        std.dumps_given event,
      )
