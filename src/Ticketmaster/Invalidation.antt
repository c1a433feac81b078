-- ===== src/Ticketmaster/Invalidation.antt =====
-- adapters/ticketmaster.py: `invalidate_all_event_cache` and `handle_plan_updated_webhook`, which
-- walk the keys with SCAN.
pub mod Laws
use ticket_genius.Prelude.{ℕ, zero, suc, Option, none, some, List, [], ◌∷◌}
use ticket_genius.Prelude.Text.{Text, codes}
use ticket_genius.Redis.{Redis}
use ticket_genius.Redis.Scan.{Scan, delete_keys}
use ticket_genius.Ticketmaster.Cache.{event_key}

module _ (R : Redis) (S : Scan R) where
  -- `while True` from one cursor on; `none` where the fuel runs out
  unfoldable pub delete_matching : Text → ℕ → ℕ → R.State → Option R.State
  delete_matching prefix zero cursor s = none
  delete_matching prefix (suc fuel) cursor s =
      let (next, keys) = S.scan prefix cursor s in
      elim next [
        | zero ↦ some (delete_keys R keys s)
        | suc n ↦ delete_matching prefix fuel (suc n) (delete_keys R keys s)
      ]

  unfoldable pub invalidate_all_event_cache : ℕ → R.State → Option R.State
  unfolding delete_matching
  invalidate_all_event_cache fuel s = delete_matching (codes "tm:event:") fuel 0 s

  -- `handle_plan_updated_webhook`: the event, and every search
  unfoldable pub handle_plan_updated_webhook : ℕ → Text → R.State → Option R.State
  unfolding delete_matching event_key
  handle_plan_updated_webhook fuel event_id s =
      delete_matching (codes "tm:search:") fuel 0 (R.delete (event_key event_id) s)
