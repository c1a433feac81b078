-- ===== src/Ticketmaster/Invalidation/Laws.antt =====
-- Behind an invalidation that ends no key of its pattern is left.
use ticket_genius.Prelude.{
  ℕ, zero, suc, ◌<◌, ◌≡◌, refl, true, false, none, some, List, [], ◌∷◌, arith, if◌then◌else◌,
}
use ticket_genius.Prelude.Text.{
  mentions, mentions-append, Text, codes, text_eq, text_eq_iff, starts_with,
}
use ticket_genius.Redis.{Redis}
use ticket_genius.Redis.Scan.{
  Scan, is_held, is_iteration, returned, held_in_all, delete_keys, get-delete_keys,
}
use ticket_genius.Ticketmaster.Invalidation.{
  delete_matching, invalidate_all_event_cache, handle_plan_updated_webhook,
}
use ticket_genius.Ticketmaster.Cache.{event_key, get_cached_event}
use ticket_genius.Ticketmaster.Cache.Laws.{event_key-eq}
use ticket_genius.Python.{ok}
use ticket_genius.Python.Std.{Std}

module _ (R : Redis) (S : Scan R) where
  -- The states in which the calls of a loop find the server.
  abbrev visited : Text → ℕ → ℕ → R.State → List R.State
  visited prefix zero cursor s = []
  visited prefix (suc fuel) cursor s = s ∷ elim (S.scan prefix cursor s).0 [
    | zero ↦ []
    | suc n ↦ visited prefix fuel (suc n) (delete_keys R (S.scan prefix cursor s).1 s)
  ]

  -- A loop that ends is an iteration, has deleted what it returned, and nothing else.
  delete_matching_lem :
      (prefix k : Text) (fuel cursor : ℕ) (s after : R.State)
      → delete_matching R S prefix fuel cursor s ≡ some after
      → let states = visited prefix fuel cursor s in
        (is_iteration (S.scan prefix) cursor states ≡ true)
        × (R.get k after
            ≡ (if mentions k (returned (S.scan prefix) cursor states) then none else R.get k s))
        × (is_held (R.get k after) ≡ true → held_in_all R.get k states ≡ true)
  unfolding delete_matching
  delete_matching_lem prefix k zero cursor s after h = ground arith
  delete_matching_lem prefix k (suc fuel) cursor s after h =
      let (next, keys) = S.scan prefix cursor s in
      let rest = delete_keys R keys s in
      ground (
        arith,
        delete_matching_lem prefix k fuel next rest after,
        get-delete_keys R k keys s,
        mentions-append k keys (returned (S.scan prefix) next (visited prefix fuel next rest)),
        mentions-append k keys [],
      )

  returned_match :
      (prefix k : Text) (cursor : ℕ) (states : List R.State)
      → mentions k (returned (S.scan prefix) cursor states) ≡ true
      → starts_with prefix k ≡ true
  returned_match prefix k cursor [] h = ground arith
  returned_match prefix k cursor (s ∷ states) h =
      let (next, keys) = S.scan prefix cursor s in
      ground (
        arith,
        mentions-append k keys (returned (S.scan prefix) next states),
        returned_match prefix k next states,
        S.sound prefix k cursor s,
      )

  -- What a loop that ends has done to a key.
  get-delete_matching :
      (prefix k : Text) (fuel : ℕ) (s after : R.State)
      → delete_matching R S prefix fuel 0 s ≡ some after
      → R.get k after ≡ (if starts_with prefix k then none else R.get k s)
  get-delete_matching prefix k fuel s after h =
      let states = visited prefix fuel 0 s in
      ground (
        arith,
        delete_matching_lem prefix k fuel 0 s after h,
        returned_match prefix k 0 states,
        S.complete prefix k states,
      )

  delete_matching_ends :
      (prefix : Text) (fuel cursor : ℕ) (s : R.State)
      → S.calls prefix cursor < fuel
      → (after : R.State) × (delete_matching R S prefix fuel cursor s ≡ some after)
  unfolding delete_matching
  delete_matching_ends prefix zero cursor s enough = absurd (omega arith)
  delete_matching_ends prefix (suc fuel) cursor s enough =
      go (S.scan prefix cursor s).0 refl
        (λ n t fewer. delete_matching_ends prefix fuel (suc n) t (omega arith))
    where
      keys : List Text
      keys = (S.scan prefix cursor s).1

      go :
          (next : ℕ)
          → (S.scan prefix cursor s).0 ≡ next
          → ((n : ℕ) (t : R.State)
              → S.calls prefix (suc n) < S.calls prefix cursor
              → (after : R.State) × (delete_matching R S prefix fuel (suc n) t ≡ some after))
          → (after : R.State) × ((elim next [
            | zero ↦ some (delete_keys R keys s)
            | suc n ↦ delete_matching R S prefix fuel (suc n) (delete_keys R keys s)
          ])
              ≡ some after)
      go zero e later = (delete_keys R keys s, refl)
      go (suc n) e later = later n (delete_keys R keys s) (S.progress prefix cursor n s e)

  module _ (std : Std) where
    -- With fuel for the calls that an iteration takes, an invalidation of all events ends; behind it
    -- no event is cached, and every key that is no event's is as it was.
    pub invalidate_all_lem :
        (fuel : ℕ) (s : R.State)
        → S.calls (codes "tm:event:") 0 < fuel
        → (after : R.State) × (invalidate_all_event_cache R S fuel s ≡ some after)
          × ((event_id : Text) → get_cached_event R std event_id (some after) ≡ ok none)
          × ((k : Text) → starts_with (codes "tm:event:") k ≡ false → R.get k after ≡ R.get k s)
    unfolding invalidate_all_event_cache get_cached_event event_key starts_with
    invalidate_all_lem fuel s enough =
        let (after, h) = delete_matching_ends (codes "tm:event:") fuel 0 s enough in
        let deleted = λ (k : Text). get-delete_matching (codes "tm:event:") k fuel s after h in
        (
          after,
          h,
          λ event_id. ground (arith, deleted (event_key event_id)),
          λ k other. ground (arith, deleted k),
        )

    -- With fuel for the calls that an iteration takes, a webhook for an event ends; behind it the
    -- event and every search are forgotten, and no other event is.
    pub webhook_forgets :
        (fuel : ℕ) (event_id : Text) (s : R.State)
        → S.calls (codes "tm:search:") 0 < fuel
        → (after : R.State) × (handle_plan_updated_webhook R S fuel event_id s ≡ some after)
          × (get_cached_event R std event_id (some after) ≡ ok none)
          × ((k : Text) → starts_with (codes "tm:search:") k ≡ true → R.get k after ≡ none)
          × ((other : Text)
              → text_eq event_id other ≡ false
              → get_cached_event R std other (some after) ≡ get_cached_event R std other (some s))
    unfolding handle_plan_updated_webhook get_cached_event event_key starts_with
    webhook_forgets fuel event_id s enough =
        let first = R.delete (event_key event_id) s in
        let (after, h) = delete_matching_ends (codes "tm:search:") fuel 0 first enough in
        let deleted = λ (k : Text). get-delete_matching (codes "tm:search:") k fuel first after h in
        (
          after,
          h,
          ground (
            arith,
            deleted (event_key event_id),
            R.get-delete (event_key event_id) s (event_key event_id),
            text_eq_iff (event_key event_id) (event_key event_id),
          ),
          λ k match. ground (arith, deleted k),
          λ other differs. ground (
            arith,
            deleted (event_key other),
            R.get-delete (event_key event_id) s (event_key other),
            event_key-eq event_id other,
          ),
        )
