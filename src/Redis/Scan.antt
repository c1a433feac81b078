-- ===== src/Redis/Scan.antt =====
-- SCAN of the Redis client, with the guarantee of its documentation: an iteration that ends has
-- returned every key that was there from its start to its end, and it returns keys of the pattern.
use ticket_genius.Prelude.{
  ◌<◌, ℕ, zero, suc, ◌≡◌, Bool, true, false, ◌&&◌, Option, none, some, List, [], ◌∷◌, ◌++◌, refl,
  arith, if◌then◌else◌, is_empty,
}
use ticket_genius.Prelude.Text.{Text, mentions, starts_with}
use ticket_genius.Redis.{Redis}

abbrev pub is_held : Option Text → Bool
is_held none = false
is_held (some v) = true

-- The calls of an iteration: `states` is what the server holds at each, and the cursor of a call is
-- the one that the call before it gave.
module _ {State : Type 0} (scan : ℕ → State → ℕ × List Text) where
  abbrev pub is_iteration : ℕ → List State → Bool
  is_iteration cursor [] = false
  is_iteration cursor (s ∷ states) = elim (scan cursor s).0 [
    | zero ↦ is_empty states
    | suc n ↦ is_iteration (suc n) states
  ]

  abbrev pub returned : ℕ → List State → List Text
  returned cursor [] = []
  returned cursor (s ∷ states) = (scan cursor s).1 ++ returned (scan cursor s).0 states

-- Whether a key is held in each of some states.
abbrev pub held_in_all : {State : Type 0} → (Text → State → Option Text) → Text → List State → Bool
held_in_all get k [] = true
held_in_all get k (s ∷ states) = is_held (get k s) && held_in_all get k states

pub record Scan (R : Redis) : Type 0 where
  -- SCAN cursor MATCH prefix*: the next cursor, 0 at the end, and keys
  pub scan : Text → ℕ → R.State → ℕ × List Text
  pub complete :
      (prefix k : Text) (states : List R.State)
      → is_iteration (scan prefix) 0 states ≡ true
      → held_in_all R.get k states ≡ true
      → starts_with prefix k ≡ true
      → mentions k (returned (scan prefix) 0 states) ≡ true
  pub sound :
      (prefix k : Text) (cursor : ℕ) (s : R.State)
      → mentions k (scan prefix cursor s).1 ≡ true
      → starts_with prefix k ≡ true
  -- the calls that an iteration may take behind one at a cursor, while no key is added
  pub calls : Text → ℕ → ℕ
  pub progress :
      (prefix : Text) (cursor n : ℕ) (s : R.State)
      → (scan prefix cursor s).0 ≡ suc n
      → calls prefix (suc n) < calls prefix cursor

module _ (R : Redis) where
  -- `redis.delete(*keys)`, which is left out where there are none
  abbrev pub delete_keys : List Text → R.State → R.State
  delete_keys [] s = s
  delete_keys (k ∷ ks) s = delete_keys ks (R.delete k s)

  pub get-delete_keys :
      (k : Text) (keys : List Text) (s : R.State)
      → R.get k (delete_keys keys s) ≡ (if mentions k keys then none else R.get k s)
  get-delete_keys k [] s = refl
  get-delete_keys k (j ∷ keys) s =
      ground (arith, get-delete_keys k keys (R.delete j s), R.get-delete j s k)
