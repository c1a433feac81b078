-- ===== src/Redis.antt =====
-- The Redis client that adapters/redis.py makes (`decode_responses=True`): the commands that
-- the program sends, with what their documentation says of one moment. Keys that run out or
-- that other clients write between two commands are not in these laws.
pub mod Memory
pub mod Scan
pub mod Scanner
use ticket_genius.Prelude.{ℕ, ◌≡◌, Bool, true, false, Option, none, some, List, if◌then◌else◌}
use ticket_genius.Prelude.Text.{Text, text_eq, starts_with}

-- What a server holds is a type of its own, seen through `get`.
pub record Redis : Type 1 where
  pub State : Type 0
  -- GET
  pub get : Text → State → Option Text
  -- SET key value NX EX seconds, with whether the key was set
  pub set_nx : Text → Text → ℕ → State → Bool × State
  -- SETEX key seconds value
  pub setex : Text → ℕ → Text → State → State
  -- DEL
  pub delete : Text → State → State
  -- SET of a key that is free succeeds, and of one that is held does nothing
  pub set_nx_free : (k v : Text) (t : ℕ) (s : State) → get k s ≡ none → (set_nx k v t s).0 ≡ true
  pub set_nx_held :
      (k v w : Text) (t : ℕ) (s : State) → get k s ≡ some w → (set_nx k v t s).0 ≡ false
  pub get-set_nx :
      (k v : Text) (t : ℕ) (s : State) (j : Text)
      → get j (set_nx k v t s).1
        ≡ (if (set_nx k v t s).0 then if text_eq k j then some v else get j s else get j s)
  pub get-setex :
      (k v : Text) (t : ℕ) (s : State) (j : Text)
      → get j (setex k t v s) ≡ (if text_eq k j then some v else get j s)
  pub get-delete :
      (k : Text) (s : State) (j : Text)
      → get j (delete k s) ≡ (if text_eq k j then none else get j s)
