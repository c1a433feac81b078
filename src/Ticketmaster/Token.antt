-- ===== src/Ticketmaster/Token.antt =====
-- adapters/ticketmaster.py: `_get_access_token`, with the time in whole seconds.
pub mod Laws
use ticket_genius.Prelude.{ℕ, ◌+◌, Bool, true, false, ◌&&◌, Option, none, some, ltb, if◌then◌else◌}
use ticket_genius.Prelude.Int.{pos}
use ticket_genius.Prelude.Text.{codes}
use ticket_genius.Python.{Result, ok, err}
use ticket_genius.Python.Exec.{Exec, ◌>>=◌, ◌>>◌, lift, modify, pure}
use ticket_genius.Python.Json.{Json, null, number, item, get, truthy}
use ticket_genius.Domain.Decimal.{of_int}

-- `_access_token`, which is `None` at first, and `_token_expires_at`
pub record Token : Type 0 where
  pub access_token : Json
  pub expires_at : ℕ

abbrev pub no_token : Token
no_token = record { access_token = null; expires_at = 0 }

-- `self._access_token and time.time() < self._token_expires_at - 300`
abbrev pub is_current : ℕ → Token → Bool
is_current now t = truthy t.access_token && ltb (now + 300) t.expires_at

-- `expiry` is `time.time() + expires_in` behind the answer, which raises for what is no number.
module _ (expiry : Json → Result ℕ) where
  -- What is done with the answer: the token is written before the time is.
  unfoldable pub store_token : Result Json → Exec Token Json
  store_token answer = do
    token_data ← lift answer
    token ← lift (item (codes "access_token") token_data)
    modify (λ t. record t { access_token = token })
    expires_in ← lift (get (codes "expires_in") (number (of_int (pos 3600))) token_data)
    until ← lift (expiry expires_in)
    modify (λ t. record t { expires_at = until })
    pure token

  -- `answer` is the JSON value that the provider's OAuth server answers with, or what the client
  -- raises.
  unfoldable pub get_access_token : ℕ → Result Json → Exec Token Json
  unfolding store_token
  get_access_token now answer t =
      if is_current now t then (ok t.access_token, t) else store_token answer t
