-- ===== src/Ticketmaster/Token/Laws.antt =====
-- A token is asked for once, until five minutes before it expires.
use ticket_genius.Prelude.{ℕ, ◌+◌, ◌<◌, ◌≤◌, ◌≡◌, true, arith}
use ticket_genius.Python.{Result, ok}
use ticket_genius.Python.Json.{Json, truthy}
use ticket_genius.Ticketmaster.Token.{Token, store_token, get_access_token}

module _ (expiry : Json → Result ℕ) where
  -- A call that returns a token that counts as true has kept it: until five minutes before it
  -- expires, later calls give the same token and change nothing, whatever the server would answer,
  -- and from then on they ask the server again.
  pub token_kept :
      (now later : ℕ) (answer again : Result Json) (t kept : Token) (token : Json)
      → get_access_token expiry now answer t ≡ (ok token, kept)
      → truthy token ≡ true
      → (later + 300 < kept.expires_at
          → get_access_token expiry later again kept ≡ (ok token, kept))
        × (kept.expires_at ≤ later + 300
            → get_access_token expiry later again kept ≡ store_token expiry again kept)
  unfolding get_access_token
  token_kept now later answer again t kept token h given = ground arith
