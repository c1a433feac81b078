-- ===== src/Cli/Keys.antt =====
-- cli/commands.py: `purge_cache` and `toggle_flag`, over Redis. KEYS, SET without a time and
-- `json.dumps` of a flag are parameters; a call of Redis does not raise.
use ticket_genius.Prelude.{
  ◌&&◌, [], ◌≡◌, refl, Bool, true, false, Option, none, some, List, [], ◌∷◌, ◌++◌, arith,
  if◌then◌else◌,
}
use ticket_genius.Prelude.Int.{ℤ}
use ticket_genius.Prelude.Text.{Text, codes, text_eq, mentions}
use ticket_genius.Redis.{Redis}
use ticket_genius.Redis.Scan.{delete_keys, get-delete_keys, is_held}
use ticket_genius.Cli.Ended.{Ended, printed, failed, raised, exit_code}

-- The flag that is stored: `value == "on"`, and the percentage.
pub record Flag : Type 0 where
  pub enabled : Bool
  pub rollout_pct : ℤ

-- `f"FF:{flag_name}"`
unfoldable pub flag_key : Text → Text
flag_key flag_name = codes "FF:" ++ flag_name

flag_key-eq : (m n : Text) → text_eq (flag_key m) (flag_key n) ≡ text_eq m n
unfolding flag_key text_eq
flag_key-eq m n = refl

-- `if not redis_url`
abbrev pub is_configured : Option Text → Bool
is_configured none = false
is_configured (some []) = false
is_configured (some (c ∷ cs)) = true

abbrev pub not_configured : Text
not_configured = codes "REDIS_URL not configured"

-- The keys that a purge prints.
abbrev pub printed_keys : Ended (List Text) → List Text
printed_keys (printed ks) = ks
printed_keys (failed message) = []
printed_keys (raised e) = []

module _ (R : Redis) where
  module _ (keys : Text → R.State → List Text) where
    -- What is printed is the purged keys; their number is printed beside them.
    abbrev pub purge_if : Bool → Text → R.State → Ended (List Text) × R.State
    purge_if true pattern s = (printed (keys pattern s), delete_keys R (keys pattern s) s)
    purge_if false pattern s = (failed not_configured, s)

    unfoldable pub purge_cache : Option Text → Text → R.State → Ended (List Text) × R.State
    purge_cache redis_url pattern s = purge_if (is_configured redis_url) pattern s

    module _ (matches : Text → Text → Bool)
        (keys_lem : (pattern k : Text) (s : R.State)
          → mentions k (keys pattern s)
            ≡ (if matches pattern k then is_held (R.get k s) else false)) where
      -- Where KEYS gives the keys that are set and match its pattern: with a URL of Redis a purge
      -- exits with 0, prints just the keys that were set and match the pattern, deletes them, and
      -- leaves every other key as it was; without one it exits with 1, prints no key and changes
      -- nothing.
      pub purge_cache_lem :
          (redis_url : Option Text) (pattern k : Text) (s : R.State)
          → let (ended, after) = purge_cache redis_url pattern s in
            let purges = is_configured redis_url && matches pattern k in
            (exit_code ended ≡ (if is_configured redis_url then 0 else 1))
            × (mentions k (printed_keys ended) ≡ (purges && is_held (R.get k s)))
            × (R.get k after ≡ (if purges then none else R.get k s))
      unfolding purge_cache exit_code
      purge_cache_lem redis_url pattern k s = choose (is_configured redis_url)
        where
          purged :
              (held : Option Text)
              → R.get k s ≡ held
              → R.get k (delete_keys R (keys pattern s) s)
                ≡ (if matches pattern k then none else R.get k s)
          purged none e =
              ground (arith, e, keys_lem pattern k s, get-delete_keys R k (keys pattern s) s)
          purged (some v) e =
              ground (arith, e, keys_lem pattern k s, get-delete_keys R k (keys pattern s) s)

          choose :
              (b : Bool)
              → let (ended, after) = purge_if b pattern s in
                (exit_code ended ≡ (if b then 0 else 1))
                × (mentions k (printed_keys ended)
                    ≡ ((b && matches pattern k) && is_held (R.get k s)))
                × (R.get k after ≡ (if b && matches pattern k then none else R.get k s))
          choose false = (refl, refl, refl)
          choose true = (refl, ground (arith, keys_lem pattern k s), purged (R.get k s) refl)

  module _ (set : Text → Text → R.State → R.State) (dumps : Flag → Text) where
    -- `{"enabled": value == "on", "rollout_pct": pct}`
    abbrev pub flag_data : Text → ℤ → Flag
    flag_data value pct = record { enabled = text_eq value (codes "on"); rollout_pct = pct }

    abbrev pub toggle_if : Bool → Text → Flag → R.State → Ended (Text × Flag) × R.State
    toggle_if true flag_name flag s =
        (printed (flag_name, flag), set (flag_key flag_name) (dumps flag) s)
    toggle_if false flag_name flag s = (failed not_configured, s)

    unfoldable pub toggle_flag :
        Option Text → Text → Text → ℤ → R.State → Ended (Text × Flag) × R.State
    toggle_flag redis_url flag_name value pct s =
        toggle_if (is_configured redis_url) flag_name (flag_data value pct) s

    module _
        (get-set : (k v : Text) (s : R.State) (j : Text)
          → R.get j (set k v s) ≡ (if text_eq k j then some v else R.get j s)) where
      -- With a URL of Redis, toggling a flag prints whether it is on and its percentage, stores what
      -- it prints under the name of the flag, and leaves every flag of another name as it was.
      pub toggle_flag_lem :
          (url flag_name value other : Text) (pct : ℤ) (s : R.State)
          → is_configured (some url) ≡ true
          → let (ended, after) = toggle_flag (some url) flag_name value pct s in
            (ended ≡ printed (flag_name, flag_data value pct))
            × (R.get (flag_key other) after ≡ (
                if text_eq flag_name other
                then some (dumps (flag_data value pct))
                else R.get (flag_key other) s))
      unfolding toggle_flag
      toggle_flag_lem url flag_name value other pct s given = (
        rw given refl,
        rw
            (
              given,
              get-set (flag_key flag_name) (dumps (flag_data value pct)) s (flag_key other),
              flag_key-eq flag_name other,
            )
            refl,
      )
