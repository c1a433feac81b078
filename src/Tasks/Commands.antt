-- ===== src/Tasks/Commands.antt =====
-- tasks.py: the command lines that the other tasks build, and what the watcher looks at.
use ticket_genius.Prelude.{
  Bool, false, not, ◌&&◌, ◌||◌, Option, none, some, List, [], ◌∷◌, ◌++◌, if◌then◌else◌,
}
use ticket_genius.Prelude.Int.{ℤ}
use ticket_genius.Prelude.Text.{Text, codes, text_eq, contains, str_ℤ}

-- `s.endswith(p)`
unfoldable pub ends_with : Text → Text → Bool
ends_with p [] = text_eq p []
ends_with p (x ∷ xs) = text_eq p (x ∷ xs) || ends_with p xs

abbrev watch_excluded : List Text
watch_excluded = codes ".venv" ∷ codes "__pycache__" ∷ codes ".git" ∷ []

abbrev pub any_in : List Text → Text → Bool
any_in [] p = false
any_in (part ∷ parts) p = contains part p || any_in parts p

-- Whether a change of a file restarts the server.
unfoldable pub py_filter : Text → Bool
py_filter p = ends_with (codes ".py") p && not (any_in watch_excluded p)

-- `" ".join(words)`
unfoldable pub join_words : List Text → Text
join_words [] = []
join_words (word ∷ []) = word
join_words (word ∷ other ∷ words) = word ++ b' ' ∷ join_words (other ∷ words)

abbrev pub when : Bool → List Text → List Text
when c words = if c then words else []

-- What the task `test` runs.
unfoldable pub test_command : Bool → Bool → Bool → Bool → Text
unfolding join_words
test_command verbose coverage unit integration = join_words (
    (codes "python" ∷ codes "-m" ∷ codes "pytest" ∷ [])
    ++ when verbose (codes "-v" ∷ [])
    ++ when coverage (
        codes "--cov=domain"
        ∷ codes "--cov=adapters"
        ∷ codes "--cov=service_layer"
        ∷ codes "--cov-report=term-missing"
        ∷ [])
    ++ when unit (codes "tests/unit" ∷ [])
    ++ when integration (codes "tests/integration" ∷ []))

-- `if since`: an empty text counts as none.
abbrev pub since_words : Option Text → List Text
since_words none = []
since_words (some []) = []
since_words (some (c ∷ cs)) = codes "--since" ∷ (c ∷ cs) ∷ []

-- `sys.argv` of the tasks that call the command line.
unfoldable pub sync_plans_argv : Option Text → Bool → Bool → List Text
sync_plans_argv since stale_only full =
    (codes "cli" ∷ codes "sync-plans" ∷ [])
    ++ since_words since
    ++ when stale_only (codes "--stale-only" ∷ [])
    ++ when full (codes "--full" ∷ [])

unfoldable pub purge_cache_argv : Text → List Text
purge_cache_argv pattern = codes "cli" ∷ codes "purge-cache" ∷ codes "--pattern" ∷ pattern ∷ []

unfoldable pub toggle_flag_argv : Text → Text → ℤ → List Text
toggle_flag_argv flag_name value pct =
    codes "cli" ∷ codes "toggle-flag" ∷ flag_name ∷ value ∷ codes "--pct" ∷ str_ℤ pct ∷ []
