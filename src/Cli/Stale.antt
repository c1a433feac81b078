-- ===== src/Cli/Stale.antt =====
-- cli/commands.py: `check_stale` and the dry run of `sync_stale`. The table of the plans is a
-- parameter, and a query of it may raise. The code asks the clock for the time of each entry again.
pub mod Laws
use ticket_genius.Prelude.{
  ℕ, zero, suc, ◌+◌, ◌*◌, ◌-◌, ◌/◌, ◌≡◌, ◌≢◌, refl, Bool, true, false, not, ◌&&◌, Option, none,
  some, List, [], ◌∷◌, map, length, ltb, arith, if◌then◌else◌,
}
use ticket_genius.Prelude.Int.{ℤ, pos, negsuc, ◌-ℤ◌, ◌*ℤ◌, ltb_ℤ}
use ticket_genius.Prelude.Text.{Text}
use ticket_genius.Python.{Exn, Result, ok, err}
use ticket_genius.Python.Json.{Json}
use ticket_genius.Domain.Values.{Uuid, Datetime}
use ticket_genius.Domain.Plan.{Plan}
use ticket_genius.Handlers.Sync.{is_fresh, stale_threshold}
use ticket_genius.Cli.Ended.{Ended, printed, failed, raised}

-- an hour in microseconds
abbrev pub hour : ℕ
hour = 3600000000

-- `datetime.now(UTC) - timedelta(hours=threshold_hours)`
unfoldable pub threshold : Datetime → ℤ → ℤ
unfolding ◌-ℤ◌ ◌*ℤ◌
threshold now threshold_hours = pos now -ℤ (threshold_hours *ℤ pos hour)

-- `Plan.last_synced_at < threshold`
unfoldable pub is_stale : Datetime → ℤ → Plan → Bool
unfolding threshold
is_stale now threshold_hours p = ltb_ℤ (pos p.last_synced_at) (threshold now threshold_hours)

unfoldable pub stale_plans : Datetime → ℤ → List Plan → List Plan
unfolding is_stale
stale_plans now threshold_hours [] = []
stale_plans now threshold_hours (p ∷ ps) =
    let rest = stale_plans now threshold_hours ps in
    if is_stale now threshold_hours p then p ∷ rest else rest

-- `int(d.total_seconds() / 3600)`, which cuts towards zero
abbrev pub hours_of : ℤ → ℤ
hours_of (pos d) = pos (d / hour)
hours_of (negsuc d) = pos 0 -ℤ pos ((d + 1) / hour)

-- An entry of the dry run, and one of the check.
pub record Listed : Type 0 where
  pub plan_id : Uuid
  pub tm_plan_id : Json
  pub name : Json
  pub last_synced_at : Text

pub record StaleEntry : Type 0 where
  pub listed : Listed
  pub hours_stale : ℤ

pub record StaleReport : Type 0 where
  pub stale_count : ℕ
  pub threshold_hours : ℤ
  pub stale_plans : List StaleEntry

pub record DryRun : Type 0 where
  pub would_sync : ℕ
  pub threshold_hours : ℤ
  pub plans : List Listed

module _ (isoformat : Datetime → Text) (str : Exn → Text) where
  abbrev pub listed : Plan → Listed
  listed p = record {
    plan_id = p.plan_id;
    tm_plan_id = p.tm_plan_id;
    name = p.name;
    last_synced_at = isoformat p.last_synced_at;
  }

  abbrev pub stale_entry : Datetime → Plan → StaleEntry
  stale_entry now p = record {
    listed = listed p;
    hours_stale = hours_of (pos now -ℤ pos p.last_synced_at);
  }

  -- Behind the query: `later` is the clock at each entry.
  unfoldable pub check_stale :
      Datetime → (Plan → Datetime) → ℤ → Result (List Plan) → Ended StaleReport
  unfolding stale_plans
  check_stale now later threshold_hours (err e) = failed (str e)
  check_stale now later threshold_hours (ok plans) =
      let stale = map (λ p. stale_entry (later p) p) (stale_plans now threshold_hours plans) in
      printed record {
        stale_count = length stale;
        threshold_hours = threshold_hours;
        stale_plans = stale;
      }

  -- `sync_stale --dry-run`, which catches nothing
  unfoldable pub dry_run : Datetime → ℤ → Result (List Plan) → Ended DryRun
  unfolding stale_plans
  dry_run now threshold_hours (err e) = raised e
  dry_run now threshold_hours (ok plans) =
      let stale = map listed (stale_plans now threshold_hours plans) in
      printed record { would_sync = length stale; threshold_hours = threshold_hours; plans = stale }
