-- ===== src/Cli/Health.antt =====
-- cli/commands.py: `health_check`. What the query of the database and the ping of Redis come to are
-- parameters.
use ticket_genius.Prelude.{ℕ, ◌≡◌, refl, Bool, true, false, ◌&&◌, Option, if◌then◌else◌}
use ticket_genius.Prelude.Text.{Text, codes}
use ticket_genius.Python.{Exn, Result, ok, err, is_ok}
use ticket_genius.Cli.Keys.{is_configured}

pub data Check : Type 0 where
  passed skipped : Check
  broken : Text → Check

pub record Checks : Type 0 where
  pub status : Text
  pub database : Check
  pub redis : Check

module _ (str : Exn → Text) where
  abbrev pub check_of : Result (Unit {0}) → Check
  check_of (ok u) = passed
  check_of (err e) = broken (str e)

  -- `if redis_url`
  abbrev pub redis_check : Bool → Result (Unit {0}) → Check
  redis_check true ping = check_of ping
  redis_check false ping = skipped

  -- Whether a check keeps `overall_ok`.
  abbrev pub is_fine : Check → Bool
  is_fine passed = true
  is_fine skipped = true
  is_fine (broken message) = false

  -- What is printed, and the exit code.
  unfoldable pub health_check : Result (Unit {0}) → Option Text → Result (Unit {0}) → Checks × ℕ
  health_check query redis_url ping =
      let database = check_of query in
      let redis = redis_check (is_configured redis_url) ping in
      let overall_ok = is_fine database && is_fine redis in
      (
        record {
          status = if overall_ok then codes "ok" else codes "degraded";
          database = database;
          redis = redis;
        },
        if overall_ok then 0 else 1,
      )

  -- The health check exits with 0 and prints `ok` just if the database answers and Redis answers or
  -- is not configured; it exits with 1 and prints `degraded` otherwise.
  pub health_check_lem :
      (query ping : Result (Unit {0})) (redis_url : Option Text)
      → let (checks, code) = health_check query redis_url ping in
        let fine = is_ok query && (if is_configured redis_url then is_ok ping else true) in
        (code ≡ (if fine then 0 else 1))
        × (checks.status ≡ (if fine then codes "ok" else codes "degraded"))
  unfolding health_check
  health_check_lem query ping redis_url = choose query (is_configured redis_url) ping
    where
      choose :
          (query : Result (Unit {0})) (given : Bool) (ping : Result (Unit {0}))
          → let overall_ok = is_fine (check_of query) && is_fine (redis_check given ping) in
            let fine = is_ok query && (if given then is_ok ping else true) in
            ◌≡◌ {A = ℕ} (if overall_ok then 0 else 1) (if fine then 0 else 1)
            × ((if overall_ok then codes "ok" else codes "degraded")
                ≡ (if fine then codes "ok" else codes "degraded"))
      choose (ok u) true (ok v) = (refl, refl)
      choose (ok u) true (err e) = (refl, refl)
      choose (ok u) false ping = (refl, refl)
      choose (err e) given ping = (refl, refl)
