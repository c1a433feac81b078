-- ===== src/Entrypoints/Health.antt =====
-- `/health/ready` of entrypoints/bootstrap.py, over the checks of the bus.
use ticket_genius.Prelude.{ℕ, ◌≡◌, Bool, ◌&&◌, Option, if◌then◌else◌, arith}
use ticket_genius.Prelude.Text.{Text, codes}
use ticket_genius.Python.{Result}
use ticket_genius.MessageBus.Process.{check_database, check_redis, check_ticketmaster}

pub record Readiness : Type 0 where
  pub status : Text
  pub database : Text
  pub redis : Text
  pub ticketmaster : Text
  pub status_code : ℕ

-- `redis_ok is False` holds for every result that is not true.
unfoldable pub health_ready : Bool → Bool → Bool → Readiness
health_ready db_ok redis_ok tm_ok =
    let all_healthy = db_ok && redis_ok && tm_ok in
    record {
      status = if all_healthy then codes "ready" else codes "not_ready";
      database = if db_ok then codes "ok" else codes "failed";
      redis = if redis_ok then codes "ok" else codes "not_configured";
      ticketmaster = if tm_ok then codes "ok" else codes "no_token";
      status_code = if all_healthy then 200 else 503;
    }

-- The application is never ready: whatever the database, the Redis server and the provider answer,
-- the two checks that need the adapter fail, and the answer is 503.
pub never_ready :
    {T : Type 0} (executed : Result (Unit {0})) (ping : T → Option (Result (Unit {0})))
    (get_token : T → Result (Option Text))
    → let r =
        health_ready (check_database executed) (check_redis ping) (check_ticketmaster get_token) in
      (r.status_code ≡ 503)
      × (r.status ≡ codes "not_ready")
      × (r.redis ≡ codes "not_configured")
      × (r.ticketmaster ≡ codes "no_token")
unfolding health_ready check_redis check_ticketmaster check_database
never_ready executed ping get_token = ground arith
