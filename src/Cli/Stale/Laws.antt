-- ===== src/Cli/Stale/Laws.antt =====
-- What the two listings of stale plans show, and what a synchronisation of stale plans does with
-- the plans that they list.
use ticket_genius.Prelude.{
  sym, ◌∙◌, ℕ, ◌+◌, ◌*◌, ◌<◌, ◌≡◌, refl, ap, true, not, ◌&&◌, Option, some, List, [], ◌∷◌, map,
  length, length-map, ◌==◌, ltb, arith,
}
use ticket_genius.Prelude.Int.{ℤ, pos, ◌-ℤ◌, ◌*ℤ◌}
use ticket_genius.Prelude.Text.{Text}
use ticket_genius.Python.{Exn, Result, ok}
use ticket_genius.Python.Json.{Json}
use ticket_genius.Python.Std.{Std}
use ticket_genius.Domain.Values.{Datetime}
use ticket_genius.Domain.Plan.{Plan, from_ticketmaster}
use ticket_genius.UnitOfWork.{Session}
use ticket_genius.Handlers.Sync.{is_fresh, stale_threshold, sync_event}
use ticket_genius.Cli.Ended.{printed}
use ticket_genius.Cli.Stale.{
  hour, threshold, is_stale, stale_plans, StaleReport, DryRun, listed, stale_entry, check_stale,
  dry_run,
}

-- A plan is stale where the threshold in hours has passed since its last synchronisation.
is_stale-hours :
    (now h : ℕ) (p : Plan) → is_stale now (pos h) p ≡ ltb (p.last_synced_at + h * hour) now
unfolding is_stale threshold ◌-ℤ◌ ◌*ℤ◌
is_stale-hours now h p = ground arith

module _ (isoformat : Datetime → Text) (str : Exn → Text) where
  map-listed :
      (later : Plan → Datetime) (ps : List Plan)
      → map (λ e. e.listed) (map (λ p. stale_entry isoformat str (later p) p) ps)
        ≡ map (listed isoformat str) ps
  map-listed later [] = refl
  map-listed later (p ∷ ps) = ap (λ ls. listed isoformat str p ∷ ls) (map-listed later ps)

  -- At one time and with one threshold, the check and the dry run that read the same plans print the
  -- same plans, in one order, and as their count the number of them.
  pub check_stale-dry_run :
      (now : Datetime) (later : Plan → Datetime) (threshold_hours : ℤ) (plans : List Plan)
      → (report : StaleReport) × (would : DryRun) × (check_stale isoformat str now later
            threshold_hours
            (ok plans)
          ≡ printed report)
        × (dry_run isoformat str now threshold_hours (ok plans) ≡ printed would)
        × (map (λ e. e.listed) report.stale_plans ≡ would.plans)
        × (report.stale_count ≡ would.would_sync)
        × (would.would_sync ≡ length would.plans)
  unfolding check_stale dry_run
  check_stale-dry_run now later threshold_hours plans =
      let stale = stale_plans now threshold_hours plans in
      let entries = map (λ p. stale_entry isoformat str (later p) p) stale in
      let plain = map (listed isoformat str) stale in
      (
        record {
          stale_count = length entries;
          threshold_hours = threshold_hours;
          stale_plans = entries;
        },
        record { would_sync = length plain; threshold_hours = threshold_hours; plans = plain },
        refl,
        refl,
        map-listed later stale,
        length-map (λ p. stale_entry isoformat str (later p) p) stale
            ∙ sym (length-map (listed isoformat str) stale),
        refl,
      )

-- With the default threshold of 24 hours, a plan is listed as stale just where a synchronisation of
-- stale plans at the same time does not pass it over, but for a plan that is 24 hours old to the
-- microsecond, which is not listed and not passed over.
pub is_stale-is_fresh :
    (now : Datetime) (p : Plan)
    → is_stale now (pos 24) p
      ≡ (not (is_fresh now true (some p)) && not (now == p.last_synced_at + stale_threshold))
is_stale-is_fresh now p = ground (arith, is_stale-hours now 24 p)

-- The synchronisation does not know the threshold that the dry run is given: a plan that is listed
-- with a threshold of some hours, and was synchronised less than 24 hours ago, is passed over when
-- its event comes up, and nothing is written.
pub listed_passed_over :
    (std : Std) (S : Session) (search : ℕ → ℕ → Result (List Json))
    (get_by_tm_id : Json → S.State → Option Plan) (now h : ℕ) (since : Option Datetime)
    (event : Json) (plan existing : Plan) (s : S.State)
    → from_ticketmaster std now event ≡ ok plan
    → get_by_tm_id plan.tm_plan_id s ≡ some existing
    → is_stale now (pos h) existing ≡ true
    → now < existing.last_synced_at + 24 * hour
    → (sync_event std S search get_by_tm_id now
          (record { since = since; stale_only = true })
          event
          s
        ≡ (ok 0, s))
      × (existing.last_synced_at + h * hour < now)
unfolding sync_event
listed_passed_over std S search get_by_tm_id now h since event plan existing s parsed there stale
      recent =
    let fresh : ltb now (existing.last_synced_at + stale_threshold) ≡ true =
      ground (arith, recent) in
    (rw (parsed, there, fresh) refl, ground (arith, is_stale-hours now h existing))
