-- ===== src/UnitOfWork/Laws.antt =====
-- When a unit of work commits.
use ticket_genius.Prelude.{◌≡◌, ◌≢◌, refl, ◌∙◌, List, [], ◌∷◌, ◌++◌, arith}
use ticket_genius.Prelude.Text.{codes}
use ticket_genius.Python.{Exn, ok, err, attribute_error}
use ticket_genius.Domain.Order.{Order, clear_domain_events}
use ticket_genius.Domain.Events.{Event, event_type}
use ticket_genius.UnitOfWork.{
  write_events, serialize_event, collect_domain_events, Session, UnitOfWork, collected, clear_all,
  exit_ok, exit_raised,
}

module _ (S : Session) where
  stored-clear_all : (os : List Order) (s : S.State) → S.stored (clear_all S os s) ≡ S.stored s
  stored-clear_all [] s = refl
  stored-clear_all (o ∷ os) s =
      stored-clear_all os (S.put_order (clear_domain_events o) s)
      ∙ S.stored-put_order (clear_domain_events o) s

  stored-write_events :
      (es : List Event) (s : S.State) → S.stored (write_events S es s).1 ≡ S.stored s
  unfolding write_events serialize_event
  stored-write_events [] s = refl
  stored-write_events (e ∷ es) s = refl

  -- A unit of work that has an event to write, collected before or now, never commits: leaving it
  -- raises an `AttributeError` that names the class of the first event, the database is as it was, and
  -- the list of its events is not empty afterwards.
  pub exit_with_event :
      (u : UnitOfWork S) (e : Event) (es : List Event)
      → u.domain_events ++ collected (S.unsaved_orders u.session) ≡ e ∷ es
      → let (r, after) = exit_ok S u in
        (r
          ≡ err (
              attribute_error
                (codes "'" ++ (event_type e ++ codes "' object has no attribute '__dict__'"))))
        × (S.stored after.session ≡ S.stored u.session)
        × (after.domain_events ≢ [])
  unfolding exit_ok write_events serialize_event
  exit_with_event u e es some_event =
      ground (arith, some_event, stored-clear_all (S.unsaved_orders u.session) u.session)

  -- Without events, and where the database accepts the commit, leaving a unit of work commits
  -- what its session has and closes it.
  pub exit_without_event :
      (u : UnitOfWork S)
      → u.domain_events ≡ []
      → collected (S.unsaved_orders u.session) ≡ []
      → (S.commit (clear_all S (S.unsaved_orders u.session) u.session)).0 ≡ ok tt
      → let (r, after) = exit_ok S u in
        (r ≡ ok tt)
        × (after.session
            ≡ S.close (S.commit (clear_all S (S.unsaved_orders u.session) u.session)).1)
        × (after.domain_events ≡ [])
  unfolding exit_ok
  exit_without_event u empty none_new accepted = ground arith

  -- Leaving by an exception leaves the database as it was.
  pub exit_raised-stored :
      (u : UnitOfWork S) → S.stored (exit_raised S u).session ≡ S.stored u.session
  unfolding exit_raised
  exit_raised-stored u = S.stored-close (S.rollback u.session) ∙ S.stored-rollback u.session

  -- Leaving a unit of work by a call that raises leaves the database as it was.
  pub exit_failed-stored :
      (u : UnitOfWork S) (e : Exn)
      → (exit_ok S u).0 ≡ err e
      → S.stored (exit_ok S u).1.session ≡ S.stored u.session
  unfolding exit_ok
  exit_failed-stored u e h =
      let c = collect_domain_events S u in
      ground (
        arith,
        stored-clear_all (S.unsaved_orders u.session) u.session,
        stored-write_events c.domain_events c.session,
        S.stored-commit_failed (write_events S c.domain_events c.session).1 e,
      )
