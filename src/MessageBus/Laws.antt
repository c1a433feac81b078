-- ===== src/MessageBus/Laws.antt =====
-- Where the dispatch of the bus ends, and what its checks and its shutdown do.
use ticket_genius.Prelude.{◌≡◌, refl, false, ◌++◌}
use ticket_genius.Prelude.Text.{codes}
use ticket_genius.Python.{err, value_error}
use ticket_genius.Python.Exec.{Exec}
use ticket_genius.UnitOfWork.{Session, commit}
use ticket_genius.MessageBus.{
  Command, Query, Method, Reply, class_name, class_of_command, class_of_query, handle_command,
  handle_query,
}
use ticket_genius.MessageBus.Process.{Process, shutdown}

module _ {W : Type 0} (commands : Method → Command → Exec W Reply)
    (queries : Method → Query → Exec W Reply) where
  -- Whatever the handlers do, the bus hands them no command and no query: it raises `ValueError`
  -- with the name of the class, and nothing has changed.
  pub bus_rejects :
      (cmd : Command) (q : Query) (w : W)
      → (handle_command commands queries cmd w
          ≡ (err (value_error (codes "Unknown command: " ++ class_name (class_of_command cmd))), w))
        × (handle_query commands queries q w
            ≡ (err (value_error (codes "Unknown query: " ++ class_name (class_of_query q))), w))
  unfolding handle_command handle_query
  bus_rejects cmd q w = (refl, refl)

-- A shutdown commits the unit of work or leaves it as a failed commit does, disposes the engine in
-- both cases, and never closes the Redis client.
pub shutdown_lem :
    (S : Session) (p : Process S)
    → let after = shutdown S p in
      (after.uow ≡ (commit S p.uow).1)
      × (after.engine_open ≡ false)
      × (after.redis_open ≡ p.redis_open)
unfolding shutdown
shutdown_lem S p = (refl, refl, refl)
