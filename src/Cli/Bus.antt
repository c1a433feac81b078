-- ===== src/Cli/Bus.antt =====
-- cli/commands.py: the commands that go through the message bus: `sync_plans`, `create_refund` and
-- `sync_stale` without `--dry-run`. Building the application and the bus is left out.
use ticket_genius.Prelude.{◌≡◌, refl, ap, [], Bool, true, false, Option, none, ◌++◌, if◌then◌else◌}
use ticket_genius.Prelude.Int.{ℤ}
use ticket_genius.Prelude.Text.{Text, codes}
use ticket_genius.Python.{Exn, Result, ok, err}
use ticket_genius.Python.Exec.{Exec}
use ticket_genius.Domain.Values.{Datetime}
use ticket_genius.Handlers.Commands.{RefundOrderCommand}
use ticket_genius.MessageBus.{
  Command, Query, Method, Reply, SyncPlansCommand, handle_command, class_of_command, class_name,
}
use ticket_genius.MessageBus.Laws.{bus_rejects}
use ticket_genius.Cli.{create_refund}
use ticket_genius.Cli.Ended.{Ended, printed, failed, raised, exit_code}

-- `--full` takes back the other options.
unfoldable pub sync_command : Option Datetime → Bool → Bool → SyncPlansCommand
sync_command since stale_only full =
    if full
    then record { since = none; stale_only = false }
    else record { since = since; stale_only = stale_only }

-- A command line that goes through the bus, as its options are read.
pub data Line : Type 0 where
  sync_plans : Option Datetime → Bool → Bool → Line
  sync_stale : Line
  refund : Text → Text → Line

module _ {W : Type 0} (commands : Method → Command → Exec W Reply)
    (queries : Method → Query → Exec W Reply) (str : Exn → Text)
    (hundredfold : Text → Result ℤ) where
  -- The `try` around the bus.
  abbrev pub report : Result Reply × W → Ended Reply × W
  report (ok reply, w) = (printed reply, w)
  report (err e, w) = (failed (str e), w)

  abbrev pub send : Command → W → Ended Reply × W
  send cmd w = report (handle_command commands queries cmd w)

  -- The command is built outside the `try`.
  abbrev pub send_refund : Result RefundOrderCommand → W → Ended Reply × W
  send_refund (err e) w = (raised e, w)
  send_refund (ok cmd) w = send (Command.refund_order cmd) w

  unfoldable pub run_line : Line → W → Ended Reply × W
  unfolding sync_command create_refund
  run_line (sync_plans since stale_only full) w =
      send (Command.sync_plans (sync_command since stale_only full)) w
  run_line sync_stale w = send (Command.sync_plans (record { since = none; stale_only = true })) w
  run_line (refund order_id amount) w = send_refund (create_refund hundredfold order_id amount) w

  send-fails :
      (cmd : Command) (w : W)
      → send cmd w ≡ (
        failed (
            str (Exn.value_error (codes "Unknown command: " ++ class_name (class_of_command cmd)))),
        w,
      )
  send-fails cmd w = ap report (bus_rejects commands queries cmd (Query.get_plan []) w).0

  unsent :
      (cmd : Command) (w : W)
      → let (ended, after) = send cmd w in (exit_code ended ≡ 1) × (after ≡ w)
  unfolding exit_code
  unsent cmd w = rw (send-fails cmd w) (refl, refl)

  -- No command line that goes through the bus succeeds: whatever its options and the handlers, it
  -- exits with 1, and nothing has changed.
  pub no_line_succeeds :
      (line : Line) (w : W)
      → let (ended, after) = run_line line w in (exit_code ended ≡ 1) × (after ≡ w)
  unfolding run_line exit_code
  no_line_succeeds (sync_plans since stale_only full) w =
      unsent (Command.sync_plans (sync_command since stale_only full)) w
  no_line_succeeds sync_stale w =
      unsent (Command.sync_plans (record { since = none; stale_only = true })) w
  no_line_succeeds (refund order_id amount) w = go (create_refund hundredfold order_id amount)
    where
      go :
          (built : Result RefundOrderCommand)
          → let (ended, after) = send_refund built w in (exit_code ended ≡ 1) × (after ≡ w)
      go (err e) = (refl, refl)
      go (ok cmd) = unsent (Command.refund_order cmd) w
