-- ===== src/Cli/Ended.antt =====
-- How a command of cli/commands.py ends: with what it prints, with an error line and
-- `sys.exit(1)`, or with an exception that it does not catch.
use ticket_genius.Prelude.{ℕ}
use ticket_genius.Prelude.Text.{Text}
use ticket_genius.Python.{Exn}

pub data Ended (A : Type 0) : Type 0 where
  printed : A → Ended A
  failed : Text → Ended A
  raised : Exn → Ended A

-- The exit code of the process.
unfoldable pub exit_code : {A : Type 0} → Ended A → ℕ
exit_code (printed a) = 0
exit_code (failed message) = 1
exit_code (raised e) = 1
