-- ===== src/Tests/Processes.antt =====
-- The tasks on a machine that numbers its processes and whose servers answer at the second poll.
use ticket_genius.Prelude.{
  ℕ, suc, ◌≡◌, refl, ◌⊎◌, Bool, true, false, Option, none, some, List, [], ◌∷◌, ◌==◌, if◌then◌else◌,
}
use ticket_genius.Prelude.Int.{ℤ, pos, negsuc}
use ticket_genius.Prelude.Text.{Text, codes}
use ticket_genius.Python.{Result, ok, err, value_error}
use ticket_genius.Tasks.{
  Host, World, sent, no_such_process, start, stop_server, start_server, restart, watch,
  unless_raised,
}
use ticket_genius.Tasks.Laws.{SignalsTarget, left, tracked, stop_server_lem, start_server-tracks}
use ticket_genius.Tasks.Commands.{py_filter, test_command, sync_plans_argv}

-- A number in the file is one code, with 1 before it if it is negative.
abbrev read_pid : Text → Result ℤ
read_pid [] = err (value_error [])
read_pid (n ∷ []) = ok (pos n)
read_pid (n ∷ m ∷ ms) = ok (negsuc n)

abbrev write_pid : ℤ → Text
write_pid (pos n) = n ∷ []
write_pid (negsuc n) = n ∷ 1 ∷ []

read_pid-write_pid : (pid : ℤ) → read_pid (write_pid pid) ≡ ok pid
read_pid-write_pid (pos n) = refl
read_pid-write_pid (negsuc n) = refl

-- Its state counts the calls; every process is called python.
abbrev machine : Host
machine = record {
  State = ℕ;
  comm = λ pid s. codes "python3";
  kill = λ pid s. (sent, suc s);
  popen = λ port debug s. (ok (pos s), suc s);
  answers = λ port s. (s == 9, suc s);
  sleep = suc;
  pid_of = read_pid;
  str_pid = write_pid;
  pid_of-str_pid = read_pid-write_pid;
}

abbrev running : World machine
running = record { host = 6; pid_file = some (5 ∷ []); signalled = [] }

start_answers :
    start_server machine 5000 false running
    ≡ (ok (some (pos 6)), record { host = 10; pid_file = some (6 ∷ []); signalled = [] })
unfolding start_server ticket_genius.Tasks.poll
start_answers = refl

stops : (stop_server machine running).1.signalled ≡ pos 5 ∷ []
unfolding stop_server ticket_genius.Tasks.stop_process ticket_genius.Tasks.looks_like_server
    ticket_genius.Prelude.Text.contains
stops = refl

stop_server_lem_example :
    SignalsTarget machine running (stop_server machine running).1
    × ((stop_server machine running).1.pid_file ≡ left machine running.pid_file)
stop_server_lem_example = stop_server_lem machine running

start_server-tracks_example :
    let (r, w') = start_server machine 5000 false running in w'.pid_file ≡ tracked machine r
start_server-tracks_example = start_server-tracks machine 5000 false running

filter_source : py_filter (codes "app.py") ≡ true
unfolding py_filter ticket_genius.Tasks.Commands.ends_with ticket_genius.Prelude.Text.text_eq
    ticket_genius.Prelude.Text.contains
filter_source = refl

filter_excluded : py_filter (codes ".venv/x.py") ≡ false
unfolding py_filter ticket_genius.Tasks.Commands.ends_with ticket_genius.Prelude.Text.text_eq
    ticket_genius.Prelude.Text.contains
filter_excluded = refl

test_unit : test_command true false true false ≡ codes "python -m pytest -v tests/unit"
unfolding test_command
test_unit = refl

sync_argv :
    sync_plans_argv (some []) true false
    ≡ codes "cli" ∷ codes "sync-plans" ∷ codes "--stale-only" ∷ []
unfolding sync_plans_argv
sync_argv = refl
