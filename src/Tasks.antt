-- ===== src/Tasks.antt =====
-- tasks.py: the tasks that start, stop and restart the Flask server and remember it in a PID file.
-- What a task prints is not modelled, nor is what it pipes the output of the server to.
pub mod Laws
pub mod Commands
use ticket_genius.Prelude.{
  ℕ, zero, suc, ◌≡◌, Bool, true, false, not, ◌&&◌, ◌||◌, Option, none, some, List, [], ◌∷◌, is_some,
  if◌then◌else◌,
}
use ticket_genius.Prelude.Int.{ℤ}
use ticket_genius.Prelude.Text.{Text, codes, contains, lower}
use ticket_genius.Python.{Exn, Result, ok, err}

-- What `os.kill` comes to: the signal is sent, there is no such process, or it raises something
-- else.
pub data Signal : Type 0 where
  sent no_such_process : Signal
  failed : Exn → Signal

-- The processes of the machine and the calls that read and change them, with `int(text.strip())`
-- and `str(pid)` for the text of the PID file.
pub record Host : Type 1 where
  pub State : Type 0
  -- what `ps -p pid -o comm=` prints, stripped
  pub comm : ℤ → State → Text
  pub kill : ℤ → State → Signal × State
  -- `flask run` on a port, in debug mode or not
  pub popen : ℕ → Bool → State → Result ℤ × State
  -- `requests.get` of /health on a port: whether the server answers in time
  pub answers : ℕ → State → Bool × State
  pub sleep : State → State
  pub pid_of : Text → Result ℤ
  pub str_pid : ℤ → Text
  pub pid_of-str_pid : (pid : ℤ) → pid_of (str_pid pid) ≡ ok pid

-- `range(30)`
abbrev pub polls : ℕ
polls = 30

module _ (H : Host) where
  -- The machine, the text of the PID file, and the processes that were sent a signal, the last one
  -- first.
  pub record World : Type 0 where
    pub host : H.State
    pub pid_file : Option Text
    pub signalled : List ℤ

  unfoldable pub looks_like_server : ℤ → H.State → Bool
  unfolding lower
  looks_like_server pid s =
      let comm = lower (H.comm pid s) in
      is_some_text comm && (contains (codes "python") comm || contains (codes "flask") comm)
    where
      -- `bool(comm)`
      is_some_text : Text → Bool
      is_some_text [] = false
      is_some_text (c ∷ cs) = true

  -- `os.remove(SERVER_PID_FILE)`
  abbrev pub remove : World → World
  remove w = record w { pid_file = none }

  -- A signal ends the `try` block; a process that is gone is caught.
  abbrev pub after_kill : ℤ → Signal × H.State → World → Result (Option ℤ) × World
  after_kill pid (sent, s) w = (ok none, record w { host = s; signalled = pid ∷ w.signalled })
  after_kill pid (no_such_process, s) w = (ok none, record w { host = s })
  after_kill pid (failed e, s) w = (err e, record w { host = s })

  -- The `try` block.
  unfoldable pub stop_process : ℤ → World → Result (Option ℤ) × World
  stop_process pid w =
      if not (looks_like_server pid w.host)
      then (ok none, w)
      else after_kill pid (H.kill pid w.host) w

  -- What follows `int(f.read().strip())`, `finally` included.
  abbrev pub stop_pid : Result ℤ → World → Result (Option ℤ) × World
  stop_pid (err e) w = (err e, w)
  stop_pid (ok pid) w = let (r, w') = stop_process pid w in (r, remove w')

  abbrev pub stop_named : Option Text → World → Result (Option ℤ) × World
  stop_named none w = (ok none, w)
  stop_named (some text) w = stop_pid (H.pid_of text) w

  -- `_stop_server`, which returns nothing
  unfoldable pub stop_server : World → Result (Option ℤ) × World
  stop_server w = stop_named w.pid_file w

  -- The polls that are left, and `_stop_server` behind them.
  unfoldable pub poll : ℕ → ℕ → ℤ → World → Result (Option ℤ) × World
  poll zero port pid w = stop_server w
  poll (suc n) port pid w =
      let (answered, s) = H.answers port w.host in
      let rest = poll n port pid (record w { host = H.sleep s }) in
      if answered then (ok (some pid), record w { host = s }) else rest

  abbrev pub after_popen : ℕ → Result ℤ × H.State → World → Result (Option ℤ) × World
  after_popen port (err e, s) w = (err e, record w { host = s })
  after_popen port (ok pid, s) w =
      poll polls port pid (record w { host = s; pid_file = some (H.str_pid pid) })

  -- `_start_server`: the process, or `None`
  unfoldable pub start_server : ℕ → Bool → World → Result (Option ℤ) × World
  start_server port debug w = let w' = remove w in after_popen port (H.popen port debug w'.host) w'

  unfoldable pub start : ℕ → Bool → World → Result (Option ℤ) × World
  start port debug w = if is_some w.pid_file then (ok none, w) else start_server port debug w

  abbrev pub stop : World → Result (Option ℤ) × World
  stop w = stop_server w

  abbrev pub unless_raised :
      (World → Result (Option ℤ) × World) → Result (Option ℤ) × World → Result (Option ℤ) × World
  unless_raised next (err e, w) = (err e, w)
  unless_raised next (ok x, w) = next w

  unfoldable pub restart : ℕ → Bool → World → Result (Option ℤ) × World
  restart port debug w = unless_raised (start port debug) (stop w)

  -- the task `debug`
  abbrev pub debug_start : ℕ → World → Result (Option ℤ) × World
  debug_start port w = start port true w

  -- The watcher: a start, a stop and a start for each change, and a stop when it is interrupted,
  -- which happens while it waits for a change.
  unfoldable pub watch_changes : ℕ → ℕ → World → Result (Option ℤ) × World
  watch_changes zero port w = stop_server w
  watch_changes (suc changes) port w =
      unless_raised (λ w'. unless_raised (watch_changes changes port) (start_server port false w'))
        (stop_server w)

  unfoldable pub watch : ℕ → ℕ → World → Result (Option ℤ) × World
  watch changes port w = unless_raised (watch_changes changes port) (start_server port false w)
