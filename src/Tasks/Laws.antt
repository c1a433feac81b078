-- ===== src/Tasks/Laws.antt =====
-- What the tasks of tasks.py promise of the PID file and of the processes.
use ticket_genius.Prelude.{
  sym, subst, ◌∙◌, ℕ, zero, suc, ◌≡◌, refl, ◌⊎◌, inl, inr, Bool, true, false, not, Option, none,
  some, ◌∷◌, if◌then◌else◌,
}
use ticket_genius.Prelude.Int.{ℤ}
use ticket_genius.Prelude.Text.{Text}
use ticket_genius.Python.{Exn, Result, ok, err}
use ticket_genius.Tasks.{
  Signal, sent, no_such_process, failed, Host, World, looks_like_server, after_kill, stop_process,
  stop_pid, stop_named, stop_server, poll, polls, after_popen, start_server, start, restart,
  unless_raised, watch_changes, watch,
}

module _ (H : Host) where
  -- A process that stopping may signal: the PID file names it and it looks like the server.
  pub record IsTarget (w : World H) (pid : ℤ) : Type 0 where
    pub text : Text
    pub in_file : w.pid_file ≡ some text
    pub is_pid : H.pid_of text ≡ ok pid
    pub is_server : looks_like_server H pid w.host ≡ true

  -- Nothing more is signalled, or one target.
  abbrev pub SignalsTarget : World H → World H → Type 0
  SignalsTarget w w' =
      (w'.signalled ≡ w.signalled)
      ⊎ ((pid : ℤ) × IsTarget w pid × (w'.signalled ≡ pid ∷ w.signalled))

  stop_process-SignalsTarget :
      (w : World H) (text : Text) (pid : ℤ)
      → w.pid_file ≡ some text
      → H.pid_of text ≡ ok pid
      → SignalsTarget w (stop_process H pid w).1
  unfolding stop_process
  stop_process-SignalsTarget w text pid in_file is_pid =
      choose (looks_like_server H pid w.host) refl (H.kill pid w.host)
    where
      choose :
          (b : Bool)
          → looks_like_server H pid w.host ≡ b
          → (killed : Signal × H.State)
          → SignalsTarget w (if not b then (ok none, w) else after_kill H pid killed w).1
      choose false e killed = inl refl
      choose true e (sent, s) =
          inr (pid, record { text = text; in_file = in_file; is_pid = is_pid; is_server = e }, refl)
      choose true e (no_such_process, s) = inl refl
      choose true e (failed raised, s) = inl refl

  -- What is left of the PID file by stopping: nothing, or a text that is no number.
  abbrev pub left_of : Text → Result ℤ → Option Text
  left_of text (ok pid) = none
  left_of text (err e) = some text

  abbrev pub left : Option Text → Option Text
  left none = none
  left (some text) = left_of text (H.pid_of text)

  -- Stopping the server signals nothing, or one process, and that one is named by the PID file and
  -- looks like a Python or Flask process; and it removes the PID file even if it raises, unless the
  -- text of the file is no number, which keeps the file.
  pub stop_server_lem :
      (w : World H)
      → SignalsTarget w (stop_server H w).1 × ((stop_server H w).1.pid_file ≡ left w.pid_file)
  unfolding stop_server
  stop_server_lem w = go w.pid_file refl
    where
      named :
          (text : Text) (r : Result ℤ)
          → w.pid_file ≡ some text
          → H.pid_of text ≡ r
          → SignalsTarget w (stop_pid H r w).1 × ((stop_pid H r w).1.pid_file ≡ left w.pid_file)
      named text (ok pid) e p = (stop_process-SignalsTarget w text pid e p, rw (e, p) refl)
      named text (err raised) e p = (inl refl, rw (e, p) refl)

      go :
          (file : Option Text)
          → w.pid_file ≡ file
          → SignalsTarget w (stop_named H file w).1
            × ((stop_named H file w).1.pid_file ≡ left w.pid_file)
      go none e = (inl refl, rw e refl)
      go (some text) e = named text (H.pid_of text) e refl

  -- The PID file that goes with a result: it names the process that is returned.
  abbrev pub tracked : Result (Option ℤ) → Option Text
  tracked (ok (some pid)) = some (H.str_pid pid)
  tracked (ok none) = none
  tracked (err e) = none

  -- A PID file that is missing or names a process.
  abbrev pub Names : Option Text → Type 0
  Names file = left file ≡ none

  str_pid-Names : (pid : ℤ) → Names (some (H.str_pid pid))
  str_pid-Names pid = rw (H.pid_of-str_pid pid) refl

  stop_server-removes : (w : World H) → Names w.pid_file → (stop_server H w).1.pid_file ≡ none
  stop_server-removes w names = (stop_server_lem w).1 ∙ names

  -- Stopping returns nothing.
  stop_process-returns : (pid : ℤ) (w : World H) → tracked (stop_process H pid w).0 ≡ none
  unfolding stop_process
  stop_process-returns pid w = choose (looks_like_server H pid w.host) (H.kill pid w.host)
    where
      choose :
          (b : Bool) (killed : Signal × H.State)
          → tracked (if not b then (ok none, w) else after_kill H pid killed w).0 ≡ none
      choose false killed = refl
      choose true (sent, s) = refl
      choose true (no_such_process, s) = refl
      choose true (failed raised, s) = refl

  stop_server-returns : (w : World H) → tracked (stop_server H w).0 ≡ none
  unfolding stop_server
  stop_server-returns w = go w.pid_file
    where
      named : (r : Result ℤ) → tracked (stop_pid H r w).0 ≡ none
      named (ok pid) = stop_process-returns pid w
      named (err e) = refl

      go : (file : Option Text) → tracked (stop_named H file w).0 ≡ none
      go none = refl
      go (some text) = named (H.pid_of text)

  poll-tracks :
      (n port : ℕ) (pid : ℤ) (w : World H)
      → w.pid_file ≡ some (H.str_pid pid)
      → let (r, w') = poll H n port pid w in w'.pid_file ≡ tracked r
  unfolding poll
  poll-tracks zero port pid w e =
      stop_server-removes w (rw e (str_pid-Names pid)) ∙ sym (stop_server-returns w)
  poll-tracks (suc n) port pid w e =
      choose (H.answers port w.host)
        (poll-tracks n port pid (record w { host = H.sleep (H.answers port w.host).1 }) e)
    where
      choose :
          (a : Bool × H.State)
          → (let (r, w') = poll H n port pid (record w { host = H.sleep a.1 }) in
              w'.pid_file ≡ tracked r)
          → let (r, w') =
              if a.0
              then (ok (some pid), record w { host = a.1 })
              else poll H n port pid (record w { host = H.sleep a.1 }) in
            w'.pid_file ≡ tracked r
      choose (true, s) h = e
      choose (false, s) h = h

  -- Starting the server ends with a PID file that names the process that it returns, and with none
  -- if it returns none, because the server did not answer in time, or raises.
  pub start_server-tracks :
      (port : ℕ) (debug : Bool) (w : World H)
      → let (r, w') = start_server H port debug w in w'.pid_file ≡ tracked r
  unfolding start_server
  start_server-tracks port debug w = go (H.popen port debug w.host)
    where
      go :
          (started : Result ℤ × H.State)
          → let (r, w') = after_popen H port started (record w { pid_file = none }) in
            w'.pid_file ≡ tracked r
      go (err e, s) = refl
      go (ok pid, s) =
          poll-tracks polls port pid (record w { host = s; pid_file = some (H.str_pid pid) }) refl

  tracked-Names : (r : Result (Option ℤ)) → Names (tracked r)
  tracked-Names (ok (some pid)) = str_pid-Names pid
  tracked-Names (ok none) = refl
  tracked-Names (err e) = refl

  -- The next statement leaves no PID file if it starts with one that the result before it goes with.
  unless_raised-cleans :
      (next : World H → Result (Option ℤ) × World H) (done : Result (Option ℤ) × World H)
      → done.1.pid_file ≡ tracked done.0
      → ((w : World H) → Names w.pid_file → (next w).1.pid_file ≡ none)
      → (unless_raised H next done).1.pid_file ≡ none
  unless_raised-cleans next (ok x, w) e cleans =
      cleans w (subst Names (sym e) (tracked-Names (ok x)))
  unless_raised-cleans next (err raised, w) e cleans = e

  watch_changes-cleans :
      (changes port : ℕ) (w : World H)
      → Names w.pid_file
      → (watch_changes H changes port w).1.pid_file ≡ none
  unfolding watch_changes
  watch_changes-cleans zero port w names = stop_server-removes w names
  watch_changes-cleans (suc changes) port w names =
      unless_raised-cleans
        (λ w'. unless_raised H (watch_changes H changes port) (start_server H port false w'))
        (stop_server H w) (stop_server-removes w names ∙ sym (stop_server-returns w))
        λ w' _.
          unless_raised-cleans (watch_changes H changes port) (start_server H port false w')
            (start_server-tracks port false w') (watch_changes-cleans changes port)

  -- The watcher, interrupted while it waits after any number of changes, or ended by an exception of a start or a
  -- stop, leaves no PID file.
  pub watch_cleans : (changes port : ℕ) (w : World H) → (watch H changes port w).1.pid_file ≡ none
  unfolding watch
  watch_cleans changes port w =
      unless_raised-cleans (watch_changes H changes port) (start_server H port false w)
        (start_server-tracks port false w) (watch_changes-cleans changes port)

  -- A restart where no PID file is, or one that names a process, starts a server behind a stop that
  -- does not raise: it never finds one that is already running.
  pub restart_starts :
      (port : ℕ) (debug : Bool) (w : World H)
      → Names w.pid_file
      → restart H port debug w ≡ unless_raised H (start_server H port debug) (stop_server H w)
  unfolding restart start
  restart_starts port debug w names = go (stop_server H w) (stop_server-removes w names)
    where
      go :
          (stopped : Result (Option ℤ) × World H)
          → stopped.1.pid_file ≡ none
          → unless_raised H (start H port debug) stopped
            ≡ unless_raised H (start_server H port debug) stopped
      go (err e, w') gone = refl
      go (ok x, w') gone = rw gone refl

  -- Where the text of the PID file is no number, a start does nothing, and a stop and a restart raise
  -- what the text raises and change nothing, the file included.
  pub unreadable_pid_file :
      (port : ℕ) (debug : Bool) (w : World H) (text : Text) (e : Exn)
      → w.pid_file ≡ some text
      → H.pid_of text ≡ err e
      → (start H port debug w ≡ (ok none, w))
        × (stop_server H w ≡ (err e, w))
        × (restart H port debug w ≡ (err e, w))
  unfolding restart start stop_server
  unreadable_pid_file port debug w text e in_file raises =
      (rw in_file refl, rw (in_file, raises) refl, rw (in_file, raises) refl)
