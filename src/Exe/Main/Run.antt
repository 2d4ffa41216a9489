-- ===== src/Exe/Main/Run.antt =====
-- A whole run of silog_exe/src/silog_exe.c: the descriptors that the local IPC opens.
use si_log.Base.{
  ℕ, ◌+◌, ◌≡◌, refl, sym, subst, Bool, true, false, not, List, [], ◌∷◌, ◌++◌, if◌then◌else◌,
  if_holds,
}
use si_log.Errors.{ErrorCode, ok, trans_not_init, is_ok}
use si_log.Entry.{LogEntry}
use si_log.Ipc
use si_log.Ipc.{
  Agent, SocketCalls, SendCalls, Effect, unix_dgram, client_init, client_send, client_close,
}
use si_log.Ipc.Balance.{Balanced, Balanced-trans}
use si_log.Ipc.Descriptors.{client_send-Balanced, client_close-Balanced}
use si_log.Ipc.Idle.{
  idle, IsIdle, IsClosed, IsClient, Connects, append-IsClosed, Balanced-IsClosed, idle-IsIdle,
  client_init-Connects, client_close-idle, client_send-IsClient,
}
use si_log.Daemon.Start.{Answers}
use si_log.Exe.{
  Process, Act, acts, is_running, Ending, returned, exited, serving, StartDaemonCalls, Fork,
  fork_failed, child, parent, start_forked, become_daemon, start_child, start_daemon,
  start_foreground, show_status,
}
use si_log.Exe.Main.{
  send_each, test_entries, TestCalls, send_entries, send_test_logs, RunCalls, Command, missing,
  start_foreground_command, start_daemon_command, stop, status, test, help, unknown, perform, main,
  command_of,
}
use si_log.Exe.Probe.{is_running-Probed}
use si_log.Exe.Start.{start_parent-Started}
use si_log.Exe.Stop.{sockets, sockets-only, stop_daemon-Stopped}

send_each-client :
    (image : LogEntry → List ℕ) (a : Agent) (es : List LogEntry) (sends : ℕ → SendCalls) (i : ℕ)
    → IsClient a
    → IsClient (send_each image a es sends i).0
      × Balanced a (send_each image a es sends i).0 (send_each image a es sends i).1
unfolding send_each
send_each-client image a [] sends i h = (h, λ x. refl)
send_each-client image a (e ∷ es) sends i h =
    let r = client_send a (image e) (sends i) in
    let rest =
      send_each-client image r.1 es sends (i + 1) (client_send-IsClient a (image e) (sends i) h) in
    let last = send_each image r.1 es sends (i + 1) in
    (
      rest.0,
      Balanced-trans a r.1 last.0 r.2 last.1 (client_send-Balanced a (image e) (sends i)) rest.1,
    )

-- The socket is idle afterwards, and what was opened is closed.
abbrev pub IsTidy : Agent → List Effect → Type 0
IsTidy a es = (a ≡ idle) × IsClosed es

abbrev TidyCall : ErrorCode × Agent × List Effect → Type 0
TidyCall (code, a, es) = IsTidy a es

append-TidyCall :
    (done : List Effect) (r : ErrorCode × Agent × List Effect)
    → IsClosed done
    → TidyCall r
    → TidyCall (r.0, r.1, done ++ r.2)
append-TidyCall done r c h = (h.0, append-IsClosed done r.2 c h.1)

send_entries-TidyCall :
    (image : LogEntry → List ℕ) (pid : ℕ) (a : Agent) (os : TestCalls)
    → IsIdle a
    → TidyCall (send_entries image pid a os)
unfolding send_entries
send_entries-TidyCall image pid a os i =
    let r = client_init (Ipc.init a unix_dgram) os.client in
    let c =
      subst (λ b. Connects os.client (client_init b os.client)) (sym i)
        (client_init-Connects os.client) in
    let es = test_entries pid in
    let t = send_each image r.1 es os.sends 0 in
    let p = send_each-client image r.1 es os.sends 0 c.client in
    let z = client_close t.0 in
    let z_idle = client_close-idle t.0 p.0 in
    let all =
      Balanced-trans idle t.0 z.0 (r.2 ++ t.1) z.1
        (Balanced-trans idle r.1 t.0 r.2 t.1 c.balanced p.1) (client_close-Balanced t.0) in
    if_holds TidyCall (is_ok r.0) (ok, z.0, r.2 ++ t.1 ++ z.1) (r.0, r.1, r.2)
      (λ e. (z_idle, Balanced-IsClosed z.0 (r.2 ++ t.1 ++ z.1) z_idle all))
      (λ e. (c.failed_idle e, Balanced-IsClosed r.1 r.2 (c.failed_idle e) c.balanced))

send_test_logs-TidyCall :
    (image : LogEntry → List ℕ) (pid : ℕ) (a : Agent) (os : TestCalls)
    → IsIdle a
    → TidyCall (send_test_logs image pid a os)
unfolding send_test_logs
send_test_logs-TidyCall image pid a os i =
    let r = is_running a os.probe in
    let p = is_running-Probed a os.probe i in
    let t = send_entries image pid r.1 os in
    let u = send_entries-TidyCall image pid r.1 os (subst IsIdle (sym p.agent) idle-IsIdle) in
    if_holds TidyCall r.0 (t.0, t.1, r.2 ++ t.2) (trans_not_init, r.1, r.2)
      (λ e. append-TidyCall r.2 t p.all_closed u) (λ e. (p.agent, p.all_closed))

abbrev TidyRun : Ending × Process × List Effect → Type 0
TidyRun (ending, m, es) = IsTidy m.agent es

start_child-TidyRun :
    (size : ℕ) (m : Process) (os : StartDaemonCalls) (done : List Effect)
    → IsTidy m.agent done
    → TidyRun (start_child size m os done)
unfolding start_child become_daemon
start_child-TidyRun size m os done h =
    let (code, m') = become_daemon size false m os.opens os.daemon in
    if_holds TidyRun (not os.setsid_ok) (exited 1, m, done)
      (if is_ok code then (serving, m', done) else (exited 1, m', done)) (λ e. h)
      (λ e.
        if_holds TidyRun (is_ok code) (serving, m', done) (exited 1, m', done) (λ e. h) (λ e. h))

start_forked-TidyRun :
    (size : ℕ) (m : Process) (os : StartDaemonCalls) (done : List Effect) (f : Fork)
    → IsTidy m.agent done
    → TidyRun (start_forked size m os done f)
unfolding start_forked
start_forked-TidyRun size m os done fork_failed h = h
start_forked-TidyRun size m os done (parent pid) h =
    let s = start_parent-Started m m pid os done h.0 refl h.1 in (s.agent, s.all_closed)
start_forked-TidyRun size m os done child h = start_child-TidyRun size m os done h

start_daemon-TidyRun :
    (size : ℕ) (m : Process) (os : StartDaemonCalls)
    → IsIdle m.agent
    → TidyRun (start_daemon size m os)
unfolding start_daemon
start_daemon-TidyRun size m os i =
    let r = is_running m.agent os.probe in
    let p = is_running-Probed m.agent os.probe i in
    let m' = record m { agent = r.1 } in
    if_holds TidyRun r.0 (returned ok, m', r.2) (start_forked size m' os r.2 os.fork)
      (λ e. (p.agent, p.all_closed))
      (λ e. start_forked-TidyRun size m' os r.2 os.fork (p.agent, p.all_closed))

start_foreground-same :
    (size : ℕ) (m : Process) (opens : List ℕ → Bool) (os : Answers)
    → (start_foreground size m opens os).1.agent ≡ m.agent
unfolding start_foreground become_daemon
start_foreground-same size m opens os =
    let (code, m') = become_daemon size true m opens os in
    if_holds (λ (r : Ending × Process). r.1.agent ≡ m.agent) (is_ok code) (serving, m')
      (returned code, m') (λ e. refl) (λ e. refl)

-- A run's end: the socket is idle, or will be when it is initialised, and what was opened is closed.
abbrev pub IsTidyEnd : Ending × Process × List Act → Type 0
IsTidyEnd (ending, m, done) = IsIdle m.agent × IsClosed (sockets done)

effects-IsTidyEnd :
    (ending : Ending) (m : Process) (es : List Effect)
    → IsTidy m.agent es
    → IsTidyEnd (ending, m, acts es)
effects-IsTidyEnd ending m es h =
    (subst IsIdle (sym h.0) idle-IsIdle, subst IsClosed (sym (sockets-only es)) h.1)

perform-IsTidyEnd :
    (size : ℕ) (image : LogEntry → List ℕ) (pid : ℕ) (m : Process) (os : RunCalls) (c : Command)
    → IsIdle m.agent
    → IsTidyEnd (perform size image pid m os c)
unfolding perform show_status
perform-IsTidyEnd size image pid m os missing i = (i, λ x. refl)
perform-IsTidyEnd size image pid m os start_foreground_command i =
    (subst IsIdle (sym (start_foreground-same size m os.opens os.foreground)) i, λ x. refl)
perform-IsTidyEnd size image pid m os start_daemon_command i =
    let r = start_daemon size m os.start in
    effects-IsTidyEnd r.0 r.1 r.2 (start_daemon-TidyRun size m os.start i)
perform-IsTidyEnd size image pid m os stop i =
    let h = stop_daemon-Stopped m os.stop i in
    (subst IsIdle (sym h.agent) idle-IsIdle, h.all_closed)
perform-IsTidyEnd size image pid m os status i =
    let p = is_running-Probed m.agent os.status i in
    let r = is_running m.agent os.status in
    effects-IsTidyEnd (returned ok) (record m { agent = r.1 }) r.2 (p.agent, p.all_closed)
perform-IsTidyEnd size image pid m os test i =
    let r = send_test_logs image pid m.agent os.test in
    effects-IsTidyEnd (returned r.0) (record m { agent = r.1 }) r.2
      (send_test_logs-TidyCall image pid m.agent os.test i)
perform-IsTidyEnd size image pid m os help i = (i, λ x. refl)
perform-IsTidyEnd size image pid m os unknown i = (i, λ x. refl)

-- From a local socket that has no descriptor, every command line, whatever the system answers, closes each
-- descriptor that it opened to reach the daemon, and leaves the socket without a descriptor; a command that goes on
-- as the daemon has done so before it serves.
pub main-IsTidyEnd :
    (size : ℕ) (image : LogEntry → List ℕ) (pid : ℕ) (m : Process) (os : RunCalls)
    (args : List (List ℕ))
    → IsIdle m.agent
    → IsTidyEnd (main size image pid m os args)
unfolding main
main-IsTidyEnd size image pid m os args i =
    perform-IsTidyEnd size image pid m os (command_of args) i
