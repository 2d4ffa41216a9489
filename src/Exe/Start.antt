-- ===== src/Exe/Start.antt =====
-- `SilogExeStartDaemon` of silog_exe/src/silog_exe.c in the process that waits for the daemon, and what stopping the
-- daemon then does.
use si_log.Base.{
  ℕ, ◌<◌, ◌≡◌, ◌∙◌, refl, sym, ap, subst, Bool, true, false, not, ◌&&◌, ◌||◌, some, List, [], ◌∷◌,
  ◌++◌, if◌then◌else◌, lt→ltb,
}
use si_log.Base.Int.{pos}
use si_log.Errors.{ok, timeout}
use si_log.Ipc.{Effect}
use si_log.Ipc.Idle.{idle, IsIdle, IsClosed, reaches, append-IsClosed, idle-IsIdle}
use si_log.Exe.{
  Process, terminate, force, pid_in, read_pid_file, write_pid_file, is_running, wait_until,
  StopCalls, stop_daemon, StartDaemonCalls, parent, Ending, returned, start_parent, start_forked,
  start_daemon,
}
use si_log.Exe.Probe.{is_running-Probed, finds, wait_until-Waited}
use si_log.Exe.Stop.{signals, stop_daemon-Stopped}

-- What starting the daemon with process `pid` leaves in the parent.
pub record Started (reached found file_ok : Bool) (pid : ℕ) (m : Process)
    (r : Ending × Process × List Effect) : Type 0 where
  pub ending : r.0 ≡ returned (if reached || found then ok else timeout)
  pub agent : r.1.agent ≡ idle
  pub pid_file :
      r.1.pid_file ≡ (if not reached && found && file_ok then some (some (pos pid)) else m.pid_file)
  pub all_closed : IsClosed r.2

parent_result :
    (started file_ok : Bool) (pid : ℕ) (m m' : Process) (done : List Effect)
    → m'.agent ≡ idle
    → m'.pid_file ≡ m.pid_file
    → IsClosed done
    → Started false started file_ok pid m (
        if started
        then (returned ok, write_pid_file m' pid file_ok, done)
        else (returned timeout, m', done))
unfolding write_pid_file
parent_result true true pid m m' done i f c = record {
  ending = refl;
  agent = i;
  pid_file = refl;
  all_closed = c;
}
parent_result true false pid m m' done i f c = record {
  ending = refl;
  agent = i;
  pid_file = f;
  all_closed = c;
}
parent_result false file_ok pid m m' done i f c = record {
  ending = refl;
  agent = i;
  pid_file = f;
  all_closed = c;
}

pub start_parent-Started :
    (m m' : Process) (pid : ℕ) (os : StartDaemonCalls) (done : List Effect)
    → m'.agent ≡ idle
    → m'.pid_file ≡ m.pid_file
    → IsClosed done
    → Started false (finds true 30 0 os.probes) os.file_ok pid m (start_parent m' pid os done)
unfolding start_parent
start_parent-Started m m' pid os done i f c =
    let w = wait_until true 30 0 m'.agent os.probes in
    let p = wait_until-Waited true 30 0 m'.agent os.probes i in
    subst (λ b. Started false b os.file_ok pid m (start_parent m' pid os done)) p.answer
      (parent_result w.0 os.file_ok pid m (record m' { agent = w.1 }) (done ++ w.2) p.agent f
        (append-IsClosed done w.2 c p.all_closed))

start_branches :
    (reached found file_ok : Bool) (pid : ℕ) (m m' : Process) (done : List Effect)
    (r : Ending × Process × List Effect)
    → m'.agent ≡ idle
    → m'.pid_file ≡ m.pid_file
    → IsClosed done
    → Started false found file_ok pid m r
    → Started reached found file_ok pid m (if reached then (returned ok, m', done) else r)
start_branches true found file_ok pid m m' done r i f c h = record {
  ending = refl;
  agent = i;
  pid_file = f;
  all_closed = c;
}
start_branches false found file_ok pid m m' done r i f c h = h

-- Starting the daemon in the parent.
pub start_daemon-Started :
    (size : ℕ) (m : Process) (os : StartDaemonCalls) (pid : ℕ)
    → IsIdle m.agent
    → os.fork ≡ parent pid
    → Started
        (reaches os.probe)
        (finds true 30 0 os.probes)
        os.file_ok
        pid
        m
        (start_daemon size m os)
unfolding start_daemon start_forked
start_daemon-Started size m os pid i forked =
    let r = is_running m.agent os.probe in
    let p = is_running-Probed m.agent os.probe i in
    let m' = record m { agent = r.1 } in
    let found = finds true 30 0 os.probes in
    subst (λ b. Started b found os.file_ok pid m (start_daemon size m os)) p.answer
      (start_branches r.0 found os.file_ok pid m m' r.2 (start_forked size m' os r.2 os.fork)
        p.agent refl p.all_closed
        (subst (λ f. Started false found os.file_ok pid m (start_forked size m' os r.2 f))
          (sym forked) (start_parent-Started m m' pid os r.2 p.agent refl p.all_closed)))

file_after_start :
    (reached found file_ok : Bool) (pid : ℕ) (m : Process) (r : Ending × Process × List Effect)
    → Started reached found file_ok pid m r
    → reached ≡ false
    → found ≡ true
    → file_ok ≡ true
    → (r.0 ≡ returned ok) × (read_pid_file r.1 ≡ pos pid)
unfolding read_pid_file pid_in
file_after_start reached found file_ok pid m r h e f g =
    let named : r.1.pid_file ≡ some (some (pos pid)) = h.pid_file ∙ rw (e, f, g) refl in
    (h.ending ∙ rw (e, f) refl, ap pid_in named)

-- A daemon that is started in the background, and that a probe reaches in time, is the process that stopping the
-- daemon signals: with the PID file written, SIGTERM goes to the process that `fork` made, and SIGKILL follows only
-- if that process could be signalled and all 30 probes still find the daemon. The start answers `ok`.
stop_daemon-start_daemon :
    (size : ℕ) (m : Process) (starting : StartDaemonCalls) (stopping : StopCalls) (pid : ℕ)
    → IsIdle m.agent
    → reaches starting.probe ≡ false
    → starting.fork ≡ parent pid
    → 0 < pid
    → finds true 30 0 starting.probes ≡ true
    → starting.file_ok ≡ true
    → reaches stopping.probe ≡ true
    → (let (ending, m', done) = start_daemon size m starting in
        (ending ≡ returned ok)
        × (signals (stop_daemon m' stopping).2
            ≡ terminate (pos pid)
              ∷ (if stopping.kill_ok && not (finds false 30 0 stopping.probes)
                  then force (pos pid) ∷ []
                  else [])))
stop_daemon-start_daemon size m starting stopping pid i down forked positive up filed running =
    let r = start_daemon size m starting in
    let s = start_daemon-Started size m starting pid i forked in
    let f =
      file_after_start (reaches starting.probe) (finds true 30 0 starting.probes) starting.file_ok
        pid m r s down up filed in
    let t = stop_daemon-Stopped r.1 stopping (subst IsIdle (sym s.agent) idle-IsIdle) in
    (f.0, t.signalled ∙ rw (running, f.1, lt→ltb 0 pid positive) refl)
