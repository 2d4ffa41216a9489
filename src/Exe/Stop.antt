-- ===== src/Exe/Stop.antt =====
-- `SilogExeStopDaemon` of silog_exe/src/silog_exe.c: the signals it sends.
use si_log.Base.{
  ◌≡◌, ◌∙◌, refl, sym, ap, subst, Bool, true, false, not, ◌&&◌, none, Option, List, [], ◌∷◌, ◌++◌,
  if◌then◌else◌,
}
use si_log.Base.Int.{ℤ, is_positive}
use si_log.Errors.{ErrorCode, ok}
use si_log.Ipc.{Effect}
use si_log.Ipc.Idle.{idle, IsIdle, IsClosed, reaches, append-IsClosed}
use si_log.Exe.{
  Process, Act, terminate, force, socket, acts, read_pid_file, remove_pid_file, is_running,
  wait_until, StopCalls, stop_wait, stop_daemon,
}
use si_log.Exe.Probe.{is_running-Probed, finds, wait_until-Waited}

-- The signals among what a run does, and its effects on sockets.
abbrev pub signals : List Act → List Act
signals [] = []
signals (socket e ∷ done) = signals done
signals (act ∷ done) = act ∷ signals done

abbrev pub sockets : List Act → List Effect
sockets [] = []
sockets (socket e ∷ done) = e ∷ sockets done
sockets (act ∷ done) = sockets done

signals-acts : (es : List Effect) (rest : List Act) → signals (acts es ++ rest) ≡ signals rest
signals-acts [] rest = refl
signals-acts (e ∷ es) rest = signals-acts es rest

sockets-acts : (es : List Effect) (rest : List Act) → sockets (acts es ++ rest) ≡ es ++ sockets rest
sockets-acts [] rest = refl
sockets-acts (e ∷ es) rest = ap (λ t. e ∷ t) (sockets-acts es rest)

pub sockets-only : (es : List Effect) → sockets (acts es) ≡ es
sockets-only [] = refl
sockets-only (e ∷ es) = ap (λ t. e ∷ t) (sockets-only es)

signals-only : (es : List Effect) → signals (acts es) ≡ []
signals-only [] = refl
signals-only (e ∷ es) = signals-only es

-- What stopping the daemon leaves: what becomes of the PID file, and the signals that were sent.
pub record Stopped (file : Option (Option ℤ)) (sent : List Act) (r : ErrorCode × Process × List Act)
    : Type 0 where
  pub code : r.0 ≡ ok
  pub agent : r.1.agent ≡ idle
  pub file_left : r.1.pid_file ≡ file
  pub signalled : signals r.2 ≡ sent
  pub all_closed : IsClosed (sockets r.2)

-- The signals that are due: SIGTERM to the process that the PID file names, if the daemon runs, and SIGKILL if the
-- process could be signalled but the daemon still runs after 30 probes.
abbrev pub signals_due : Bool → ℤ → Bool → Bool → List Act
signals_due running pid kill_ok gone =
    if running && is_positive pid
    then terminate pid ∷ (if kill_ok && not gone then force pid ∷ [] else [])
    else []

abbrev kept_signals : ℤ → Bool → List Act
kept_signals pid gone = if not gone then force pid ∷ [] else []

-- What waiting for the daemon's end leaves.
record Ended (file : Option (Option ℤ)) (pid : ℤ) (gone : Bool) (r : Process × List Act)
    : Type 0 where
  pub agent : r.0.agent ≡ idle
  pub file_left : r.0.pid_file ≡ file
  pub signalled : signals r.1 ≡ kept_signals pid gone
  pub all_closed : IsClosed (sockets r.1)

after_waiting :
    {file : Option (Option ℤ)} (m : Process) (pid : ℤ) (done : List Effect) (stopped : Bool)
    → m.agent ≡ idle
    → m.pid_file ≡ file
    → IsClosed done
    → Ended file pid stopped (if stopped then (m, acts done) else (m, acts done ++ force pid ∷ []))
after_waiting m pid done true i n c = record {
  agent = i;
  file_left = n;
  signalled = signals-only done;
  all_closed = subst IsClosed (sym (sockets-only done)) c;
}
after_waiting m pid done false i n c = record {
  agent = i;
  file_left = n;
  signalled = signals-acts done (force pid ∷ []);
  all_closed =
      subst IsClosed (sym (sockets-acts done (force pid ∷ [])))
        (append-IsClosed done [] c (λ x. refl));
}

-- The PID file after `remove_pid_file`.
abbrev pub kept_file : Process → Bool → Option (Option ℤ)
kept_file m removed = if removed then none else m.pid_file

pid_file-remove_pid_file :
    (m : Process) (removed : Bool) → (remove_pid_file m removed).pid_file ≡ kept_file m removed
unfolding remove_pid_file
pid_file-remove_pid_file m true = refl
pid_file-remove_pid_file m false = refl

agent-remove_pid_file : (m : Process) (removed : Bool) → (remove_pid_file m removed).agent ≡ m.agent
unfolding remove_pid_file
agent-remove_pid_file m true = refl
agent-remove_pid_file m false = refl

stop_wait-Ended :
    (m : Process) (pid : ℤ) (os : StopCalls)
    → m.agent ≡ idle
    → Ended (kept_file m os.unlink_ok) pid (finds false 30 0 os.probes) (stop_wait m pid os)
unfolding stop_wait
stop_wait-Ended m pid os i =
    let w = wait_until false 30 0 m.agent os.probes in
    let p = wait_until-Waited false 30 0 m.agent os.probes i in
    let ended = record m { agent = w.1 } in
    subst (λ b. Ended (kept_file m os.unlink_ok) pid b (stop_wait m pid os)) p.answer
      (after_waiting (remove_pid_file ended os.unlink_ok) pid w.2 w.0
        (agent-remove_pid_file ended os.unlink_ok ∙ p.agent)
        (pid_file-remove_pid_file ended os.unlink_ok) p.all_closed)

-- The command's end without waiting, after some signals.
stop_at_once :
    {file : Option (Option ℤ)} (m : Process) (done : List Effect) (sent : List Act)
    → m.agent ≡ idle
    → m.pid_file ≡ file
    → IsClosed done
    → sockets sent ≡ []
    → signals sent ≡ sent
    → Stopped file sent (ok, m, acts done ++ sent)
stop_at_once m done sent i n c none_open same = record {
  code = refl;
  agent = i;
  file_left = n;
  signalled = signals-acts done sent ∙ same;
  all_closed =
      subst IsClosed (sym (sockets-acts done sent ∙ ap (λ t. done ++ t) none_open))
        (append-IsClosed done [] c (λ x. refl));
}

stop_after_wait :
    {file : Option (Option ℤ)} (pid : ℤ) (gone : Bool) (r : Process × List Act) (done : List Effect)
    → IsClosed done
    → Ended file pid gone r
    → Stopped file
        (terminate pid ∷ kept_signals pid gone)
        (ok, r.0, acts done ++ terminate pid ∷ r.1)
stop_after_wait pid gone r done c e = record {
  code = refl;
  agent = e.agent;
  file_left = e.file_left;
  signalled = signals-acts done (terminate pid ∷ r.1) ∙ ap (λ t. terminate pid ∷ t) e.signalled;
  all_closed =
      subst IsClosed (sym (sockets-acts done (terminate pid ∷ r.1)))
        (append-IsClosed done (sockets r.1) c e.all_closed);
}

stop_quietly :
    {file : Option (Option ℤ)} (m : Process) (done : List Effect)
    → m.agent ≡ idle
    → m.pid_file ≡ file
    → IsClosed done
    → Stopped file [] (ok, m, acts done)
stop_quietly m done i n c = record {
  code = refl;
  agent = i;
  file_left = n;
  signalled = signals-only done;
  all_closed = subst IsClosed (sym (sockets-only done)) c;
}

stop_branches :
    {file : Option (Option ℤ)} (running positive kill_ok gone : Bool) (pid : ℤ)
    (u v w x : ErrorCode × Process × List Act)
    → Stopped file [] u
    → Stopped file [] v
    → Stopped file (terminate pid ∷ kept_signals pid gone) w
    → Stopped file (terminate pid ∷ []) x
    → Stopped file
        (if running && positive
          then terminate pid ∷ (if kill_ok && not gone then force pid ∷ [] else [])
          else [])
        (if not running then u else (if not positive then v else (if kill_ok then w else x)))
stop_branches false positive kill_ok gone pid u v w x hu hv hw hx = hu
stop_branches true false kill_ok gone pid u v w x hu hv hw hx = hv
stop_branches true true true gone pid u v w x hu hv hw hx = hw
stop_branches true true false gone pid u v w x hu hv hw hx = hx

-- Stopping the daemon from a local socket that has no descriptor answers `ok` and leaves no open descriptor; the PID
-- file is gone if `unlink` succeeds, and as it was otherwise. SIGTERM is sent exactly if a probe reaches the daemon and the PID file holds a positive number, and
-- to the process of that number; SIGKILL follows exactly if that signal could be sent and none of the 30 probes
-- afterwards finds the daemon gone.
pub stop_daemon-Stopped :
    (m : Process) (os : StopCalls)
    → IsIdle m.agent
    → Stopped
        (kept_file m os.unlink_ok)
        (signals_due (reaches os.probe) (read_pid_file m) os.kill_ok (finds false 30 0 os.probes))
        (stop_daemon m os)
unfolding stop_daemon read_pid_file
stop_daemon-Stopped m os i =
    let r = is_running m.agent os.probe in
    let p = is_running-Probed m.agent os.probe i in
    let m' = record m { agent = r.1 } in
    let pid = read_pid_file m in
    let w = stop_wait m' pid os in
    let left = remove_pid_file m' os.unlink_ok in
    let closed = agent-remove_pid_file m' os.unlink_ok ∙ p.agent in
    let file = pid_file-remove_pid_file m' os.unlink_ok in
    subst
      (λ b.
        Stopped (kept_file m os.unlink_ok)
          (signals_due b pid os.kill_ok (finds false 30 0 os.probes)) (stop_daemon m os))
      p.answer
      (stop_branches r.0 (is_positive pid) os.kill_ok (finds false 30 0 os.probes) pid
        (ok, left, acts r.2) (ok, left, acts r.2) (ok, w.0, acts r.2 ++ terminate pid ∷ w.1)
        (ok, left, acts r.2 ++ terminate pid ∷ []) (stop_quietly left r.2 closed file p.all_closed)
        (stop_quietly left r.2 closed file p.all_closed)
        (stop_after_wait pid (finds false 30 0 os.probes) w r.2 p.all_closed
          (stop_wait-Ended m' pid os p.agent))
        (stop_at_once left r.2 (terminate pid ∷ []) closed file p.all_closed refl refl))
