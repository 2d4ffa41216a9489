-- ===== src/Exe.antt =====
-- silog_exe/src/silog_exe.c: the command line that starts, stops and shows the daemon, and sends test entries. What is
-- printed is left out; what the system answers is an argument.
pub mod Main
pub mod Probe
pub mod Start
pub mod Stop
mod Tests
use si_log.Base.{
  ℕ, zero, suc, ◌+◌, ◌-◌, Bool, true, false, not, ◌&&◌, ◌||◌, Option, none, some, List, [], ◌∷◌,
  ◌++◌, if◌then◌else◌,
}
use si_log.Base.Int.{ℤ, pos, negsuc, is_positive}
use si_log.Errors.{ErrorCode, ok, sys_call, timeout, is_ok}
use si_log.Prelog
use si_log.Prelog.{PrelogConfig, PrelogManager}
use si_log.Ipc
use si_log.Ipc.{Agent, SocketCalls, Effect, unix_dgram, client_init, client_close}
use si_log.Remote.Server.{get_client_count}
use si_log.Daemon.Start.{Service, Answers, daemon_init}

-- What a run of the program changes: the pre-log, the local socket, the daemon in its own process, and the file "/tmp/silogd.pid", `none`
-- if it is not there, with the number that it holds.
pub record Process : Type 0 where
  pub prelog : PrelogManager
  pub agent : Agent
  pub service : Service
  pub pid_file : Option (Option ℤ)

-- What a run does to other processes and to sockets.
pub data Act : Type 0 where
  terminate : ℤ → Act
  force : ℤ → Act
  socket : Effect → Act

abbrev pub acts : List Effect → List Act
acts [] = []
acts (e ∷ es) = socket e ∷ acts es

-- The part of `SilogExeDaemonIsRunning` after `SilogIpcInit`.
pub probe : Agent → SocketCalls → Bool × Agent × List Effect
probe a s =
    let (code, connected, done) = client_init a s in
    let (closed, ended) = client_close connected in
    if is_ok code then (true, closed, done ++ ended) else (false, connected, done)

-- `SilogExeDaemonIsRunning`
pub is_running : Agent → SocketCalls → Bool × Agent × List Effect
is_running a s = probe (Ipc.init a unix_dgram) s

-- `SilogExeWritePidFile`, where `fopen` answers as given.
pub write_pid_file : Process → ℕ → Bool → Process
write_pid_file m pid opened = if opened then record m { pid_file = some (some (pos pid)) } else m

-- The number that the PID file holds.
pub pid_in : Option (Option ℤ) → ℤ
pid_in none = negsuc 0
pid_in (some none) = negsuc 0
pid_in (some (some pid)) = pid

-- `SilogExeReadPidFile`
pub read_pid_file : Process → ℤ
read_pid_file m = pid_in m.pid_file

-- `SilogExeRemovePidFile`, where `unlink` succeeds or not.
pub remove_pid_file : Process → Bool → Process
remove_pid_file m removed = if removed then record m { pid_file = none } else m

-- How a command ends: it returns a code, ends the process, or goes on for ever as the daemon.
pub data Ending : Type 0 where
  returned : ErrorCode → Ending
  exited : ℕ → Ending
  serving : Ending

-- The start of the pre-log and of the daemon, where `fopen` of the pre-log's path answers as `opens`; an entry has
-- `size` bytes.
pub become_daemon : ℕ → Bool → Process → (List ℕ → Bool) → Answers → ErrorCode × Process
become_daemon size to_stdout m opens os =
    let config : PrelogConfig = record {
      path =
          b'/' ∷ b't' ∷ b'm' ∷ b'p' ∷ b'/' ∷ b's' ∷ b'i' ∷ b'l' ∷ b'o' ∷ b'g' ∷ b'_' ∷ b'e' ∷ b'x'
          ∷ b'e' ∷ b'.' ∷ b't' ∷ b'x' ∷ b't' ∷ [];
      min_level = 0;
      enable_stdout = to_stdout;
    } in
    let (logged, prelog) = Prelog.init m.prelog (some config) opens in
    let (code, service) = daemon_init size m.service os in
    (code, record m { prelog = prelog; service = service })

-- `SilogExeStartForeground`
pub start_foreground : ℕ → Process → (List ℕ → Bool) → Answers → Ending × Process
start_foreground size m opens os =
    let (code, m') = become_daemon size true m opens os in
    if is_ok code then (serving, m') else (returned code, m')

-- A loop of at most `rounds` probes that ends when the daemon runs, or does not, as `wanted`.
pub wait_until : Bool → ℕ → ℕ → Agent → (ℕ → SocketCalls) → Bool × Agent × List Effect
wait_until wanted zero i a probes = (false, a, [])
wait_until wanted (suc rounds) i a probes =
    let (running, b, done) = is_running a (probes i) in
    let (found, c, more) = wait_until wanted rounds (i + 1) b probes in
    if (if wanted then running else not running) then (true, b, done) else (found, c, done ++ more)

-- What `fork` answers.
pub data Fork : Type 0 where
  fork_failed child : Fork
  parent : ℕ → Fork

-- What the system answers to `SilogExeStartDaemon`.
pub record StartDaemonCalls : Type 0 where
  pub probe : SocketCalls
  pub fork : Fork
  pub probes : ℕ → SocketCalls
  pub file_ok : Bool
  pub setsid_ok : Bool
  pub opens : List ℕ → Bool
  pub daemon : Answers

-- The parent, which waits for the daemon.
pub start_parent : Process → ℕ → StartDaemonCalls → List Effect → Ending × Process × List Effect
start_parent m pid os done =
    let (started, a, more) = wait_until true 30 0 m.agent os.probes in
    let m' = record m { agent = a } in
    if started
    then (returned ok, write_pid_file m' pid os.file_ok, done ++ more)
    else (returned timeout, m', done ++ more)

-- The child, which becomes the daemon.
pub start_child : ℕ → Process → StartDaemonCalls → List Effect → Ending × Process × List Effect
start_child size m os done =
    let (code, m') = become_daemon size false m os.opens os.daemon in
    if not os.setsid_ok
    then (exited 1, m, done)
    else (if is_ok code then (serving, m', done) else (exited 1, m', done))

-- What follows `fork`.
pub start_forked :
    ℕ → Process → StartDaemonCalls → List Effect → Fork → Ending × Process × List Effect
start_forked size m os done fork_failed = (returned sys_call, m, done)
start_forked size m os done (parent pid) = start_parent m pid os done
start_forked size m os done child = start_child size m os done

-- `SilogExeStartDaemon`
pub start_daemon : ℕ → Process → StartDaemonCalls → Ending × Process × List Effect
start_daemon size m os =
    let (running, a, done) = is_running m.agent os.probe in
    let m' = record m { agent = a } in
    let forked = start_forked size m' os done os.fork in
    if running then (returned ok, m', done) else forked

-- What the system answers to `SilogExeStopDaemon`.
pub record StopCalls : Type 0 where
  pub probe : SocketCalls
  pub kill_ok : Bool
  pub unlink_ok : Bool
  pub probes : ℕ → SocketCalls

-- The part of `SilogExeStopDaemon` after SIGTERM was sent.
pub stop_wait : Process → ℤ → StopCalls → Process × List Act
stop_wait m pid os =
    let (stopped, a, done) = wait_until false 30 0 m.agent os.probes in
    let m' = remove_pid_file (record m { agent = a }) os.unlink_ok in
    if stopped then (m', acts done) else (m', acts done ++ force pid ∷ [])

-- `SilogExeStopDaemon`
pub stop_daemon : Process → StopCalls → ErrorCode × Process × List Act
stop_daemon m os =
    let (running, a, done) = is_running m.agent os.probe in
    let m' = record m { agent = a } in
    let pid = read_pid_file m' in
    let (waited, more) = stop_wait m' pid os in
    if not running
    then (ok, remove_pid_file m' os.unlink_ok, acts done)
    else (if not (is_positive pid)
        then (ok, remove_pid_file m' os.unlink_ok, acts done)
        else (if os.kill_ok
            then (ok, waited, acts done ++ terminate pid ∷ more)
            else (ok, remove_pid_file m' os.unlink_ok, acts done ++ terminate pid ∷ [])))

-- What `SilogExeShowStatus` shows.
pub record Status : Type 0 where
  pub running : Bool
  pub pid : Option ℤ
  pub clients : Option ℕ

-- `SilogExeShowStatus`
pub show_status : Process → SocketCalls → ErrorCode × Process × Status × List Effect
show_status m s =
    let (running, a, done) = is_running m.agent s in
    let m' = record m { agent = a } in
    let pid = read_pid_file m' in
    let shown : Status =
      if running
      then record {
        running = true;
        pid = if is_positive pid then some pid else none;
        clients = some (get_client_count m'.service.remote);
      }
      else record { running = false; pid = none; clients = none } in
    (ok, m', shown, done)
