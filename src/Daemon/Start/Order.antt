-- ===== src/Daemon/Start/Order.antt =====
-- What a start of silog_dae/src/silog_daemon.c leaves, and that its end stops all of it.
use si_log.Base.{◌≡◌, true, false}
use si_log.Errors.{ErrorCode, thread_create, is_ok}
use si_log.Mpsc
use si_log.File.Config
use si_log.File.Config.{StartCalls}
use si_log.File.Config.Join.{IsShut}
use si_log.Daemon.Start.{Service, Answers}

-- Nothing runs, the log file is closed, every thread was joined, and none that was not there.
pub record IsStopped (s : Service) : Type 0 where
  pub running : s.daemon_running ≡ false
  pub recv_thread : s.recv_thread ≡ false
  pub write_thread : s.write_thread ≡ false
  pub remote_thread : s.remote_thread ≡ false
  pub enabled : s.remote_enabled ≡ false
  pub file : IsShut s.file

-- The daemon counts as running exactly if the start succeeded, then both threads were created, and in
-- either case the remote service has its thread exactly if it is enabled.
pub record Outcome (code : ErrorCode) (s : Service) : Type 0 where
  pub running : s.daemon_running ≡ is_ok code
  pub threads : is_ok code ≡ true → (s.recv_thread ≡ true) × (s.write_thread ≡ true)
  pub remote : s.remote_thread ≡ s.remote_enabled

-- Neither the daemon nor its remote service runs; the two threads may exist.
record IsIdle (s : Service) : Type 0 where
  running : s.daemon_running ≡ false
  thread : s.remote_thread ≡ false
  enabled : s.remote_enabled ≡ false

-- The compression thread could not be created, which ended the start, and the end has joined it all the same.
pub record HasBadJoin (code : ErrorCode) (os : Answers) (s : Service) : Type 0 where
  pub failed : code ≡ thread_create
  pub not_created : os.file.thread_ok ≡ false
  pub undefined : s.file.bad_join ≡ true
