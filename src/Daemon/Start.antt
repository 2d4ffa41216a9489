-- ===== src/Daemon/Start.antt =====
-- The start and the end of silog_dae/src/silog_daemon.c: `SilogDaemonInit`, `SilogDaemonDeinit` and the remote service.
pub mod Order
pub mod Sample
mod Tests
use si_log.Base.{
  ℕ, Bool, not, true, false, Option, none, some, List, [], ◌∷◌, ◌++◌, ◌==◌, if◌then◌else◌,
}
use si_log.Errors.{ErrorCode, ok, thread_create, is_ok}
use si_log.Entry.{LogEntry}
use si_log.Mpsc
use si_log.Mpsc.{MpscQueue}
use si_log.File.{FileManager, Call}
use si_log.File.Config
use si_log.File.Config.{StartCalls}
use si_log.Remote.Server
use si_log.Remote.Server.{Manager, Config, InitCalls, default_port, default_max_clients}

-- What the start and the end change: the flags, which threads were created and not joined, and the parts.
pub record Service : Type 0 where
  pub daemon_running : Bool
  pub recv_thread : Bool
  pub write_thread : Bool
  pub remote_thread : Bool
  pub remote_running : Bool
  pub remote_enabled : Bool
  pub log_queue : Option (MpscQueue LogEntry)
  pub file : FileManager
  pub remote : Manager

-- `SilogDaemonRemoteConfig`
pub record RemoteConfig : Type 0 where
  pub listen_port : ℕ
  pub max_clients : ℕ
  pub enable : Bool

-- What the system answers: to the file manager, to the queue's allocations, to the remote server and to the three
-- calls of `pthread_create`.
pub record Answers : Type 0 where
  pub file : StartCalls
  pub malloc : ℕ → Option (ℕ → LogEntry)
  pub malloc_seq : ℕ → Option (ℕ → ℕ)
  pub remote : InitCalls
  pub recv_ok : Bool
  pub write_ok : Bool
  pub remote_ok : Bool

-- The configuration that `SilogDaemonRemoteInit` builds.
pub remote_config : Option RemoteConfig → Config
remote_config none = record {
  listen_port = default_port;
  max_clients = default_max_clients;
  enable_auth = false;
}
remote_config (some c) = record {
  listen_port = if c.listen_port == 0 then default_port else c.listen_port;
  max_clients = if c.max_clients == 0 then default_max_clients else c.max_clients;
  enable_auth = false;
}

-- `SilogDaemonRemoteInit`, with the descriptors closed.
pub remote_init : Service → Option RemoteConfig → Answers → ErrorCode × Service × List ℕ
remote_init s config os =
    let (code, remote, closed) = Server.init s.remote (some (remote_config config)) os.remote in
    let (ended, closed') = Server.deinit remote in
    if s.remote_enabled
    then (ok, s, [])
    else (if not (is_ok code)
        then (code, record s { remote = remote }, closed)
        else (if os.remote_ok
            then (
              ok,
              record s {
                remote = remote;
                remote_running = true;
                remote_thread = true;
                remote_enabled = true;
              },
              closed,
            )
            else (
              thread_create,
              record s { remote = ended; remote_running = true },
              closed ++ closed',
            )))

-- `SilogDaemonRemoteDeinit`
pub remote_deinit : Service → Service × List ℕ
remote_deinit s =
    let (remote, closed) = Server.deinit s.remote in
    if s.remote_enabled
    then (
      record s {
        remote = remote;
        remote_running = false;
        remote_thread = false;
        remote_enabled = false;
      },
      closed,
    )
    else (s, [])

-- `SilogDaemonRemoteIsEnabled`
pub remote_is_enabled : Service → Bool
remote_is_enabled s = s.remote_enabled

-- `SilogDaemonRemoteGetClientCount`
pub remote_get_client_count : Service → ℕ
remote_get_client_count s = if s.remote_enabled then Server.get_client_count s.remote else 0

-- `SilogDaemonRecvThreadInit`
pub recv_thread_init : Service → Bool → ErrorCode × Service
recv_thread_init s created =
    if created
    then (ok, record s { recv_thread = true })
    else (thread_create, record s { recv_thread = false })

-- `SilogDaemonWriteThreadInit`
pub write_thread_init : Service → Bool → ErrorCode × Service
write_thread_init s created =
    if created
    then (ok, record s { write_thread = true })
    else (thread_create, record s { write_thread = false })

-- The configuration of the remote service in `SilogDaemonInit`.
abbrev pub standard_remote : RemoteConfig
standard_remote = record { listen_port = 0; max_clients = 0; enable = true }

-- The remote service, whose failure does not count, and the flag.
pub start_remote : Service → Answers → ErrorCode × Service
start_remote s os =
    let (code, s', closed) = remote_init s (some standard_remote) os in
    (ok, record s' { daemon_running = true })

-- What follows the initialisation of the writing thread.
pub start_write : Answers → ErrorCode × Service → ErrorCode × Service
start_write os (code, s) = if is_ok code then start_remote s os else (code, s)

-- What follows the receiving thread's.
pub start_recv : Answers → ErrorCode × Service → ErrorCode × Service
start_recv os (code, s) =
    if is_ok code then start_write os (write_thread_init s os.write_ok) else (code, s)

-- What follows the queue's.
pub start_queue : Answers → ErrorCode × Service → ErrorCode × Service
start_queue os (code, s) =
    if is_ok code
    then start_recv os (recv_thread_init s os.recv_ok)
    else (code, record s { file = (Config.deinit s.file).0 })

-- What follows the file manager's; an entry has `size` bytes.
pub start_file : ℕ → Answers → ErrorCode × Service → ErrorCode × Service
start_file size os (code, s) =
    let (code', queue) = Mpsc.init os.malloc os.malloc_seq s.log_queue size 4096 in
    if is_ok code then start_queue os (code', record s { log_queue = queue }) else (code, s)

-- `SilogDaemonInit`
pub daemon_init : ℕ → Service → Answers → ErrorCode × Service
daemon_init size s os =
    let (code, file, calls) = Config.init s.file none os.file in
    if s.daemon_running then (ok, s) else start_file size os (code, record s { file = file })

-- `SilogDaemonDeinit`, with the descriptors of the remote server that it closes.
pub daemon_deinit : Service → Service × List ℕ
daemon_deinit s =
    let joined = record s { daemon_running = false; recv_thread = false; write_thread = false } in
    let (s', closed) = remote_deinit joined in
    (record s' { file = (Config.deinit s'.file).0; log_queue = Mpsc.destroy s'.log_queue }, closed)
