-- ===== src/Daemon.antt =====
-- silog_dae/src/silog_daemon.c: the bodies of the daemon's threads as rounds, which compose the local socket, the
-- queue, the log file and the remote server.
pub mod Line
pub mod Room
pub mod Pipeline
pub mod Written
pub mod Start
mod Tests
use si_log.Base.{
  ℕ, Bool, true, false, Option, none, some, List, [], ◌∷◌, ◌++◌, ltb, if◌then◌else◌, take, length,
  ◌-◌,
}
use si_log.Base.Int.{ℤ, pos, negsuc, is_positive}
use si_log.Errors.{ErrorCode, ok}
use si_log.Entry.{LogEntry}
use si_log.Mpsc.{MpscQueue, push, pop}
use si_log.Ipc
use si_log.Ipc.{Agent, SocketCalls, Effect, unix_dgram, server_init, server_close, server_recv}
use si_log.File.{FileManager, RotateCalls, Call, write_raw}
use si_log.Remote.Server.{Manager, Accepted, Sent, accept, broadcast}
use si_log.Securec.Format.{snprintf_s}
use si_log.Securec.Text.Arrays.{text}
use si_log.Time.{Tm, format_wall_clock_ms, level_to_name}

-- What the threads share: `g_silogDaemonMgr`, `g_remoteEnabled`, and the states of the file manager, the local
-- socket and the remote server. `entry` is the local variable of the receiving thread.
pub record Daemon : Type 0 where
  pub log_queue : MpscQueue LogEntry
  pub agent : Agent
  pub entry : LogEntry
  pub file : FileManager
  pub remote : Manager
  pub remote_enabled : Bool

-- What the C library and the compiler give: the decimal numbers of "%d" and "%u", `localtime_r`, the text of a
-- time, and what a `logEntry_t` is once `recv` has stored bytes at its start.
pub record Platform : Type 0 where
  pub signed : ℕ → List ℕ
  pub unsigned : ℕ → List ℕ
  pub localtime : ℕ → Option Tm
  pub print_time : List ℕ → Option (List ℕ)
  pub sizeof_entry : ℕ
  pub fill : List ℕ → LogEntry → LogEntry

-- The text of "[%s][%s][pid:%d tid:%d][%s][%s:%u] %s\n".
pub line_of : Platform → List ℕ → LogEntry → List ℕ
line_of p time e =
    b'['
    ∷ (text time
        ++ b']'
          ∷ b'['
          ∷ (level_to_name e.level
              ++ b']'
                ∷ b'['
                ∷ b'p'
                ∷ b'i'
                ∷ b'd'
                ∷ b':'
                ∷ (p.signed e.pid
                    ++ b' '
                      ∷ b't'
                      ∷ b'i'
                      ∷ b'd'
                      ∷ b':'
                      ∷ (p.signed e.tid
                          ++ b']'
                            ∷ b'['
                            ∷ (text e.tag
                                ++ b']'
                                  ∷ b'['
                                  ∷ (text e.file
                                      ++ b':'
                                        ∷ (p.unsigned e.line
                                            ++ b']' ∷ b' ' ∷ (text e.msg ++ b'\n' ∷ []))))))))

-- What the system answers in one round of the writing thread: what `timebuf` and `logbuf` hold, whether the line
-- could be formatted, the calls of a rotation, how many bytes `fwrite` takes of so many, the time and the sockets.
pub record WriteCalls : Type 0 where
  pub timebuf : List ℕ
  pub logbuf : List ℕ
  pub print_ok : Bool
  pub rotation : RotateCalls
  pub written : ℕ → ℕ
  pub now : ℕ
  pub answers : ℕ → ℕ → ℕ → Sent

-- The effects of a round: calls on files and descriptors closed.
pub record Done : Type 0 where
  pub files : List Call
  pub closed : List ℕ

abbrev pub nothing_done : Done
nothing_done = record { files = []; closed = [] }

-- The buffer, or no bytes for NULL, which the code does not hand over.
pub or_empty : Option (List ℕ) → List ℕ
or_empty none = []
or_empty (some buffer) = buffer

-- The first `len` bytes of `logbuf`, where `len` is at most LOG_MSG_BUF_SIZE.
pub bytes_to_write : ℕ → List ℕ → List ℕ
bytes_to_write len logbuf = take (if ltb 512 len then 512 else len) logbuf

-- The broadcast of an entry, if the remote service is enabled.
pub share : (ℕ → ℕ → ℕ → Sent) → Daemon → LogEntry → List Call → Daemon × Done
share answers d e files =
    if d.remote_enabled
    then (let (code, served, remote, closed) = broadcast answers d.remote (some e) in
        (record d { remote = remote }, record { files = files; closed = closed }))
    else (d, record { files = files; closed = [] })

-- What follows the call of `SilogFileManagerWriteRaw`; `none` if that does not return.
pub after_write :
    Daemon
    → LogEntry
    → WriteCalls
    → Option (ErrorCode × FileManager × List Call)
    → Option (Daemon × Done)
after_write d e c none = none
after_write d e c (some (code, file, files)) =
    some (share c.answers (record d { file = file }) e files)

-- What follows the formatting: its answer is an error or a length.
pub write_line : Daemon → LogEntry → WriteCalls → ℤ × Option (List ℕ) → Option (Daemon × Done)
write_line d e c (negsuc n, logbuf) = some (d, nothing_done)
write_line d e c (pos n, logbuf) =
    let bytes = bytes_to_write n (or_empty logbuf) in
    after_write d e c (write_raw d.file (some bytes) c.rotation (c.written (length bytes)) c.now)

-- What the writing thread does with an entry that it has popped.
pub write_entry : Platform → Daemon → LogEntry → WriteCalls → Option (Daemon × Done)
write_entry p d e c =
    let timebuf =
      or_empty (format_wall_clock_ms p.localtime p.print_time e.ts (some c.timebuf) 32) in
    write_line d e c (
      snprintf_s (some c.logbuf) 512 511 true
        (if c.print_ok then some (line_of p timebuf e) else none))

pub with_entry : LogEntry → Option (Daemon × Done) → Option (Option LogEntry × Daemon × Done)
with_entry e none = none
with_entry e (some (d, done)) = some (some e, d, done)

-- What the writing thread does with the answer of `SilogMpscQueuePop`.
pub after_pop :
    Platform
    → Daemon
    → WriteCalls
    → ErrorCode × Option LogEntry × Option (MpscQueue LogEntry)
    → Option (Option LogEntry × Daemon × Done)
after_pop p d c (ok, some e, some q) = with_entry e (write_entry p (record d { log_queue = q }) e c)
after_pop p d c (code, e, q) = some (none, d, nothing_done)

-- One round of the loop of `SilogDaemonWriteThreadFunc`, with the entry that it popped.
pub write_round : Platform → Daemon → WriteCalls → Option (Option LogEntry × Daemon × Done)
write_round p d c = after_pop p d c (pop (some d.log_queue) true)

-- The queue that a push leaves; the code is only reported.
pub after_push : Daemon → Option (ErrorCode × Option (MpscQueue LogEntry)) → Option Daemon
after_push d (some (code, some q)) = some (record d { log_queue = q })
after_push d other = none

-- One round of the loop of `SilogDaemonRecvThreadFunc`; `none` if the push does not return.
pub recv_round : Platform → Daemon → (ℕ → Option (List ℕ)) → Option Daemon
recv_round p d recv =
    let (n, bytes) = server_recv d.agent p.sizeof_entry recv in
    let entry = p.fill bytes d.entry in
    if is_positive n
    then after_push (record d { entry = entry }) (push (some d.log_queue) (some entry))
    else some d

-- What `SilogDaemonRecvThreadFunc` does before its loop; a code that is not `ok` ends the thread.
pub recv_begin : Agent → SocketCalls → ErrorCode × Agent × List Effect
recv_begin a s = server_init (Ipc.init a unix_dgram) s

-- What it does after its loop.
pub recv_end : Agent → Agent × List Effect
recv_end a = server_close a

-- One round of the loop of `SilogDaemonRemoteThreadFunc`, with the descriptors closed.
pub remote_round : Manager → Accepted → Bool → Bool → Manager × List ℕ
remote_round m answer get_ok set_ok =
    let (code, m', closed) = accept m answer get_ok set_ok in (m', closed)
