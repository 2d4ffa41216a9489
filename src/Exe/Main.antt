-- ===== src/Exe/Main.antt =====
-- silog_exe/src/silog_exe.c: `SilogExeSendTestLogs` and `main`. An entry is sent as the bytes that `image` gives.
pub mod Run
use si_log.Base.{
  ℕ, ◌+◌, ◌-◌, Bool, true, false, ◌||◌, Option, none, some, List, [], ◌∷◌, ◌++◌, if◌then◌else◌,
  replicate, same_text,
}
use si_log.Errors.{ErrorCode, ok, trans_not_init, is_ok}
use si_log.Entry.{LogEntry, tag_max_len, file_max_len, msg_max_len, strlen, strncpy}
use si_log.Ipc
use si_log.Ipc.{
  Agent, SocketCalls, SendCalls, Effect, unix_dgram, client_init, client_send, client_close,
}
use si_log.Daemon.Start.{Answers}
use si_log.Exe.{
  Process, Act, acts, is_running, Ending, returned, exited, StartDaemonCalls, StopCalls,
  start_foreground, start_daemon, stop_daemon, show_status,
}

-- The texts of the test entries.
abbrev pub debug_message : List ℕ
debug_message =
    b'T' ∷ b'h' ∷ b'i' ∷ b's' ∷ 32 ∷ b'i' ∷ b's' ∷ 32 ∷ b'a' ∷ 32 ∷ b'D' ∷ b'E' ∷ b'B' ∷ b'U' ∷ b'G'
    ∷ 32 ∷ b't' ∷ b'e' ∷ b's' ∷ b't' ∷ 32 ∷ b'm' ∷ b'e' ∷ b's' ∷ b's' ∷ b'a' ∷ b'g' ∷ b'e' ∷ []

abbrev pub info_message : List ℕ
info_message =
    b'T' ∷ b'h' ∷ b'i' ∷ b's' ∷ 32 ∷ b'i' ∷ b's' ∷ 32 ∷ b'a' ∷ b'n' ∷ 32 ∷ b'I' ∷ b'N' ∷ b'F' ∷ b'O'
    ∷ 32 ∷ b't' ∷ b'e' ∷ b's' ∷ b't' ∷ 32 ∷ b'm' ∷ b'e' ∷ b's' ∷ b's' ∷ b'a' ∷ b'g' ∷ b'e' ∷ []

abbrev pub warn_message : List ℕ
warn_message =
    b'T' ∷ b'h' ∷ b'i' ∷ b's' ∷ 32 ∷ b'i' ∷ b's' ∷ 32 ∷ b'a' ∷ 32 ∷ b'W' ∷ b'A' ∷ b'R' ∷ b'N' ∷ 32
    ∷ b't' ∷ b'e' ∷ b's' ∷ b't' ∷ 32 ∷ b'm' ∷ b'e' ∷ b's' ∷ b's' ∷ b'a' ∷ b'g' ∷ b'e' ∷ []

abbrev pub error_message : List ℕ
error_message =
    b'T' ∷ b'h' ∷ b'i' ∷ b's' ∷ 32 ∷ b'i' ∷ b's' ∷ 32 ∷ b'a' ∷ b'n' ∷ 32 ∷ b'E' ∷ b'R' ∷ b'R' ∷ b'O'
    ∷ b'R' ∷ 32 ∷ b't' ∷ b'e' ∷ b's' ∷ b't' ∷ 32 ∷ b'm' ∷ b'e' ∷ b's' ∷ b's' ∷ b'a' ∷ b'g' ∷ b'e'
    ∷ []

-- The entry with another level and message.
pub with_message : LogEntry → ℕ → List ℕ → LogEntry
with_message e level message =
    let msg = strncpy e.msg message (msg_max_len - 1) in
    record e { level = level; msg = msg; msg_len = strlen msg }

-- The first test entry, in the zeroed structure.
pub first_entry : ℕ → LogEntry
first_entry pid =
    with_message
      (record {
        ts = 0;
        pid = pid;
        tid = pid;
        level = 0;
        tag = strncpy (replicate tag_max_len 0) (b'T' ∷ b'e' ∷ b's' ∷ b't' ∷ []) (tag_max_len - 1);
        file =
            strncpy (replicate file_max_len 0)
              (b't' ∷ b'e' ∷ b's' ∷ b't' ∷ b'.' ∷ b'c' ∷ b'p' ∷ b'p' ∷ []) (file_max_len - 1);
        line = 1;
        msg = replicate msg_max_len 0;
        msg_len = 0;
        enabled = 1;
      })
      0 debug_message

-- The entries that are sent, each made from the one before.
pub test_entries : ℕ → List LogEntry
test_entries pid =
    let first = first_entry pid in
    let second = with_message first 1 info_message in
    let third = with_message second 2 warn_message in
    first ∷ second ∷ third ∷ with_message third 3 error_message ∷ []

-- The calls of `SilogIpcClientSend`, whose answers are not read.
pub send_each :
    (LogEntry → List ℕ) → Agent → List LogEntry → (ℕ → SendCalls) → ℕ → Agent × List Effect
send_each image a [] sends i = (a, [])
send_each image a (e ∷ es) sends i =
    let (code, b, done) = client_send a (image e) (sends i) in
    let (c, more) = send_each image b es sends (i + 1) in (c, done ++ more)

-- What the system answers to `SilogExeSendTestLogs`.
pub record TestCalls : Type 0 where
  pub probe : SocketCalls
  pub client : SocketCalls
  pub sends : ℕ → SendCalls

-- The part of `SilogExeSendTestLogs` after the probe.
pub send_entries : (LogEntry → List ℕ) → ℕ → Agent → TestCalls → ErrorCode × Agent × List Effect
send_entries image pid a os =
    let (code, b, done) = client_init (Ipc.init a unix_dgram) os.client in
    let (c, sent) = send_each image b (test_entries pid) os.sends 0 in
    let (d, ended) = client_close c in
    if is_ok code then (ok, d, done ++ sent ++ ended) else (code, b, done)

-- `SilogExeSendTestLogs`
pub send_test_logs : (LogEntry → List ℕ) → ℕ → Agent → TestCalls → ErrorCode × Agent × List Effect
send_test_logs image pid a os =
    let (running, b, done) = is_running a os.probe in
    let (code, c, more) = send_entries image pid b os in
    if running then (code, c, done ++ more) else (trans_not_init, b, done)

-- A command line, as `main` reads `argv`.
pub data Command : Type 0 where
  missing start_foreground_command start_daemon_command stop status test help unknown : Command

-- The test for the second option.
pub daemon_mode : List (List ℕ) → Bool
daemon_mode [] = false
daemon_mode (option ∷ rest) =
    same_text option (b'-' ∷ b'd' ∷ [])
    || same_text option (b'-' ∷ b'-' ∷ b'd' ∷ b'a' ∷ b'e' ∷ b'm' ∷ b'o' ∷ b'n' ∷ [])

-- How `main` tells the commands apart.
pub command_of : List (List ℕ) → Command
command_of [] = missing
command_of (command ∷ rest) =
    if same_text command (b's' ∷ b't' ∷ b'a' ∷ b'r' ∷ b't' ∷ [])
    then (if daemon_mode rest then start_daemon_command else start_foreground_command)
    else (if same_text command (b's' ∷ b't' ∷ b'o' ∷ b'p' ∷ [])
        then stop
        else (if same_text command (b's' ∷ b't' ∷ b'a' ∷ b't' ∷ b'u' ∷ b's' ∷ [])
            then status
            else (if same_text command (b't' ∷ b'e' ∷ b's' ∷ b't' ∷ [])
                then test
                else (if same_text command (b'-' ∷ b'h' ∷ [])
                      || same_text command (b'-' ∷ b'-' ∷ b'h' ∷ b'e' ∷ b'l' ∷ b'p' ∷ [])
                    then help
                    else unknown))))

-- What the system answers to a run of the program, whatever its command is.
pub record RunCalls : Type 0 where
  pub start : StartDaemonCalls
  pub opens : List ℕ → Bool
  pub foreground : Answers
  pub stop : StopCalls
  pub status : SocketCalls
  pub test : TestCalls

-- What `main` does for a command; a `logEntry_t` has `size` bytes.
pub perform :
    ℕ → (LogEntry → List ℕ) → ℕ → Process → RunCalls → Command → Ending × Process × List Act
perform size image pid m os missing = (exited 1, m, [])
perform size image pid m os start_foreground_command =
    let (ending, m') = start_foreground size m os.opens os.foreground in (ending, m', [])
perform size image pid m os start_daemon_command =
    let (ending, m', done) = start_daemon size m os.start in (ending, m', acts done)
perform size image pid m os stop =
    let (code, m', done) = stop_daemon m os.stop in (returned code, m', done)
perform size image pid m os status =
    let (code, m', shown, done) = show_status m os.status in (returned code, m', acts done)
perform size image pid m os test =
    let (code, a, done) = send_test_logs image pid m.agent os.test in
    (returned code, record m { agent = a }, acts done)
perform size image pid m os help = (exited 0, m, [])
perform size image pid m os unknown = (exited 1, m, [])

-- `main`, with the arguments behind the program's name.
pub main :
    ℕ → (LogEntry → List ℕ) → ℕ → Process → RunCalls → List (List ℕ) → Ending × Process × List Act
main size image pid m os args = perform size image pid m os (command_of args)
