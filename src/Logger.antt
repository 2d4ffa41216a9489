-- ===== src/Logger.antt =====
-- silog_logger/src/silog_logger.c: what a program's call of `silogLog` does, and the thread that sends. What the C
-- library formats and how a `logEntry_t` lies in memory are parameters.
pub mod Build
pub mod Enqueue
mod Tests
use si_log.Base.{
  ℕ, ◌-◌, ◌%◌, ◌^◌, Bool, true, false, not, Option, none, some, List, [], ◌∷◌, ◌++◌, ltb, leb,
  if◌then◌else◌, length, take, replicate,
}
use si_log.Base.Int.{ℤ, pos, negsuc}
use si_log.Errors.{ErrorCode, ok, str_err, is_ok, thread_create}
use si_log.Entry.{LogEntry, tag_max_len, file_max_len, msg_max_len}
use si_log.Mpsc
use si_log.Mpsc.{MpscQueue, push, pop}
use si_log.Ipc
use si_log.Ipc.{Agent, SocketCalls, SendCalls, Effect, unix_dgram, client_init, client_send}
use si_log.Securec.Format.{snprintf_s, vsnprintf}
use si_log.Time.{Timespec, get_now_ms}

-- `logEntryManager_t`, with the state of the local socket. `once` says that `initOnce` is used up.
pub record LogManager : Type 0 where
  pub min_level : ℕ
  pub once : Bool
  pub init_success : Bool
  pub log_queue : Option (MpscQueue LogEntry)
  pub agent : Agent

-- `silogSetLevel`
pub set_level : LogManager → ℕ → LogManager
set_level m level = record m { min_level = level }

-- `silogCheckLevel`
pub check_level : LogManager → ℕ → Bool
check_level m level = leb m.min_level level

-- What the system answers while an entry is built: the text of the message, `none` where `vsnprintf` fails, the
-- clock, the numbers of process and thread, and whether the tag and the file's name can be formatted.
pub record BuildCalls : Type 0 where
  pub message : Option (List ℕ)
  pub clock : Option Timespec
  pub pid : ℕ
  pub tid : ℕ
  pub tag_ok : Bool
  pub file_ok : Bool

-- A text for "%s".
abbrev pub printed : Bool → List ℕ → Option (List ℕ)
printed good s = if good then some s else none

-- The array after a `snprintf_s` that did not fail.
pub stored : ℤ × Option (List ℕ) → Option (List ℕ)
stored (negsuc k, left) = none
stored (pos k, left) = left

-- A zeroed array of `n` bytes that `snprintf_s(array, n, n - 1, "%s", s)` fills; `none` if it fails.
pub store_text : ℕ → Bool → List ℕ → Option (List ℕ)
store_text n good s = stored (snprintf_s (some (replicate n 0)) n (n - 1) true (printed good s))

-- The entry of a message and of the two texts, if they could be formatted.
pub assemble :
    ℕ
    → ℕ
    → BuildCalls
    → Option (List ℕ)
    → Option (List ℕ)
    → Option (List ℕ)
    → ErrorCode × Option LogEntry
assemble level line os (some output) (some tag) (some file) = (
  ok,
  some (record {
    ts = get_now_ms os.clock;
    pid = os.pid;
    tid = os.tid;
    level = level;
    tag = tag;
    file = file;
    line = line;
    msg = vsnprintf (replicate msg_max_len 0) msg_max_len output;
    msg_len = length output % 2 ^ 16;
    enabled = 1;
  }),
)
assemble level line os message tag file = (str_err, none)

-- `silogBuildEntry`. An entry that could not be built is not used.
pub build_entry : ℕ → List ℕ → List ℕ → ℕ → BuildCalls → ErrorCode × Option LogEntry
build_entry level tag file line os =
    assemble level line os os.message (store_text tag_max_len os.tag_ok tag)
      (store_text file_max_len os.file_ok file)

-- What the system answers to `silogEntryMngInit`.
pub record MngCalls : Type 0 where
  pub malloc : ℕ → Option (ℕ → LogEntry)
  pub malloc_seq : ℕ → Option (ℕ → ℕ)
  pub socket : SocketCalls
  pub thread_ok : Bool

-- `silogEntrySendTaskInit`
pub send_task_init : LogManager → MngCalls → ErrorCode × LogManager × List Effect
send_task_init m os =
    let (code, agent, done) = client_init (Ipc.init m.agent unix_dgram) os.socket in
    let m' = record m { agent = agent } in
    if not (is_ok code)
    then (code, m', done)
    else (if os.thread_ok then (ok, m', done) else (thread_create, m', done))

-- `silogEntryMngInit`; an entry has `size` bytes.
pub mng_init : ℕ → LogManager → MngCalls → LogManager × List Effect
mng_init size m os =
    let (code, queue) = Mpsc.init os.malloc os.malloc_seq m.log_queue size 1024 in
    let m' = record m { log_queue = queue } in
    let (code', started, done) = send_task_init m' os in
    if not (is_ok code)
    then (m', [])
    else (if is_ok code' then (record started { init_success = true }, done) else (started, done))

-- `pthread_once`
pub init_once : ℕ → LogManager → MngCalls → LogManager × List Effect
init_once size m os =
    let (m', done) = mng_init size m os in
    if m.once then (m, []) else (record m' { once = true }, done)

-- The queue that a push leaves; the code is only reported.
pub after_push : LogManager → Option (ErrorCode × Option (MpscQueue LogEntry)) → Option LogManager
after_push m none = none
after_push m (some (code, queue)) = some (record m { log_queue = queue })

-- The push in `silogLog`, if there is an entry.
pub push_built : LogManager → ErrorCode × Option LogEntry → Option LogManager
push_built m (code, none) = some m
push_built m (code, some e) =
    if is_ok code then after_push m (push m.log_queue (some e)) else some m

-- The rest of `silogLog` after `pthread_once`; `built` is what `silogBuildEntry` answers.
pub after_once : LogManager → ℕ → ErrorCode × Option LogEntry → Option LogManager
after_once m level built =
    if not m.init_success
    then some m
    else (if not (check_level m level) then some m else push_built m built)

-- `silogLog`; `none` if the push does not return.
pub silog_log : ℕ → LogManager → ℕ → List ℕ → List ℕ → ℕ → MngCalls → BuildCalls → Option LogManager
silog_log size m level tag file line os build =
    after_once (init_once size m os).0 level (build_entry level tag file line build)

-- What the sending thread does with the answer of `SilogMpscQueuePop`; `image` gives an entry's bytes.
pub after_pop :
    (LogEntry → List ℕ)
    → LogManager
    → SendCalls
    → ErrorCode × Option LogEntry × Option (MpscQueue LogEntry)
    → LogManager × List Effect
after_pop image m os (code, none, queue) = (m, [])
after_pop image m os (code, some e, queue) =
    let (code', agent, done) = client_send m.agent (image e) os in
    (record m { log_queue = queue; agent = agent }, done)

-- One round of `silogEntrySendHandle`.
pub send_round : (LogEntry → List ℕ) → LogManager → SendCalls → LogManager × List Effect
send_round image m os = after_pop image m os (pop m.log_queue true)
