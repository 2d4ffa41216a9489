-- ===== src/File.antt =====
-- silog_dae/src/silog_file_manager.c and silog_dae/include/silog_file_manager.h: the manager of the log
-- file, for a caller that holds its lock. What the system calls answer is a parameter; each operation
-- also returns the calls that it makes on files. A path is its bytes; `snprintf_s` of a path of the
-- manager fits its buffer. The texts of the numbers of a time are parameters.
pub mod Rotate
pub mod Write
pub mod Size
pub mod Config
pub mod Settings
mod Tests
use si_log.Base.{
  ℕ, zero, suc, ◌+◌, ◌-◌, ◌*◌, Bool, true, false, not, Option, none, some, List, [], ◌∷◌, ◌++◌, ltb,
  leb, ◌==◌, ◌&&◌, ◌||◌, if◌then◌else◌, length, take,
}
use si_log.Base.Word.{add32, sub64, add64}
use si_log.Errors.{
  ErrorCode, ok, invalid_arg, busy, file_open, file_write, thread_create, str_err,
  file_manager_not_init,
}
use si_log.Mpsc.{MpscQueue}
use si_log.Mpsc

-- `SilogFlushMode`
pub data FlushMode : Type 0 where
  flush_sync flush_async : FlushMode

-- `SilogCompressMode`
pub data CompressMode : Type 0 where
  compress_sync compress_async : CompressMode

-- `SilogLogFileConfig`
pub record FileConfig : Type 0 where
  pub log_dir : List ℕ
  pub log_file_base : List ℕ
  pub max_file_size : ℕ
  pub max_file_count : ℕ
  pub enable_compression : Bool
  pub compress_mode : CompressMode
  pub flush_mode : FlushMode
  pub async_flush_interval_ms : ℕ
  pub async_flush_size : ℕ
  pub rotate_retry_count : ℕ
  pub rotate_retry_delay_ms : ℕ

-- `SilogFileManager`, without its lock; `is_open` says that `currentFd` is not NULL. The tasks of the
-- compression queue are paths. `has_compress_thread` says that the compression thread was created and not joined
-- since, `bad_join` that a thread that was not there was joined, which is undefined.
pub record FileManager : Type 0 where
  pub config : FileConfig
  pub is_open : Bool
  pub current_size : ℕ
  pub async_buffer_size : ℕ
  pub last_flush_time_ms : ℕ
  pub initialized : Bool
  pub compress_queue : MpscQueue (List ℕ)
  pub compress_thread_running : Bool
  pub has_compress_thread : Bool
  pub bad_join : Bool

-- A call on files: `fopen` with mode "a" or "w", `fwrite`, `fflush`, `fclose`, `rename`, and the `gzip` of
-- a file.
pub data Call : Type 0 where
  open_append open_new : List ℕ → Call
  write : List ℕ → Call
  flush close : Call
  rename : List ℕ → List ℕ → Call
  gzip : List ℕ → Call

-- `SilogFileManagerGetCurrentPath` into a buffer of `len` bytes.
pub current_path : FileConfig → ℕ → List ℕ
current_path config len =
    take (len - 1) (config.log_dir ++ b'/' ∷ config.log_file_base ++ b'.' ∷ b'l' ∷ b'o' ∷ b'g' ∷ [])

-- The name that a rotation tries in round `seq`.
pub history_path : FileConfig → List ℕ → ℕ → List ℕ
history_path config timestamp seq =
    config.log_dir
    ++ b'/' ∷ config.log_file_base
    ++ b'_' ∷ timestamp
    ++ (if seq == 0 then [] else b'_' ∷ (b'0' + seq) ∷ [])
    ++ b'.' ∷ b'l' ∷ b'o' ∷ b'g' ∷ []

-- The loop of `SilogFileManagerRotateInternal` that looks for a free name: the last name tried, from
-- round `seq` on. The fuel is `MAX_SEQ_RETRY_COUNT - seq`.
pub free_seq : ℕ → (ℕ → Bool) → ℕ → ℕ
free_seq zero exists seq = seq - 1
free_seq (suc fuel) exists seq =
    let rest = free_seq fuel exists (seq + 1) in if exists seq then rest else seq

-- The loop that renames: `retry` at its end. The fuel is `rotateRetryCount - retry`.
pub rename_loop : ℕ → (ℕ → Bool) → ℕ → ℕ
rename_loop zero rename_ok retry = retry
rename_loop (suc fuel) rename_ok retry =
    let rest = rename_loop fuel rename_ok (retry + 1) in if rename_ok retry then retry else rest

-- `SilogFileManagerFormatTimestamp` into a buffer of 32 bytes: the text that `strftime` made, and that of "_%03u" for the
-- milliseconds, `none` where `vsnprintf` fails.
pub format_timestamp : List ℕ → Option (List ℕ) → List ℕ
format_timestamp date none = date
format_timestamp date (some millis) = date ++ take (32 - length date - 1) millis

-- `SilogFileManagerDoCompress`, whose command fits its buffer; what `system` answers does not count.
abbrev pub do_compress : List ℕ → List Call
do_compress path = gzip path ∷ []

-- The answer of `SilogMpscQueuePush`, whose code is not read.
pub queued :
    FileManager
    → Option (ErrorCode × Option (MpscQueue (List ℕ)))
    → Option (FileManager × List Call)
queued m none = none
queued m (some (code, none)) = some (m, [])
queued m (some (code, some q)) = some (record m { compress_queue = q }, [])

-- The two modes of `SilogFileManagerCompressFile`.
pub submit : CompressMode → FileManager → List ℕ → Option (FileManager × List Call)
submit compress_sync m path = some (m, do_compress path)
submit compress_async m path = queued m (Mpsc.push (some m.compress_queue) (some path))

-- `SilogFileManagerCompressFile`; `none` if the push does not return.
pub compress_file : FileManager → List ℕ → Option (FileManager × List Call)
compress_file m path =
    if not m.config.enable_compression then some (m, []) else submit m.config.compress_mode m path

-- What the system answers during a rotation: the texts of the time, whether the names exist, the results of
-- `rename` and whether `fopen` succeeds.
pub record RotateCalls : Type 0 where
  pub date : List ℕ
  pub millis : Option (List ℕ)
  pub exists : ℕ → Bool
  pub rename_ok : ℕ → Bool
  pub open_append_ok : Bool
  pub open_new_ok : Bool

-- The calls with which a rotation leaves the current file.
abbrev pub leave : FileManager → List Call
leave m = if m.is_open then flush ∷ close ∷ [] else []

-- `SilogFileManagerRotateInternal` up to the cleaning of old files, whose answer it does not read.
pub rotate_internal : FileManager → RotateCalls → Option (ErrorCode × FileManager × List Call)
rotate_internal m os =
    let current = current_path m.config 512 in
    let history =
      history_path m.config (format_timestamp os.date os.millis) (free_seq 10 os.exists 0) in
    let retry = rename_loop m.config.rotate_retry_count os.rename_ok 0 in
    let closed = record m { is_open = false } in
    if leb m.config.rotate_retry_count retry
    then (if os.open_append_ok
        then some (file_write, record m { is_open = true }, leave m ++ open_append current ∷ [])
        else some (file_open, closed, leave m))
    else (if os.open_new_ok
        then elim (compress_file
            (record m { is_open = true; current_size = 0; async_buffer_size = 0 }) history) [
              | none ↦ none
              | some (m', calls) ↦
                  some (ok, m', leave m ++ rename current history ∷ open_new current ∷ calls)
            ]
        else some (file_open, closed, leave m ++ rename current history ∷ []))

-- `SilogFileManagerRotate`
pub rotate : FileManager → RotateCalls → Option (ErrorCode × FileManager × List Call)
rotate m os =
    if not m.initialized then some (file_manager_not_init, m, []) else rotate_internal m os

-- The flushing at the end of `SilogFileManagerWriteRaw`, after the bytes were written.
pub flush_after : FileManager → ℕ → ℕ → FileManager × List Call
flush_after m len now = elim m.config.flush_mode [
  | flush_sync ↦ (record m { async_buffer_size = 0 }, flush ∷ [])
  | flush_async ↦
      let buffered = add64 m.async_buffer_size len in
      if leb m.config.async_flush_size buffered
        || leb m.config.async_flush_interval_ms (sub64 now m.last_flush_time_ms)
      then (record m { async_buffer_size = 0; last_flush_time_ms = now }, flush ∷ [])
      else (record m { async_buffer_size = buffered }, [])
]

-- The writing in `SilogFileManagerWriteRaw`, where `fwrite` takes the first `written` bytes.
pub write_data : FileManager → List ℕ → ℕ → ℕ → ErrorCode × FileManager × List Call
write_data m text written now =
    let grown = record m { current_size = add32 m.current_size (length text) } in
    let (m', calls) = flush_after grown (length text) now in
    if not (written == length text)
    then (file_write, m, write (take written text) ∷ [])
    else (ok, m', write text ∷ calls)

-- The rest of `SilogFileManagerWriteRaw` after a rotation with a result.
pub after_rotation :
    Option (ErrorCode × FileManager × List Call)
    → List ℕ
    → ℕ
    → ℕ
    → Option (ErrorCode × FileManager × List Call)
after_rotation none text written now = none
after_rotation (some (ok, m, calls)) text written now =
    let (code, m', calls') = write_data m text written now in some (code, m', calls ++ calls')
after_rotation (some (code, m, calls)) text written now = some (code, m, calls)

-- `SilogFileManagerWriteRaw`, of a buffer that is `none` for NULL; `none` if it does not return.
pub write_raw :
    FileManager
    → Option (List ℕ)
    → RotateCalls
    → ℕ
    → ℕ
    → Option (ErrorCode × FileManager × List Call)
write_raw m none os written now = some (invalid_arg, m, [])
write_raw m (some text) os written now =
    if length text == 0
    then some (invalid_arg, m, [])
    else (if not m.initialized || not m.is_open
        then some (file_manager_not_init, m, [])
        else (if leb m.config.max_file_size (add32 m.current_size (length text))
            then after_rotation (rotate_internal m os) text written now
            else some (write_data m text written now)))

-- `SilogFileManagerFlush`
pub flush_file : FileManager → ℕ → FileManager × List Call
flush_file m now =
    if m.is_open
    then (record m { async_buffer_size = 0; last_flush_time_ms = now }, flush ∷ [])
    else (m, [])

-- `SilogFileManagerGetCurrentSize`
pub get_current_size : FileManager → ℕ
get_current_size m = m.current_size

-- `SilogFileManagerGetCurrentFilePath`: the code and the path written.
pub get_current_file_path : FileManager → Bool → ℕ → ErrorCode × Option (List ℕ)
get_current_file_path m has_path len =
    if not has_path || len == 0 then (invalid_arg, none) else (ok, some (current_path m.config len))
