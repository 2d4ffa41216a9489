-- ===== src/File/Config.antt =====
-- The start and the end of the file manager of silog_dae/src/silog_file_manager.c. A
-- printing with `snprintf_s` into a buffer of n bytes keeps the first n - 1 of the text and succeeds,
-- unless `vsnprintf` fails.
pub mod Thread
pub mod Compress
pub mod Join
use si_log.Base.{
  ℕ, zero, suc, ◌++◌, ◌*◌, ◌^◌, ◌%◌, ◌≡◌, Bool, true, false, not, Option, none, some, List, [], ◌∷◌,
  take, if◌then◌else◌, refl, arith, Bool-cases, inl, inr,
}
use si_log.Errors.{ErrorCode, ok, invalid_arg, busy, file_open, thread_create, str_err, is_ok}
use si_log.Mpsc.{MpscQueue}
use si_log.Mpsc
use si_log.File.{
  FileConfig, FileManager, FlushMode, flush_async, CompressMode, compress_async, Call, open_append,
  flush, close, gzip, do_compress, current_path,
}

-- `SilogFileManagerGetDefaultConfig`
abbrev pub default_config : FileConfig
default_config = record {
  log_dir = b'/' ∷ b't' ∷ b'm' ∷ b'p' ∷ b'/' ∷ b's' ∷ b'i' ∷ b'l' ∷ b'o' ∷ b'g' ∷ [];
  log_file_base = b's' ∷ b'i' ∷ b'l' ∷ b'o' ∷ b'g' ∷ [];
  max_file_size = 10 * 1024 * 1024;
  max_file_count = 10;
  enable_compression = true;
  compress_mode = compress_async;
  flush_mode = flush_async;
  async_flush_interval_ms = 1000;
  async_flush_size = 4 * 1024;
  rotate_retry_count = 3;
  rotate_retry_delay_ms = 100;
}

-- What the system answers about the directory: to `stat`, whether it is one, and whether `mkdir` makes it or finds it
-- there.
pub record DirCalls : Type 0 where
  pub stat : Option Bool
  pub made : Bool

-- `SilogFileManagerEnsureDir`
pub ensure_dir : DirCalls → ErrorCode
ensure_dir os = elim os.stat [
  | some is_dir ↦ if is_dir then ok else file_open
  | none ↦ if not os.made then file_open else ok
]

-- What the system answers during the initialisation: about the directory, whether
-- `fopen` succeeds, the size that `stat` finds, the memory for the queue, whether the thread starts, and
-- the time.
pub record StartCalls : Type 0 where
  pub dir : DirCalls
  pub open_ok : Bool
  pub stat_size : Option ℕ
  pub malloc : ℕ → Option (ℕ → List ℕ)
  pub malloc_seq : ℕ → Option (ℕ → ℕ)
  pub thread_ok : Bool
  pub now : ℕ

-- `sizeof(CompressTask)`
abbrev pub task_size : ℕ
task_size = 512

-- `COMPRESS_QUEUE_SIZE`
abbrev pub queue_size : ℕ
queue_size = 64

-- The queue behind a pointer that is not NULL.
abbrev queue_or : MpscQueue (List ℕ) → Option (MpscQueue (List ℕ)) → MpscQueue (List ℕ)
queue_or q none = q
queue_or q (some q') = q'

-- The end of `SilogFileManagerInitWithConfig`, with the file open.
pub start_thread : FileManager → StartCalls → ErrorCode × FileManager × List Call
start_thread m os =
    let (code, queue) =
      Mpsc.init os.malloc os.malloc_seq (some m.compress_queue) task_size queue_size in
    let m' = record m { compress_queue = queue_or m.compress_queue queue } in
    if is_ok code
    then (if os.thread_ok
        then (
          ok,
          record m' {
            compress_thread_running = true;
            has_compress_thread = true;
            async_buffer_size = 0;
            last_flush_time_ms = os.now;
            initialized = true;
          },
          [],
        )
        else (
          thread_create,
          record m' {
            compress_queue = queue_or m'.compress_queue (Mpsc.destroy (some m'.compress_queue));
            is_open = false;
            compress_thread_running = true;
          },
          close ∷ [],
        ))
    else (code, record m' { is_open = false }, close ∷ [])

abbrev pub size_found : Option ℕ → ℕ
size_found none = 0
size_found (some n) = n % 2 ^ 32

-- `SilogFileManagerInitWithConfig`
pub init_with_config :
    FileManager → Option FileConfig → StartCalls → ErrorCode × FileManager × List Call
init_with_config m none os = (invalid_arg, m, [])
init_with_config m (some config) os =
    let m' = record m { config = config } in
    let found = ensure_dir os.dir in
    let (code, started, calls) =
      start_thread (record m' { is_open = true; current_size = size_found os.stat_size }) os in
    if m.initialized
    then (ok, m, [])
    else (if not (is_ok found)
        then (found, m', [])
        else (if not os.open_ok
            then (file_open, record m' { is_open = false }, [])
            else (code, started, open_append (current_path config 512) ∷ calls)))

-- `SilogFileManagerInit`
pub init : FileManager → Option FileConfig → StartCalls → ErrorCode × FileManager × List Call
init m none os = init_with_config m (some default_config) os
init m (some config) os = init_with_config m (some config) os

-- What the answer of `SilogMpscQueuePop` leads to.
pub compress_popped :
    MpscQueue (List ℕ)
    → ErrorCode × Option (List ℕ) × Option (MpscQueue (List ℕ))
    → MpscQueue (List ℕ) × List Call
compress_popped q (code, none, rest) = (queue_or q rest, [])
compress_popped q (code, some path, rest) =
    (queue_or q rest, if is_ok code then do_compress path else [])

-- A round of the first loop of `SilogFileManagerCompressThread`.
pub compress_round : MpscQueue (List ℕ) → MpscQueue (List ℕ) × List Call
compress_round q = compress_popped q (Mpsc.pop (some q) true)

-- A round of the last loop of that function, before its later rounds.
abbrev pub drain_popped :
    MpscQueue (List ℕ)
    → Option (List ℕ)
    → MpscQueue (List ℕ) × List Call
    → MpscQueue (List ℕ) × List Call
drain_popped q none later = (q, [])
drain_popped q (some path) (q', calls) = (q', do_compress path ++ calls)

-- The last loop of `SilogFileManagerCompressThread`, which compresses what is left in the queue; the
-- file manager is closed, and nothing is pushed. The fuel is the capacity of the queue.
pub drain : ℕ → MpscQueue (List ℕ) → MpscQueue (List ℕ) × List Call
drain zero q = (q, [])
drain (suc fuel) q =
    let (code, task, rest) = Mpsc.pop (some q) true in
    drain_popped q task (drain fuel (queue_or q rest))

-- `SilogFileManagerDeinit`. Where the flag of the compression thread is set, the thread is joined: if it is there, it
-- has compressed what was left; if it was never created, the join is undefined, which is recorded.
pub deinit : FileManager → FileManager × List Call
deinit m =
    let closing = if m.is_open then flush ∷ close ∷ [] else [] in
    let closed = record m {
      is_open = false;
      initialized = false;
      compress_thread_running = false;
    } in
    let (q, calls) = drain m.compress_queue.capacity m.compress_queue in
    if m.compress_thread_running
    then (if m.has_compress_thread
        then (
          record closed {
            has_compress_thread = false;
            compress_queue = queue_or q (Mpsc.destroy (some q));
          },
          closing ++ calls,
        )
        else (
          record closed {
            bad_join = true;
            compress_queue = queue_or m.compress_queue (Mpsc.destroy (some m.compress_queue));
          },
          closing,
        ))
    else (closed, closing)
