-- ===== src/File/Config/Join.antt =====
-- The compression thread of silog_dae/src/silog_file_manager.c: when `SilogFileManagerDeinit` joins a thread that is there.
use si_log.Base.{
  ◌≡◌, ◌⊎◌, ◌∙◌, refl, sym, true, false, Option, none, some, List, ◌∷◌, not, if_holds, Bool-cases,
  inl, inr,
}
use si_log.Errors.{ErrorCode, thread_create, is_ok}
use si_log.Mpsc
use si_log.File.{FileConfig, FileManager, Call, open_append, current_path}
use si_log.File.Config.{
  StartCalls, task_size, queue_size, start_thread, init_with_config, init, default_config,
  ensure_dir, size_found, deinit,
}

-- No file is open, and no compression thread is there or was joined without being there.
pub record IsShut (m : FileManager) : Type 0 where
  pub not_ready : m.initialized ≡ false
  pub closed : m.is_open ≡ false
  pub not_running : m.compress_thread_running ≡ false
  pub no_thread : m.has_compress_thread ≡ false
  pub defined : m.bad_join ≡ false

-- The flag says whether the thread is there.
pub record IsSteady (m : FileManager) : Type 0 where
  pub same : m.compress_thread_running ≡ m.has_compress_thread
  pub defined : m.bad_join ≡ false

-- The flag is set, but the thread is not there.
pub record IsMissing (m : FileManager) : Type 0 where
  pub running : m.compress_thread_running ≡ true
  pub no_thread : m.has_compress_thread ≡ false

IsSteady-IsShut : (m : FileManager) → IsShut m → IsSteady m
IsSteady-IsShut m h = record { same = h.not_running ∙ sym h.no_thread; defined = h.defined }

pub deinit-IsShut : (m : FileManager) → IsSteady m → IsShut (deinit m).0
unfolding deinit
deinit-IsShut m h = elim (Bool-cases m.compress_thread_running) [
  | inl runs ↦
      rw (runs, sym h.same ∙ runs)
        (record {
          not_ready = refl;
          closed = refl;
          not_running = refl;
          no_thread = refl;
          defined = h.defined;
        })
  | inr ended ↦ rw ended (record {
    not_ready = refl;
    closed = refl;
    not_running = refl;
    no_thread = sym h.same ∙ ended;
    defined = h.defined;
  })
]

pub deinit-bad_join : (m : FileManager) → IsMissing m → (deinit m).0.bad_join ≡ true
unfolding deinit
deinit-bad_join m h = rw (h.running, h.no_thread) refl

-- What the initialisation leaves: the flag right, or `thread_create` with the thread missing.
abbrev pub Started : StartCalls → ErrorCode × FileManager × List Call → Type 0
Started os (code, m, calls) =
    IsSteady m ⊎ ((code ≡ thread_create) × (os.thread_ok ≡ false) × IsMissing m)

start_thread-Started :
    (m : FileManager) (os : StartCalls)
    → m.compress_thread_running ≡ false
    → m.has_compress_thread ≡ false
    → m.bad_join ≡ false
    → Started os (start_thread m os)
unfolding start_thread
start_thread-Started m os off none_left fine =
    let made = Mpsc.init os.malloc os.malloc_seq (some m.compress_queue) task_size queue_size in
    if_holds (Started os) (is_ok made.0) _ _
      (λ good.
        if_holds (Started os) os.thread_ok _ _
          (λ created. inl (record { same = refl; defined = fine }))
          (λ failed. inr (refl, failed, record { running = refl; no_thread = none_left })))
      (λ bad. inl (record { same = off ∙ sym none_left; defined = fine }))

init_with_config-Started :
    (m : FileManager) (config : FileConfig) (os : StartCalls)
    → IsShut m
    → Started os (init_with_config m (some config) os)
unfolding init_with_config
init_with_config-Started m config os h =
    let m' = record m { config = config } in
    let opened = record m' { is_open = true; current_size = size_found os.stat_size } in
    let r = start_thread opened os in
    let found = ensure_dir os.dir in
    let steady = IsSteady-IsShut m h in
    let started : Started os (r.0, r.1, open_append (current_path config 512) ∷ r.2) =
      start_thread-Started opened os h.not_running h.no_thread h.defined in
    let kept : IsSteady m' = record { same = steady.same; defined = steady.defined } in
    if_holds (Started os) m.initialized _ _ (λ e. inl steady)
      (λ e.
        if_holds (Started os) (not (is_ok found)) _ _ (λ e'. inl kept)
          (λ e'.
            if_holds (Started os) (not os.open_ok) _ _
              (λ e''. inl (record { same = steady.same; defined = steady.defined }))
              (λ e''. started)))

-- `SilogFileManagerInit`, with the settings given or not.
pub init-Started :
    (m : FileManager) (config : Option FileConfig) (os : StartCalls)
    → IsShut m
    → Started os (init m config os)
unfolding init
init-Started m none os h = init_with_config-Started m default_config os h
init-Started m (some config) os h = init_with_config-Started m config os h

-- Where the directory is there, the file opens and the queue gets its memory, but the compression thread cannot be
-- created, `SilogFileManagerDeinit` after `SilogFileManagerInitWithConfig` joins the thread that is not there.
deinit-init_with_config-bad_join :
    (m : FileManager) (config : FileConfig) (os : StartCalls)
    → IsShut m
    → is_ok (ensure_dir os.dir) ≡ true
    → os.open_ok ≡ true
    → is_ok (Mpsc.init os.malloc os.malloc_seq (some m.compress_queue) task_size queue_size).0
      ≡ true
    → os.thread_ok ≡ false
    → (deinit (init_with_config m (some config) os).1).0.bad_join ≡ true
unfolding init_with_config start_thread
deinit-init_with_config-bad_join m config os h found opened made failed =
    deinit-bad_join (init_with_config m (some config) os).1 (
      rw (h.not_ready, found, opened, made, failed)
        (record { running = refl; no_thread = h.no_thread }))
