-- ===== src/File/Write.antt =====
-- `SilogFileManagerWriteRaw` of silog_dae/src/silog_file_manager.c: what reaches the file.
use si_log.Base.{
  ℕ, ◌+◌, ◌^◌, ◌%◌, ◌||◌, Bool, if◌then◌else◌, ◌≤◌, ◌<◌, ◌≡◌, ◌⊎◌, ◌∙◌, refl, sym, ap, true, false,
  some, List, [], ◌∷◌, ◌++◌, leb, ◌==◌, length, Bool-cases, inl, inr, arith,
}
use si_log.Base.Word.{add32, add64, sub64}
use mathlib.Core.List.{append-nil}
use si_log.Errors.{ErrorCode, ok, file_open, file_write}
use si_log.File.{
  FileManager, FlushMode, flush_sync, flush_async, Call, write, open_append, RotateCalls,
  rotate_internal, write_data, flush_after, after_rotation, write_raw, current_path, rename_loop,
  leave,
}
use si_log.File.Rotate.{rename_loop-fails}

-- The bytes that the calls write.
abbrev pub written_in : List Call → List ℕ
written_in [] = []
written_in (write bytes ∷ calls) = bytes ++ written_in calls
written_in (other ∷ calls) = written_in calls

-- A rotation writes nothing where it leaves the current file.
pub written_in-leave :
    (m : FileManager) (calls : List Call) → written_in (leave m ++ calls) ≡ written_in calls
written_in-leave m calls = ground arith

rotate_internal-fails :
    (m : FileManager) (os : RotateCalls)
    → ((r : ℕ) → os.rename_ok r ≡ false)
    → (code : ErrorCode) × (m' : FileManager) × (calls : List Call) × (rotate_internal m os
        ≡ some (code, m', calls))
      × (code ≡ (if os.open_append_ok then file_write else file_open))
      × (m'.is_open ≡ os.open_append_ok)
      × (written_in calls ≡ [])
unfolding rotate_internal
rotate_internal-fails m os bad =
    let stuck : leb m.config.rotate_retry_count
          (rename_loop m.config.rotate_retry_count os.rename_ok 0)
        ≡ true =
      ground (arith, rename_loop-fails m.config.rotate_retry_count 0 os.rename_ok bad) in
    elim (Bool-cases os.open_append_ok) [
      | inl good ↦ (
        file_write,
        record m { is_open = true },
        leave m ++ open_append (current_path m.config 512) ∷ [],
        rw (stuck, good) refl,
        rw good refl,
        sym good,
        written_in-leave m _,
      )
      | inr poor ↦ (
        file_open,
        record m { is_open = false },
        leave m,
        rw (stuck, poor) refl,
        rw poor refl,
        sym poor,
        ground arith,
      )
    ]

abbrev IsDue : FileManager → List ℕ → Type 0
IsDue m text = m.config.max_file_size ≤ (m.current_size + length text) % 2 ^ 32

module _ (m : FileManager) (text : List ℕ) (os : RotateCalls) (written now : ℕ)
    (on : m.initialized ≡ true) (opened : m.is_open ≡ true) (some_text : 0 < length text) where
  pub write_raw-due :
      IsDue m text
      → write_raw m (some text) os written now
        ≡ after_rotation (rotate_internal m os) text written now
  unfolding write_raw
  write_raw-due due = ground arith

  pub write_raw-early :
      (m.current_size + length text) % 2 ^ 32 < m.config.max_file_size
      → write_raw m (some text) os written now ≡ some (write_data m text written now)
  unfolding write_raw
  write_raw-early early = ground arith

after_rotation-fails :
    {code : ErrorCode} (m : FileManager) (calls : List Call) (text : List ℕ) (written now : ℕ)
    (again : Bool)
    → code ≡ (if again then file_write else file_open)
    → after_rotation (some (code, m, calls)) text written now ≡ some (code, m, calls)
unfolding after_rotation
after_rotation-fails m calls text written now true e = rw e refl
after_rotation-fails m calls text written now false e = rw e refl

-- If a write of some bytes to the open file of an initialised manager needs a rotation and no `rename` succeeds,
-- `SilogFileManagerWriteRaw` writes none of the bytes. The file is open afterwards exactly if it could be opened again for appending: then the answer is
-- `file_write` and the bytes are lost although the file is open; otherwise it is `file_open`.
pub write_raw-loses :
    (m : FileManager) (text : List ℕ) (os : RotateCalls) (written now : ℕ)
    → m.initialized ≡ true
    → m.is_open ≡ true
    → 0 < length text
    → m.config.max_file_size ≤ (m.current_size + length text) % 2 ^ 32
    → ((r : ℕ) → os.rename_ok r ≡ false)
    → (code : ErrorCode) × (m' : FileManager) × (calls : List Call) × (write_raw m
          (some text)
          os
          written
          now
        ≡ some (code, m', calls))
      × (code ≡ (if os.open_append_ok then file_write else file_open))
      × (m'.is_open ≡ os.open_append_ok)
      × (written_in calls ≡ [])
write_raw-loses m text os written now on opened some_text due bad =
    let (code, m', calls, rotated, which, reopened, nothing) = rotate_internal-fails m os bad in
    (
      code,
      m',
      calls,
      write_raw-due m text os written now on opened some_text due
          ∙ (ap (λ r. after_rotation r text written now) rotated
              ∙ after_rotation-fails m' calls text written now os.open_append_ok which),
      which,
      reopened,
      nothing,
    )

mode_cases : (f : FlushMode) → (f ≡ flush_sync) ⊎ (f ≡ flush_async)
mode_cases flush_sync = inl refl
mode_cases flush_async = inr refl

-- What the flushing does: nothing is written, the size stays, and the bytes not flushed are bounded.
flush_after-bounded :
    (m : FileManager) (len now : ℕ)
    → ((flush_after m len now).0.current_size ≡ m.current_size)
      × (written_in (flush_after m len now).1 ≡ [])
      × (((flush_after m len now).0.async_buffer_size ≡ 0)
          ⊎ ((flush_after m len now).0.async_buffer_size < m.config.async_flush_size))
unfolding flush_after
flush_after-bounded m len now = elim (mode_cases m.config.flush_mode) [
  | inl sync ↦ rw sync (refl, refl, inl refl)
  | inr async ↦
      elim (Bool-cases (
        leb m.config.async_flush_size (add64 m.async_buffer_size len)
        || leb m.config.async_flush_interval_ms (sub64 now m.last_flush_time_ms))) [
          | inl due ↦ rw (async, due) (refl, refl, inl refl)
          | inr early ↦ rw (async, early) (refl, refl, inr (ground arith))
        ]
]

pub write_data-kept :
    (m : FileManager) (text : List ℕ) (now : ℕ)
    → ((write_data m text (length text) now).0 ≡ ok)
      × ((write_data m text (length text) now).1.current_size
          ≡ (m.current_size + length text) % 2 ^ 32)
      × (written_in (write_data m text (length text) now).2 ≡ text)
      × (((write_data m text (length text) now).1.async_buffer_size ≡ 0)
          ⊎ ((write_data m text (length text) now).1.async_buffer_size < m.config.async_flush_size))
unfolding write_data
write_data-kept m text now =
    let grown = record m { current_size = add32 m.current_size (length text) } in
    let (size, nothing, bounded) = flush_after-bounded grown (length text) now in
    let all : (length text == length text) ≡ true = ground arith in
    rw all (refl, size, ap (λ l. text ++ l) nothing ∙ append-nil text, bounded)

-- A write without a rotation keeps the settings and the file open.
pub write_data-same :
    (m : FileManager) (text : List ℕ) (written now : ℕ)
    → ((write_data m text written now).1.config ≡ m.config)
      × ((write_data m text written now).1.initialized ≡ m.initialized)
      × ((write_data m text written now).1.is_open ≡ m.is_open)
unfolding write_data flush_after
write_data-same m text written now = ground arith
