-- ===== src/File/Size.antt =====
-- `SilogFileManagerWriteRaw` of silog_dae/src/silog_file_manager.c: the size of the file.
use si_log.Base.{
  ℕ, ◌+◌, ◌^◌, ◌≤◌, ◌<◌, ◌≡◌, subst, ◌⊎◌, ◌∙◌, refl, sym, ap, Bool, true, false, not, Option, none,
  some, List, [], ◌∷◌, ◌++◌, leb, if◌then◌else◌, length, dec_lt, arith,
}
use mathlib.Core.List.{append_assoc}
use si_log.Errors.{ErrorCode, ok}
use si_log.Mpsc.{MpscQueue}
use si_log.File.{
  FileManager, FileConfig, CompressMode, compress_sync, compress_async, Call, gzip, open_new,
  open_append, write, flush, close, rename, RotateCalls, rotate_internal, write_data,
  after_rotation, write_raw, queued, submit, current_path, history_path, format_timestamp, free_seq,
  rename_loop, compress_file, leave,
}
use si_log.File.Rotate.{rename_loop-first}
use si_log.File.Write.{
  written_in, written_in-leave, write_raw-due, write_raw-early, write_data-kept,
}

-- The manager after a rotation, before the compression.
abbrev pub reset : FileManager → FileManager
reset m = record m { is_open = true; current_size = 0; async_buffer_size = 0 }

-- The name that the rotation gives to the old file.
abbrev pub history_of : FileManager → RotateCalls → List ℕ
history_of m os =
    history_path m.config (format_timestamp os.date os.millis) (free_seq 10 os.exists 0)

module _ (m : FileManager) (os : RotateCalls) (first : ℕ) {m' : FileManager} {calls : List Call}
    (early : first < m.config.rotate_retry_count) (renamed : os.rename_ok first ≡ true)
    (opened : os.open_new_ok ≡ true)
    (compressed : compress_file (reset m) (history_of m os) ≡ some (m', calls)) where
  rotate_internal-succeeds :
      rotate_internal m os
      ≡ some (
        ok,
        m',
        leave m
            ++ rename (current_path m.config 512) (history_of m os)
              ∷ open_new (current_path m.config 512)
              ∷ calls,
      )
  unfolding rotate_internal
  rotate_internal-succeeds =
      let good : leb m.config.rotate_retry_count
            (rename_loop m.config.rotate_retry_count os.rename_ok 0)
          ≡ false =
        ground (
          arith,
          rename_loop-first m.config.rotate_retry_count 0 first os.rename_ok (omega arith)
              (omega arith) renamed,
        ) in
      rw (good, opened, compressed) refl

abbrev Kept : FileManager → FileManager × List Call → Type 0
Kept m r = (r.0.current_size ≡ m.current_size) × (r.0.config ≡ m.config) × (written_in r.1 ≡ [])

-- What a result has if it is one.
abbrev IfSome : {A : Type 0} → (A → Type 0) → Option A → Type 0
IfSome P none = Unit
IfSome P (some a) = P a

queued-Kept :
    (m : FileManager) (answer : Option (ErrorCode × Option (MpscQueue (List ℕ))))
    → IfSome (Kept m) (queued m answer)
unfolding queued
queued-Kept m none = tt
queued-Kept m (some (code, none)) = (refl, refl, refl)
queued-Kept m (some (code, some q)) = (refl, refl, refl)

submit-Kept :
    (mode : CompressMode) (m : FileManager) (path : List ℕ) → IfSome (Kept m) (submit mode m path)
unfolding submit
submit-Kept compress_sync m path = (refl, refl, refl)
submit-Kept compress_async m path = queued-Kept m _

IfSome-if :
    {A : Type 0} (P : A → Type 0) (b : Bool) (x y : Option A)
    → IfSome P x
    → IfSome P y
    → IfSome P (if b then x else y)
IfSome-if P true x y p q = p
IfSome-if P false x y p q = q

compress_file-Kept : (m : FileManager) (path : List ℕ) → IfSome (Kept m) (compress_file m path)
unfolding compress_file
compress_file-Kept m path =
    IfSome-if (Kept m) (not m.config.enable_compression) _ _ (refl, refl, refl)
      (submit-Kept m.config.compress_mode m path)

-- The compression changes neither the size nor the settings, and writes nothing.
compress_same :
    (m : FileManager) (path : List ℕ) {m' : FileManager} {calls : List Call}
    → compress_file m path ≡ some (m', calls)
    → Kept m (m', calls)
compress_same m path e = subst (IfSome (Kept m)) e (compress_file-Kept m path)

-- What a successful write has done.
pub record Written (m : FileManager) (text : List ℕ) (m' : FileManager) (calls : List Call)
    : Type 0 where
  pub all : written_in calls ≡ text
  pub below : m'.current_size < m.config.max_file_size
  pub flushed : (m'.async_buffer_size ≡ 0) ⊎ (m'.async_buffer_size < m.config.async_flush_size)

write_data-Written :
    (m : FileManager) (text : List ℕ) (now : ℕ)
    → m.current_size + length text < m.config.max_file_size
    → m.config.max_file_size ≤ 2 ^ 31
    → (m' : FileManager) × (calls : List Call) × (write_data m text (length text) now
        ≡ (ok, m', calls))
      × Written m text m' calls
write_data-Written m text now fits small =
    let (fine, size, wrote, flushed) = write_data-kept m text now in
    let r = write_data m text (length text) now in
    (
      r.1,
      r.2,
      ap (λ c. (c, r.1, r.2)) fine,
      record { all = wrote; below = omega (arith, size); flushed = flushed },
    )

pub written_in-append : (xs ys : List Call) → written_in (xs ++ ys) ≡ written_in xs ++ written_in ys
written_in-append [] ys = refl
written_in-append (write bytes ∷ xs) ys =
    ap (λ l. bytes ++ l) (written_in-append xs ys)
    ∙ sym (append_assoc bytes (written_in xs) (written_in ys))
written_in-append (open_append p ∷ xs) ys = written_in-append xs ys
written_in-append (open_new p ∷ xs) ys = written_in-append xs ys
written_in-append (flush ∷ xs) ys = written_in-append xs ys
written_in-append (close ∷ xs) ys = written_in-append xs ys
written_in-append (rename p p' ∷ xs) ys = written_in-append xs ys
written_in-append (gzip p ∷ xs) ys = written_in-append xs ys

Written-after :
    {m m₁ : FileManager} {text : List ℕ} {m' : FileManager} (before calls : List Call)
    → m₁.config ≡ m.config
    → written_in before ≡ []
    → Written m₁ text m' calls
    → Written m text m' (before ++ calls)
Written-after {m'} before calls same nothing w = record {
  all = written_in-append before calls ∙ (ap (λ l. l ++ written_in calls) nothing ∙ w.all);
  below = subst (λ (c : FileConfig). m'.current_size < c.max_file_size) same w.below;
  flushed =
      subst
        (λ (c : FileConfig).
          (m'.async_buffer_size ≡ 0) ⊎ (m'.async_buffer_size < c.async_flush_size))
        same w.flushed;
}

-- Where the file takes all bytes, and a rotation that is due finds a name, renames in time, opens the
-- new file and hands the old one to the compression, `SilogFileManagerWriteRaw` of fewer bytes than the
-- maximum answers `SILOG_OK`: it writes exactly these bytes, the file stays smaller than the maximum, at
-- most 2 ^ 31, and the bytes not yet flushed stay below the limit for flushing.
pub write_raw-Written :
    (m : FileManager) (text : List ℕ) (os : RotateCalls) (now first : ℕ) {m₁ : FileManager}
    {moved : List Call}
    → m.initialized ≡ true
    → m.is_open ≡ true
    → 0 < length text
    → length text < m.config.max_file_size
    → m.current_size < m.config.max_file_size
    → m.config.max_file_size ≤ 2 ^ 31
    → first < m.config.rotate_retry_count
    → os.rename_ok first ≡ true
    → os.open_new_ok ≡ true
    → compress_file (reset m) (history_of m os) ≡ some (m₁, moved)
    → (m' : FileManager) × (calls : List Call) × (write_raw m (some text) os (length text) now
        ≡ some (ok, m', calls))
      × Written m text m' calls
unfolding after_rotation
write_raw-Written m text os now first {m₁} {moved} on opened some_text short below small early
      renamed new compressed =
    elim (dec_lt (m.current_size + length text) m.config.max_file_size) [
      | yes fits ↦
          let (m', calls, e, w) = write_data-Written m text now fits small in
          (
            m',
            calls,
            write_raw-early m text os (length text) now on opened some_text (omega arith)
                ∙ ap some e,
            w,
          )
      | no full ↦
          let (size, same, nothing) = compress_same (reset m) (history_of m os) compressed in
          let maximum = ap (λ (c : FileConfig). c.max_file_size) same in
          let (m', calls, e, w) =
            write_data-Written m₁ text now (omega (arith, size, maximum))
              (omega (arith, maximum)) in
          let before =
            leave m
            ++ rename (current_path m.config 512) (history_of m os)
              ∷ open_new (current_path m.config 512)
              ∷ moved in
          (
            m',
            before ++ calls,
            write_raw-due m text os (length text) now on opened some_text (omega arith)
                ∙ (ap (λ r. after_rotation r text (length text) now)
                      (rotate_internal-succeeds m os first early renamed new compressed)
                    ∙ ap
                        (λ (r : ErrorCode × FileManager × List Call).
                          some (r.0, r.1, before ++ r.2))
                        e),
            Written-after before calls same (written_in-leave m _ ∙ nothing) w,
          )
    ]
