-- ===== src/Clean.antt =====
-- The cleaning of old log files in silog_dae/src/silog_file_manager.c: `SilogFileManagerCleanOldFiles`.
-- A file name is its bytes, up to the terminating 0. The directory and the allocator are parameters:
-- `memory i` says whether the scratch element of the `i`-th push or pop could be allocated. `snprintf_s`
-- of a path always succeeds here.
pub mod Collect
pub mod Newest
pub mod Prefix
mod Tests
use si_log.Base.{
  ℕ, zero, suc, ◌+◌, Bool, true, false, not, Option, none, some, List, [], ◌∷◌, ◌++◌, ltb, ◌==◌,
  ◌&&◌, ◌||◌, if◌then◌else◌, take, same_text,
}
use si_log.Base.Int.{ℤ, pos, negsuc}
use si_log.Errors.{ErrorCode, ok, file_open}
use si_log.PQueue.{PQueue, Malloc, init, push, pop, size_of}

-- `FileInfo`
pub record FileInfo : Type 0 where
  pub path : List ℕ
  pub mtime : ℕ

-- `sizeof(FileInfo)`
abbrev pub file_info_size : ℕ
file_info_size = 520

-- `MAX_LOG_FILE_COUNT`
abbrev pub max_log_file_count : ℕ
max_log_file_count = 128

-- `OldestFileCompare`
pub oldest_file_compare : FileInfo → FileInfo → ℤ
oldest_file_compare a b =
    if ltb a.mtime b.mtime then negsuc 0 else (if ltb b.mtime a.mtime then pos 1 else pos 0)

-- An entry that `scandir` finds, with the time that `stat` answers for it, `none` for an error.
pub record DirEntry : Type 0 where
  pub name : List ℕ
  pub mtime : Option ℕ

-- `strncmp(name, prefix, strlen(prefix)) == 0`
pub has_prefix : List ℕ → List ℕ → Bool
has_prefix name [] = true
has_prefix [] (p ∷ prefix) = false
has_prefix (x ∷ name) (p ∷ prefix) = x == p && has_prefix name prefix

-- `strrchr(name, '.')`, `none` for NULL.
pub last_dot : List ℕ → Option (List ℕ)
last_dot [] = none
last_dot (x ∷ name) = elim (last_dot name) [
  | some ext ↦ some ext
  | none ↦ if x == b'.' then some (x ∷ name) else none
]

abbrev pub log_ext : List ℕ
log_ext = b'.' ∷ b'l' ∷ b'o' ∷ b'g' ∷ []

abbrev pub gz_ext : List ℕ
gz_ext = b'.' ∷ b'g' ∷ b'z' ∷ []

-- The tests on a name, `prefix` being the base name and an underscore.
pub is_history : List ℕ → List ℕ → Bool
is_history prefix name = has_prefix name prefix && elim (last_dot name) [
  | none ↦ false
  | some ext ↦ same_text ext log_ext || same_text ext gz_ext
]

-- The path of an entry in `log_dir`.
abbrev pub path_in : List ℕ → List ℕ → List ℕ
path_in log_dir name = take 511 (log_dir ++ b'/' ∷ name)

-- The loop over the entries; the answer of a push is not read.
pub collect :
    (ℕ → Bool)
    → List ℕ
    → List ℕ
    → ℕ
    → List DirEntry
    → Option (PQueue FileInfo)
    → Option (PQueue FileInfo)
collect memory log_dir prefix i [] queue = queue
collect memory log_dir prefix i (e ∷ entries) queue =
    collect memory log_dir prefix (i + 1) entries
      (elim (if is_history prefix e.name then e.mtime else none) [
        | none ↦ queue
        | some t ↦
            (push (memory i) queue (some (record { path = path_in log_dir e.name; mtime = t }))).1
      ])

-- The loop that deletes: the paths passed to `unlink`. The fuel is the size of the queue.
pub delete_loop : ℕ → (ℕ → Bool) → ℕ → ℕ → Option (PQueue FileInfo) → List (List ℕ)
delete_loop zero memory i max_file_count queue = []
delete_loop (suc fuel) memory i max_file_count queue =
    let (code, oldest, queue') = pop (memory i) queue true in
    let rest = delete_loop fuel memory (i + 1) max_file_count queue' in
    if ltb max_file_count (size_of queue)
    then elim oldest [ none ↦ rest | some f ↦ f.path ∷ rest ]
    else []

-- `SilogFileManagerCleanOldFiles`: the code and the paths deleted, in order. `queue` is what the
-- variable holds before its initialisation, and `entries` is `none` if `scandir` fails.
pub clean_old_files :
    Malloc FileInfo
    → (ℕ → Bool)
    → (ℕ → Bool)
    → PQueue FileInfo
    → List ℕ
    → List ℕ
    → ℕ
    → Option (List DirEntry)
    → ErrorCode × List (List ℕ)
clean_old_files malloc memory memory' queue log_dir base max_file_count none = (file_open, [])
clean_old_files malloc memory memory' queue log_dir base max_file_count (some entries) =
    let prefix = take 127 (base ++ b'_' ∷ []) in
    let made =
      (init malloc (some queue) file_info_size max_log_file_count (some oldest_file_compare)).1 in
    let full = collect memory log_dir prefix 0 entries made in
    (ok, delete_loop (size_of full) memory' 0 max_file_count full)
