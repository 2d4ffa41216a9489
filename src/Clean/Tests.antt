-- ===== src/Clean/Tests.antt =====
-- The cleaning of a directory with two old files and one other.
use si_log.Base.{ℕ, ◌≡◌, refl, some, List, [], ◌∷◌, ◌++◌, take, arith}
use si_log.Errors.{ok}
use si_log.PQueue.{PQueue}
use si_log.Clean.{
  FileInfo, DirEntry, log_ext, gz_ext, oldest_file_compare, clean_old_files, is_history, has_prefix,
  last_dot,
}
use si_log.Clean.Collect.{history, always}
use si_log.Clean.Newest.{Member, NoneNewer, clean_old_files-NoneNewer}

abbrev base : List ℕ
base = b's' ∷ b'i' ∷ []

abbrev dir : List ℕ
dir = b'/' ∷ b'l' ∷ []

abbrev entries : List DirEntry
entries =
    record { name = b's' ∷ b'i' ∷ b'_' ∷ b'1' ∷ log_ext; mtime = some 100 }
    ∷ record { name = b's' ∷ b'i' ∷ log_ext; mtime = some 900 }
    ∷ record { name = b's' ∷ b'i' ∷ b'_' ∷ b'2' ∷ gz_ext; mtime = some 200 }
    ∷ []

abbrev garbage : PQueue FileInfo
garbage = record {
  buffer = λ i. record { path = []; mtime = 0 };
  allocated = 0;
  element_size = 0;
  capacity = 0;
  size = 0;
  compare = oldest_file_compare;
}

clean_old_files-NoneNewer_example :
    (first : FileInfo) × (rest : List (List ℕ)) × (clean_old_files
        (λ n. some (λ i. record { path = []; mtime = 0 }))
        always
        always
        garbage
        dir
        base
        1
        (some entries)
      ≡ (ok, first.path ∷ rest))
    × Member first (history dir (take 127 (base ++ b'_' ∷ [])) entries)
    × NoneNewer first.mtime (history dir (take 127 (base ++ b'_' ∷ [])) entries)
unfolding is_history has_prefix last_dot
clean_old_files-NoneNewer_example =
    clean_old_files-NoneNewer (λ n. some (λ i. record { path = []; mtime = 0 })) garbage dir base 1
      entries refl (omega arith) (omega arith)
