-- ===== src/File/Tests.antt =====
-- The file manager at a file of 90 bytes, where 100 are allowed.
use si_log.Base.{ℕ, ◌≡◌, refl, true, false, some, List, [], ◌∷◌, replicate, ◌==◌, arith}
use si_log.Errors.{ErrorCode, ok, file_write}
use si_log.Mpsc.{MpscQueue}
use si_log.File.{
  FileConfig, FileManager, compress_sync, Call, RotateCalls, compress_file, submit, write_raw,
}
use si_log.File.Write.{written_in, write_raw-loses}
use si_log.File.Size.{Written, write_raw-Written}
use si_log.Mpsc.Sample.{two_slots, two_slots-Holds}
use si_log.File.Config.Compress.{Step, task, round, run, run-gzips}
use si_log.File.Config.Thread.{gzips}
use si_log.File.Config.{default_config}

abbrev config : FileConfig
config = record default_config {
  max_file_size = 100;
  compress_mode = compress_sync;
  async_flush_size = 64;
}

abbrev no_queue : MpscQueue (List ℕ)
no_queue = record {
  has_buffer = false;
  buffer = λ i. [];
  element_size = 512;
  capacity = 64;
  write_pos = 0;
  read_pos = 0;
  has_seq = false;
  seq = λ i. i;
  capacity_mask = 63;
}

abbrev manager : FileManager
manager = record {
  config = config;
  is_open = true;
  current_size = 90;
  async_buffer_size = 0;
  last_flush_time_ms = 0;
  initialized = true;
  compress_queue = no_queue;
  compress_thread_running = true;
  has_compress_thread = true;
  bad_join = false;
}

abbrev line : List ℕ
line = replicate 20 b'x'

-- The first name is taken, and the second attempt to rename succeeds.
abbrev good : RotateCalls
good = record {
  date = b'2' ∷ [];
  millis = some (b'_' ∷ b'0' ∷ b'0' ∷ b'7' ∷ []);
  exists = λ j. j == 0;
  rename_ok = λ r. r == 1;
  open_append_ok = true;
  open_new_ok = true;
}

abbrev bad : RotateCalls
bad = record good { rename_ok = λ r. false }

write_raw-Written_example :
    (m' : FileManager) × (calls : List Call) × (write_raw manager (some line) good 20 500
      ≡ some (ok, m', calls))
    × Written manager line m' calls
unfolding compress_file submit
write_raw-Written_example =
    write_raw-Written manager line good 500 1 refl refl (omega arith) (omega arith) (omega arith)
      (omega arith) (omega arith) refl refl refl

write_raw-loses_example :
    (code : ErrorCode) × (m' : FileManager) × (calls : List Call) × (write_raw manager
        (some line)
        bad
        20
        500
      ≡ some (code, m', calls))
    × (code ≡ file_write)
    × (m'.is_open ≡ true)
    × (written_in calls ≡ [])
write_raw-loses_example =
    write_raw-loses manager line bad 20 500 refl refl (omega arith) (omega arith) (λ r. refl)

abbrev compressing : FileManager
compressing = record manager { config = default_config; compress_queue = two_slots 512 [] }

-- The third task comes too early.
abbrev steps : List Step
steps = task (1 ∷ []) ∷ task (2 ∷ []) ∷ task (3 ∷ []) ∷ round ∷ task (4 ∷ []) ∷ []

run-gzips_example :
    (m' : FileManager) × (calls : List Call) × (run compressing steps ≡ some (m', calls))
    × (gzips calls ≡ (1 ∷ []) ∷ (2 ∷ []) ∷ (4 ∷ []) ∷ [])
run-gzips_example = run-gzips compressing 0 steps (refl, refl, refl, refl) (two_slots-Holds 512 [])
