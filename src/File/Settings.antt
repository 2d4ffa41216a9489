-- ===== src/File/Settings.antt =====
-- The settings of the file manager in silog_dae/src/silog_file_manager.c. A
-- printing with `snprintf_s` into a buffer of n bytes keeps the first n - 1 of the text and succeeds,
-- unless `vsnprintf` fails.
use si_log.Base.{
  ℕ, ◌≡◌, Bool, true, false, Option, none, some, List, [], take, if◌then◌else◌, refl, arith,
}
use si_log.Errors.{ErrorCode, ok, invalid_arg, busy, str_err}
use si_log.File.{FileManager, FlushMode, CompressMode}

-- `SilogFileManagerSetLogDir`; `printed` says that `vsnprintf` does not fail.
pub set_log_dir : FileManager → Option (List ℕ) → Bool → ErrorCode × FileManager
set_log_dir m none printed = (invalid_arg, m)
set_log_dir m (some dir) printed =
    if m.initialized
    then (busy, m)
    else (if printed
        then (ok, record m { config = record m.config { log_dir = take 255 dir } })
        else (str_err, record m { config = record m.config { log_dir = [] } }))

-- `SilogFileManagerSetLogFileBase`
pub set_log_file_base : FileManager → Option (List ℕ) → Bool → ErrorCode × FileManager
set_log_file_base m none printed = (invalid_arg, m)
set_log_file_base m (some base) printed =
    if m.initialized
    then (busy, m)
    else (if printed
        then (ok, record m { config = record m.config { log_file_base = take 63 base } })
        else (str_err, record m { config = record m.config { log_file_base = [] } }))

-- `SilogFileManagerSetMaxFileSize`
pub set_max_file_size : FileManager → ℕ → FileManager
set_max_file_size m size = record m { config = record m.config { max_file_size = size } }

-- `SilogFileManagerSetMaxFileCount`
pub set_max_file_count : FileManager → ℕ → FileManager
set_max_file_count m count = record m { config = record m.config { max_file_count = count } }

-- `SilogFileManagerSetCompression`
pub set_compression : FileManager → Bool → FileManager
set_compression m enable = record m { config = record m.config { enable_compression = enable } }

-- `SilogFileManagerSetCompressMode`
pub set_compress_mode : FileManager → CompressMode → FileManager
set_compress_mode m mode = record m { config = record m.config { compress_mode = mode } }

-- `SilogFileManagerSetFlushMode`
pub set_flush_mode : FileManager → FlushMode → FileManager
set_flush_mode m mode = record m { config = record m.config { flush_mode = mode } }

-- `SilogFileManagerSetAsyncFlushInterval`
pub set_async_flush_interval : FileManager → ℕ → FileManager
set_async_flush_interval m interval_ms = record m {
  config = record m.config { async_flush_interval_ms = interval_ms };
}

-- `SilogFileManagerSetAsyncFlushSize`
pub set_async_flush_size : FileManager → ℕ → FileManager
set_async_flush_size m size = record m { config = record m.config { async_flush_size = size } }

abbrev pub is_null : Option (List ℕ) → Bool
is_null none = true
is_null (some text) = false

-- Once the manager is initialised neither the directory nor the base name can be set: each call answers
-- `SILOG_BUSY`, or `SILOG_INVALID_ARG` for NULL, and changes nothing.
set_names-busy :
    (m : FileManager) (text : Option (List ℕ)) (printed : Bool)
    → m.initialized ≡ true
    → (set_log_dir m text printed ≡ ((if is_null text then invalid_arg else busy), m))
      × (set_log_file_base m text printed ≡ ((if is_null text then invalid_arg else busy), m))
unfolding set_log_dir set_log_file_base
set_names-busy m none printed on = (refl, refl)
set_names-busy m (some text) printed on = (ground (arith, on), ground (arith, on))
