-- ===== src/Prelog.antt =====
-- silog_comm/src/silog_prelog.c: the messages for diagnostics, for the holder of the lock. What the C library
-- formats is an argument, and the texts put out are part of the result.
pub mod Line
pub mod Sample
mod Tests
use si_log.Base.{
  ℕ, zero, suc, ◌+◌, ◌-◌, Bool, true, false, not, Option, none, some, List, [], ◌∷◌, ◌++◌, leb, ltb,
  ◌==◌, if◌then◌else◌, length, take, set,
}
use si_log.Base.Int.{ℤ, pos, negsuc}
use si_log.Errors.{ErrorCode, ok, null_ptr, trans_not_init, str_err}
use si_log.Securec.{Errno}
use si_log.Securec.Text.{write_at, strncat_s}
use si_log.Securec.Text.Arrays.{text}
use si_log.Securec.Format.{snprintf_s}

-- `SilogPrelogConfig_t`, the path as its text.
pub record PrelogConfig : Type 0 where
  pub path : List ℕ
  pub min_level : ℕ
  pub enable_stdout : Bool

-- `SilogPrelogManager_t`. `has_file` says that the file is open.
pub record PrelogManager : Type 0 where
  pub has_file : Bool
  pub config : PrelogConfig
  pub initialized : Bool

-- `SILOG_PRELOG_DEFAULT_PATH`
abbrev pub default_path : List ℕ
default_path =
    b'/' ∷ b't' ∷ b'm' ∷ b'p' ∷ b'/' ∷ b's' ∷ b'i' ∷ b'l' ∷ b'o' ∷ b'g' ∷ b'_' ∷ b'p' ∷ b'r' ∷ b'e'
    ∷ b'l' ∷ b'o' ∷ b'g' ∷ b'.' ∷ b't' ∷ b'x' ∷ b't' ∷ []

-- The default settings, which `SilogPrelogInit` takes for NULL.
pub settings : Option PrelogConfig → PrelogConfig
settings none = record { path = default_path; min_level = 0; enable_stdout = false }
settings (some config) = config

-- `SilogPrelogInit`, where `fopen` of a path answers as `opens`.
pub init : PrelogManager → Option PrelogConfig → (List ℕ → Bool) → ErrorCode × PrelogManager
init m config opens =
    let c = settings config in
    let opened = opens c.path in
    if m.initialized then (ok, m) else (
      ok,
      record {
        has_file = opened;
        config = if opened then c else record c { enable_stdout = true };
        initialized = true;
      },
    )

-- `SilogPrelogDeinit`
pub deinit : PrelogManager → PrelogManager
deinit m = if m.initialized then record m { has_file = false; initialized = false } else m

-- `SilogPrelogLevelToString`
pub level_to_string : ℕ → List ℕ
level_to_string zero = b'D' ∷ b'E' ∷ b'B' ∷ b'U' ∷ b'G' ∷ []
level_to_string (suc zero) = b'I' ∷ b'N' ∷ b'F' ∷ b'O' ∷ []
level_to_string (suc (suc zero)) = b'W' ∷ b'A' ∷ b'R' ∷ b'N' ∷ b'I' ∷ b'N' ∷ b'G' ∷ []
level_to_string (suc (suc (suc zero))) = b'E' ∷ b'R' ∷ b'R' ∷ b'O' ∷ b'R' ∷ []
level_to_string (suc (suc (suc (suc level)))) = b'U' ∷ b'N' ∷ b'K' ∷ b'N' ∷ b'O' ∷ b'W' ∷ b'N' ∷ []

-- The text of "[%s] [%s] [%s] " for an error's text, a module and a level.
pub prefix_of : List ℕ → List ℕ → ℕ → List ℕ
prefix_of error name level =
    b'['
    ∷ (error
        ++ b']'
          ∷ b' '
          ∷ b'['
          ∷ (name ++ b']' ∷ b' ' ∷ b'[' ∷ (level_to_string level ++ b']' ∷ b' ' ∷ [])))

-- What the C library answers in one call: what the local buffer holds, whether the prefix could be formatted, the text
-- of `errno`, and the text of the message, `none` where `vsnprintf` fails.
pub record PrintCalls : Type 0 where
  pub buf : List ℕ
  pub prefix_ok : Bool
  pub error : List ℕ
  pub message : Option (List ℕ)

-- A text put out.
pub data Output : Type 0 where
  to_file : List ℕ → Output
  to_stdout : List ℕ → Output

-- The buffer, `SILOG_PRELOG_MSG_MAX` bytes, and `n` after the prefix was formatted.
pub start_line : List ℕ → ℤ × Option (List ℕ) → ℕ × List ℕ
start_line buf (pos n, some left) = (n, left)
start_line buf (pos n, none) = (n, buf)
start_line buf (negsuc n, some left) = (0, set left 0 0)
start_line buf (negsuc n, none) = (0, set buf 0 0)

-- `vsnprintf(buf + n, sizeof(buf) - n, …)`; `none` if that is behind the buffer, which is undefined.
pub print_behind : List ℕ → ℕ → List ℕ → Option (List ℕ)
print_behind buf n output =
    if ltb 1024 n
    then none
    else (if n == 1024
        then some buf
        else some (write_at buf n (take (1024 - n - 1) output ++ 0 ∷ [])))

-- The buffer after a call of `strncat_s`, whose code is not read.
pub buffer_left : List ℕ → Errno × Option (List ℕ) → List ℕ
buffer_left buf (code, none) = buf
buffer_left buf (code, some left) = left

-- The line feed.
pub end_line : List ℕ → List ℕ
end_line buf = buffer_left buf (strncat_s (some buf) 1024 (some (b'\n' ∷ 0 ∷ [])) 1)

-- The outputs of a text.
pub put_out : PrelogManager → List ℕ → List Output
put_out m line =
    (if m.has_file then to_file line ∷ [] else [])
    ++ (if m.config.enable_stdout then to_stdout line ∷ [] else [])

-- What follows the printing of the message.
pub finish : PrelogManager → Option (List ℕ) → Option (ErrorCode × List Output)
finish m none = none
finish m (some buf) = some (ok, put_out m (text (end_line buf)))

-- The rest of `SilogPrelogWriteV` after the prefix.
pub write_message : PrelogManager → Option (List ℕ) → ℕ × List ℕ → Option (ErrorCode × List Output)
write_message m none (n, buf) = if ltb 1024 n then none else some (str_err, [])
write_message m (some output) (n, buf) = finish m (print_behind buf n output)

-- `SilogPrelogWriteV` and `SilogPrelogWrite`: a module or a format that is NULL is `none`, `false`. The result is `none`
-- where the code writes behind its buffer.
pub write_v :
    PrelogManager → Option (List ℕ) → ℕ → Bool → PrintCalls → Option (ErrorCode × List Output)
write_v m none level has_format os = some (null_ptr, [])
write_v m (some name) level false os = some (null_ptr, [])
write_v m (some name) level true os =
    let printed = if os.prefix_ok then some (prefix_of os.error name level) else none in
    if not m.initialized
    then some (trans_not_init, [])
    else (if ltb level m.config.min_level
        then some (ok, [])
        else write_message m os.message
            (start_line os.buf (snprintf_s (some os.buf) 1024 1023 true printed)))

-- `SilogPrelogIsInitialized`
pub is_initialized : PrelogManager → Bool
is_initialized m = m.initialized

-- `SilogPrelogGetFile`, as whether it is not NULL.
pub get_file : PrelogManager → Bool
get_file m = m.has_file
