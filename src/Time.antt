-- ===== src/Time.antt =====
-- silog_comm/src/silog_time.c on Linux, and `SilogUtilsLevelToName` of silog_comm/src/silog_utils.c. The answers of
-- `clock_gettime` and `localtime_r` are arguments, and the text that the C library prints is a parameter.
pub mod Clock
use si_log.Base.{
  ℕ, ◌+◌, ◌-◌, ◌*◌, ◌/◌, ◌%◌, ◌^◌, Option, none, some, List, [], ◌∷◌, leb, ltb, ◌==◌, if◌then◌else◌,
  set, get_or, true,
}
use si_log.Base.Word.{add32}
use si_log.Base.Int.{is_negative}
use si_log.Securec.Format.{snprintf_s}

-- `struct timespec`
pub record Timespec : Type 0 where
  pub sec : ℕ
  pub nsec : ℕ

-- `SilogGetNowMs`, with what `clock_gettime` finds. NS_PER_US * US_PER_SEC is 10 ^ 9.
pub get_now_ms : Option Timespec → ℕ
get_now_ms none = 0
get_now_ms (some t) = (t.sec * 1000 + t.nsec / (1000 * 1000000)) % 2 ^ 64

-- `SilogGetMonoMs`
pub get_mono_ms : Option Timespec → ℕ
get_mono_ms none = 0
get_mono_ms (some t) = (t.sec * 1000 + t.nsec / (1000 * 1000000)) % 2 ^ 64

-- `struct tm`: the patterns of its words.
pub record Tm : Type 0 where
  pub year : ℕ
  pub month : ℕ
  pub day : ℕ
  pub hour : ℕ
  pub minute : ℕ
  pub second : ℕ

-- `buffer[at] = 0`
end_at : ℕ → Option (List ℕ) → Option (List ℕ)
end_at at none = none
end_at at (some buffer) = some (set buffer at 0)

-- `SilogFormatWallClockMs`. `print` is the text of the seven numbers in the format
-- "%04d-%02d-%02d %02d:%02d:%02d.%04u", and `none` where `vsnprintf` fails.
pub format_wall_clock_ms :
    (ℕ → Option Tm) → (List ℕ → Option (List ℕ)) → ℕ → Option (List ℕ) → ℕ → Option (List ℕ)
format_wall_clock_ms localtime print input_ms none buffer_len = none
format_wall_clock_ms localtime print input_ms (some buffer) buffer_len =
    let cleared = set buffer 0 0 in
    let sec = input_ms / 1000 in
    let msec = input_ms % 1000 in
    if buffer_len == 0
    then some buffer
    else (if ltb (2 ^ 63 - 1) sec then some cleared else elim (localtime sec) [
      | none ↦ some cleared
      | some tm ↦
          let (n, written) = snprintf_s (some cleared) buffer_len (buffer_len - 1) true (
            print (
              add32 tm.year 1900
              ∷ add32 tm.month 1
              ∷ tm.day
              ∷ tm.hour
              ∷ tm.minute
              ∷ tm.second
              ∷ msec
              ∷ [])) in
          if is_negative n then end_at (buffer_len - 1) written else written
    ])

-- `SilogUtilsLevelToName`: a number that is no level's, as an int32_t or beyond the table, is "UNKNOWN".
unfoldable pub level_to_name : ℕ → List ℕ
level_to_name level =
    get_or
      ((b'D' ∷ b'E' ∷ b'B' ∷ b'U' ∷ b'G' ∷ [])
        ∷ (b'I' ∷ b'N' ∷ b'F' ∷ b'O' ∷ [])
        ∷ (b'W' ∷ b'A' ∷ b'R' ∷ b'N' ∷ [])
        ∷ (b'E' ∷ b'R' ∷ b'R' ∷ b'O' ∷ b'R' ∷ [])
        ∷ (b'F' ∷ b'A' ∷ b'T' ∷ b'A' ∷ b'L' ∷ [])
        ∷ [])
      level (b'U' ∷ b'N' ∷ b'K' ∷ b'N' ∷ b'O' ∷ b'W' ∷ b'N' ∷ [])
