-- ===== src/Cat/Print.antt =====
-- `SilogCatPrintLog` of silog_cat/src/silog_cat.c: which entries are shown, and what is printed for one.
pub mod Filter
use si_log.Base.{
  ℕ, ◌+◌, ◌/◌, ◌%◌, Bool, true, false, not, ◌&&◌, ◌||◌, Option, none, some, List, [], ◌∷◌,
  if◌then◌else◌, get_or, length, ltb, ◌==◌,
}
use si_log.Base.Int.{ℤ, signed32}
use si_log.Base.Word.{u32}
use si_log.Entry.{LogEntry}
use si_log.Securec.Text.Arrays.{text}
use si_log.Time.{Tm}
use si_log.Clean.{has_prefix}
use si_log.Cat.{CatConfig}

-- `strstr(hay, needle) != NULL`
pub contains : List ℕ → List ℕ → Bool
contains [] needle = has_prefix [] needle
contains (x ∷ hay) needle = has_prefix (x ∷ hay) needle || contains hay needle

-- `SilogCatGetLevelColor`
pub get_level_color : Bool → ℕ → List ℕ
get_level_color use_color level =
    if not use_color
    then []
    else get_or
        ((27 ∷ b'[' ∷ b'3' ∷ b'6' ∷ b'm' ∷ [])
          ∷ (27 ∷ b'[' ∷ b'3' ∷ b'2' ∷ b'm' ∷ [])
          ∷ (27 ∷ b'[' ∷ b'3' ∷ b'3' ∷ b'm' ∷ [])
          ∷ (27 ∷ b'[' ∷ b'3' ∷ b'1' ∷ b'm' ∷ [])
          ∷ (27 ∷ b'[' ∷ b'3' ∷ b'5' ∷ b'm' ∷ [])
          ∷ [])
        level []

-- `COLOR_RESET`
abbrev pub color_reset : List ℕ
color_reset = 27 ∷ b'[' ∷ b'0' ∷ b'm' ∷ []

-- The numbers that `SilogCatFormatTime` prints.
pub record Stamp : Type 0 where
  pub month : ℕ
  pub day : ℕ
  pub hour : ℕ
  pub minute : ℕ
  pub second : ℕ
  pub ms : ℕ

-- `SilogCatFormatTime`, where `localtime` is what `localtime_r` answers.
pub format_time : (ℕ → Tm) → ℕ → Stamp
format_time localtime ts =
    let tm = localtime (ts / 1000) in
    record {
      month = u32 (tm.month + 1);
      day = tm.day;
      hour = tm.hour;
      minute = tm.minute;
      second = tm.second;
      ms = ts % 1000;
    }

-- What is printed for an entry, in the order of the format.
pub record Printed : Type 0 where
  pub time : Stamp
  pub pid : ℤ
  pub tid : ℤ
  pub color : List ℕ
  pub level_char : ℕ
  pub reset : List ℕ
  pub tag : List ℕ
  pub msg : List ℕ
  pub file : List ℕ
  pub line : ℤ

-- The line of an entry.
pub line_for : CatConfig → (ℕ → Tm) → LogEntry → Printed
line_for c localtime e = record {
  time = format_time localtime e.ts;
  pid = signed32 (u32 e.pid);
  tid = signed32 (u32 e.tid);
  color = get_level_color c.use_color e.level;
  level_char = get_or (b'D' ∷ b'I' ∷ b'W' ∷ b'E' ∷ b'F' ∷ []) e.level b'?';
  reset = if c.use_color then color_reset else [];
  tag = text e.tag;
  msg = text e.msg;
  file = text e.file;
  line = signed32 e.line;
}

-- `SilogCatPrintLog`: what is printed, `none` for nothing.
pub print_log : CatConfig → (ℕ → Tm) → LogEntry → Option Printed
print_log c localtime e =
    if ltb e.level c.min_level
    then none
    else (if not (length c.filter_tag == 0) && not (contains (text e.tag) c.filter_tag)
        then none
        else some (line_for c localtime e))
