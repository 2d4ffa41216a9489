-- ===== src/Entry.antt =====
-- silog_logger/include/silog_logger.h and interface/silog.h: a log entry and its levels. The fixed
-- char arrays are lists of bytes; signed words are their bit patterns.
use si_log.Base.{
  ℕ, ◌≡◌, ◌-◌, List, [], ◌∷◌, length, ◌==◌, if◌then◌else◌, suc, get_or, ◌++◌, take, drop, replicate,
}

-- `SILOG_TAG_MAX_LEN`
abbrev pub tag_max_len : ℕ
tag_max_len = 32

-- `SILOG_FILE_MAX_LEN`
abbrev pub file_max_len : ℕ
file_max_len = 64

-- `SILOG_MSG_MAX_LEN`
abbrev pub msg_max_len : ℕ
msg_max_len = 256

-- `logEntry_t`. `level` is a `silogLevel`, which holds any number that fits its word.
pub record LogEntry : Type 0 where
  pub ts : ℕ
  pub pid : ℕ
  pub tid : ℕ
  pub level : ℕ
  pub tag : List ℕ
  pub file : List ℕ
  pub line : ℕ
  pub msg : List ℕ
  pub msg_len : ℕ
  pub enabled : ℕ

-- `silogLevel`
pub data Level : Type 0 where
  debug info warn error fatal : Level

-- The number of an enumerator.
abbrev pub level_number : Level → ℕ
level_number debug = 0
level_number info = 1
level_number warn = 2
level_number error = 3
level_number fatal = 4

-- The C library's `strlen` over an array: the bytes before the first 0.
abbrev pub strlen : List ℕ → ℕ
strlen [] = 0
strlen (c ∷ s) = let rest = strlen s in if c == 0 then 0 else suc rest

-- The C library's `strncpy` of at most `n` bytes of a text, given without its 0, to the start of an array: what is
-- left of the `n` bytes becomes 0.
abbrev pub strncpy : List ℕ → List ℕ → ℕ → List ℕ
strncpy array source n = take n (source ++ replicate n 0) ++ drop n array

-- A char array of `n` bytes that ends in a 0.
pub record IsText (n : ℕ) (s : List ℕ) : Type 0 where
  pub whole : length s ≡ n
  pub ended : get_or s (n - 1) 1 ≡ 0
