-- ===== src/Remote/Wire.antt =====
-- `SilogRemoteSerializeEntry` and `SilogRemoteDeserializeEntry` of silog_comm/src/silog_remote.c. A
-- buffer is a list of bytes; `x >> k & 0xFF` is `x / 2 ^ k % 256`, and a shift to the left wraps in
-- the word that it is made in.
pub mod Words
pub mod Roundtrip
pub mod Timestamp
mod Tests
use Prim.Native.Nat.{bit_or}
use si_log.Base.{
  ℕ, ◌+◌, ◌-◌, ◌*◌, ◌/◌, ◌%◌, ◌^◌, Bool, true, false, Option, none, some, List, [], ◌∷◌, ◌++◌, ltb,
  length, get_or, set, take, drop, if◌then◌else◌,
}
use si_log.Errors.{ErrorCode, ok, null_ptr, invalid_arg}
use si_log.Entry.{LogEntry, tag_max_len, file_max_len, msg_max_len, strlen}

-- `SILOG_REMOTE_ENTRY_SIZE`: 8 + 8 + 4 + 1 + 4 bytes of numbers and the three arrays.
abbrev pub entry_size : ℕ
entry_size = 377

-- `(uint8_t)((x >> k) & 0xFF)`
abbrev pub byte : ℕ → ℕ → ℕ
byte x k = x / 2 ^ k % 256

-- `(uint64_t)` of a pid_t: the sign is extended.
abbrev pub extend_sign : ℕ → ℕ
extend_sign pid = if ltb pid (2 ^ 31) then pid else pid + (2 ^ 64 - 2 ^ 32)

-- The eight bytes of a uint64_t, and the four of a uint32_t, in network order.
pub put64 : ℕ → List ℕ → List ℕ
put64 x rest =
    byte x 56
    ∷ byte x 48
    ∷ byte x 40
    ∷ byte x 32
    ∷ byte x 24
    ∷ byte x 16
    ∷ byte x 8
    ∷ x % 256
    ∷ rest

pub put32 : ℕ → List ℕ → List ℕ
put32 x rest = byte x 24 ∷ byte x 16 ∷ byte x 8 ∷ x % 256 ∷ rest

-- `SilogRemoteSerializeEntry`: the bytes written, or `none` where it returns at once. `has_buf` and
-- `has_out` say that the two pointers are not NULL. The test of `buf_size` leaves room for every
-- `memcpy_s`.
pub serialize : LogEntry → Bool → ℕ → Bool → Option (List ℕ)
serialize e false buf_size has_out = none
serialize e true buf_size false = none
serialize e true buf_size true =
    if ltb buf_size entry_size
    then none
    else some (
        put64 e.ts (
          put64 (extend_sign e.pid) (
            put32 e.tid (
              e.level % 256
              ∷ put32 e.line (
                  take tag_max_len e.tag
                  ++ (take file_max_len e.file ++ take msg_max_len e.msg))))))

-- The timestamp as the reader puts it together from its eight bytes. `b << 56 >> 8` is read as the C
-- grammar reads it, from the left.
pub get_ts : ℕ → ℕ → ℕ → ℕ → ℕ → ℕ → ℕ → ℕ → ℕ
get_ts b0 b1 b2 b3 b4 b5 b6 b7 =
    bit_or
      (bit_or
        (bit_or
          (bit_or
            (bit_or
              (bit_or (bit_or (b0 * 2 ^ 56 % 2 ^ 64) (b1 * 2 ^ 56 % 2 ^ 64 / 2 ^ 8))
                (b2 * 2 ^ 48 % 2 ^ 64))
              (b3 * 2 ^ 48 % 2 ^ 64 / 2 ^ 8))
            (b4 * 2 ^ 40 % 2 ^ 64))
          (b5 * 2 ^ 40 % 2 ^ 64 / 2 ^ 8))
        (b6 * 2 ^ 32 % 2 ^ 64))
      b7

pub get64 : ℕ → ℕ → ℕ → ℕ → ℕ → ℕ → ℕ → ℕ → ℕ
get64 b0 b1 b2 b3 b4 b5 b6 b7 =
    bit_or
      (bit_or
        (bit_or
          (bit_or
            (bit_or
              (bit_or (bit_or (b0 * 2 ^ 56 % 2 ^ 64) (b1 * 2 ^ 48 % 2 ^ 64)) (b2 * 2 ^ 40 % 2 ^ 64))
              (b3 * 2 ^ 32 % 2 ^ 64))
            (b4 * 2 ^ 24 % 2 ^ 64))
          (b5 * 2 ^ 16 % 2 ^ 64))
        (b6 * 2 ^ 8 % 2 ^ 64))
      b7

pub get32 : ℕ → ℕ → ℕ → ℕ → ℕ
get32 b0 b1 b2 b3 =
    bit_or (bit_or (bit_or (b0 * 2 ^ 24 % 2 ^ 32) (b1 * 2 ^ 16 % 2 ^ 32)) (b2 * 2 ^ 8 % 2 ^ 32)) b3

-- The copy of an array of `n` bytes, ended by a 0 in its last byte.
pub get_text : ℕ → List ℕ → List ℕ
get_text n bytes = set (take n bytes) (n - 1) 0

-- `SilogRemoteDeserializeEntry` once its guards are passed.
pub parse : List ℕ → LogEntry
parse buf =
    let at = λ (i : ℕ). get_or buf i 0 in
    let msg = get_text msg_max_len (drop 121 buf) in
    record {
      ts = get_ts (at 0) (at 1) (at 2) (at 3) (at 4) (at 5) (at 6) (at 7);
      pid = get64 (at 8) (at 9) (at 10) (at 11) (at 12) (at 13) (at 14) (at 15) % 2 ^ 32;
      tid = get32 (at 16) (at 17) (at 18) (at 19);
      level = at 20;
      line = get32 (at 21) (at 22) (at 23) (at 24);
      tag = get_text tag_max_len (drop 25 buf);
      file = get_text file_max_len (drop 57 buf);
      msg = msg;
      msg_len = strlen msg % 2 ^ 16;
      enabled = 1;
    }

-- `SilogRemoteDeserializeEntry`; `has_entry` says that `entry` is not NULL.
pub deserialize : Option (List ℕ) → ℕ → Bool → ErrorCode × Option LogEntry
deserialize none buf_size has_entry = (null_ptr, none)
deserialize (some buf) buf_size false = (null_ptr, none)
deserialize (some buf) buf_size true =
    if ltb buf_size entry_size then (invalid_arg, none) else (ok, some (parse buf))
