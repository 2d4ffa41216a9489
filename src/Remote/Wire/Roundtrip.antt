-- ===== src/Remote/Wire/Roundtrip.antt =====
-- An entry that `SilogRemoteSerializeEntry` writes, read back by `SilogRemoteDeserializeEntry`.
use si_log.Base.{
  ℕ, ◌-◌, ◌%◌, ◌^◌, ◌≤◌, ◌<◌, ◌≡◌, ◌∙◌, ap, sym, true, some, List, [], ◌∷◌, ◌++◌, length, drop,
  length-append, take_of_length, take-append_of_length, drop-append_of_length, set_same, arith,
}
use mathlib.Core.List.{append-nil}
use si_log.Errors.{ok}
use si_log.Entry.{LogEntry, IsText, strlen}
use si_log.Remote.Wire.{
  byte, extend_sign, put64, put32, serialize, get_ts, get64, get_text, parse, deserialize,
}
use si_log.Remote.Wire.Words.{get32-bytes, get64-bytes}

-- An entry whose times, numbers of process and thread, and line fit their words, and whose arrays are whole and
-- ended.
pub record IsEntry (e : LogEntry) : Type 0 where
  pub ts : e.ts < 2 ^ 64
  pub pid : e.pid < 2 ^ 32
  pub tid : e.tid < 2 ^ 32
  pub line : e.line < 2 ^ 32
  pub tag : IsText 32 e.tag
  pub file : IsText 64 e.file
  pub msg : IsText 256 e.msg

-- The timestamp that the reader makes of the bytes of a timestamp.
unfoldable pub read_ts : ℕ → ℕ
read_ts ts =
    get_ts (byte ts 56) (byte ts 48) (byte ts 40) (byte ts 32) (byte ts 24) (byte ts 16) (byte ts 8)
      (ts % 256)

-- What the reader makes of an entry's frame: of the level one byte is sent; the length of the message and the mark
-- are not sent, and are set from the text.
abbrev pub read_back : LogEntry → LogEntry
read_back e = record e {
  ts = read_ts e.ts;
  level = e.level % 256;
  msg_len = strlen e.msg;
  enabled = 1;
}

strlen-le : (s : List ℕ) → strlen s ≤ length s
strlen-le [] = omega arith
strlen-le (c ∷ s) = ground (arith, strlen-le s)

get_text-IsText : (n : ℕ) (s rest : List ℕ) → IsText n s → get_text n (s ++ rest) ≡ s
unfolding get_text
get_text-IsText n s rest t =
    rw (take-append_of_length n s rest t.whole) (set_same s (n - 1) 0 1 (omega arith) t.ended)

pid-kept : (x : ℕ) → x < 2 ^ 32 → extend_sign x % 2 ^ 32 ≡ x
pid-kept x h = ground arith

extend_sign-lt : (x : ℕ) → x < 2 ^ 32 → extend_sign x < 2 ^ 64
extend_sign-lt x h = ground arith

-- The bytes on the network.
abbrev pub wire : LogEntry → List ℕ
wire e = put64 e.ts (
    put64 (extend_sign e.pid)
      (put32 e.tid (e.level % 256 ∷ put32 e.line (e.tag ++ (e.file ++ e.msg)))))

pub serialize-wire : (e : LogEntry) → IsEntry e → serialize e true 377 true ≡ some (wire e)
unfolding serialize
serialize-wire e h = rw (
  take_of_length 32 e.tag h.tag.whole,
  take_of_length 64 e.file h.file.whole,
  take_of_length 256 e.msg h.msg.whole,
)

pub length-wire : (e : LogEntry) → IsEntry e → length (wire e) ≡ 377
unfolding put64 put32
length-wire e h = omega (
  arith,
  length-append e.tag (e.file ++ e.msg),
  length-append e.file e.msg,
  h.tag.whole,
  h.file.whole,
  h.msg.whole,
)

parse-wire : (e : LogEntry) → IsEntry e → parse (wire e) ≡ read_back e
unfolding parse put64 put32 read_ts
parse-wire e h = λ i. record {
  ts = read_ts e.ts;
  pid = pid_eq i;
  tid = get32-bytes e.tid h.tid i;
  level = e.level % 256;
  tag = get_text-IsText 32 e.tag (e.file ++ e.msg) h.tag i;
  file = file_eq i;
  line = get32-bytes e.line h.line i;
  msg = msg_eq i;
  msg_len = msg_len_eq i;
  enabled = 1;
}
  where
    x : ℕ
    x = extend_sign e.pid

    pid_eq :
        get64
            (byte x 56)
            (byte x 48)
            (byte x 40)
            (byte x 32)
            (byte x 24)
            (byte x 16)
            (byte x 8)
            (x % 256)
          % 2 ^ 32
        ≡ e.pid
    pid_eq =
        ap (λ t. t % 2 ^ 32) (get64-bytes x (extend_sign-lt e.pid h.pid)) ∙ pid-kept e.pid h.pid

    file_eq : get_text 64 (drop 32 (e.tag ++ (e.file ++ e.msg))) ≡ e.file
    file_eq =
        ap (get_text 64)
          (drop-append_of_length 32 32 e.tag (e.file ++ e.msg) h.tag.whole (omega arith))
        ∙ get_text-IsText 64 e.file e.msg h.file

    msg_eq : get_text 256 (drop 96 (e.tag ++ (e.file ++ e.msg))) ≡ e.msg
    msg_eq =
        ap (get_text 256) (
          drop-append_of_length 32 96 e.tag (e.file ++ e.msg) h.tag.whole (omega arith)
          ∙ drop-append_of_length 64 64 e.file e.msg h.file.whole (omega arith)
          ∙ sym (append-nil e.msg))
        ∙ get_text-IsText 256 e.msg [] h.msg

    msg_len_eq :
        strlen (get_text 256 (drop 96 (e.tag ++ (e.file ++ e.msg)))) % 2 ^ 16 ≡ strlen e.msg
    msg_len_eq = ap (λ s. strlen s % 2 ^ 16) msg_eq ∙ omega (arith, strlen-le e.msg, h.msg.whole)

pub deserialize-wire :
    (e : LogEntry) → IsEntry e → deserialize (some (wire e)) 377 true ≡ (ok, some (read_back e))
unfolding deserialize
deserialize-wire e h = ap (λ (d : LogEntry). (ok, some d)) (parse-wire e h)

-- An entry whose numbers fit their words and whose arrays are whole and ended takes 377 bytes on the network. It is
-- read back with the numbers of process, thread and line and the three texts as they were; the timestamp is read as
-- `read_ts`, the level modulo 256, the length of the message is that of the stored text, and the entry is enabled.
-- The level, the length and the mark of the entry that is sent may be any numbers.
pub roundtrip :
    (e : LogEntry)
    → IsEntry e
    → (buf : List ℕ) × (serialize e true 377 true ≡ some buf)
      × (length buf ≡ 377)
      × (deserialize (some buf) 377 true ≡ (ok, some (read_back e)))
roundtrip e h = (wire e, serialize-wire e h, length-wire e h, deserialize-wire e h)
