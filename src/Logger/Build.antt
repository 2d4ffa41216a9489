-- ===== src/Logger/Build.antt =====
-- The entries that silog_logger/src/silog_logger.c builds.
use si_log.Base.{
  ℕ, zero, suc, ◌+◌, ◌-◌, ◌%◌, ◌^◌, ◌≤◌, ◌<◌, ◌≡◌, ◌∙◌, refl, ap, subst, ◌==◌, true, false, Option,
  none, some, List, [], ◌∷◌, ◌++◌, length, take, replicate, get_or, set, length-set, length-take,
  ltb, if◌then◌else◌, arith,
}
use si_log.Errors.{ok}
use si_log.Entry.{strlen, LogEntry, IsText}
use si_log.Base.Int.{ℤ}
use si_log.Securec.Text.{write_at}
use si_log.Securec.Text.Arrays.{
  text, NoZero, length-text, length-write_at, text-write_at, take-NoZero,
}
use si_log.Securec.Format.{snprintf_s, vsnprintf, snprintf_s-text}
use si_log.Remote.Wire.Roundtrip.{IsEntry, read_ts, read_back}
use si_log.Time.{get_now_ms}
use si_log.Time.Clock.{get_now_ms-bound}
use si_log.Logger.{BuildCalls, stored, assemble, store_text, build_entry}

abbrev zeros : ℕ → List ℕ
zeros n = replicate n 0

length-zeros : (n : ℕ) → length (zeros n) ≡ n
length-zeros zero = refl
length-zeros (suc n) = ap suc (length-zeros n)

get_or-replicate : (n k : ℕ) → k < n → get_or (zeros n) k 1 ≡ 0
get_or-replicate zero k h = absurd (omega arith)
get_or-replicate (suc n) zero h = refl
get_or-replicate (suc n) (suc k) h = get_or-replicate n k (omega arith)

get_or-set : (s : List ℕ) (k : ℕ) → k < length s → get_or (set s k 0) k 1 ≡ 0
get_or-set [] k h = absurd (omega arith)
get_or-set (c ∷ s) zero h = refl
get_or-set (c ∷ s) (suc k) h = get_or-set s k (omega arith)

-- Behind a text in a zeroed array all is 0.
get_or-write_at :
    (n k : ℕ) (s : List ℕ)
    → length s ≤ k
    → k < n
    → get_or (write_at (zeros n) 0 (s ++ 0 ∷ [])) k 1 ≡ 0
get_or-write_at zero k s le lt = absurd (omega arith)
get_or-write_at (suc n) zero [] le lt = refl
get_or-write_at (suc n) (suc k) [] le lt = get_or-replicate n k (omega arith)
get_or-write_at (suc n) zero (c ∷ s) le lt = absurd (omega arith)
get_or-write_at (suc n) (suc k) (c ∷ s) le lt = get_or-write_at n k s (omega arith) (omega arith)

abbrev left_in : Option (List ℕ) → List ℕ
left_in none = []
left_in (some s) = s

printed-IsText :
    (n : ℕ) (s : List ℕ)
    → 0 < n
    → IsText n (left_in (snprintf_s (some (zeros n)) n (n - 1) true (some s)).1)
unfolding snprintf_s
printed-IsText n s some_bytes =
    let not_empty : (n == 0) ≡ false = ground arith in
    let same : (if ltb (n - 1) (n - 1) then n - 1 else n - 1) ≡ n - 1 = ground arith in
    let buffer = vsnprintf (zeros n) (n - 1 + 1) s in
    let whole : length buffer ≡ n =
      length-write_at (zeros n) 0 (take (n - 1 + 1 - 1) s ++ 0 ∷ []) ∙ length-zeros n in
    rw (not_empty, same)
      (record {
        whole = length-set buffer (n - 1) 0 ∙ whole;
        ended = get_or-set buffer (n - 1) (omega (arith, whole));
      })

-- A text that `snprintf_s` stores in a zeroed array is cut to what fits, and terminated.
store_text-IsText :
    (n : ℕ) (s : List ℕ)
    → 0 < n
    → NoZero s
    → (left : List ℕ) × (store_text n true s ≡ some left)
      × IsText n left
      × (text left ≡ take (n - 1) s)
unfolding store_text stored
store_text-IsText n s some_bytes none_zero =
    let (left, e, kept) =
      snprintf_s-text (zeros n) s n (n - 1) some_bytes (omega (arith, length-zeros n)) none_zero in
    (
      left,
      ap stored e,
      subst (λ (r : ℤ × Option (List ℕ)). IsText n (left_in r.1)) e (printed-IsText n s some_bytes),
      kept ∙ ap (λ k. take k s) (omega arith),
    )

-- The message, which `vsnprintf` writes into the zeroed array.
message-IsText :
    (output : List ℕ)
    → NoZero output
    → IsText 256 (vsnprintf (zeros 256) 256 output)
      × (text (vsnprintf (zeros 256) 256 output) ≡ take 255 output)
message-IsText output none_zero =
    let kept = take 255 output in
    let short : length kept ≤ 255 = omega (arith, length-take 255 output) in
    (
      record {
        whole = length-write_at (zeros 256) 0 (kept ++ 0 ∷ []) ∙ length-zeros 256;
        ended = get_or-write_at 256 255 kept short (omega arith);
      },
      text-write_at (zeros 256) 0 kept tt (take-NoZero 255 output none_zero)
          (omega (arith, short, length-zeros 256)),
    )

-- The words that a built entry takes over fit their fields.
pub record FitWords (level line : ℕ) (os : BuildCalls) : Type 0 where
  pub pid : os.pid < 2 ^ 32
  pub tid : os.tid < 2 ^ 32
  pub small_level : level < 256
  pub small_line : line < 2 ^ 32

-- What `silogBuildEntry` stores of the message, the tag and the file's name.
pub record Built (level : ℕ) (tag file : List ℕ) (line : ℕ) (output : List ℕ) (e : LogEntry)
    : Type 0 where
  pub terminated : IsText 32 e.tag × (IsText 64 e.file × IsText 256 e.msg)
  pub texts :
      (text e.tag ≡ take 31 tag) × ((text e.file ≡ take 63 file) × (text e.msg ≡ take 255 output))
  pub words : (e.level ≡ level) × (e.line ≡ line)
  pub measured : e.msg_len ≡ length output % 2 ^ 16
  pub valid : IsEntry e
  pub kept : length output ≤ 255 → read_back e ≡ record e { ts = read_ts e.ts }

-- For a message, a tag and a file's name without 0 bytes that can all be formatted, and words that fit: the entry is built.
-- Its arrays hold the texts, cut off to 31, 63 and 255 bytes and terminated. `msgLen` is the length of the whole
-- message modulo 2 ^ 16, also where the stored text is shorter; the entry is one that the wire format
-- sends, and for a message of at most 255 bytes every field but the time is read back as it was built.
pub build_entry-Built :
    (level line : ℕ) (tag file output : List ℕ) (os : BuildCalls)
    → os.message ≡ some output
    → os.tag_ok ≡ true
    → os.file_ok ≡ true
    → NoZero tag
    → NoZero file
    → NoZero output
    → FitWords level line os
    → (e : LogEntry) × (build_entry level tag file line os ≡ (ok, some e))
      × Built level tag file line output e
unfolding build_entry assemble
build_entry-Built level line tag file output os m tag_good file_good no_tag no_file no_output fit =
    let (tag_left, tag_same, tag_text, tag_kept) = store_text-IsText 32 tag (omega arith) no_tag in
    let (file_left, file_same, file_text, file_kept) =
      store_text-IsText 64 file (omega arith) no_file in
    let (msg_text, msg_kept) = message-IsText output no_output in
    let msg = vsnprintf (zeros 256) 256 output in
    let e : LogEntry = record {
      ts = get_now_ms os.clock;
      pid = os.pid;
      tid = os.tid;
      level = level;
      tag = tag_left;
      file = file_left;
      line = line;
      msg = msg;
      msg_len = length output % 2 ^ 16;
      enabled = 1;
    } in
    (
      e,
      ap
            (λ t.
              assemble level line os t (store_text 32 os.tag_ok tag)
                (store_text 64 os.file_ok file))
            m
          ∙ (ap (λ t. assemble level line os (some output) t (store_text 64 os.file_ok file))
                (ap (λ t. store_text 32 t tag) tag_good ∙ tag_same)
              ∙ ap (assemble level line os (some output) (some tag_left))
                  (ap (λ t. store_text 64 t file) file_good ∙ file_same)),
      record {
        terminated = (tag_text, (file_text, msg_text));
        texts = (tag_kept, (file_kept, msg_kept));
        words = (refl, refl);
        measured = refl;
        valid = record {
          ts = get_now_ms-bound os.clock;
          pid = fit.pid;
          tid = fit.tid;
          line = fit.small_line;
          tag = tag_text;
          file = file_text;
          msg = msg_text;
        };
        kept = λ short.
            let low : level % 256 ≡ level = omega (arith, fit.small_level) in
            let same : strlen msg ≡ length output % 2 ^ 16 =
              omega (arith, length-text msg, ap length msg_kept, length-take 255 output, short) in
            λ i. record e { ts = read_ts e.ts; level = low i; msg_len = same i; enabled = 1 };
      },
    )
