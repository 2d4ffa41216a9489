-- ===== src/Daemon/Line.antt =====
-- The line that silog_dae/src/silog_daemon.c writes for an entry.
use si_log.Base.{
  ℕ, zero, suc, ◌+◌, ◌≤◌, ◌<◌, ◌≡◌, ◌∙◌, refl, ap, sym, true, false, some, List, [], ◌∷◌, ◌++◌,
  length, length-append, take, get_or, ltb, arith,
}
use si_log.Entry.{LogEntry, IsText, strlen}
use si_log.Securec.Format.{snprintf_s, snprintf_s-text}
use si_log.Securec.Text.Arrays.{
  text, NoZero, take-length-text, no_zero, no_zero-NoZero, take_all, text-NoZero, append-NoZero,
  length-text,
}
use si_log.Base.Int.{pos}
use si_log.Time.{level_to_name, format_wall_clock_ms}
use si_log.Time.Clock.{format_wall_clock_ms-IsLeft}
use si_log.Daemon.{Platform, line_of, or_empty, bytes_to_write}

-- The three arrays of an entry are terminated.
pub record IsTerminated (e : LogEntry) : Type 0 where
  pub tag : IsText 32 e.tag
  pub file : IsText 64 e.file
  pub msg : IsText 256 e.msg

-- A text of at most `n` characters.
pub record IsPiece (n : ℕ) (s : List ℕ) : Type 0 where
  pub short : length s ≤ n
  pub no_end : NoZero s

-- The decimal numbers of the C library have at most eleven characters, and none is 0.
pub record PrintsNumbers (p : Platform) : Type 0 where
  pub signed : (n : ℕ) → IsPiece 11 (p.signed n)
  pub unsigned : (n : ℕ) → IsPiece 11 (p.unsigned n)

strlen-ends : (s : List ℕ) (k : ℕ) → get_or s k 1 ≡ 0 → strlen s ≤ k
strlen-ends [] k h = absurd (omega (arith, h))
strlen-ends (c ∷ s) zero h = ground (arith, h)
strlen-ends (c ∷ s) (suc k) h = ground (arith, strlen-ends s k h)

append-IsPiece : (m n : ℕ) (s t : List ℕ) → IsPiece m s → IsPiece n t → IsPiece (m + n) (s ++ t)
append-IsPiece m n s t p q = record {
  short = omega (arith, length-append s t, p.short, q.short);
  no_end = append-NoZero s t p.no_end q.no_end;
}

named : (s : List ℕ) → length s ≤ 7 → no_zero s ≡ true → IsPiece 7 s
named s le h = record { short = le; no_end = no_zero-NoZero s h }

level_to_name-IsPiece : (level : ℕ) → IsPiece 7 (level_to_name level)
unfolding level_to_name
level_to_name-IsPiece zero = named (level_to_name 0) (omega arith) refl
level_to_name-IsPiece (suc zero) = named (level_to_name 1) (omega arith) refl
level_to_name-IsPiece (suc (suc zero)) = named (level_to_name 2) (omega arith) refl
level_to_name-IsPiece (suc (suc (suc zero))) = named (level_to_name 3) (omega arith) refl
level_to_name-IsPiece (suc (suc (suc (suc zero)))) = named (level_to_name 4) (omega arith) refl
level_to_name-IsPiece (suc (suc (suc (suc (suc n))))) =
    named (level_to_name (suc (suc (suc (suc (suc n)))))) (omega arith) refl

text-IsPiece : (n : ℕ) (s : List ℕ) → strlen s ≤ n → IsPiece n (text s)
text-IsPiece n s h = record { short = omega (arith, length-text s); no_end = text-NoZero s }

literal-IsPiece : (s : List ℕ) → no_zero s ≡ true → IsPiece (length s) s
literal-IsPiece s h = record { short = omega arith; no_end = no_zero-NoZero s h }

-- Fixed characters, a text and what follows.
parts-IsPiece :
    {m n : ℕ} {s rest : List ℕ} (fixed : List ℕ)
    → no_zero fixed ≡ true
    → IsPiece m s
    → IsPiece n rest
    → IsPiece (length fixed + (m + n)) (fixed ++ (s ++ rest))
parts-IsPiece {m} {n} {s} {rest} fixed h p q =
    append-IsPiece (length fixed) (m + n) fixed (s ++ rest) (literal-IsPiece fixed h)
      (append-IsPiece m n s rest p q)

-- The line of an entry with terminated arrays has at most 442 characters.
pub line_of-IsPiece :
    (p : Platform) (time : List ℕ) (e : LogEntry)
    → PrintsNumbers p
    → strlen time < 32
    → IsTerminated e
    → IsPiece 442 (line_of p time e)
unfolding line_of
line_of-IsPiece p time e nums ends t =
    let tag = text-IsPiece 31 e.tag (strlen-ends e.tag 31 t.tag.ended) in
    let file = text-IsPiece 63 e.file (strlen-ends e.file 63 t.file.ended) in
    let msg = text-IsPiece 255 e.msg (strlen-ends e.msg 255 t.msg.ended) in
    let bracket : List ℕ = b']' ∷ b'[' ∷ [] in
    let number =
      parts-IsPiece (b':' ∷ []) refl (nums.unsigned e.line)
        (parts-IsPiece (b']' ∷ b' ' ∷ []) refl msg (literal-IsPiece (b'\n' ∷ []) refl)) in
    let names = parts-IsPiece bracket refl tag (parts-IsPiece bracket refl file number) in
    let tid =
      parts-IsPiece (b' ' ∷ b't' ∷ b'i' ∷ b'd' ∷ b':' ∷ []) refl (nums.signed e.tid) names in
    let pid =
      parts-IsPiece (b']' ∷ b'[' ∷ b'p' ∷ b'i' ∷ b'd' ∷ b':' ∷ []) refl (nums.signed e.pid) tid in
    let level = parts-IsPiece bracket refl (level_to_name-IsPiece e.level) pid in
    parts-IsPiece (b'[' ∷ []) refl (text-IsPiece 31 time (omega arith)) level

pub line_of-pos : (p : Platform) (time : List ℕ) (e : LogEntry) → 0 < length (line_of p time e)
unfolding line_of
line_of-pos p time e = omega arith

-- Where the entry's arrays are terminated, the buffer of 512 bytes takes the whole line, and what is handed over
-- are exactly its bytes.
pub logbuf-line :
    (p : Platform) (time logbuf : List ℕ) (e : LogEntry)
    → PrintsNumbers p
    → strlen time < 32
    → length logbuf ≡ 512
    → IsTerminated e
    → (left : List ℕ) × (snprintf_s (some logbuf) 512 511 true (some (line_of p time e))
        ≡ (pos (length (line_of p time e)), some left))
      × (bytes_to_write (length (line_of p time e)) left ≡ line_of p time e)
unfolding bytes_to_write
logbuf-line p time logbuf e nums ends whole t =
    let piece = line_of-IsPiece p time e nums ends t in
    let line = line_of p time e in
    let (left, printed, kept) =
      snprintf_s-text logbuf line 512 511 (omega arith) (omega (arith, whole)) piece.no_end in
    let all : text left ≡ line = kept ∙ take_all 511 line (omega (arith, piece.short)) in
    let short : ltb 512 (length line) ≡ false = ground (arith, piece.short) in
    (
      left,
      printed,
      rw short (ap (λ l. take (length l) left) (sym all) ∙ (take-length-text left ∙ all)),
    )

-- The time text that a round prints.
abbrev pub time_of : Platform → LogEntry → List ℕ → List ℕ
time_of p e timebuf =
    or_empty (format_wall_clock_ms p.localtime p.print_time e.ts (some timebuf) 32)

pub time_of-ends :
    (p : Platform) (e : LogEntry) (timebuf : List ℕ)
    → length timebuf ≡ 32
    → strlen (time_of p e timebuf) < 32
unfolding or_empty
time_of-ends p e timebuf whole =
    let left =
      format_wall_clock_ms-IsLeft p.localtime p.print_time e.ts timebuf 32 (omega arith) whole in
    rw left.there left.ends
