-- ===== src/Time/Clock.antt =====
-- The clock and the time text of silog_comm/src/silog_time.c.
use si_log.Base.{
  ℕ, zero, suc, ◌+◌, ◌-◌, ◌*◌, ◌/◌, ◌%◌, ◌^◌, ◌≤◌, ◌<◌, ◌≡◌, ◌∙◌, refl, Option, none, some, List,
  [], ◌∷◌, ◌++◌, length, set, take, Option-cases, Bool-cases, inl, inr, ltb, true, false, ◌==◌,
  if◌then◌else◌, arith, length-set,
}
use si_log.Base.Int.{is_negative}
use si_log.Entry.{strlen}
use si_log.Base.Word.{add32}
use si_log.Securec.Format.{snprintf_s, vsnprintf}
use si_log.Securec.Text.Arrays.{length-write_at}
use si_log.Time.{Timespec, Tm, get_now_ms, get_mono_ms, end_at, format_wall_clock_ms}

-- For nanoseconds below 10 ^ 9, as `clock_gettime` gives them, and a time that fits 64 bits, both clocks answer the
-- whole seconds only: the milliseconds of the time are lost.
get_now_ms-seconds :
    (t : Timespec)
    → t.nsec < 10 ^ 9
    → t.sec * 1000 < 2 ^ 64
    → (get_now_ms (some t) ≡ t.sec * 1000) × (get_mono_ms (some t) ≡ t.sec * 1000)
unfolding get_now_ms get_mono_ms
get_now_ms-seconds t small fits = (omega arith, omega arith)

pub get_now_ms-bound : (clock : Option Timespec) → get_now_ms clock < 2 ^ 64
unfolding get_now_ms
get_now_ms-bound none = omega arith
get_now_ms-bound (some t) = omega arith

strlen-set : (s : List ℕ) (k : ℕ) → k < length s → strlen (set s k 0) ≤ k
strlen-set [] k h = absurd (omega arith)
strlen-set (c ∷ s) zero h = omega arith
strlen-set (c ∷ s) (suc k) h = ground (arith, strlen-set s k (omega arith))

-- A text that ends inside the buffer.
pub record IsLeft (n : ℕ) (left : Option (List ℕ)) : Type 0 where
  pub buffer : List ℕ
  pub there : left ≡ some buffer
  pub whole : length buffer ≡ n
  pub ends : strlen buffer < n

ended : (n k : ℕ) (d : List ℕ) → length d ≡ n → k < n → IsLeft n (some (set d k 0))
ended n k d whole inside = record {
  buffer = set d k 0;
  there = refl;
  whole = length-set d k 0 ∙ whole;
  ends = omega (arith, strlen-set d k (omega arith));
}

printed-IsLeft :
    (n : ℕ) (d : List ℕ) (printed : Option (List ℕ))
    → length d ≡ n
    → 0 < n
    → (let r = snprintf_s (some d) n (n - 1) true printed in
        IsLeft n (if is_negative r.0 then end_at (n - 1) r.1 else r.1))
unfolding snprintf_s end_at
printed-IsLeft n d none whole some_bytes =
    let not_empty : (n == 0) ≡ false = ground arith in
    rw not_empty (ended n (n - 1) (set d 0 0) (length-set d 0 0 ∙ whole) (omega arith))
printed-IsLeft n d (some output) whole some_bytes =
    let not_empty : (n == 0) ≡ false = ground arith in
    let max_write = if ltb (n - 1) (n - 1) then n - 1 else n - 1 in
    rw not_empty (
      ended n max_write (vsnprintf d (max_write + 1) output)
        (length-write_at d 0 (take (max_write + 1 - 1) output ++ 0 ∷ []) ∙ whole) (ground arith))

-- Into a buffer of `n` bytes, more than none, every answer of the C library leaves a text that ends there.
pub format_wall_clock_ms-IsLeft :
    (localtime : ℕ → Option Tm) (print : List ℕ → Option (List ℕ)) (input_ms : ℕ) (buffer : List ℕ)
    (n : ℕ)
    → 0 < n
    → length buffer ≡ n
    → IsLeft n (format_wall_clock_ms localtime print input_ms (some buffer) n)
unfolding format_wall_clock_ms
format_wall_clock_ms-IsLeft localtime print input_ms buffer n some_bytes whole =
    let not_empty : (n == 0) ≡ false = ground arith in
    elim (Bool-cases (ltb (2 ^ 63 - 1) (input_ms / 1000))) [
      | inl late ↦ rw (not_empty, late) (ended n 0 buffer whole some_bytes)
      | inr early ↦ elim (Option-cases (localtime (input_ms / 1000))) [
        | inl no_time ↦ rw (not_empty, early, no_time) (ended n 0 buffer whole some_bytes)
        | inr (tm, e) ↦
            rw (not_empty, early, e)
              (printed-IsLeft n (set buffer 0 0)
                (print (
                  add32 tm.year 1900
                  ∷ add32 tm.month 1
                  ∷ tm.day
                  ∷ tm.hour
                  ∷ tm.minute
                  ∷ tm.second
                  ∷ input_ms % 1000
                  ∷ []))
                (length-set buffer 0 0 ∙ whole) some_bytes)
      ]
    ]
