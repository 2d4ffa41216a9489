-- ===== src/Securec/Format.antt =====
-- The formatted output and input of silog_comm/src/silog_securec.c. What the C library formats is a
-- parameter: the whole text, or `none` where `vsnprintf` fails.
use Prim.Native.Nat.{min}
use si_log.Base.{
  ℕ, zero, suc, ◌+◌, ◌-◌, ◌≤◌, ◌<◌, ◌≡◌, ◌∙◌, refl, ap, sym, Bool-cases, inl, inr, length-set, Bool,
  true, false, not, ◌&&◌, ◌||◌, Option, none, some, List, [], ◌∷◌, ◌++◌, ltb, leb, ◌==◌,
  if◌then◌else◌, take, drop, set, length, length-append, length-take, arith,
}
use mathlib.Core.List.{append_assoc}
use si_log.Base.Int.{ℤ, pos, negsuc}
use si_log.Securec.Text.{write_at}
use si_log.Securec.Text.Arrays.{text, NoZero, write_at-start, length-write_at, take-NoZero}

-- `vsnprintf(dest, n, …)`, with 0 < n, of a text that could be formatted.
abbrev pub vsnprintf : List ℕ → ℕ → List ℕ → List ℕ
vsnprintf dest n output = write_at dest 0 (take (n - 1) output ++ 0 ∷ [])

-- `sprintf_s`; `has_format` says that the format is not NULL.
pub sprintf_s : Option (List ℕ) → ℕ → Bool → Option (List ℕ) → ℤ × Option (List ℕ)
sprintf_s none dest_max has_format printed = (negsuc 0, none)
sprintf_s (some dest) dest_max false printed =
    if dest_max == 0 then (negsuc 0, some dest) else (negsuc 0, some (set dest 0 0))
sprintf_s (some dest) dest_max true none =
    if dest_max == 0 then (negsuc 0, some dest) else (negsuc 0, some (set dest 0 0))
sprintf_s (some dest) dest_max true (some output) =
    if dest_max == 0
    then (negsuc 0, some dest)
    else (if leb dest_max (length output)
        then (negsuc 0, some (set (vsnprintf dest dest_max output) 0 0))
        else (pos (length output), some (vsnprintf dest dest_max output)))

-- `snprintf_s`
unfoldable pub snprintf_s : Option (List ℕ) → ℕ → ℕ → Bool → Option (List ℕ) → ℤ × Option (List ℕ)
snprintf_s none dest_max count has_format printed = (negsuc 0, none)
snprintf_s (some dest) dest_max count false printed =
    if dest_max == 0 then (negsuc 0, some dest) else (negsuc 0, some (set dest 0 0))
snprintf_s (some dest) dest_max count true none =
    if dest_max == 0 then (negsuc 0, some dest) else (negsuc 0, some (set dest 0 0))
snprintf_s (some dest) dest_max count true (some output) =
    let max_write = if ltb count (dest_max - 1) then count else dest_max - 1 in
    if dest_max == 0
    then (negsuc 0, some dest)
    else (pos (length output), some (set (vsnprintf dest (max_write + 1) output) max_write 0))

-- `vsprintf_s`
pub vsprintf_s : Option (List ℕ) → ℕ → Bool → Option (List ℕ) → ℤ × Option (List ℕ)
vsprintf_s dest dest_max has_format printed = sprintf_s dest dest_max has_format printed

-- `vsnprintf_s`
pub vsnprintf_s : Option (List ℕ) → ℕ → ℕ → Bool → Option (List ℕ) → ℤ × Option (List ℕ)
vsnprintf_s dest dest_max count has_format printed =
    snprintf_s dest dest_max count has_format printed

-- `vsscanf_s_internal`, where `vsscanf` answers `scanned`; -1 is `EOF`.
pub vsscanf_s_internal : Bool → Bool → ℤ → ℤ
vsscanf_s_internal has_buffer has_format scanned =
    if has_buffer && has_format then scanned else negsuc 0

-- `sscanf_s`
pub sscanf_s : Bool → ℕ → Bool → ℤ → ℤ
sscanf_s has_buffer buffer_size has_format scanned =
    if not has_buffer || not has_format
    then negsuc 0
    else vsscanf_s_internal has_buffer has_format scanned

-- `vsscanf_s`
pub vsscanf_s : Bool → ℕ → Bool → ℤ → ℤ
vsscanf_s has_buffer buffer_size has_format scanned =
    if not has_buffer || not has_format
    then negsuc 0
    else vsscanf_s_internal has_buffer has_format scanned

-- `vfscanf_s`, where `vfscanf` answers `scanned`.
pub vfscanf_s : Bool → Bool → ℤ → ℤ
vfscanf_s has_stream has_format scanned =
    if not has_stream || not has_format then negsuc 0 else scanned

-- `fscanf_s`
pub fscanf_s : Bool → Bool → ℤ → ℤ
fscanf_s has_stream has_format scanned =
    if not has_stream || not has_format then negsuc 0 else vfscanf_s has_stream has_format scanned

-- `vscanf_s`, where `vscanf` answers `scanned`.
pub vscanf_s : Bool → ℤ → ℤ
vscanf_s has_format scanned = if not has_format then negsuc 0 else scanned

-- `scanf_s`
pub scanf_s : Bool → ℤ → ℤ
scanf_s has_format scanned = if not has_format then negsuc 0 else vscanf_s has_format scanned

-- A second 0 behind the end of a text changes nothing of the text.
text-set : (xs ys : List ℕ) (k : ℕ) → NoZero xs → length xs ≤ k → text (set (xs ++ 0 ∷ ys) k 0) ≡ xs
text-set [] ys zero h le = refl
text-set [] ys (suc k) h le = refl
text-set (x ∷ xs) ys zero h le = absurd (omega arith)
text-set (x ∷ xs) ys (suc k) h le = ground (arith, h.0, text-set xs ys k h.1 (omega arith))

text-vsnprintf :
    (dest output : List ℕ) (n : ℕ)
    → NoZero output
    → n < length dest
    → text (set (vsnprintf dest (n + 1) output) n 0) ≡ take n output
text-vsnprintf dest output n none_zero room =
    let n' : n + 1 - 1 ≡ n = omega arith in
    let kept = take n output in
    let shape : write_at dest 0 (take (n + 1 - 1) output ++ 0 ∷ [])
        ≡ kept ++ 0 ∷ drop (length (kept ++ 0 ∷ [])) dest =
      ap (λ k. write_at dest 0 (take k output ++ 0 ∷ [])) n'
      ∙ (write_at-start dest (kept ++ 0 ∷ [])
            (omega (arith, length-append kept (0 ∷ []), length-take n output))
          ∙ append_assoc kept (0 ∷ []) (drop (length (kept ++ 0 ∷ [])) dest)) in
    ap (λ l. text (set l n 0)) shape
    ∙ text-set kept (drop (length (kept ++ 0 ∷ [])) dest) n (take-NoZero n output none_zero)
        (omega (arith, length-take n output))

-- `snprintf_s` into an array of at least `dest_max` bytes, more than none, leaves the first
-- min(count, dest_max - 1) bytes of the text as a terminated text, and answers the length of the whole
-- text, also where it was cut off.
pub snprintf_s-text :
    (dest output : List ℕ) (dest_max count : ℕ)
    → 0 < dest_max
    → dest_max ≤ length dest
    → NoZero output
    → (left : List ℕ) × (snprintf_s (some dest) dest_max count true (some output)
        ≡ (pos (length output), some left))
      × (text left ≡ take (min count (dest_max - 1)) output)
unfolding snprintf_s
snprintf_s-text dest output dest_max count h room none_zero =
    let max_write = if ltb count (dest_max - 1) then count else dest_max - 1 in
    let at : max_write ≡ min count (dest_max - 1) = ground arith in
    let some_bytes : (dest_max == 0) ≡ false = ground arith in
    (
      set (vsnprintf dest (max_write + 1) output) max_write 0,
      rw some_bytes refl,
      text-vsnprintf dest output max_write none_zero (omega (arith, at))
          ∙ ap (λ k. take k output) at,
    )

abbrev left_in : List ℕ → Option (List ℕ) → List ℕ
left_in dest none = dest
left_in dest (some left) = left

snprintf_s-kept :
    (dest output : List ℕ) (dest_max count : ℕ)
    → length (left_in dest (snprintf_s (some dest) dest_max count true (some output)).1)
      ≡ length dest
unfolding snprintf_s
snprintf_s-kept dest output dest_max count =
    let max_write = if ltb count (dest_max - 1) then count else dest_max - 1 in
    let kept = take (max_write + 1 - 1) output ++ 0 ∷ [] in
    elim (Bool-cases (dest_max == 0)) [
      | inl no_bytes ↦ rw no_bytes refl
      | inr some_bytes ↦
          rw some_bytes
            (length-set (write_at dest 0 kept) max_write 0 ∙ length-write_at dest 0 kept)
    ]

-- `snprintf_s` keeps the length of the array.
pub length-snprintf_s :
    (dest output : List ℕ) (dest_max count : ℕ) {code : ℤ} {left : List ℕ}
    → snprintf_s (some dest) dest_max count true (some output) ≡ (code, some left)
    → length left ≡ length dest
length-snprintf_s dest output dest_max count e =
    ap (λ (r : ℤ × Option (List ℕ)). length (left_in dest r.1)) (sym e)
    ∙ snprintf_s-kept dest output dest_max count
