-- ===== src/Securec/Text/Arrays.antt =====
-- Texts in arrays, for the functions of silog_comm/src/silog_securec.c: what a write leaves to be read.
use si_log.Base.{
  Bool, true, false, ℕ, zero, suc, ◌+◌, ◌≤◌, ◌<◌, ◌≡◌, ◌≢◌, ◌∙◌, refl, sym, ap, List, [], ◌∷◌, ◌++◌,
  ◌==◌, if◌then◌else◌, take, drop, set, length, length-append, take-append-drop, Bool-cases, inl,
  inr, arith,
}
use mathlib.Core.List.{append_assoc}
use si_log.Entry.{strlen}
use si_log.Securec.Text.{strnlen, write_at}

-- The text in an array: its bytes before the first 0.
abbrev pub text : List ℕ → List ℕ
text [] = []
text (c ∷ s) = let rest = text s in if c == 0 then [] else c ∷ rest

-- The text among the first `n` bytes.
abbrev pub prefix : List ℕ → ℕ → List ℕ
prefix s zero = []
prefix [] (suc n) = []
prefix (c ∷ s) (suc n) = let rest = prefix s n in if c == 0 then [] else c ∷ rest

abbrev pub NoZero : List ℕ → Type 0
NoZero [] = Unit
NoZero (c ∷ s) = (c ≢ 0) × NoZero s

pub prefix-NoZero : (s : List ℕ) (n : ℕ) → NoZero (prefix s n)
prefix-NoZero s zero = tt
prefix-NoZero [] (suc n) = tt
prefix-NoZero (c ∷ s) (suc n) = elim (Bool-cases (c == 0)) [
  | inl end ↦ rw end tt
  | inr more ↦ rw more ((λ e. ground arith), prefix-NoZero s n)
]

pub text-NoZero : (s : List ℕ) → NoZero (text s)
text-NoZero [] = tt
text-NoZero (c ∷ s) = elim (Bool-cases (c == 0)) [
  | inl end ↦ rw end tt
  | inr more ↦ rw more ((λ e. ground arith), text-NoZero s)
]

pub append-NoZero : (xs ys : List ℕ) → NoZero xs → NoZero ys → NoZero (xs ++ ys)
append-NoZero [] ys h k = k
append-NoZero (x ∷ xs) ys h k = (h.0, append-NoZero xs ys h.1 k)

pub length-prefix : (s : List ℕ) (n : ℕ) → length (prefix s n) ≡ strnlen s n
length-prefix s zero = refl
length-prefix [] (suc n) = refl
length-prefix (c ∷ s) (suc n) = ground (arith, length-prefix s n)

pub take-strnlen : (s : List ℕ) (n : ℕ) → take (strnlen s n) s ≡ prefix s n
take-strnlen s zero = refl
take-strnlen [] (suc n) = refl
take-strnlen (c ∷ s) (suc n) = ground (arith, take-strnlen s n)

pub length-text : (s : List ℕ) → length (text s) ≡ strlen s
length-text [] = refl
length-text (c ∷ s) = ground (arith, length-text s)

-- What `strlen(src) + 1` bytes of a terminated text are.
pub take-strlen : (s : List ℕ) → strlen s < length s → take (strlen s + 1) s ≡ text s ++ 0 ∷ []
take-strlen [] h = absurd (omega arith)
take-strlen (c ∷ s) h = elim (Bool-cases (c == 0)) [
  | inl end ↦ rw end (ap (λ b. b ∷ []) (ground arith))
  | inr more ↦
      let rest = take-strlen s (ground (arith, more)) in
      let n : suc (strlen s) + 1 ≡ suc (strlen s + 1) = omega arith in
      rw (more, n) (ap (λ l. c ∷ l) rest)
]

pub text_closed : (xs ys : List ℕ) → NoZero xs → text (xs ++ 0 ∷ ys) ≡ xs
text_closed [] ys h = refl
text_closed (x ∷ xs) ys h = ground (arith, h.0, text_closed xs ys h.1)

pub length-write_at : (d : List ℕ) (k : ℕ) (xs : List ℕ) → length (write_at d k xs) ≡ length d
length-write_at d k [] = refl
length-write_at [] k (x ∷ xs) = refl
length-write_at (y ∷ d) zero (x ∷ xs) = ap suc (length-write_at d 0 xs)
length-write_at (y ∷ d) (suc k) (x ∷ xs) = ap suc (length-write_at d k (x ∷ xs))

pub write_at-start :
    (d xs : List ℕ) → length xs ≤ length d → write_at d 0 xs ≡ xs ++ drop (length xs) d
write_at-start d [] h = refl
write_at-start [] (x ∷ xs) h = absurd (omega arith)
write_at-start (y ∷ d) (x ∷ xs) h = ap (λ l. x ∷ l) (write_at-start d xs (omega arith))

pub write_at-split :
    (d : List ℕ) (k : ℕ) (xs : List ℕ)
    → k + length xs ≤ length d
    → write_at d k xs ≡ take k d ++ (xs ++ drop (k + length xs) d)
write_at-split d zero xs h =
    write_at-start d xs (omega arith) ∙ ap (λ n. xs ++ drop n d) (omega arith)
write_at-split [] (suc k) xs h = absurd (omega arith)
write_at-split (y ∷ d) (suc k) [] h =
    let n : suc k + 0 ≡ suc k = omega arith in rw n (ap (λ l. y ∷ l) (sym (take-append-drop k d)))
write_at-split (y ∷ d) (suc k) (x ∷ xs) h =
    let n : suc k + length (x ∷ xs) ≡ suc (k + length (x ∷ xs)) = omega arith in
    rw n (ap (λ l. y ∷ l) (write_at-split d k (x ∷ xs) (omega arith)))

-- The byte behind what was written.
pub set-write_at :
    (d : List ℕ) (k : ℕ) (xs : List ℕ) (c : ℕ)
    → set (write_at d k xs) (k + length xs) c ≡ write_at d k (xs ++ c ∷ [])
set-write_at [] k [] c = refl
set-write_at (y ∷ d) zero [] c = refl
set-write_at (y ∷ d) (suc k) [] c =
    let n : suc k + 0 ≡ suc (k + 0) = omega arith in rw n (ap (λ l. y ∷ l) (set-write_at d k [] c))
set-write_at [] k (x ∷ xs) c = refl
set-write_at (y ∷ d) zero (x ∷ xs) c =
    let n : 0 + suc (length xs) ≡ suc (0 + length xs) = omega arith in
    rw n (ap (λ l. x ∷ l) (set-write_at d 0 xs c))
set-write_at (y ∷ d) (suc k) (x ∷ xs) c =
    let n : suc k + length (x ∷ xs) ≡ suc (k + length (x ∷ xs)) = omega arith in
    rw n (ap (λ l. y ∷ l) (set-write_at d k (x ∷ xs) c))

-- A text and its 0 behind the first `k` bytes, which have no 0.
pub text-write_at :
    (d : List ℕ) (k : ℕ) (xs : List ℕ)
    → NoZero (take k d)
    → NoZero xs
    → k + length xs < length d
    → text (write_at d k (xs ++ 0 ∷ [])) ≡ take k d ++ xs
text-write_at d k xs before h room =
    let rest = drop (k + length (xs ++ 0 ∷ [])) d in
    ap text (write_at-split d k (xs ++ 0 ∷ []) (omega (arith, length-append xs (0 ∷ []))))
    ∙ (ap (λ l. text (take k d ++ l)) (append_assoc xs (0 ∷ []) rest)
        ∙ (ap text (sym (append_assoc (take k d) xs (0 ∷ rest)))
            ∙ text_closed (take k d ++ xs) rest (append-NoZero (take k d) xs before h)))

-- Nothing is written from `m` on.
pub drop-write_at :
    (d : List ℕ) (k : ℕ) (xs : List ℕ) (m : ℕ)
    → k + length xs ≤ m
    → drop m (write_at d k xs) ≡ drop m d
drop-write_at d k [] m h = refl
drop-write_at [] k (x ∷ xs) m h = refl
drop-write_at (y ∷ d) zero (x ∷ xs) zero h = absurd (omega arith)
drop-write_at (y ∷ d) zero (x ∷ xs) (suc m) h = drop-write_at d 0 xs m (omega arith)
drop-write_at (y ∷ d) (suc k) (x ∷ xs) zero h = absurd (omega arith)
drop-write_at (y ∷ d) (suc k) (x ∷ xs) (suc m) h = drop-write_at d k (x ∷ xs) m (omega arith)

-- `dest[0] = 0`
pub set-first :
    (d : List ℕ) (m : ℕ)
    → 0 < m
    → (text (set d 0 0) ≡ []) × (length (set d 0 0) ≡ length d) × (drop m (set d 0 0) ≡ drop m d)
set-first [] m h = (refl, refl, refl)
set-first (y ∷ d) zero h = absurd (omega arith)
set-first (y ∷ d) (suc m) h = (refl, refl, refl)

pub take-length-text : (s : List ℕ) → take (length (text s)) s ≡ text s
take-length-text [] = refl
take-length-text (c ∷ s) = ground (arith, take-length-text s)

pub take_all : (n : ℕ) (xs : List ℕ) → length xs ≤ n → take n xs ≡ xs
take_all zero [] h = refl
take_all zero (x ∷ xs) h = absurd (omega arith)
take_all (suc n) [] h = refl
take_all (suc n) (x ∷ xs) h = ap (λ t. x ∷ t) (take_all n xs (omega arith))

-- All bytes of an array are among the first as many.
pub prefix-text : (s : List ℕ) → prefix s (length s) ≡ text s
prefix-text [] = refl
prefix-text (c ∷ s) = ground (arith, prefix-text s)

pub take-NoZero : (n : ℕ) (xs : List ℕ) → NoZero xs → NoZero (take n xs)
take-NoZero zero xs h = tt
take-NoZero (suc n) [] h = tt
take-NoZero (suc n) (x ∷ xs) h = (h.0, take-NoZero n xs h.1)

abbrev pub no_zero : List ℕ → Bool
no_zero [] = true
no_zero (c ∷ s) = let rest = no_zero s in if c == 0 then false else rest

pub no_zero-NoZero : (s : List ℕ) → no_zero s ≡ true → NoZero s
no_zero-NoZero [] h = tt
no_zero-NoZero (c ∷ s) h = elim (Bool-cases (c == 0)) [
  | inl zero_byte ↦ absurd (ground (arith, h, zero_byte))
  | inr other ↦ ((λ e. ground (arith, e, other)), no_zero-NoZero s (ground (arith, h, other)))
]
