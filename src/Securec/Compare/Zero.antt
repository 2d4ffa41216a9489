-- ===== src/Securec/Compare/Zero.antt =====
-- When `strcmp_s` and `strncmp_s` of silog_comm/src/silog_securec.c store 0.
use si_log.Base.{
  ℕ, zero, suc, ◌≤◌, ◌<◌, ◌≡◌, ◌↔◌, ◌∙◌, refl, ap, sym, true, false, Option, some, List, [], ◌∷◌,
  ◌++◌, ltb, ◌==◌, if◌then◌else◌, length, take, Bool-cases, inl, inr, arith,
}
use si_log.Base.Int.{ℤ, pos, negsuc}
use si_log.Securec.{Errno, eok}
use si_log.Securec.Text.{strnlen}
use si_log.Securec.Text.Arrays.{prefix, length-prefix, take-strnlen}
use si_log.Securec.Compare.{
  memcmp, is_zero, compare_texts, compare_starts, compare_pointers, strcmp_s, strncmp_s,
}

memcmp-same : (xs ys : List ℕ) (n : ℕ) → take n xs ≡ take n ys → memcmp xs ys n ≡ pos 0
memcmp-same xs ys zero e = refl
memcmp-same [] ys (suc n) e = refl
memcmp-same (x ∷ xs) [] (suc n) e = refl
memcmp-same (x ∷ xs) (y ∷ ys) (suc n) e =
    let head : x ≡ y = cc in
    let tail : take n xs ≡ take n ys = cc in ground (arith, head, memcmp-same xs ys n tail)

same-memcmp :
    (xs ys : List ℕ) (n : ℕ)
    → n ≤ length xs
    → n ≤ length ys
    → memcmp xs ys n ≡ pos 0
    → take n xs ≡ take n ys
same-memcmp xs ys zero h k e = refl
same-memcmp [] ys (suc n) h k e = absurd (omega arith)
same-memcmp (x ∷ xs) [] (suc n) h k e = absurd (omega arith)
same-memcmp (x ∷ xs) (y ∷ ys) (suc n) h k e =
    let head : x ≡ y = ground arith in
    let rest : memcmp xs ys n ≡ pos 0 = ground arith in
    let tail = same-memcmp xs ys n (omega arith) (omega arith) rest in cc

strnlen-le : (s : List ℕ) (n : ℕ) → strnlen s n ≤ length s
strnlen-le s zero = omega arith
strnlen-le [] (suc n) = omega arith
strnlen-le (c ∷ s) (suc n) = ground (arith, strnlen-le s n)

is_zero_lem : (z : ℤ) → is_zero z ≡ true → z ≡ pos 0
is_zero_lem (pos zero) e = refl
is_zero_lem (pos (suc n)) e = cc
is_zero_lem (negsuc n) e = cc

zero_is : (z : ℤ) → z ≡ pos 0 → is_zero z ≡ true
zero_is z e = ap is_zero e

-- The two parts of the result of `compare_texts`.
compare_texts-split :
    (cmp : ℤ) (a b : ℕ)
    → (if is_zero cmp
        then (if ltb a b then negsuc 0 else (if ltb b a then pos 1 else pos 0))
        else cmp)
      ≡ pos 0
    → (cmp ≡ pos 0) × (a ≡ b)
compare_texts-split (pos zero) a b e = (refl, ground arith)
compare_texts-split (pos (suc n)) a b e = absurd cc
compare_texts-split (negsuc n) a b e = absurd cc

compare_texts-same :
    (s1 s2 : List ℕ) (m1 m2 : ℕ) → compare_texts s1 m1 s2 m2 ≡ pos 0 → prefix s1 m1 ≡ prefix s2 m2
unfolding compare_texts
compare_texts-same s1 s2 m1 m2 e =
    let n = (if ltb (strnlen s1 m1) (strnlen s2 m2) then strnlen s1 m1 else strnlen s2 m2) in
    let (same, lengths) = compare_texts-split (memcmp s1 s2 n) (strnlen s1 m1) (strnlen s2 m2) e in
    let at : n ≡ strnlen s1 m1 = ground (arith, lengths) in
    let le1 : n ≤ length s1 = omega (arith, at, strnlen-le s1 m1) in
    let le2 : n ≤ length s2 = omega (arith, at, lengths, strnlen-le s2 m2) in
    sym (take-strnlen s1 m1)
    ∙ (ap (λ k. take k s1) (sym at)
        ∙ (same-memcmp s1 s2 n le1 le2 same
            ∙ (ap (λ k. take k s2) (at ∙ lengths) ∙ take-strnlen s2 m2)))

same-compare_texts :
    (s1 s2 : List ℕ) (m1 m2 : ℕ) → prefix s1 m1 ≡ prefix s2 m2 → compare_texts s1 m1 s2 m2 ≡ pos 0
unfolding compare_texts
same-compare_texts s1 s2 m1 m2 e =
    let lengths : strnlen s1 m1 ≡ strnlen s2 m2 =
      sym (length-prefix s1 m1) ∙ (ap length e ∙ length-prefix s2 m2) in
    let same : take (strnlen s2 m2) s1 ≡ take (strnlen s2 m2) s2 =
      ap (λ k. take k s1) (sym lengths) ∙ (take-strnlen s1 m1 ∙ (e ∙ sym (take-strnlen s2 m2))) in
    let zero_there = memcmp-same s1 s2 (strnlen s2 m2) same in
    let not_less : ltb (strnlen s2 m2) (strnlen s2 m2) ≡ false = ground arith in
    rw (lengths, not_less, zero_there) refl

take-prefix : (s : List ℕ) (m n : ℕ) → n ≤ strnlen s m → take n s ≡ take n (prefix s m)
take-prefix s m zero h = refl
take-prefix s zero (suc n) h = absurd (omega arith)
take-prefix [] (suc m) (suc n) h = refl
take-prefix (c ∷ s) (suc m) (suc n) h = elim (Bool-cases (c == 0)) [
  | inl end ↦ absurd (ground arith)
  | inr more ↦ rw more (ap (λ l. c ∷ l) (take-prefix s m n (ground arith)))
]

take-append : (n : ℕ) (xs ys : List ℕ) → n ≤ length xs → take n (xs ++ ys) ≡ take n xs
take-append zero xs ys h = refl
take-append (suc n) [] ys h = absurd (omega arith)
take-append (suc n) (x ∷ xs) ys h = ap (λ l. x ∷ l) (take-append n xs ys (omega arith))

compare_starts-prefix :
    (s1 s2 : List ℕ) (m1 m2 count : ℕ) (rest : List ℕ)
    → prefix s1 m1 ≡ prefix s2 m2 ++ rest
    → compare_starts s1 m1 s2 m2 count ≡ pos 0
unfolding compare_starts
compare_starts-prefix s1 s2 m1 m2 count rest e =
    let first = (if ltb (strnlen s1 m1) count then strnlen s1 m1 else count) in
    let n = (if ltb (strnlen s2 m2) first then strnlen s2 m2 else first) in
    let le1 : n ≤ strnlen s1 m1 = ground arith in
    let le2 : n ≤ strnlen s2 m2 = ground arith in
    memcmp-same s1 s2 n (
      take-prefix s1 m1 n le1
      ∙ (ap (take n) e
          ∙ (take-append n (prefix s2 m2) rest (omega (arith, length-prefix s2 m2))
              ∙ sym (take-prefix s2 m2 n le2))))

strcmp_s-both :
    (s1 s2 : List ℕ) (m1 m2 : ℕ)
    → 0 < m1
    → 0 < m2
    → strcmp_s (some s1) m1 (some s2) m2 true ≡ (eok, some (compare_texts s1 m1 s2 m2))
unfolding strcmp_s compare_pointers
strcmp_s-both s1 s2 m1 m2 h k = ground arith

strncmp_s-both :
    (s1 s2 : List ℕ) (m1 m2 count : ℕ)
    → 0 < m1
    → 0 < m2
    → strncmp_s (some s1) m1 (some s2) m2 count true
      ≡ (eok, some (compare_starts s1 m1 s2 m2 count))
unfolding strncmp_s compare_pointers
strncmp_s-both s1 s2 m1 m2 count h k = ground arith

stored : {a b : ℤ} → ◌≡◌ {A = Errno × Option ℤ} (eok, some a) (eok, some b) → a ≡ b
stored e = cc

-- For two arrays that may be read, `strcmp_s` stores 0 exactly if the texts among their first `str1Max`
-- and `str2Max` bytes are the same.
pub strcmp_s-zero :
    (s1 s2 : List ℕ) (m1 m2 : ℕ)
    → 0 < m1
    → 0 < m2
    → (strcmp_s (some s1) m1 (some s2) m2 true ≡ (eok, some (pos 0)))
      ↔ (prefix s1 m1 ≡ prefix s2 m2)
strcmp_s-zero s1 s2 m1 m2 h k =
    let e = strcmp_s-both s1 s2 m1 m2 h k in
    (
      (λ z. compare_texts-same s1 s2 m1 m2 (stored (sym e ∙ z))),
      (λ same. e ∙ ap (λ z. (eok, some z)) (same-compare_texts s1 s2 m1 m2 same)),
    )

-- `strncmp_s` stores 0 also where one text is only a beginning of the other and `count` goes on behind
-- it: for every `count`, if the second text is a beginning of the first.
pub strncmp_s-prefix :
    (s1 s2 : List ℕ) (m1 m2 count : ℕ) (rest : List ℕ)
    → 0 < m1
    → 0 < m2
    → prefix s1 m1 ≡ prefix s2 m2 ++ rest
    → strncmp_s (some s1) m1 (some s2) m2 count true ≡ (eok, some (pos 0))
strncmp_s-prefix s1 s2 m1 m2 count rest h k e =
    strncmp_s-both s1 s2 m1 m2 count h k
    ∙ ap (λ z. (eok, some z)) (compare_starts-prefix s1 s2 m1 m2 count rest e)
