-- ===== src/Securec/Compare.antt =====
-- `strcmp_s` and `strncmp_s` of silog_comm/src/silog_securec.c. An array is the list of its bytes, `none` for
-- NULL. Of what `memcmp` answers only the sign is specified: it is -1, 0 or 1 here.
pub mod Zero
use Prim.Native.Nat.{min}
use si_log.Base.{
  ℕ, zero, suc, ◌+◌, ◌≤◌, ◌<◌, ◌≡◌, ◌≢◌, ◌↔◌, ◌∙◌, refl, ap, sym, Bool, true, false, Option, none,
  some, List, [], ◌∷◌, ◌++◌, ltb, leb, ◌==◌, ◌||◌, if◌then◌else◌, length, length-append, take,
  Bool-cases, inl, inr, arith,
}
use si_log.Base.Int.{ℤ, pos, negsuc}
use si_log.Securec.{Errno, eok, einval}
use si_log.Securec.Text.{strnlen}
use si_log.Securec.Text.Arrays.{prefix, length-prefix, take-strnlen}

-- The C library's `memcmp`.
abbrev pub memcmp : List ℕ → List ℕ → ℕ → ℤ
memcmp xs ys zero = pos 0
memcmp [] ys (suc n) = pos 0
memcmp (x ∷ xs) [] (suc n) = pos 0
memcmp (x ∷ xs) (y ∷ ys) (suc n) =
    let rest = memcmp xs ys n in if ltb x y then negsuc 0 else (if ltb y x then pos 1 else rest)

abbrev pub is_zero : ℤ → Bool
is_zero (pos zero) = true
is_zero (pos (suc n)) = false
is_zero (negsuc n) = false

-- A text that is NULL or of which no byte may be read.
abbrev absent : Option (List ℕ) → ℕ → Bool
absent none str_max = true
absent (some str) str_max = str_max == 0

-- `strcmp_s` of two arrays that may be read.
pub compare_texts : List ℕ → ℕ → List ℕ → ℕ → ℤ
compare_texts str1 max1 str2 max2 =
    let len1 = strnlen str1 max1 in
    let len2 = strnlen str2 max2 in
    let cmp = memcmp str1 str2 (if ltb len1 len2 then len1 else len2) in
    if is_zero cmp
    then (if ltb len1 len2 then negsuc 0 else (if ltb len2 len1 then pos 1 else pos 0))
    else cmp

-- `strncmp_s` of two arrays that may be read.
pub compare_starts : List ℕ → ℕ → List ℕ → ℕ → ℕ → ℤ
compare_starts str1 max1 str2 max2 count =
    let len1 = strnlen str1 max1 in
    let len2 = strnlen str2 max2 in
    let first = if ltb len1 count then len1 else count in
    memcmp str1 str2 (if ltb len2 first then len2 else first)

-- The tests on the two pointers, before the comparison `cmp`.
pub compare_pointers : Option (List ℕ) → ℕ → Option (List ℕ) → ℕ → (List ℕ → List ℕ → ℤ) → ℤ
compare_pointers none max1 str2 max2 cmp = if absent str2 max2 then pos 0 else negsuc 0
compare_pointers (some str1) max1 none max2 cmp = if max1 == 0 then pos 0 else pos 1
compare_pointers (some str1) max1 (some str2) max2 cmp =
    if max1 == 0
    then (if max2 == 0 then pos 0 else negsuc 0)
    else (if max2 == 0 then pos 1 else cmp str1 str2)

-- `strcmp_s`: the code, and what `*result` receives; `has_result` says that it is not NULL.
pub strcmp_s : Option (List ℕ) → ℕ → Option (List ℕ) → ℕ → Bool → Errno × Option ℤ
strcmp_s str1 max1 str2 max2 false = (einval, none)
strcmp_s str1 max1 str2 max2 true =
    (eok, some (compare_pointers str1 max1 str2 max2 (λ s1 s2. compare_texts s1 max1 s2 max2)))

-- `strncmp_s`
pub strncmp_s : Option (List ℕ) → ℕ → Option (List ℕ) → ℕ → ℕ → Bool → Errno × Option ℤ
strncmp_s str1 max1 str2 max2 count false = (einval, none)
strncmp_s str1 max1 str2 max2 count true = (
  eok,
  some (compare_pointers str1 max1 str2 max2 (λ s1 s2. compare_starts s1 max1 s2 max2 count)),
)
