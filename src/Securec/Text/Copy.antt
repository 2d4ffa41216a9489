-- ===== src/Securec/Text/Copy.antt =====
-- `strcpy_s` and `strncpy_s` of silog_comm/src/silog_securec.c.
use si_log.Base.{
  ℕ, ◌+◌, ◌≤◌, ◌<◌, ◌≡◌, ◌∙◌, ap, sym, true, false, Option, some, List, [], ◌∷◌, ◌++◌, leb,
  if◌then◌else◌, length, length-append, take, drop, set, Bool-cases, inl, inr, arith,
}
use si_log.Entry.{strlen}
use si_log.Securec.{Errno, eok, erange}
use si_log.Securec.Text.{strnlen, write_at, strcpy_s, strncpy_s}
use si_log.Securec.Text.Arrays.{
  text, prefix, NoZero, prefix-NoZero, text-NoZero, length-prefix, take-strnlen, length-text,
  take-strlen, length-write_at, set-write_at, text-write_at, drop-write_at, set-first,
}

-- What the storing of a text in an array of which `m` bytes may be used answers and leaves: the
-- text, if it fits with its 0, else the empty text; nothing changes behind these bytes.
pub record Stores (d : List ℕ) (m : ℕ) (xs : List ℕ) (r : Errno × Option (List ℕ)) : Type 0 where
  pub left : List ℕ
  pub result : r ≡ ((if leb m (length xs) then erange else eok), some left)
  pub reads : text left ≡ (if leb m (length xs) then [] else xs)
  pub whole : length left ≡ length d
  pub outside : drop m left ≡ drop m d

Stores-too_long :
    (d : List ℕ) (m : ℕ) (xs : List ℕ) {r : Errno × Option (List ℕ)}
    → 0 < m
    → leb m (length xs) ≡ true
    → r ≡ (erange, some (set d 0 0))
    → Stores d m xs r
Stores-too_long d m xs h long e =
    let (empty, whole, outside) = set-first d m h in
    record {
      left = set d 0 0;
      result = rw long e;
      reads = rw long empty;
      whole = whole;
      outside = outside;
    }

Stores-fits :
    (d : List ℕ) (m : ℕ) (xs : List ℕ) {r : Errno × Option (List ℕ)}
    → m ≤ length d
    → NoZero xs
    → leb m (length xs) ≡ false
    → r ≡ (eok, some (write_at d 0 (xs ++ 0 ∷ [])))
    → Stores d m xs r
Stores-fits d m xs room none_zero short e = record {
  left = write_at d 0 (xs ++ 0 ∷ []);
  result = rw short e;
  reads = rw short (text-write_at d 0 xs tt none_zero (ground arith));
  whole = length-write_at d 0 (xs ++ 0 ∷ []);
  outside = drop-write_at d 0 (xs ++ 0 ∷ []) m (ground (arith, length-append xs (0 ∷ [])));
}

strncpy_s-long :
    (d src : List ℕ) (m count : ℕ)
    → 0 < m
    → leb m (strnlen src count) ≡ true
    → strncpy_s (some d) m (some src) count ≡ (erange, some (set d 0 0))
unfolding strncpy_s
strncpy_s-long d src m count h long = ground arith

strncpy_s-short :
    (d src : List ℕ) (m count : ℕ)
    → 0 < m
    → leb m (strnlen src count) ≡ false
    → strncpy_s (some d) m (some src) count
      ≡ (eok, some (set (write_at d 0 (take (strnlen src count) src)) (strnlen src count) 0))
unfolding strncpy_s
strncpy_s-short d src m count h short = ground arith

-- `strncpy_s` stores the text among the first `count` bytes of the source, in a destination of at least
-- `dest_max` bytes, more than none: `EOK` and this text if it is shorter than `dest_max`, else `ERANGE`
-- and the empty text. No byte changes from `dest_max` on.
pub strncpy_s-Stores :
    (d src : List ℕ) (m count : ℕ)
    → 0 < m
    → m ≤ length d
    → Stores d m (prefix src count) (strncpy_s (some d) m (some src) count)
strncpy_s-Stores d src m count h room =
    let n = length-prefix src count in
    elim (Bool-cases (leb m (length (prefix src count)))) [
      | inl long ↦
          Stores-too_long d m (prefix src count) h long
            (strncpy_s-long d src m count h (ap (leb m) (sym n) ∙ long))
      | inr short ↦ Stores-fits d m (prefix src count) room (prefix-NoZero src count) short (
          strncpy_s-short d src m count h (ap (leb m) (sym n) ∙ short)
          ∙ ap (λ a. (eok, some a))
              (ap (λ l. set (write_at d 0 l) (strnlen src count) 0) (take-strnlen src count)
                ∙ (ap (λ k. set (write_at d 0 (prefix src count)) k 0) (sym n ∙ omega arith)
                    ∙ set-write_at d 0 (prefix src count) 0)))
    ]

strcpy_s-long :
    (d src : List ℕ) (m : ℕ)
    → 0 < m
    → leb m (strlen src) ≡ true
    → strcpy_s (some d) m (some src) ≡ (erange, some (set d 0 0))
unfolding strcpy_s
strcpy_s-long d src m h long = ground arith

strcpy_s-short :
    (d src : List ℕ) (m : ℕ)
    → 0 < m
    → leb m (strlen src) ≡ false
    → strcpy_s (some d) m (some src) ≡ (eok, some (write_at d 0 (take (strlen src + 1) src)))
unfolding strcpy_s
strcpy_s-short d src m h short = ground arith

-- `strcpy_s` stores the whole text of a terminated source in the same way.
pub strcpy_s-Stores :
    (d src : List ℕ) (m : ℕ)
    → 0 < m
    → m ≤ length d
    → strlen src < length src
    → Stores d m (text src) (strcpy_s (some d) m (some src))
strcpy_s-Stores d src m h room ended =
    let n = length-text src in
    elim (Bool-cases (leb m (length (text src)))) [
      | inl long ↦
          Stores-too_long d m (text src) h long
            (strcpy_s-long d src m h (ap (leb m) (sym n) ∙ long))
      | inr short ↦ Stores-fits d m (text src) room (text-NoZero src) short (
          strcpy_s-short d src m h (ap (leb m) (sym n) ∙ short)
          ∙ ap (λ l. (eok, some (write_at d 0 l))) (take-strlen src ended))
    ]
