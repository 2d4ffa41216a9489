-- ===== src/Securec/Text/Concat.antt =====
-- `strcat_s` and `strncat_s` of silog_comm/src/silog_securec.c.
use si_log.Base.{
  ℕ, ◌+◌, ◌≤◌, ◌<◌, ◌≡◌, ◌∙◌, refl, ap, sym, subst, true, false, Option, some, List, [], ◌∷◌, ◌++◌,
  leb, ◌==◌, if◌then◌else◌, length, length-append, take, drop, set, Bool-cases, inl, inr, arith,
}
use si_log.Entry.{strlen}
use si_log.Securec.{Errno, eok, erange}
use si_log.Securec.Text.{strnlen, write_at, strcat_s, strncat_s}
use si_log.Securec.Text.Arrays.{
  text, prefix, NoZero, prefix-NoZero, text-NoZero, length-prefix, take-strnlen, length-text,
  take-strlen, length-write_at, set-write_at, text-write_at, drop-write_at,
}

-- What the appending of a text to the one in an array of which `m` bytes may be used answers and
-- leaves: both texts, if they fit with their 0, else the array as it was; nothing changes behind
-- these bytes.
pub record Appends (d : List ℕ) (m : ℕ) (xs : List ℕ) (r : Errno × Option (List ℕ)) : Type 0 where
  pub left : List ℕ
  pub result :
      r ≡ (if leb m (length (prefix d m ++ xs)) then (erange, some d) else (eok, some left))
  pub reads : leb m (length (prefix d m ++ xs)) ≡ false → text left ≡ prefix d m ++ xs
  pub whole : length left ≡ length d
  pub outside : drop m left ≡ drop m d

length-joined :
    (d : List ℕ) (m : ℕ) (xs : List ℕ) → length (prefix d m ++ xs) ≡ strnlen d m + length xs
length-joined d m xs = omega (arith, length-append (prefix d m) xs, length-prefix d m)

appends :
    (d : List ℕ) (m : ℕ) (xs : List ℕ) {r : Errno × Option (List ℕ)}
    → m ≤ length d
    → NoZero xs
    → r ≡ (
        if leb m (strnlen d m + length xs)
        then (erange, some d)
        else (eok, some (write_at d (strnlen d m) (xs ++ 0 ∷ []))))
    → Appends d m xs r
appends d m xs room none_zero e = elim (Bool-cases (leb m (strnlen d m + length xs))) [
  | inl long ↦
      let long' : leb m (length (prefix d m ++ xs)) ≡ true =
        ap (leb m) (length-joined d m xs) ∙ long in
      record {
        left = d;
        result = rw long' (e ∙ rw long refl);
        reads = λ short. cc;
        whole = refl;
        outside = refl;
      }
  | inr short ↦
      let fits : strnlen d m + length xs < m = ground arith in
      record {
        left = write_at d (strnlen d m) (xs ++ 0 ∷ []);
        result = rw (length-joined d m xs) e;
        reads = λ s.
            text-write_at d (strnlen d m) xs
              (subst NoZero (sym (take-strnlen d m)) (prefix-NoZero d m)) none_zero (omega arith)
            ∙ ap (λ l. l ++ xs) (take-strnlen d m);
        whole = length-write_at d (strnlen d m) (xs ++ 0 ∷ []);
        outside =
            drop-write_at d (strnlen d m) (xs ++ 0 ∷ []) m
              (omega (arith, length-append xs (0 ∷ [])));
      }
]

-- `strncat_s` appends the text among the first `count` bytes of the source to the text of the
-- destination: `EOK` and both texts if together they are shorter than `dest_max`, else `ERANGE` and the
-- destination as it was, also where it has no 0 in its `dest_max` bytes. No byte changes from `dest_max` on.
pub strncat_s-Appends :
    (d src : List ℕ) (m count : ℕ)
    → 0 < m
    → m ≤ length d
    → Appends d m (prefix src count) (strncat_s (some d) m (some src) count)
unfolding strncat_s
strncat_s-Appends d src m count h room =
    let n = length-prefix src count in
    let some_bytes : (m == 0) ≡ false = ground arith in
    let stored : set (write_at d (strnlen d m) (take (strnlen src count) src))
          (strnlen d m + strnlen src count) 0
        ≡ write_at d (strnlen d m) (prefix src count ++ 0 ∷ []) =
      ap (λ l. set (write_at d (strnlen d m) l) (strnlen d m + strnlen src count) 0)
        (take-strnlen src count)
      ∙ (ap (λ k. set (write_at d (strnlen d m) (prefix src count)) (strnlen d m + k) 0) (sym n)
          ∙ set-write_at d (strnlen d m) (prefix src count) 0) in
    appends d m (prefix src count) room (prefix-NoZero src count) (rw (some_bytes, stored, n) refl)

-- `strcat_s` appends the whole text of a terminated source in the same way.
pub strcat_s-Appends :
    (d src : List ℕ) (m : ℕ)
    → 0 < m
    → m ≤ length d
    → strlen src < length src
    → Appends d m (text src) (strcat_s (some d) m (some src))
unfolding strcat_s
strcat_s-Appends d src m h room ended =
    let some_bytes : (m == 0) ≡ false = ground arith in
    appends d m (text src) room (text-NoZero src)
      (rw (some_bytes, take-strlen src ended, length-text src) refl)
