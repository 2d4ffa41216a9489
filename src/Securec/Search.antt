-- ===== src/Securec/Search.antt =====
-- `strchr_s`, `strrchr_s` and `strstr_s` of silog_comm/src/silog_securec.c. Each answers its code and what
-- `*position` receives, `none` if that pointer is NULL.
use si_log.Base.{
  ℕ, zero, suc, ◌+◌, ◌-◌, ◌%◌, ◌≤◌, ◌<◌, ◌≡◌, ◌⊎◌, ◌∙◌, refl, ap, sym, Bool, true, false, Option,
  none, some, List, [], ◌∷◌, ltb, ◌==◌, if◌then◌else◌, get_or, drop, Bool-cases, dec_lt, inl, inr,
  arith,
}
use si_log.Securec.{Errno, eok, einval}
use si_log.Securec.Text.{strnlen}

-- `memcmp(xs, ys, n) == 0`
abbrev pub same_bytes : List ℕ → List ℕ → ℕ → Bool
same_bytes xs ys zero = true
same_bytes [] ys (suc n) = false
same_bytes (x ∷ xs) [] (suc n) = false
same_bytes (x ∷ xs) (y ∷ ys) (suc n) =
    let rest = same_bytes xs ys n in if x == y then rest else false

-- `memchr` for the byte `c`: its first index, counted from `i`, among `n` bytes.
pub memchr : List ℕ → ℕ → ℕ → ℕ → Option ℕ
memchr s c i zero = none
memchr [] c i (suc n) = none
memchr (x ∷ s) c i (suc n) = let rest = memchr s c (i + 1) n in if x == c then some i else rest

-- The end of the three functions, with the position found.
abbrev answer : Option ℕ → Errno × Option ℕ
answer none = (einval, some 0)
answer (some p) = (eok, some p)

-- `strchr_s`, `c` being an int of which the lowest byte is compared.
pub strchr_s : Option (List ℕ) → ℕ → ℕ → Bool → Errno × Option ℕ
strchr_s str str_max c false = (einval, none)
strchr_s none str_max c true = (einval, some 0)
strchr_s (some str) str_max c true =
    if str_max == 0 then (einval, some 0) else answer (memchr str (c % 256) 0 (strnlen str str_max))

-- The loop of `strrchr_s` from `i` down.
pub search_back : List ℕ → ℕ → ℕ → Option ℕ
search_back str c zero = none
search_back str c (suc i) =
    let rest = search_back str c i in if get_or str i 0 == c then some i else rest

-- `strrchr_s`
pub strrchr_s : Option (List ℕ) → ℕ → ℕ → Bool → Errno × Option ℕ
strrchr_s str str_max c false = (einval, none)
strrchr_s none str_max c true = (einval, some 0)
strrchr_s (some str) str_max c true =
    if str_max == 0
    then (einval, some 0)
    else answer (search_back str (c % 256) (strnlen str str_max))

-- The loop of `strstr_s` from `i` on; the fuel is the number of rounds.
pub search_text : ℕ → List ℕ → List ℕ → ℕ → ℕ → Option ℕ
search_text zero str substr len i = none
search_text (suc fuel) str substr len i =
    let rest = search_text fuel str substr len (i + 1) in
    if same_bytes (drop i str) substr len then some i else rest

-- `strstr_s`
pub strstr_s : Option (List ℕ) → ℕ → Option (List ℕ) → ℕ → Bool → Errno × Option ℕ
strstr_s str str_max substr substr_max false = (einval, none)
strstr_s none str_max substr substr_max true = (einval, some 0)
strstr_s (some str) str_max none substr_max true = (einval, some 0)
strstr_s (some str) str_max (some substr) substr_max true =
    let str_len = strnlen str str_max in
    let sub_len = strnlen substr substr_max in
    if str_max == 0
    then (einval, some 0)
    else (if sub_len == 0
        then (eok, some 0)
        else (if substr_max == 0
            then (einval, some 0)
            else (if ltb str_len sub_len
                then (einval, some 0)
                else answer (search_text (str_len - sub_len + 1) str substr sub_len 0))))

from : (i j : ℕ) → i ≤ j → (i ≡ j) ⊎ (i + 1 ≤ j)
from i j h = ground arith

-- The first index from `i` on, before `i + fuel`, at which a search finds the text.
search_text-cases :
    (fuel : ℕ) (str substr : List ℕ) (len i : ℕ)
    → ((search_text fuel str substr len i ≡ none)
        × ((j : ℕ) → i ≤ j → j < i + fuel → same_bytes (drop j str) substr len ≡ false))
      ⊎ ((p : ℕ) × (search_text fuel str substr len i ≡ some p)
          × (i ≤ p)
          × (p < i + fuel)
          × (same_bytes (drop p str) substr len ≡ true)
          × ((j : ℕ) → i ≤ j → j < p → same_bytes (drop j str) substr len ≡ false))
unfolding search_text
search_text-cases zero str substr len i = inl (refl, λ j h k. absurd (omega arith))
search_text-cases (suc fuel) str substr len i =
    elim (Bool-cases (same_bytes (drop i str) substr len)) [
      | inl here ↦
          inr (i, rw here refl, omega arith, omega arith, here, λ j h k. absurd (omega arith))
      | inr not_here ↦
          let skip : (j : ℕ)
              → i ≤ j
              → ((i + 1 ≤ j) → same_bytes (drop j str) substr len ≡ false)
              → same_bytes (drop j str) substr len ≡ false =
            λ j h k. elim (from i j h) [
              | inl e ↦ ap (λ n. same_bytes (drop n str) substr len) (sym e) ∙ not_here
              | inr lt ↦ k lt
            ] in
          elim (search_text-cases fuel str substr len (i + 1)) [
            | inl (e, never) ↦
                inl (rw not_here e, λ j h k. skip j h (λ lt. never j lt (omega arith)))
            | inr (p, e, lo, hi, found, before) ↦ inr (
              p,
              rw not_here e,
              omega arith,
              omega arith,
              found,
              λ j h k. skip j h (λ lt. before j lt k),
            )
          ]
    ]

strstr_s-longer :
    (str substr : List ℕ) (str_max substr_max : ℕ)
    → strnlen str str_max < strnlen substr substr_max
    → strstr_s (some str) str_max (some substr) substr_max true ≡ (einval, some 0)
unfolding strstr_s
strstr_s-longer str substr str_max substr_max h = ground arith

strstr_s-runs :
    (str substr : List ℕ) (str_max substr_max : ℕ)
    → 0 < str_max
    → 0 < strnlen substr substr_max
    → strnlen substr substr_max ≤ strnlen str str_max
    → strstr_s (some str) str_max (some substr) substr_max true
      ≡ answer (
          search_text
            (strnlen str str_max - strnlen substr substr_max + 1)
            str
            substr
            (strnlen substr substr_max)
            0)
unfolding strstr_s
strstr_s-runs str substr str_max zero h k le = absurd (omega arith)
strstr_s-runs str substr str_max (suc n) h k le = ground arith

-- `strstr_s` of two arrays that may be read, the second with a text that is not empty, answers `EOK` and the
-- first index at which the text stands whole in the first `strnlen` bytes, or `EINVAL` and 0 if there is none.
pub strstr_s-first :
    (str substr : List ℕ) (str_max substr_max : ℕ)
    → 0 < str_max
    → 0 < strnlen substr substr_max
    → ((strstr_s (some str) str_max (some substr) substr_max true ≡ (einval, some 0))
        × ((j : ℕ)
            → j + strnlen substr substr_max ≤ strnlen str str_max
            → same_bytes (drop j str) substr (strnlen substr substr_max) ≡ false))
      ⊎ ((p : ℕ) × (strstr_s (some str) str_max (some substr) substr_max true ≡ (eok, some p))
          × (p + strnlen substr substr_max ≤ strnlen str str_max)
          × (same_bytes (drop p str) substr (strnlen substr substr_max) ≡ true)
          × ((j : ℕ) → j < p → same_bytes (drop j str) substr (strnlen substr substr_max) ≡ false))
strstr_s-first str substr str_max substr_max h k =
    elim (dec_lt (strnlen str str_max) (strnlen substr substr_max)) [
      | yes longer ↦
          inl (strstr_s-longer str substr str_max substr_max longer, λ j room. absurd (omega arith))
      | no fits ↦
          let rounds = strnlen str str_max - strnlen substr substr_max + 1 in
          let runs = strstr_s-runs str substr str_max substr_max h k (omega arith) in
          elim (search_text-cases rounds str substr (strnlen substr substr_max) 0) [
            | inl (e, never) ↦
                inl (runs ∙ ap answer e, λ j room. never j (omega arith) (omega arith))
            | inr (p, e, lo, hi, found, before) ↦
                inr (p, runs ∙ ap answer e, omega arith, found, λ j lt. before j (omega arith) lt)
          ]
    ]

-- The last index below `n` at which the byte stands.
search_back-cases :
    (str : List ℕ) (c n : ℕ)
    → ((search_back str c n ≡ none) × ((j : ℕ) → j < n → (get_or str j 0 == c) ≡ false))
      ⊎ ((p : ℕ) × (search_back str c n ≡ some p)
          × (p < n)
          × (get_or str p 0 ≡ c)
          × ((j : ℕ) → p < j → j < n → (get_or str j 0 == c) ≡ false))
unfolding search_back
search_back-cases str c zero = inl (refl, λ j h. absurd (omega arith))
search_back-cases str c (suc n) = elim (Bool-cases (get_or str n 0 == c)) [
  | inl here ↦ inr (n, rw here refl, omega arith, ground arith, λ j h k. absurd (omega arith))
  | inr not_here ↦
      let skip : (j : ℕ)
          → j < suc n
          → (j < n → (get_or str j 0 == c) ≡ false)
          → (get_or str j 0 == c) ≡ false =
        λ j h k. elim (from j n (omega arith)) [
          | inl e ↦ ap (λ i. get_or str i 0 == c) e ∙ not_here
          | inr lt ↦ k (omega arith)
        ] in
      elim (search_back-cases str c n) [
        | inl (e, never) ↦ inl (rw not_here e, λ j h. skip j h (never j))
        | inr (p, e, lt, found, after) ↦
            inr (p, rw not_here e, omega arith, found, λ j h k. skip j k (λ l. after j h l))
      ]
]

strrchr_s-runs :
    (str : List ℕ) (str_max c : ℕ)
    → 0 < str_max
    → strrchr_s (some str) str_max c true ≡ answer (search_back str (c % 256) (strnlen str str_max))
unfolding strrchr_s
strrchr_s-runs str str_max c h = ground arith

-- `strrchr_s` of an array that may be read answers `EOK` and the last index of the byte `c` in the text, or
-- `EINVAL` and 0 if the byte does not stand in it.
pub strrchr_s-last :
    (str : List ℕ) (str_max c : ℕ)
    → 0 < str_max
    → ((strrchr_s (some str) str_max c true ≡ (einval, some 0))
        × ((j : ℕ) → j < strnlen str str_max → (get_or str j 0 == c % 256) ≡ false))
      ⊎ ((p : ℕ) × (strrchr_s (some str) str_max c true ≡ (eok, some p))
          × (p < strnlen str str_max)
          × (get_or str p 0 ≡ c % 256)
          × ((j : ℕ) → p < j → j < strnlen str str_max → (get_or str j 0 == c % 256) ≡ false))
strrchr_s-last str str_max c h =
    let runs = strrchr_s-runs str str_max c h in
    elim (search_back-cases str (c % 256) (strnlen str str_max)) [
      | inl (e, never) ↦ inl (runs ∙ ap answer e, never)
      | inr (p, e, lt, found, after) ↦ inr (p, runs ∙ ap answer e, lt, found, after)
    ]
