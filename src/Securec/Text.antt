-- ===== src/Securec/Text.antt =====
-- `strcpy_s`, `strncpy_s`, `strcat_s` and `strncat_s` of silog_comm/src/silog_securec.c. An array is the list
-- of its bytes; source and destination do not overlap. `none` is a NULL pointer.
pub mod Arrays
pub mod Copy
pub mod Concat
use si_log.Base.{
  ℕ, zero, suc, ◌+◌, Option, none, some, List, [], ◌∷◌, ltb, leb, ◌==◌, if◌then◌else◌, take, set,
}
use si_log.Entry.{strlen}
use si_log.Securec.{Errno, eok, einval, erange}

-- The C library's `strnlen`: the bytes before the first 0 among the first `n`.
abbrev pub strnlen : List ℕ → ℕ → ℕ
strnlen s zero = 0
strnlen [] (suc n) = 0
strnlen (c ∷ s) (suc n) = let rest = strnlen s n in if c == 0 then 0 else suc rest

-- `memcpy(dest + k, xs, length xs)`
abbrev pub write_at : List ℕ → ℕ → List ℕ → List ℕ
write_at d k [] = d
write_at [] k (x ∷ xs) = []
write_at (y ∷ d) zero (x ∷ xs) = x ∷ write_at d 0 xs
write_at (y ∷ d) (suc k) (x ∷ xs) = y ∷ write_at d k (x ∷ xs)

-- `strcpy_s`
pub strcpy_s : Option (List ℕ) → ℕ → Option (List ℕ) → Errno × Option (List ℕ)
strcpy_s none dest_max src = (einval, none)
strcpy_s (some dest) dest_max none =
    if dest_max == 0 then (einval, some dest) else (einval, some (set dest 0 0))
strcpy_s (some dest) dest_max (some src) =
    let src_len = strlen src in
    if dest_max == 0
    then (einval, some dest)
    else (if leb dest_max src_len
        then (erange, some (set dest 0 0))
        else (eok, some (write_at dest 0 (take (src_len + 1) src))))

-- `strncpy_s`
pub strncpy_s : Option (List ℕ) → ℕ → Option (List ℕ) → ℕ → Errno × Option (List ℕ)
strncpy_s none dest_max src count = (einval, none)
strncpy_s (some dest) dest_max none count =
    if dest_max == 0 then (einval, some dest) else (einval, some (set dest 0 0))
strncpy_s (some dest) dest_max (some src) count =
    let src_len = strnlen src count in
    if dest_max == 0
    then (einval, some dest)
    else (if leb dest_max src_len
        then (erange, some (set dest 0 0))
        else (eok, some (set (write_at dest 0 (take src_len src)) src_len 0)))

-- `strcat_s`
pub strcat_s : Option (List ℕ) → ℕ → Option (List ℕ) → Errno × Option (List ℕ)
strcat_s none dest_max src = (einval, none)
strcat_s (some dest) dest_max none = (einval, some dest)
strcat_s (some dest) dest_max (some src) =
    let dest_len = strnlen dest dest_max in
    let src_len = strlen src in
    if dest_max == 0
    then (einval, some dest)
    else (if leb dest_max (dest_len + src_len)
        then (erange, some dest)
        else (eok, some (write_at dest dest_len (take (src_len + 1) src))))

-- `strncat_s`
pub strncat_s : Option (List ℕ) → ℕ → Option (List ℕ) → ℕ → Errno × Option (List ℕ)
strncat_s none dest_max src count = (einval, none)
strncat_s (some dest) dest_max none count = (einval, some dest)
strncat_s (some dest) dest_max (some src) count =
    let dest_len = strnlen dest dest_max in
    let src_len = strnlen src count in
    if dest_max == 0
    then (einval, some dest)
    else (if leb dest_max (dest_len + src_len)
        then (erange, some dest)
        else (eok, some (set (write_at dest dest_len (take src_len src)) (dest_len + src_len) 0)))

-- `strnlen_s`
pub strnlen_s : Option (List ℕ) → ℕ → ℕ
strnlen_s none str_max = 0
strnlen_s (some str) str_max = if str_max == 0 then 0 else strnlen str str_max
