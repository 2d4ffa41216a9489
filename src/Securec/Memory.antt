-- ===== src/Securec/Memory.antt =====
-- `memset_s`, `memcpy_s` and `memmove_s` of silog_comm/src/silog_securec.c, on a memory that is a function
-- from addresses to bytes. A pointer is an address, `none` for NULL.
use si_log.Base.{
  ℕ, ◌+◌, ◌-◌, ◌%◌, ◌^◌, ◌≤◌, ◌<◌, ◌≡◌, ◌≢◌, ◌⊎◌, refl, Option, none, some, ltb, leb, ◌==◌, ◌&&◌,
  ◌||◌, if◌then◌else◌, arith,
}
use si_log.Securec.{Errno, eok, einval, erange}

abbrev pub Mem : Type 0
Mem = ℕ → ℕ

-- The C library's `memset` and `memmove`.
abbrev pub memset : Mem → ℕ → ℕ → ℕ → Mem
memset mem dest c count j = if leb dest j && ltb j (dest + count) then c % 256 else mem j

abbrev pub memmove : Mem → ℕ → ℕ → ℕ → Mem
memmove mem dest src count j =
    if leb dest j && ltb j (dest + count) then mem (src + (j - dest)) else mem j

-- The C library's `memcpy`, `none` where its behaviour is undefined: the regions overlap.
unfoldable pub memcpy : Mem → ℕ → ℕ → ℕ → Option Mem
memcpy mem dest src count =
    if count == 0 || (leb (dest + count) src || leb (src + count) dest)
    then some (memmove mem dest src count)
    else none

-- `memset_s`
pub memset_s : Mem → Option ℕ → ℕ → ℕ → ℕ → Errno × Mem
memset_s mem none dest_max c count = (einval, mem)
memset_s mem (some dest) dest_max c count =
    if dest_max == 0
    then (einval, mem)
    else (if ltb dest_max count then (erange, mem) else (eok, memset mem dest c count))

abbrev copied : Option Mem → Option (Errno × Mem)
copied none = none
copied (some mem) = some (eok, mem)

-- `memcpy_s`, `none` where it is undefined. The sums of the overlap tests are addresses of 64 bits, which wrap.
pub memcpy_s : Mem → Option ℕ → ℕ → Option ℕ → ℕ → Option (Errno × Mem)
memcpy_s mem none dest_max src count = some (einval, mem)
memcpy_s mem (some dest) dest_max none count = some (einval, mem)
memcpy_s mem (some dest) dest_max (some src) count =
    if dest_max == 0
    then some (einval, mem)
    else (if ltb dest_max count
        then some (erange, mem)
        else (if ltb src dest && ltb dest ((src + count) % 2 ^ 64)
            then some (eok, memmove mem dest src count)
            else (if ltb dest src && ltb src ((dest + dest_max) % 2 ^ 64)
                then some (eok, memmove mem dest src count)
                else copied (memcpy mem dest src count))))

-- `memmove_s`
pub memmove_s : Mem → Option ℕ → ℕ → Option ℕ → ℕ → Errno × Mem
memmove_s mem none dest_max src count = (einval, mem)
memmove_s mem (some dest) dest_max none count = (einval, mem)
memmove_s mem (some dest) dest_max (some src) count =
    if dest_max == 0
    then (einval, mem)
    else (if ltb dest_max count then (erange, mem) else (eok, memmove mem dest src count))

-- NULL, or the start of `n` bytes that lie in an address space of 64 bits.
abbrev pub IsRegion : Option ℕ → ℕ → Type 0
IsRegion none n = Unit
IsRegion (some p) n = p + n < 2 ^ 64

-- Where the `dest_max` bytes from the destination and the `count` bytes from the source lie in an address space of 64
-- bits, `memcpy_s` does the same as `memmove_s`, overlapping regions and every error included, unless the two
-- pointers are the same and the count is not 0.
pub memcpy_s-memmove_s :
    (mem : Mem) (dest : Option ℕ) (dest_max : ℕ) (src : Option ℕ) (count : ℕ)
    → IsRegion dest dest_max
    → IsRegion src count
    → (dest ≢ src) ⊎ (count ≡ 0)
    → memcpy_s mem dest dest_max src count ≡ some (memmove_s mem dest dest_max src count)
unfolding memcpy_s memmove_s memcpy
memcpy_s-memmove_s mem none dest_max src count region source apart = refl
memcpy_s-memmove_s mem (some dest) dest_max none count region source apart = refl
memcpy_s-memmove_s mem (some dest) dest_max (some src) count region source apart =
    ground (arith, region, source)

-- A call with the same region twice reaches `memcpy` with overlapping arguments.
pub memcpy_s_undefined :
    (mem : Mem) (p dest_max count : ℕ)
    → 0 < count
    → count ≤ dest_max
    → memcpy_s mem (some p) dest_max (some p) count ≡ none
unfolding memcpy_s memcpy
memcpy_s_undefined mem p dest_max count some_bytes fits = ground arith

-- A `dest_max` past the end of the address space, such as `SIZE_MAX`, makes the sum of the second test wrap: a source
-- that starts inside the copied bytes then reaches `memcpy` with overlapping arguments.
pub memcpy_s_wraps :
    (mem : Mem) (p k dest_max count : ℕ)
    → 0 < k
    → k < count
    → count ≤ dest_max
    → (p + dest_max) % 2 ^ 64 ≤ p + k
    → memcpy_s mem (some p) dest_max (some (p + k)) count ≡ none
unfolding memcpy_s memcpy
memcpy_s_wraps mem p k dest_max count apart inside fits wraps = ground arith

-- The three functions write nothing outside the `dest_max` bytes of the destination.
pub writes-within :
    (mem : Mem) (p dest_max c count : ℕ) (src : Option ℕ) (j : ℕ)
    → (j < p) ⊎ (p + dest_max ≤ j)
    → ((memset_s mem (some p) dest_max c count).1 j ≡ mem j)
      × ((memmove_s mem (some p) dest_max src count).1 j ≡ mem j)
unfolding memset_s memmove_s
writes-within mem p dest_max c count none j out = (ground arith, refl)
writes-within mem p dest_max c count (some src) j out = (ground arith, ground arith)
