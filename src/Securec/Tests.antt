-- ===== src/Securec/Tests.antt =====
-- The secure functions at concrete arguments.
use si_log.Base.{
  ℕ, ◌+◌, ◌≤◌, ◌<◌, ◌≡◌, ◌⊎◌, ◌↔◌, refl, inl, true, false, some, List, [], ◌∷◌, drop, arith,
}
use si_log.Base.Int.{pos}
use si_log.Securec.{eok, einval}
use si_log.Securec.Memory.{Mem, memcpy_s, memmove_s, memcpy_s-memmove_s}
use si_log.Securec.Text.{strncpy_s, strncat_s}
use si_log.Securec.Text.Arrays.{prefix}
use si_log.Securec.Text.Copy.{Stores, strncpy_s-Stores}
use si_log.Securec.Text.Concat.{Appends, strncat_s-Appends}
use si_log.Securec.Compare.{strcmp_s, strncmp_s}
use si_log.Securec.Compare.Zero.{strcmp_s-zero, strncmp_s-prefix}
use si_log.Securec.Search.{same_bytes, strstr_s, strstr_s-first}
use si_log.Securec.Tokens.Words.{all_tokens, all_tokens-words}

abbrev mem : Mem
mem i = i

-- Four bytes move up by two, over themselves.
memcpy_s-memmove_s_example :
    memcpy_s mem (some 12) 8 (some 10) 4 ≡ some (memmove_s mem (some 12) 8 (some 10) 4)
memcpy_s-memmove_s_example =
    memcpy_s-memmove_s mem (some 12) 8 (some 10) 4 (omega arith) (omega arith) (inl (λ p. cc))

abbrev array : List ℕ
array = b'a' ∷ b'b' ∷ 0 ∷ b'x' ∷ b'y' ∷ b'z' ∷ []

abbrev source : List ℕ
source = b'c' ∷ b'd' ∷ 0 ∷ []

strncpy_s-Stores_example :
    Stores array 5 (prefix source 9) (strncpy_s (some array) 5 (some source) 9)
strncpy_s-Stores_example = strncpy_s-Stores array source 5 9 (omega arith) (omega arith)

strncat_s-Appends_example :
    Appends array 5 (prefix source 9) (strncat_s (some array) 5 (some source) 9)
strncat_s-Appends_example = strncat_s-Appends array source 5 9 (omega arith) (omega arith)

strcmp_s-zero_example :
    (strcmp_s (some array) 6 (some source) 3 true ≡ (eok, some (pos 0)))
    ↔ (prefix array 6 ≡ prefix source 3)
strcmp_s-zero_example = strcmp_s-zero array source 6 3 (omega arith) (omega arith)

-- "ab" and "a" count as equal, for ten bytes.
strncmp_s-prefix_example :
    strncmp_s (some array) 6 (some (b'a' ∷ 0 ∷ [])) 2 10 true ≡ (eok, some (pos 0))
strncmp_s-prefix_example =
    strncmp_s-prefix array (b'a' ∷ 0 ∷ []) 6 2 10 (b'b' ∷ []) (omega arith) (omega arith) refl

strstr_s-first_example :
    ((strstr_s (some array) 6 (some (b'b' ∷ 0 ∷ [])) 2 true ≡ (einval, some 0))
      × ((j : ℕ) → j + 1 ≤ 2 → same_bytes (drop j array) (b'b' ∷ 0 ∷ []) 1 ≡ false))
    ⊎ ((p : ℕ) × (strstr_s (some array) 6 (some (b'b' ∷ 0 ∷ [])) 2 true ≡ (eok, some p))
        × (p + 1 ≤ 2)
        × (same_bytes (drop p array) (b'b' ∷ 0 ∷ []) 1 ≡ true)
        × ((j : ℕ) → j < p → same_bytes (drop j array) (b'b' ∷ 0 ∷ []) 1 ≡ false))
strstr_s-first_example = strstr_s-first array (b'b' ∷ 0 ∷ []) 6 2 (omega arith) (omega arith)

all_tokens-words_example :
    all_tokens (b',' ∷ []) (b',' ∷ b'a' ∷ b',' ∷ b',' ∷ b'b' ∷ []) ≡ (b'a' ∷ []) ∷ (b'b' ∷ []) ∷ []
all_tokens-words_example = all_tokens-words (b',' ∷ []) (b',' ∷ b'a' ∷ b',' ∷ b',' ∷ b'b' ∷ [])
