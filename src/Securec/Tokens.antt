-- ===== src/Securec/Tokens.antt =====
-- `strtok_s` of silog_comm/src/silog_securec.c. A text is the list of its bytes without the terminating 0; the
-- context is the rest of the text that it points to, `none` for NULL.
pub mod Words
use si_log.Base.{
  ℕ, zero, suc, ◌+◌, ◌≤◌, ◌<◌, ◌≡◌, ◌∙◌, refl, ap, sym, Bool, true, false, Option, none, some, List,
  [], ◌∷◌, ◌==◌, if◌then◌else◌, length, Bool-cases, inl, inr, arith,
}

-- `strchr(delimit, c) != NULL` for a byte of a text.
abbrev pub is_delimiter : List ℕ → ℕ → Bool
is_delimiter [] c = false
is_delimiter (d ∷ delimit) c = if d == c then true else is_delimiter delimit c

-- The loop over leading delimiters.
pub skip_delimiters : List ℕ → List ℕ → List ℕ
skip_delimiters delimit [] = []
skip_delimiters delimit (c ∷ s) =
    let rest = skip_delimiters delimit s in if is_delimiter delimit c then rest else c ∷ s

-- The loop that looks for the next delimiter: the token, and what is left, from the delimiter on.
pub token_of : List ℕ → List ℕ → List ℕ × List ℕ
token_of delimit [] = ([], [])
token_of delimit (c ∷ s) =
    let (token, rest) = token_of delimit s in
    if is_delimiter delimit c then ([], c ∷ s) else (c ∷ token, rest)

-- The context behind a token.
abbrev pub behind : List ℕ → Option (List ℕ)
behind [] = none
behind (d ∷ rest) = some rest

-- `strtok_s`, from a context that is not NULL, behind the leading delimiters.
abbrev pub next_token : List ℕ → List ℕ → Option (List ℕ) × Option (List ℕ)
next_token delimit [] = (none, none)
next_token delimit (c ∷ s) =
    let (token, rest) = token_of delimit (c ∷ s) in (some token, behind rest)

-- The context after the first lines of `strtok_s`.
abbrev started : Option (List ℕ) → Option (List ℕ) → Option (List ℕ)
started none context = context
started (some text) context = some text

abbrev continue : List ℕ → Option (List ℕ) → Option (List ℕ) × Option (List ℕ)
continue delimit none = (none, none)
continue delimit (some s) = next_token delimit (skip_delimiters delimit s)

-- `strtok_s`: the token and the context. `has_context` says that the pointer to it is not NULL.
pub strtok_s :
    Option (List ℕ) → Option (List ℕ) → Bool → Option (List ℕ) → Option (List ℕ) × Option (List ℕ)
strtok_s text delimit false context = (none, context)
strtok_s text none true context = (none, context)
strtok_s text (some delimit) true context = continue delimit (started text context)

-- All tokens of the calls that follow, until one answers NULL.
pub later_tokens : ℕ → List ℕ → Option (List ℕ) → List (List ℕ)
later_tokens zero delimit context = []
later_tokens (suc fuel) delimit context =
    let (token, context') = strtok_s none (some delimit) true context in
    let rest = later_tokens fuel delimit context' in elim token [ none ↦ [] | some t ↦ t ∷ rest ]
