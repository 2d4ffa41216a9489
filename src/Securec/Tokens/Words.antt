-- ===== src/Securec/Tokens/Words.antt =====
-- The tokens of `strtok_s` of silog_comm/src/silog_securec.c are the words of the text.
use si_log.Base.{
  ℕ, zero, suc, ◌≤◌, ◌≡◌, ◌∙◌, refl, ap, sym, true, false, Option, none, some, List, [], ◌∷◌,
  if◌then◌else◌, length, Bool-cases, inl, inr, arith,
}
use si_log.Securec.Tokens.{
  is_delimiter, skip_delimiters, token_of, behind, next_token, strtok_s, later_tokens,
}

-- A byte in front of the first piece.
abbrev pub extend : ℕ → List (List ℕ) → List (List ℕ)
extend c [] = (c ∷ []) ∷ []
extend c (p ∷ ps) = (c ∷ p) ∷ ps

-- The pieces between the delimiters, the empty ones included.
abbrev pub pieces : List ℕ → List ℕ → List (List ℕ)
pieces delimit [] = [] ∷ []
pieces delimit (c ∷ s) =
    if is_delimiter delimit c then [] ∷ pieces delimit s else extend c (pieces delimit s)

abbrev pub not_empty : List (List ℕ) → List (List ℕ)
not_empty [] = []
not_empty ([] ∷ ps) = not_empty ps
not_empty ((c ∷ p) ∷ ps) = (c ∷ p) ∷ not_empty ps

-- The words of a text, and those of the text behind a context.
abbrev pub words : List ℕ → List ℕ → List (List ℕ)
words delimit s = not_empty (pieces delimit s)

abbrev pub words_behind : List ℕ → Option (List ℕ) → List (List ℕ)
words_behind delimit none = []
words_behind delimit (some s) = words delimit s

module _ (delimit : List ℕ) where
  skip_delimiters-words : (s : List ℕ) → words delimit (skip_delimiters delimit s) ≡ words delimit s
  unfolding skip_delimiters
  skip_delimiters-words [] = refl
  skip_delimiters-words (c ∷ s) = elim (Bool-cases (is_delimiter delimit c)) [
    | inl yes_it_is ↦ rw (skip_delimiters, pieces, yes_it_is) (skip_delimiters-words s)
    | inr no_it_is_not ↦ ap (words delimit) {y = c ∷ s} (rw (skip_delimiters, no_it_is_not) refl)
  ]

  skip_delimiters-length : (s : List ℕ) → length (skip_delimiters delimit s) ≤ length s
  unfolding skip_delimiters
  skip_delimiters-length [] = omega arith
  skip_delimiters-length (c ∷ s) = ground (arith, skip_delimiters-length s)

  -- Behind the leading delimiters stands nothing or a byte that is none.
  skip_delimiters-head :
      (s s' : List ℕ) (c : ℕ) → skip_delimiters delimit s ≡ c ∷ s' → is_delimiter delimit c ≡ false
  unfolding skip_delimiters
  skip_delimiters-head [] s' c e = absurd cc
  skip_delimiters-head (d ∷ s) s' c e = elim (Bool-cases (is_delimiter delimit d)) [
    | inl it_is ↦ skip_delimiters-head s s' c (rw (skip_delimiters, it_is) at e)
    | inr it_is_not ↦
        let same : d ∷ s ≡ c ∷ s' = rw (skip_delimiters, it_is_not) at e in
        let head : d ≡ c = cc in ap (is_delimiter delimit) (sym head) ∙ it_is_not
  ]

  -- The pieces of a text whose first one is split off.
  abbrev glue : List ℕ × List ℕ → List (List ℕ)
  glue (token, []) = token ∷ []
  glue (token, d ∷ rest) = token ∷ pieces delimit rest

  glue-extend : (c : ℕ) (r : List ℕ × List ℕ) → extend c (glue r) ≡ glue (c ∷ r.0, r.1)
  glue-extend c (token, []) = refl
  glue-extend c (token, d ∷ rest) = refl

  token_of-pieces : (s : List ℕ) → pieces delimit s ≡ glue (token_of delimit s)
  unfolding token_of
  token_of-pieces [] = refl
  token_of-pieces (c ∷ s) = elim (Bool-cases (is_delimiter delimit c)) [
    | inl it_is ↦ rw (token_of, it_is) refl
    | inr it_is_not ↦
        rw (token_of, it_is_not)
          (ap (extend c) (token_of-pieces s) ∙ glue-extend c (token_of delimit s))
  ]

  token_of-length : (s : List ℕ) → length (token_of delimit s).1 ≤ length s
  unfolding token_of
  token_of-length [] = omega arith
  token_of-length (c ∷ s) = ground (arith, token_of-length s)

  token_of-head :
      (c : ℕ) (s : List ℕ)
      → is_delimiter delimit c ≡ false
      → token_of delimit (c ∷ s) ≡ (c ∷ (token_of delimit s).0, (token_of delimit s).1)
  unfolding token_of
  token_of-head c s n = ground arith

  -- A token that is not empty and the words behind it.
  glue-words :
      (c : ℕ) (r : List ℕ × List ℕ)
      → not_empty (glue (c ∷ r.0, r.1)) ≡ (c ∷ r.0) ∷ words_behind delimit (behind r.1)
  glue-words c (token, []) = refl
  glue-words c (token, d ∷ rest) = refl

  abbrev size : Option (List ℕ) → ℕ
  size none = 0
  size (some s) = suc (length s)

  behind-size : (rest : List ℕ) → size (behind rest) ≤ length rest
  behind-size [] = omega arith
  behind-size (d ∷ rest) = omega arith

  later_from : ℕ → Option (List ℕ) × Option (List ℕ) → List (List ℕ)
  later_from fuel (none, context) = []
  later_from fuel (some token, context) = token ∷ later_tokens fuel delimit context

  later_from-cases :
      (fuel : ℕ) (r : Option (List ℕ) × Option (List ℕ))
      → (elim r.0 as (λ t. List (List ℕ)) [
        | none ↦ []
        | some t ↦ t ∷ later_tokens fuel delimit r.1
      ])
        ≡ later_from fuel r
  unfolding later_from
  later_from-cases fuel (none, context) = refl
  later_from-cases fuel (some token, context) = refl

  later_tokens-step :
      (fuel : ℕ) (s : List ℕ)
      → later_tokens (suc fuel) delimit (some s)
        ≡ later_from fuel (next_token delimit (skip_delimiters delimit s))
  unfolding later_tokens strtok_s
  later_tokens-step fuel s = later_from-cases fuel (next_token delimit (skip_delimiters delimit s))

  next_token-words :
      (fuel : ℕ) (s : List ℕ)
      → ((context : Option (List ℕ))
          → size context ≤ fuel
          → later_tokens fuel delimit context ≡ words_behind delimit context)
      → ((c : ℕ) (s' : List ℕ) → s ≡ c ∷ s' → is_delimiter delimit c ≡ false)
      → length s ≤ fuel
      → later_from fuel (next_token delimit s) ≡ words delimit s
  unfolding later_from
  next_token-words fuel [] ih head h = refl
  next_token-words fuel (c ∷ s) ih head h =
      let first = token_of-head c s (head c s refl) in
      let (token, rest) = token_of delimit s in
      ap (λ (r : List ℕ × List ℕ). r.0 ∷ later_tokens fuel delimit (behind r.1)) first
      ∙ (ap (λ l. (c ∷ token) ∷ l)
            (ih (behind rest) (omega (arith, behind-size rest, token_of-length s)))
          ∙ (sym (glue-words c (token, rest))
              ∙ ap not_empty (sym (token_of-pieces (c ∷ s) ∙ ap glue first))))

  later_tokens-words :
      (fuel : ℕ) (context : Option (List ℕ))
      → size context ≤ fuel
      → later_tokens fuel delimit context ≡ words_behind delimit context
  unfolding later_tokens strtok_s
  later_tokens-words zero none h = refl
  later_tokens-words zero (some s) h = absurd (omega arith)
  later_tokens-words (suc fuel) none h = refl
  later_tokens-words (suc fuel) (some s) h =
      let behind_skip = skip_delimiters delimit s in
      later_tokens-step fuel s
      ∙ (next_token-words fuel behind_skip (later_tokens-words fuel)
            (λ c s' e. skip_delimiters-head s s' c e) (omega (arith, skip_delimiters-length s))
          ∙ skip_delimiters-words s)

-- All tokens of a text: those of the first call, and of the calls with NULL after it.
abbrev pub all_tokens : List ℕ → List ℕ → List (List ℕ)
all_tokens delimit text =
    let (token, context) = strtok_s (some text) (some delimit) true none in
    elim token [ none ↦ [] | some t ↦ t ∷ later_tokens (length text) delimit context ]

-- Repeated calls of `strtok_s` on a text answer exactly its words, in order: the pieces between the
-- delimiters that are not empty. They end after at most as many calls as the text has bytes, and one.
pub all_tokens-words : (delimit text : List ℕ) → all_tokens delimit text ≡ words delimit text
unfolding strtok_s later_tokens
all_tokens-words delimit text =
    later_tokens-words delimit (suc (length text)) (some text) (omega arith)
