-- ===== src/Cat/Print/Filter.antt =====
-- The filter of silog_cat/src/silog_cat.c.
use si_log.Base.{
  ℕ, ◌≤◌, ◌≡◌, ◌∙◌, ◌⊎◌, inl, inr, refl, sym, ap, Bool, true, false, not, ◌&&◌, ◌||◌, none, some,
  List, [], ◌∷◌, ◌++◌, if◌then◌else◌, length, ltb, ◌==◌, arith, Bool-cases, le→ltb-false,
  ltb-false→le,
}
use si_log.Entry.{LogEntry}
use si_log.Securec.Text.Arrays.{text}
use si_log.Time.{Tm}
use si_log.Clean.{has_prefix}
use si_log.Clean.Prefix.{has_prefix→append, append→has_prefix}
use si_log.Cat.{CatConfig}
use si_log.Cat.Print.{Printed, contains, line_for, print_log}

-- A text that stands within another.
abbrev pub IsWithin : List ℕ → List ℕ → Type 0
IsWithin needle hay = (before : List ℕ) × (after : List ℕ) × (hay ≡ before ++ (needle ++ after))

contains→IsWithin : (hay needle : List ℕ) → contains hay needle ≡ true → IsWithin needle hay
unfolding contains
contains→IsWithin [] needle h = let (after, e) = has_prefix→append [] needle h in ([], after, e)
contains→IsWithin (x ∷ hay) needle h = elim (Bool-cases (has_prefix (x ∷ hay) needle)) [
  | inl p ↦ let (after, e) = has_prefix→append (x ∷ hay) needle p in ([], after, e)
  | inr p ↦
      let (before, after, e) =
        contains→IsWithin hay needle (sym (ap (λ b. b || contains hay needle) p) ∙ h) in
      (x ∷ before, after, ap (λ t. x ∷ t) e)
]

contains-start : (needle after : List ℕ) → contains (needle ++ after) needle ≡ true
unfolding contains
contains-start [] [] = append→has_prefix [] []
contains-start [] (x ∷ after) = ap (λ b. b || contains after []) (append→has_prefix [] (x ∷ after))
contains-start (n ∷ needle) after =
    ap (λ b. b || contains (needle ++ after) (n ∷ needle)) (append→has_prefix (n ∷ needle) after)

or_true : (b : Bool) → (b || true) ≡ true
or_true true = refl
or_true false = refl

IsWithin→contains :
    (needle before after : List ℕ) → contains (before ++ (needle ++ after)) needle ≡ true
unfolding contains
IsWithin→contains needle [] after = contains-start needle after
IsWithin→contains needle (x ∷ before) after =
    let first = has_prefix (x ∷ (before ++ (needle ++ after))) needle in
    ap (λ b. first || b) (IsWithin→contains needle before after) ∙ or_true first

-- What the filter lets through.
abbrev pub IsShown : CatConfig → LogEntry → Type 0
IsShown c e = (c.min_level ≤ e.level) × IsWithin c.filter_tag (text e.tag)

print_log-all :
    (c : CatConfig) (localtime : ℕ → Tm) (e : LogEntry)
    → IsShown c e
    → print_log c localtime e ≡ some (line_for c localtime e)
unfolding print_log
print_log-all c localtime e (le, (before, after, at)) =
    let found : contains (text e.tag) c.filter_tag ≡ true =
      ap (λ t. contains t c.filter_tag) at ∙ IsWithin→contains c.filter_tag before after in
    rw (le→ltb-false e.level c.min_level le, found) (ground arith)

hides :
    (low empty found : Bool) (l : Printed) (P : Type 0)
    → (low ≡ false → empty ≡ true → P)
    → (low ≡ false → found ≡ true → P)
    → ((if low then none else (if not empty && not found then none else some l)) ≡ none) ⊎ P
hides true empty found l P p q = inl refl
hides false true found l P p q = inr (p refl refl)
hides false false true l P p q = inr (q refl refl)
hides false false false l P p q = inl refl

empty_list : (s : List ℕ) → (length s == 0) ≡ true → s ≡ []
empty_list [] h = refl
empty_list (x ∷ s) h = absurd (ground (arith, h))

print_log-hides :
    (c : CatConfig) (localtime : ℕ → Tm) (e : LogEntry)
    → (print_log c localtime e ≡ none) ⊎ IsShown c e
unfolding print_log
print_log-hides c localtime e =
    hides (ltb e.level c.min_level) (length c.filter_tag == 0) (contains (text e.tag) c.filter_tag)
      (line_for c localtime e) (IsShown c e)
      (λ low empty. (
        ltb-false→le e.level c.min_level low,
        ([], text e.tag, ap (λ t. t ++ text e.tag) (sym (empty_list c.filter_tag empty))),
      ))
      (λ low found.
        (ltb-false→le e.level c.min_level low, contains→IsWithin (text e.tag) c.filter_tag found))

-- An entry is printed exactly if its level is at least the least one and its tag contains the filter's text, which
-- every tag does if that is empty; nothing else than the line for it is printed.
pub print_log-IsShown :
    (c : CatConfig) (localtime : ℕ → Tm) (e : LogEntry)
    → ((print_log c localtime e ≡ none) × ¬ IsShown c e)
      ⊎ ((print_log c localtime e ≡ some (line_for c localtime e)) × IsShown c e)
print_log-IsShown c localtime e = elim (print_log-hides c localtime e) [
  | inl hidden ↦
      inl (hidden, λ shown. absurd (grind (arith, sym hidden ∙ print_log-all c localtime e shown)))
  | inr shown ↦ inr (print_log-all c localtime e shown, shown)
]
