-- ===== src/Clean/Prefix.antt =====
-- What `strncmp(name, prefix, strlen(prefix)) == 0` of silog_dae/src/silog_file_manager.c says of the two texts.
use si_log.Base.{
  ℕ, ◌≡◌, ◌∙◌, refl, sym, ap, ap₂, true, ◌&&◌, List, [], ◌∷◌, ◌++◌, ◌==◌, ==_iff, ==_refl,
  Bool-cases, inl, inr, arith,
}
use si_log.Clean.{has_prefix}

pub has_prefix→append :
    (name prefix : List ℕ)
    → has_prefix name prefix ≡ true
    → (after : List ℕ) × (name ≡ prefix ++ after)
unfolding has_prefix
has_prefix→append name [] h = (name, refl)
has_prefix→append [] (p ∷ prefix) h = absurd (grind (arith, h))
has_prefix→append (x ∷ name) (p ∷ prefix) h = elim (Bool-cases (x == p)) [
  | inl e ↦
      let (after, rest) =
        has_prefix→append name prefix (sym (ap (λ b. b && has_prefix name prefix) e) ∙ h) in
      (after, ap₂ (λ y ys. y ∷ ys) ((==_iff x p).0 e) rest)
  | inr e ↦ absurd (ground (arith, h, e))
]

pub append→has_prefix : (prefix after : List ℕ) → has_prefix (prefix ++ after) prefix ≡ true
unfolding has_prefix
append→has_prefix [] after = refl
append→has_prefix (p ∷ prefix) after = rw (==_refl p) (append→has_prefix prefix after)
