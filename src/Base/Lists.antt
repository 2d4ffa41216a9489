-- ===== src/Base/Lists.antt =====
-- Lists measured and indexed by native numbers, under the library's names.
use Prim.Native.Nat.{ℕ, zero, suc, ◌+◌, ◌-◌, ◌≤◌, min}
use mathlib.Core.Path.{◌≡◌, refl, ap, sym, ◌∙◌}
use mathlib.Core.Logic.{◌≢◌}
use mathlib.Core.List.{List, [], ◌∷◌, ◌++◌, map}
use native.Mathlib.Omega.{arith}

module _ {ℓ} {A : Type ℓ} where
  abbrev pub length : List A → ℕ
  length [] = 0
  length (x ∷ xs) = suc (length xs)

  abbrev pub get_or : List A → ℕ → A → A
  get_or [] i d = d
  get_or (x ∷ xs) zero d = x
  get_or (x ∷ xs) (suc i) d = get_or xs i d

  -- A write out of bounds changes nothing.
  abbrev pub set : List A → ℕ → A → List A
  set [] i v = []
  set (x ∷ xs) zero v = v ∷ xs
  set (x ∷ xs) (suc i) v = x ∷ set xs i v

  abbrev pub take : ℕ → List A → List A
  take zero xs = []
  take (suc n) [] = []
  take (suc n) (x ∷ xs) = x ∷ take n xs

  abbrev pub drop : ℕ → List A → List A
  drop zero xs = xs
  drop (suc n) [] = []
  drop (suc n) (x ∷ xs) = drop n xs

  abbrev pub replicate : ℕ → A → List A
  replicate zero a = []
  replicate (suc n) a = a ∷ replicate n a

module _ {ℓ} {A : Type ℓ} where
  pub length-append : (xs ys : List A) → length (xs ++ ys) ≡ length xs + length ys
  length-append [] ys = omega arith
  length-append (x ∷ xs) ys = omega (arith, length-append xs ys)

  pub length-set : (xs : List A) (i : ℕ) (v : A) → length (set xs i v) ≡ length xs
  length-set [] i v = refl
  length-set (x ∷ xs) zero v = refl
  length-set (x ∷ xs) (suc i) v = ap suc (length-set xs i v)

  pub length-take : (n : ℕ) (xs : List A) → length (take n xs) ≡ min n (length xs)
  length-take zero xs = omega arith
  length-take (suc n) [] = omega arith
  length-take (suc n) (x ∷ xs) = omega (arith, length-take n xs)

  pub length-drop : (n : ℕ) (xs : List A) → length (drop n xs) ≡ length xs - n
  length-drop zero xs = omega arith
  length-drop (suc n) [] = omega arith
  length-drop (suc n) (x ∷ xs) = omega (arith, length-drop n xs)

  pub length-replicate : (n : ℕ) (a : A) → length (replicate n a) ≡ n
  length-replicate zero a = refl
  length-replicate (suc n) a = ap suc (length-replicate n a)

  pub take-length-append : (xs ys : List A) → take (length xs) (xs ++ ys) ≡ xs
  take-length-append [] ys = refl
  take-length-append (x ∷ xs) ys = ap (λ t. x ∷ t) (take-length-append xs ys)

  pub drop-length-append : (xs ys : List A) → drop (length xs) (xs ++ ys) ≡ ys
  drop-length-append [] ys = refl
  drop-length-append (x ∷ xs) ys = drop-length-append xs ys

  pub take-append-drop : (n : ℕ) (xs : List A) → take n xs ++ drop n xs ≡ xs
  take-append-drop zero xs = refl
  take-append-drop (suc n) [] = refl
  take-append-drop (suc n) (x ∷ xs) = ap (λ t. x ∷ t) (take-append-drop n xs)

  pub take-append_of_length : (n : ℕ) (xs ys : List A) → length xs ≡ n → take n (xs ++ ys) ≡ xs
  take-append_of_length zero [] ys e = refl
  take-append_of_length zero (x ∷ xs) ys e = absurd (omega arith)
  take-append_of_length (suc n) [] ys e = absurd (omega arith)
  take-append_of_length (suc n) (x ∷ xs) ys e =
      ap (λ t. x ∷ t) (take-append_of_length n xs ys (omega arith))

  -- A prefix that reaches into the second list.
  pub take-append_of_le :
      (n : ℕ) (xs ys : List A) → length xs ≤ n → take n (xs ++ ys) ≡ xs ++ take (n - length xs) ys
  take-append_of_le n [] ys h = ap (λ k. take k ys) (omega arith)
  take-append_of_le zero (x ∷ xs) ys h = absurd (omega arith)
  take-append_of_le (suc n) (x ∷ xs) ys h =
      ap (λ t. x ∷ t)
        (take-append_of_le n xs ys (omega arith) ∙ ap (λ k. xs ++ take k ys) (omega arith))

  pub take_of_length : (n : ℕ) (xs : List A) → length xs ≡ n → take n xs ≡ xs
  take_of_length zero [] e = refl
  take_of_length zero (x ∷ xs) e = absurd (omega arith)
  take_of_length (suc n) [] e = absurd (omega arith)
  take_of_length (suc n) (x ∷ xs) e = ap (λ t. x ∷ t) (take_of_length n xs (omega arith))

  -- A prefix of length `n` is passed over by the first `n` steps of `drop`.
  pub drop-append_of_length :
      (n m : ℕ) (xs ys : List A) → length xs ≡ n → n ≤ m → drop m (xs ++ ys) ≡ drop (m - n) ys
  drop-append_of_length zero m [] ys e le = ap (λ k. drop k ys) (omega arith)
  drop-append_of_length zero m (x ∷ xs) ys e le = absurd (omega arith)
  drop-append_of_length (suc n) m [] ys e le = absurd (omega arith)
  drop-append_of_length (suc n) zero (x ∷ xs) ys e le = absurd (omega arith)
  drop-append_of_length (suc n) (suc m) (x ∷ xs) ys e le =
      drop-append_of_length n m xs ys (omega arith) (omega arith)
      ∙ ap (λ k. drop k ys) (omega arith)

  -- To write the value that is there changes nothing.
  pub set_same : (xs : List A) (i : ℕ) (v d : A) → v ≢ d → get_or xs i d ≡ v → set xs i v ≡ xs
  set_same [] i v d ne e = refl
  set_same (x ∷ xs) zero v d ne e = ap (λ t. t ∷ xs) (sym e)
  set_same (x ∷ xs) (suc i) v d ne e = ap (λ t. x ∷ t) (set_same xs i v d ne e)

pub length-map {ℓ ℓ'} :
    {A : Type ℓ} → {B : Type ℓ'} → (f : A → B) (xs : List A) → length (map f xs) ≡ length xs
length-map f [] = refl
length-map f (x ∷ xs) = ap suc (length-map f xs)
