-- ===== src/PQueue/Order.antt =====
-- The heap order of the array, and what a comparison function has to satisfy.
use si_log.Base.{ℕ, ◌-◌, ◌/◌, ◌<◌, ◌≡◌, true, false}
use si_log.Base.Int.{ℤ, is_positive}

module _ {A : Type 0} (compare : A → A → ℤ) where
  -- `a` is not preferred to `b`: the call `compare(a, b)` is at most 0.
  abbrev pub Below : A → A → Type 0
  Below a b = is_positive (compare a b) ≡ false

  -- The contract of a comparison function: no element is preferred to itself, two are not preferred
  -- to each other, and "not preferred" is transitive.
  pub record IsOrder : Type 0 where
    pub below_refl : (a : A) → Below a a
    pub below_of_above : (a b : A) → is_positive (compare a b) ≡ true → Below b a
    pub below_trans : (a b c : A) → Below a b → Below b c → Below a c

  -- No element of the array is preferred to its parent.
  abbrev pub IsHeap : (ℕ → A) → ℕ → Type 0
  IsHeap buffer size = (i : ℕ) → 0 < i → i < size → Below (buffer i) (buffer ((i - 1) / 2))
