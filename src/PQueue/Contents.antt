-- ===== src/PQueue/Contents.antt =====
-- Which elements the array holds, whatever their order: neither `SiftUp` nor `SiftDown` of
-- silog_comm/src/silog_pqueue.c loses or makes up an element.
use si_log.Base.{
  ℕ, zero, suc, ◌+◌, ◌-◌, ◌/◌, ◌≤◌, ◌<◌, ◌≡◌, ◌≢◌, ◌∙◌, Bool, true, refl, update, ltb, ◌==◌,
  Bool-cases, if◌then◌else◌, dec_lt, inl, inr, arith,
}
use si_log.Base.Int.{ℤ, is_positive}
use si_log.PQueue.{sift_up_loop, sift_up, largest_child, sift_down_loop, sift_down}

-- How many of the first `n` elements pass the test `p`.
abbrev pub count {ℓ} : {A : Type ℓ} → (A → Bool) → (ℕ → A) → ℕ → ℕ
count p f zero = 0
count p f (suc n) = count p f n + (if p (f n) then 1 else 0)

-- The first `n` elements of both arrays are the same, each as often.
abbrev pub SameContents {ℓ} : {A : Type ℓ} → ℕ → (ℕ → A) → (ℕ → A) → Type ℓ
SameContents {A = A} n f g = (p : A → Bool) → count p f n ≡ count p g n

module _ {A : Type 0} (p : A → Bool) where
  pub count-update_above :
      (n : ℕ) (f : ℕ → A) (i : ℕ) (a : A) → n ≤ i → count p (update f i a) n ≡ count p f n
  count-update_above zero f i a h = refl
  count-update_above (suc n) f i a h = ground (arith, count-update_above n f i a)

  pub count-update :
      (n : ℕ) (f : ℕ → A) (i : ℕ) (a : A)
      → i < n
      → count p (update f i a) n + (if p (f i) then 1 else 0) ≡ count p f n + (if p a then 1 else 0)
  count-update zero f i a h = absurd (omega arith)
  count-update (suc n) f i a h = elim (dec_lt i n) [
    | yes below ↦ ground (arith, count-update n f i a below)
    | no last ↦ ground (arith, count-update_above n f i a)
  ]

  -- To copy the element at `j` to `i` and put `a` at `j` is to put `a` at `i`.
  count-hole :
      (n : ℕ) (f : ℕ → A) (i j : ℕ) (a : A)
      → i < n
      → j < n
      → i ≢ j
      → count p (update (update f i (f j)) j a) n ≡ count p (update f i a) n
  count-hole n f i j a hi hj ne =
      ground (
        arith,
        count-update n f i a,
        count-update n f i (f j),
        count-update n (update f i (f j)) j a,
      )

module _ {A : Type 0} (compare : A → A → ℤ) where
  sift_up_loop-count :
      (p : A → Bool) (n fuel : ℕ) (f : ℕ → A) (index : ℕ) (temp : A)
      → index < n
      → let (f', index') = sift_up_loop compare fuel f index temp in
        count p (update f' index' temp) n ≡ count p (update f index temp) n
  unfolding sift_up_loop
  sift_up_loop-count p n zero f index temp h = refl
  sift_up_loop-count p n (suc fuel) f index temp h = elim (Bool-cases (ltb 0 index)) [
    | inr root ↦ rw root
    | inl deep ↦ elim (Bool-cases (is_positive (compare temp (f ((index - 1) / 2))))) [
      | inr stop ↦ rw (deep, stop)
      | inl above ↦
          rw (deep, above, sift_up_loop-count p n fuel _ ((index - 1) / 2) temp (ground arith))
            (count-hole p n f index ((index - 1) / 2) temp h (ground arith) (ground arith))
    ]
  ]

  -- The index that a round selects is the present one, or one further down inside the heap.
  pub largest_child_bounds :
      (f : ℕ → A) (size index : ℕ)
      → largest_child compare f size index ≢ index
      → (largest_child compare f size index < size) × (index < largest_child compare f size index)
  unfolding largest_child
  largest_child_bounds f size index ne = ground arith

  sift_down_loop-count :
      (p : A → Bool) (n fuel : ℕ) (f : ℕ → A) (index : ℕ) (temp : A)
      → index < n
      → let (f', index') = sift_down_loop compare fuel f n index in
        count p (update f' index' temp) n ≡ count p (update f index temp) n
  unfolding sift_down_loop
  sift_down_loop-count p n zero f index temp h = refl
  sift_down_loop-count p n (suc fuel) f index temp h =
      let k = largest_child compare f n index in
      elim (Bool-cases (k == index)) [
        | inl stop ↦ rw stop
        | inr go ↦
            let (below, above) = largest_child_bounds f n index (ground arith) in
            rw (go, sift_down_loop-count p n fuel (update f index (f k)) k temp below)
              (count-hole p n f index k temp h below (omega arith))
      ]

  pub sift_up-contents :
      (f : ℕ → A) (index n : ℕ) → index < n → SameContents n (sift_up compare true f index) f
  unfolding sift_up
  sift_up-contents f index n h p =
      sift_up_loop-count p n index f index (f index) h
      ∙ omega (arith, count-update p n f index (f index) h)

  pub sift_down-contents :
      (f : ℕ → A) (n index : ℕ) → index < n → SameContents n (sift_down compare true f n index) f
  unfolding sift_down
  sift_down-contents f n index h p =
      sift_down_loop-count p n n f index (f index) h
      ∙ omega (arith, count-update p n f index (f index) h)
