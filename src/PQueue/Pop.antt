-- ===== src/PQueue/Pop.antt =====
-- `SilogPQueuePop` of silog_comm/src/silog_pqueue.c: what it returns and keeps, and how far
-- `SiftDown` sinks the element that it moves to the root.
use si_log.Base.{
  ℕ, zero, suc, ◌+◌, ◌-◌, ◌*◌, ◌/◌, ◌∙◌, refl, sym, ap, ◌≤◌, ◌<◌, ◌≡◌, ◌≢◌, Bool, true, some,
  update, ltb, ◌==◌, Bool-cases, inl, inr, if◌then◌else◌, arith,
}
use si_log.Base.Int.{ℤ, is_positive}
use si_log.Errors.{ok}
use si_log.PQueue.{PQueue, pop, largest_child, sift_down_loop, sift_down}
use si_log.PQueue.Order.{Below, IsOrder, IsHeap}
use si_log.PQueue.Contents.{count, count-update, sift_down-contents}

module _ {A : Type 0} (compare : A → A → ℤ) where
  -- The heap order of all edges but those at the root.
  abbrev IsHeapBelowRoot : (ℕ → A) → ℕ → Type 0
  IsHeapBelowRoot f size = (i : ℕ) → 2 < i → i < size → Below compare (f i) (f ((i - 1) / 2))

  root-above_fuel :
      IsOrder compare
      → (f : ℕ → A) (size : ℕ) → IsHeap compare f size
      → (fuel i : ℕ) → i ≤ fuel
      → i < size
      → Below compare (f i) (f 0)
  root-above_fuel order f size heap fuel zero le h = order.below_refl (f 0)
  root-above_fuel order f size heap zero (suc i) le h = absurd (omega arith)
  root-above_fuel order f size heap (suc fuel) (suc i) le h =
      order.below_trans (f (suc i)) (f ((suc i - 1) / 2)) (f 0) (heap (suc i) (omega arith) h)
        (root-above_fuel order f size heap fuel ((suc i - 1) / 2) (omega arith) (omega arith))

  -- No element of a heap is preferred to the one at the root.
  pub root-above :
      IsOrder compare
      → (f : ℕ → A) (size : ℕ) → IsHeap compare f size
      → (i : ℕ) → i < size
      → Below compare (f i) (f 0)
  root-above order f size heap i = root-above_fuel order f size heap i i (omega arith)

  -- Where no child is preferred to the element at `index`, the loop stops.
  largest_child-stays :
      (f : ℕ → A) (size index : ℕ)
      → ((i : ℕ) → 0 < i → i < size → (i - 1) / 2 ≡ index → Below compare (f i) (f index))
      → largest_child compare f size index ≡ index
  unfolding largest_child
  largest_child-stays f size index h = ground (arith, h (2 * index + 1), h (2 * index + 2))

  largest_child-root : (f : ℕ → A) (size : ℕ) → largest_child compare f size 0 ≤ 2
  unfolding largest_child
  largest_child-root f size = ground arith

  -- The child selected at the root is the best of the root and its children.
  largest_child-top :
      IsOrder compare
      → (f : ℕ → A) (size i : ℕ) → i < size
      → i ≤ 2
      → Below compare (f i) (f (largest_child compare f size 0))
  unfolding largest_child
  largest_child-top order f size zero h le = ground (
    arith,
    order.below_refl (f 0),
    order.below_of_above (f 1) (f 0),
    order.below_of_above (f 2) (f 0),
    order.below_of_above (f 2) (f 1),
    order.below_trans (f 0) (f 1) (f 2),
  )
  largest_child-top order f size (suc zero) h le = ground (
    arith,
    order.below_refl (f 1),
    order.below_of_above (f 2) (f 1),
    order.below_trans (f 1) (f 0) (f 2),
    order.below_of_above (f 2) (f 0),
  )
  largest_child-top order f size (suc (suc i)) h le =
      let e : suc (suc i) ≡ 2 = omega arith in
      rw e (ground (arith, order.below_refl (f 2), order.below_of_above (f 2) (f 1), h))

  sift_down_loop-stops :
      (fuel : ℕ) (f : ℕ → A) (size index : ℕ)
      → largest_child compare f size index ≡ index
      → sift_down_loop compare fuel f size index ≡ (f, index)
  unfolding sift_down_loop
  sift_down_loop-stops zero f size index h = refl
  sift_down_loop-stops (suc fuel) f size index h = ground arith

  -- The second round compares the grandchildren with the child that was moved up, not with the
  -- element that sinks, and stops.
  sift_down_loop-one_round :
      (fuel : ℕ) (f : ℕ → A) (size : ℕ)
      → IsHeapBelowRoot f size
      → largest_child compare f size 0 ≢ 0
      → let k = largest_child compare f size 0 in
        sift_down_loop compare (suc fuel) f size 0 ≡ (update f 0 (f k), k)
  unfolding sift_down_loop
  sift_down_loop-one_round fuel f size heap ne =
      let k = largest_child compare f size 0 in
      let moved = update f 0 (f k) in
      let stays : largest_child compare moved size k ≡ k =
        largest_child-stays moved size k
          (λ i p q e. ground (arith, heap i, largest_child-root f size)) in
      ground (arith, sift_down_loop-stops fuel moved size k stays)

  -- `SiftDown` from the root exchanges it with the child selected at the root, and goes no further.
  pub sift_down-one_level :
      (f : ℕ → A) (size i : ℕ)
      → IsHeapBelowRoot f size
      → 0 < size
      → let k = largest_child compare f size 0 in
        sift_down compare true f size 0 i ≡ update (update f 0 (f k)) k (f 0) i
  unfolding sift_down
  sift_down-one_level f zero i heap h = absurd (omega arith)
  sift_down-one_level f (suc fuel) i heap h =
      elim (Bool-cases (largest_child compare f (suc fuel) 0 == 0)) [
        | inl stop ↦ ground (arith, sift_down_loop-stops (suc fuel) f (suc fuel) 0 (ground arith))
        | inr go ↦ rw (sift_down_loop-one_round fuel f (suc fuel) heap (ground arith))
      ]

module _ {A : Type 0} (q : PQueue A) where
  abbrev moved : ℕ → A
  moved = update q.buffer 0 (q.buffer (q.size - 1))

  -- The queue that a successful pop leaves.
  abbrev popped : PQueue A
  popped = record q {
    buffer = if ltb 0 (q.size - 1) then sift_down q.compare true moved (q.size - 1) 0 else q.buffer;
    size = q.size - 1;
  }

  pop-popped : 0 < q.size → pop true (some q) true ≡ (ok, some (q.buffer 0), some popped)
  unfolding pop
  pop-popped h = ground arith

  popped-count :
      (p : A → Bool) (n : ℕ)
      → q.size ≡ suc n
      → count p popped.buffer n + (if p (q.buffer 0) then 1 else 0) ≡ count p q.buffer (suc n)
  popped-count p zero e = omega arith
  popped-count p (suc n) e =
      let left : q.size - 1 ≡ suc n = omega arith in
      let sunk : popped.buffer
          ≡ sift_down q.compare true (update q.buffer 0 (q.buffer (suc n))) (suc n) 0 =
        rw left (ground arith) in
      rw (ap (λ f. count p f (suc n)) sunk) (
        omega (
          arith,
          sift_down-contents q.compare (update q.buffer 0 (q.buffer (suc n))) (suc n) 0
              (omega arith) p,
          count-update p (suc n) q.buffer 0 (q.buffer (suc n)) (omega arith),
        ))

  -- A pop from a heap that is not empty, with memory for the scratch element, succeeds: no element
  -- of the queue is preferred to the one returned, the size falls by one, and what is left is what
  -- was there but for the element returned, each as often as before.
  pub pop_lem :
      IsOrder q.compare
      → IsHeap q.compare q.buffer q.size
      → 0 < q.size
      → (top : A) × (q' : PQueue A) × (pop true (some q) true ≡ (ok, some top, some q'))
        × (q'.size + 1 ≡ q.size)
        × ((i : ℕ) → i < q.size → Below q.compare (q.buffer i) top)
        × ((p : A → Bool)
            → count p q'.buffer q'.size + (if p top then 1 else 0) ≡ count p q.buffer q.size)
  pop_lem order heap h = (
    q.buffer 0,
    popped,
    pop-popped h,
    omega arith,
    root-above q.compare order q.buffer q.size heap,
    λ p.
        let e : q.size ≡ suc (q.size - 1) = omega arith in
        popped-count p (q.size - 1) e ∙ ap (count p q.buffer) (sym e),
  )

  moved-IsHeapBelowRoot :
      IsHeap q.compare q.buffer q.size → IsHeapBelowRoot q.compare moved (q.size - 1)
  moved-IsHeapBelowRoot heap i p lt = ground (arith, heap i)

  popped-one_level :
      IsHeap q.compare q.buffer q.size
      → 1 < q.size
      → (i : ℕ)
      → let k = largest_child q.compare moved (q.size - 1) 0 in
        popped.buffer i ≡ update (update moved 0 (moved k)) k (moved 0) i
  popped-one_level heap h i = ground (
    arith,
    sift_down-one_level q.compare moved (q.size - 1) i (moved-IsHeapBelowRoot heap) (omega arith),
  )

  -- A queue of at most four elements is a heap again after a pop.
  pop_small-IsHeap :
      IsOrder q.compare
      → IsHeap q.compare q.buffer q.size
      → 0 < q.size
      → q.size ≤ 4
      → (q' : PQueue A) × (pop true (some q) true ≡ (ok, some (q.buffer 0), some q'))
        × IsHeap q.compare q'.buffer q'.size
  pop_small-IsHeap order heap h small = (
    popped,
    pop-popped h,
    λ i p lt.
        let k = largest_child q.compare moved (q.size - 1) 0 in
        rw
          (popped-one_level heap (omega arith) i, popped-one_level heap (omega arith) ((i - 1) / 2))
          (ground (
            arith,
            largest_child-top q.compare order moved (q.size - 1) i lt (omega arith),
            largest_child-top q.compare order moved (q.size - 1) 0,
          )),
  )

  -- Where the elements at 3 and 5 of a heap of seven or more are preferred to its last element, the
  -- array is no heap after a pop: `SiftDown` stops one level below the root.
  pub pop-breaks-IsHeap :
      IsOrder q.compare
      → IsHeap q.compare q.buffer q.size
      → 7 ≤ q.size
      → is_positive (q.compare (q.buffer 3) (q.buffer (q.size - 1))) ≡ true
      → is_positive (q.compare (q.buffer 5) (q.buffer (q.size - 1))) ≡ true
      → (q' : PQueue A) × (pop true (some q) true ≡ (ok, some (q.buffer 0), some q'))
        × ¬ (IsHeap q.compare q'.buffer q'.size)
  pop-breaks-IsHeap order heap h three five = (
    popped,
    pop-popped (omega arith),
    λ bad.
        let k = largest_child q.compare moved (q.size - 1) 0 in
        ground (
          arith,
          three,
          five,
          largest_child-root q.compare moved (q.size - 1),
          largest_child-top q.compare order moved (q.size - 1) 1,
          heap 3,
          order.below_trans (q.buffer 3) (q.buffer 1) (q.buffer (q.size - 1)),
          bad 3,
          bad 5,
          popped-one_level heap (omega arith) 1,
          popped-one_level heap (omega arith) 2,
          popped-one_level heap (omega arith) 3,
          popped-one_level heap (omega arith) 5,
        ),
  )
