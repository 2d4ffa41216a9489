-- ===== src/PQueue/Sift.antt =====
-- `SiftUp` of silog_comm/src/silog_pqueue.c: the loop carries the new element up a heap with a hole.
use si_log.Base.{
  ℕ, zero, suc, ◌+◌, ◌-◌, ◌/◌, ◌≤◌, ◌<◌, ◌≡◌, ◌≢◌, true, update, update_self, ltb, Bool-cases, inl,
  inr, arith,
}
use si_log.Base.Int.{ℤ, is_positive}
use si_log.PQueue.{sift_up_loop, sift_up}
use si_log.PQueue.Order.{Below, IsOrder, IsHeap}

module _ {A : Type 0} (compare : A → A → ℤ) (order : IsOrder compare) where
  open order use {below_of_above, below_trans}

  -- The array is a heap but for the cell `hole`, where `temp` may be put as far as the cells below
  -- the hole are concerned.
  pub record HeapBut (buffer : ℕ → A) (size hole : ℕ) (temp : A) : Type 0 where
    pub inside : hole < size
    pub edges :
        (i : ℕ)
        → 0 < i
        → i < size
        → i ≢ hole
        → (i - 1) / 2 ≢ hole
        → Below compare (buffer i) (buffer ((i - 1) / 2))
    pub under : (i : ℕ) → 0 < i → i < size → (i - 1) / 2 ≡ hole → Below compare (buffer i) temp
    pub bridged :
        (i : ℕ)
        → 0 < i
        → i < size
        → (i - 1) / 2 ≡ hole
        → 0 < hole
        → Below compare (buffer i) (buffer ((hole - 1) / 2))

  rise :
      {buffer : ℕ → A} {size hole : ℕ} {temp : A}
      → HeapBut buffer size hole temp
      → 0 < hole
      → is_positive (compare temp (buffer ((hole - 1) / 2))) ≡ true
      → HeapBut (update buffer hole (buffer ((hole - 1) / 2))) size ((hole - 1) / 2) temp
  rise {buffer} {size} {hole} {temp} h pos above = record {
    inside = omega arith;
    edges = λ i p q ne ne'. ground (arith, h.edges i p q, h.bridged i p q);
    under = λ i p q e. ground (
      arith,
      h.edges i p q,
      below_of_above temp (buffer ((hole - 1) / 2)),
      below_trans (buffer i) (buffer ((hole - 1) / 2)) temp,
    );
    bridged = λ i p q e pos'. ground (
      arith,
      h.edges i p q,
      h.edges ((hole - 1) / 2) pos',
      below_trans (buffer i) (buffer ((hole - 1) / 2)) (buffer (((hole - 1) / 2 - 1) / 2)),
    );
  }

  settle :
      {buffer : ℕ → A} {size hole : ℕ} {temp : A}
      → HeapBut buffer size hole temp
      → (0 < hole → Below compare temp (buffer ((hole - 1) / 2)))
      → IsHeap compare (update buffer hole temp) size
  settle {buffer} {size} {hole} {temp} h top i p q = ground (arith, h.edges i p q, h.under i p q)

  sift_up_loop-IsHeap :
      (fuel : ℕ) {buffer : ℕ → A} {size : ℕ} (index : ℕ) {temp : A}
      → index ≤ fuel
      → HeapBut buffer size index temp
      → let (buffer', index') = sift_up_loop compare fuel buffer index temp in
        IsHeap compare (update buffer' index' temp) size
  unfolding sift_up_loop
  sift_up_loop-IsHeap zero index le h = settle h (λ pos. absurd (omega arith))
  sift_up_loop-IsHeap (suc fuel) {buffer} index {temp} le h = elim (Bool-cases (ltb 0 index)) [
    | inr root ↦ rw root (settle h (λ pos. ground arith))
    | inl deep ↦ elim (Bool-cases (is_positive (compare temp (buffer ((index - 1) / 2))))) [
      | inr stop ↦ rw (deep, stop) (settle h (λ pos. stop))
      | inl above ↦
          rw (deep, above)
            (sift_up_loop-IsHeap fuel ((index - 1) / 2) (ground arith)
              (rise h (ground arith) above))
    ]
  ]

  -- A new element after the last one of a heap leaves a heap.
  pub sift_up-IsHeap :
      (buffer : ℕ → A) (size : ℕ) (element : A)
      → IsHeap compare buffer size
      → IsHeap compare (sift_up compare true (update buffer size element) size) (size + 1)
  unfolding sift_up
  sift_up-IsHeap buffer size element heap = rw (update_self buffer size element) (
      sift_up_loop-IsHeap size size (omega arith) (record {
        inside = omega arith;
        edges = λ i p q ne ne'. ground (arith, heap i p);
        under = λ i p q e. absurd (omega arith);
        bridged = λ i p q e pos. absurd (omega arith);
      }))
