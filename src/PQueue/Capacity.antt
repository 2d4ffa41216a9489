-- ===== src/PQueue/Capacity.antt =====
-- The memory behind the buffer of silog_comm/src/silog_pqueue.c: `SilogPQueueInit` and
-- `SilogPQueueReserve` multiply two uint32_t before they ask for memory.
use si_log.Base.{
  ℕ, ◌+◌, ◌-◌, ◌*◌, ◌/◌, ◌%◌, ◌^◌, ◌≤◌, ◌<◌, ◌≡◌, ◌≢◌, ◌↔◌, some, refl, ap, ◌∙◌, arith,
}
use si_log.Base.Int.{ℤ}
use native.Mathlib.Nat.{mul_comm}
use si_log.Errors.{ok}
use si_log.PQueue.{PQueue, Malloc, Realloc, init, reserve}
use si_log.PQueue.Order.{IsHeap}

module _ {A : Type 0} where
  -- Every element of the queue's capacity lies inside the allocation.
  abbrev pub IsRoomy : PQueue A → Type 0
  IsRoomy q = (i : ℕ) → i < q.capacity → (i + 1) * q.element_size ≤ q.allocated

  -- Where the allocator answers, `SilogPQueueInit` with sizes that are not 0 succeeds with an empty
  -- queue of that capacity, and its memory holds the capacity exactly when the product of the two
  -- sizes does not wrap in 32 bits.
  pub init-IsRoomy :
      (malloc : Malloc A) (q : PQueue A) (element_size capacity : ℕ) (compare : A → A → ℤ)
      {buffer : ℕ → A}
      → element_size ≢ 0
      → capacity ≢ 0
      → malloc ((element_size * capacity) % 2 ^ 32) ≡ some buffer
      → (q' : PQueue A) × (init malloc (some q) element_size capacity (some compare)
          ≡ (ok, some q'))
        × (q'.size ≡ 0)
        × (q'.capacity ≡ capacity)
        × (IsRoomy q' ↔ (element_size * capacity < 2 ^ 32))
  unfolding init
  init-IsRoomy malloc q element_size capacity compare {buffer} he hc answer = (
    record {
      buffer = buffer;
      allocated = (element_size * capacity) % 2 ^ 32;
      element_size = element_size;
      capacity = capacity;
      size = 0;
      compare = compare;
    },
    ground arith,
    refl,
    refl,
    (
      λ roomy.
          let whole : (capacity - 1 + 1) * element_size ≡ element_size * capacity =
            ap (λ k. k * element_size) (omega arith) ∙ mul_comm capacity element_size in
          omega (arith, whole, roomy (capacity - 1) (omega arith)),
      λ fits i lt. grind arith,
    ),
  )

  -- Where `realloc` answers with the old elements in place and the new size does not wrap, a call of
  -- `SilogPQueueReserve` for more than the capacity keeps size, elements and heap order, and every
  -- element of the new capacity has memory.
  reserve_lem :
      (realloc : Realloc A) (q : PQueue A) (new_capacity : ℕ) {buffer : ℕ → A}
      → realloc q.buffer ((q.element_size * new_capacity) % 2 ^ 32) ≡ some buffer
      → ((i : ℕ) → i < q.size → buffer i ≡ q.buffer i)
      → q.capacity < new_capacity
      → q.element_size * new_capacity < 2 ^ 32
      → IsHeap q.compare q.buffer q.size
      → (q' : PQueue A) × (reserve realloc (some q) new_capacity ≡ (ok, some q'))
        × (q'.size ≡ q.size)
        × (q'.capacity ≡ new_capacity)
        × IsHeap q.compare q'.buffer q'.size
        × IsRoomy q'
  unfolding reserve
  reserve_lem realloc q new_capacity {buffer} answer keeps more fits heap = (
    record q {
      buffer = buffer;
      allocated = (q.element_size * new_capacity) % 2 ^ 32;
      capacity = new_capacity;
    },
    ground arith,
    refl,
    refl,
    (λ i p lt. ground (arith, heap i p lt, keeps i lt, keeps ((i - 1) / 2))),
    λ i lt. grind arith,
  )
