-- ===== src/PQueue/Push.antt =====
-- `SilogPQueuePush` of silog_comm/src/silog_pqueue.c on every branch.
use si_log.Base.{
  ℕ, ◌*◌, ◌^◌, false, leb, ◌+◌, ◌∙◌, refl, ◌≤◌, ◌<◌, ◌≡◌, Bool, true, some, update, if◌then◌else◌,
  arith,
}
use native.Mathlib.Numerals.{towards_suc}
use si_log.Errors.{ok, busy}
use si_log.PQueue.{PQueue, has_cell, push, sift_up}
use si_log.PQueue.Capacity.{IsRoomy}
use si_log.Base.Int.{ℤ}
use si_log.PQueue.Order.{IsOrder, IsHeap}
use si_log.PQueue.Sift.{sift_up-IsHeap}
use si_log.PQueue.Contents.{count, SameContents, count-update_above, sift_up-contents}

-- Every element of the capacity has memory, of which there are at most 2 ^ 32 - 1 bytes.
abbrev pub IsBacked : {A : Type 0} → PQueue A → Type 0
IsBacked q = IsRoomy q × (q.allocated < 2 ^ 32)

-- `SiftUp` loses and makes up no element, also where it has no memory for its scratch element.
sift_up-SameContents :
    {A : Type 0} (compare : A → A → ℤ) (scratch : Bool) (f : ℕ → A) (index n : ℕ)
    → index < n
    → SameContents n (sift_up compare scratch f index) f
unfolding sift_up
sift_up-SameContents compare true f index n h p = sift_up-contents compare f index n h p
sift_up-SameContents compare false f index n h p = refl

module _ {A : Type 0} (q : PQueue A) (element : A) where
  -- The queue with the element put after the last one and sifted up.
  abbrev pushed : Bool → PQueue A
  pushed scratch = record q {
    buffer = sift_up q.compare scratch (update q.buffer q.size element) q.size;
    size = q.size + 1;
  }

  has_cell_lem : IsBacked q → q.size < q.capacity → has_cell q ≡ true
  unfolding has_cell
  has_cell_lem backed room =
      let cell : (q.size + 1) * q.element_size ≤ q.allocated = backed.0 q.size room in
      let offset : q.size * q.element_size < 2 ^ 32 = ground (arith, cell, backed.1) in
      ground (arith, cell, offset)

  push-pushed :
      (scratch : Bool)
      → IsBacked q
      → q.size < q.capacity
      → push scratch (some q) (some element) ≡ (ok, some (pushed scratch))
  unfolding push
  push-pushed scratch backed room =
      let more : leb q.capacity q.size ≡ false = ground arith in
      rw (more, has_cell_lem backed room) refl

  pushed-contents :
      (scratch : Bool) (p : A → Bool)
      → count p (pushed scratch).buffer (q.size + 1)
        ≡ count p q.buffer q.size + (if p element then 1 else 0)
  pushed-contents scratch p =
      sift_up-SameContents q.compare scratch (update q.buffer q.size element) q.size (q.size + 1)
        (omega arith) p
      ∙ count-new
    where
      count-new :
          count p (update q.buffer q.size element) (q.size + 1)
          ≡ count p q.buffer q.size + (if p element then 1 else 0)
      count-new =
          simp towards_suc (ground (arith, count-update_above p q.size q.buffer q.size element))

  -- A push into a queue that is not full, and whose whole capacity has memory, of less than 2 ^ 32 bytes, succeeds,
  -- whatever the order of its elements and the comparison, and also where `SiftUp` gets no memory for the scratch
  -- element: the array holds the old elements and the new one, each as often as before. The size grows by one; the other fields stay.
  pub push-contents :
      (scratch : Bool)
      → IsBacked q
      → q.size < q.capacity
      → (q' : PQueue A) × (push scratch (some q) (some element) ≡ (ok, some q'))
        × (q' ≡ record q { buffer = q'.buffer; size = q.size + 1 })
        × ((p : A → Bool)
            → count p q'.buffer q'.size ≡ count p q.buffer q.size + (if p element then 1 else 0))
  push-contents scratch backed room =
      (pushed scratch, push-pushed scratch backed room, refl, pushed-contents scratch)

  -- If the comparison is an order (no element is preferred to itself, two are not preferred to each other, and "not
  -- preferred" is transitive), the array is a heap, the whole capacity has memory, of less than 2 ^ 32 bytes, and the
  -- queue is not full, then a push with memory for the scratch element succeeds and leaves a heap of one element more,
  -- which holds the old elements and the new one, each as often as before. The other fields stay.
  pub push_lem :
      IsOrder q.compare
      → IsHeap q.compare q.buffer q.size
      → IsBacked q
      → q.size < q.capacity
      → (q' : PQueue A) × (push true (some q) (some element) ≡ (ok, some q'))
        × (q' ≡ record q { buffer = q'.buffer; size = q.size + 1 })
        × IsHeap q.compare q'.buffer q'.size
        × ((p : A → Bool)
            → count p q'.buffer q'.size ≡ count p q.buffer q.size + (if p element then 1 else 0))
  push_lem order heap backed room = (
    pushed true,
    push-pushed true backed room,
    refl,
    sift_up-IsHeap q.compare order q.buffer q.size element heap,
    pushed-contents true,
  )

  -- A push into a full queue answers `SILOG_BUSY` and changes nothing.
  pub push_full :
      (scratch : Bool) → q.capacity ≤ q.size → push scratch (some q) (some element) ≡ (busy, some q)
  unfolding push
  push_full scratch h = ground arith
