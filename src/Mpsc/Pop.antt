-- ===== src/Mpsc/Pop.antt =====
-- `SilogMpscQueuePop` of silog_comm/src/silog_mpsc.c takes the oldest element of the FIFO.
use Prim.Native.Nat.{bit_and}
use si_log.Base.{
  ℕ, zero, suc, ◌≡◌, true, some, none, refl, ap, ap₂, sym, ◌∙◌, update, ◌∷◌, arith, ℕ_discrete,
}
use native.Mathlib.Nat.{add-mod_right}
use si_log.Base.Word.{add32}
use si_log.Errors.{ok, trans_queue_empty}
use si_log.Mpsc.{MpscQueue, pop}
use si_log.Mpsc.Fifo.{take_next}
use si_log.Mpsc.Inv.{Holds, position, slot, slot-mod, slot-ne, element_at, items_from, items}

module _ {A : Type 0} where
  -- The queue after a pop of the element at the reader's position.
  abbrev popped : MpscQueue A → MpscQueue A
  popped q = record q {
    seq = update q.seq (bit_and q.read_pos q.capacity_mask) (add32 q.read_pos q.capacity);
    read_pos = add32 q.read_pos 1;
  }

  reader-slot :
      {q : MpscQueue A} {n : ℕ} → Holds q n → slot q 0 ≡ bit_and q.read_pos q.capacity_mask
  reader-slot {q} h = ap (λ w. bit_and w q.capacity_mask) (omega (arith, h.reader))

  pop-popped :
      {q : MpscQueue A} {n : ℕ}
      → Holds q (suc n)
      → pop (some q) true ≡ (ok, some (element_at q 0), some (popped q))
  unfolding pop
  pop-popped {q} {n} h = ground (arith, h.ready, h.full 0, h.reader, reader-slot h)

  pop-empty : {q : MpscQueue A} → Holds q 0 → pop (some q) true ≡ (trans_queue_empty, none, some q)
  unfolding pop
  pop-empty {q} h = ground (arith, h.ready, h.free 0, h.nonempty, h.reader, reader-slot h)

  position-popped : (q : MpscQueue A) (i : ℕ) → position (popped q) i ≡ position q (suc i)
  position-popped q i = omega arith

  slot-popped : (q : MpscQueue A) (i : ℕ) → slot (popped q) i ≡ slot q (suc i)
  slot-popped q i = ap (λ w. bit_and w q.capacity_mask) (position-popped q i)

  items_from-popped :
      (q : MpscQueue A) (i n : ℕ) → items_from (popped q) i n ≡ items_from q (suc i) n
  items_from-popped q i zero = refl
  items_from-popped q i (suc n) =
      ap₂ ◌∷◌ (ap q.buffer (slot-popped q i)) (items_from-popped q (suc i) n)

  -- The position one round ahead of the reader's has the reader's slot.
  slot-round :
      {q : MpscQueue A} {n : ℕ} (h : Holds q n)
      → slot q q.capacity ≡ bit_and q.read_pos q.capacity_mask
  slot-round {q} h =
      slot-mod h q.capacity ∙ add-mod_right q.read_pos q.capacity ∙ sym (h.mask q.read_pos)

  popped-Holds : {q : MpscQueue A} {n : ℕ} → Holds q (suc n) → Holds (popped q) n
  popped-Holds {q} {n} h = record {
    ready = h.ready;
    nonempty = h.nonempty;
    small = h.small;
    fits = omega (arith, h.fits);
    folds = h.folds;
    divides = h.divides;
    mask = h.mask;
    reader = omega arith;
    writer = omega (arith, h.writer);
    full = λ i lt.
        rw (slot-popped q i, position-popped q i)
          (ground (
            arith,
            h.full (suc i),
            h.fits,
            reader-slot h,
            slot-ne h 0 (suc i) h.nonempty (omega (arith, h.fits)),
          ));
    free = λ i ge lt. elim (ℕ_discrete (suc i) q.capacity) [
      | yes last ↦ rw (slot-popped q i, position-popped q i, last) (ground (arith, slot-round h))
      | no inner ↦
          rw (slot-popped q i, position-popped q i)
            (ground
              (arith, h.free (suc i), reader-slot h, slot-ne h 0 (suc i) h.nonempty (omega arith)))
    ];
  }

  -- A pop from a valid queue returns the code and the element of the FIFO of its elements, and leaves
  -- a valid queue of the same capacity that holds the rest.
  pub pop_refines :
      {q : MpscQueue A} (n : ℕ)
      → Holds q n
      → (q' : MpscQueue A) × (n' : ℕ) × (pop (some q) true
          ≡ ((take_next (items q n)).0, (take_next (items q n)).1, some q'))
        × Holds q' n'
        × (items q' n' ≡ (take_next (items q n)).2)
        × (q'.capacity ≡ q.capacity)
  unfolding take_next
  pop_refines {q} zero h = (q, 0, pop-empty h, h, refl, refl)
  pop_refines {q} (suc n) h =
      (popped q, n, pop-popped h, popped-Holds h, items_from-popped q 0 n, refl)
