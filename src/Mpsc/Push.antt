-- ===== src/Mpsc/Push.antt =====
-- `SilogMpscQueuePush` of silog_comm/src/silog_mpsc.c offers its element to the FIFO.
use Prim.Native.Nat.{bit_and}
use si_log.Base.{
  ℕ, zero, suc, ◌+◌, ◌≤◌, ◌<◌, ◌≡◌, some, refl, ap, ap₂, ◌∙◌, update, [], ◌∷◌, ◌++◌, arith, dec_lt,
}
use si_log.Base.Word.{add32, sub32}
use si_log.Errors.{ok, trans_queue_full}
use si_log.Mpsc.{MpscQueue, push, publish, claim_slot}
use si_log.Mpsc.Fifo.{offer}
use si_log.Mpsc.Inv.{Holds, slot, slot-ne, element_at, items_from, items, length-items_from}

module _ {A : Type 0} where
  -- The queue after a push at the position of its writer.
  abbrev pushed : MpscQueue A → A → MpscQueue A
  pushed q element = record q {
    buffer = update q.buffer (bit_and q.write_pos q.capacity_mask) element;
    seq =
        update (update q.seq (bit_and q.write_pos q.capacity_mask) (add32 q.write_pos q.capacity))
          (bit_and q.write_pos q.capacity_mask) (add32 q.write_pos 1);
    write_pos = add32 q.write_pos 1;
  }

  count-of_positions : {q : MpscQueue A} {n : ℕ} → Holds q n → sub32 q.write_pos q.read_pos ≡ n
  count-of_positions h = omega (arith, h.writer, h.fits, h.small, h.reader)

  push-pushed :
      {q : MpscQueue A} {n : ℕ} (element : A)
      → Holds q n
      → n < q.capacity
      → push (some q) (some element) ≡ some (ok, some (pushed q element))
  unfolding push publish claim_slot
  push-pushed {q} {n} element h room = ground (
    arith,
    h.ready,
    h.nonempty,
    count-of_positions h,
    ap (λ w. q.seq (bit_and w q.capacity_mask)) h.writer,
    h.free n,
    h.writer,
  )

  push-full :
      {q : MpscQueue A} {n : ℕ} (element : A)
      → Holds q n
      → q.capacity ≤ n
      → push (some q) (some element)
        ≡ some (trans_queue_full, some (record q { write_pos = sub32 (add32 q.write_pos 1) 1 }))
  unfolding push
  push-full {q} {n} element h room = ground (arith, h.ready, h.nonempty, count-of_positions h)

  writer-slot :
      {q : MpscQueue A} {n : ℕ} → Holds q n → bit_and q.write_pos q.capacity_mask ≡ slot q n
  writer-slot {q} h = ap (λ w. bit_and w q.capacity_mask) h.writer

  pushed-Holds :
      {q : MpscQueue A} {n : ℕ} (element : A)
      → Holds q n
      → n < q.capacity
      → Holds (pushed q element) (n + 1)
  pushed-Holds {q} {n} element h room = record {
    ready = h.ready;
    nonempty = h.nonempty;
    small = h.small;
    fits = omega arith;
    folds = h.folds;
    divides = h.divides;
    mask = h.mask;
    reader = h.reader;
    writer = omega (arith, h.writer);
    full = λ i lt. ground (
      arith,
      h.full i,
      h.writer,
      writer-slot h,
      slot-ne h n i room (omega arith),
      ap (slot q) {x = i} {y = n},
    );
    free = λ i ge lt. ground (arith, h.free i, writer-slot h, slot-ne h n i room lt);
  }

  items_from-snoc :
      (q : MpscQueue A) (i n : ℕ)
      → items_from q i (suc n) ≡ items_from q i n ++ (element_at q (i + n) ∷ [])
  items_from-snoc q i zero = ap (λ k. element_at q k ∷ []) (omega arith)
  items_from-snoc q i (suc n) =
      ap (λ l. element_at q i ∷ l)
        (items_from-snoc q (suc i) n
          ∙ ap (λ k. items_from q (suc i) n ++ (element_at q k ∷ [])) (omega arith))

  items_from-pushed :
      {q : MpscQueue A} {n : ℕ} (element : A) (h : Holds q n)
      → n < q.capacity
      → (i k : ℕ) → i + k ≤ n
      → items_from (pushed q element) i k ≡ items_from q i k
  items_from-pushed element h room i zero le = refl
  items_from-pushed {q} {n} element h room i (suc k) le =
      ap₂ ◌∷◌ (ground (arith, writer-slot h, slot-ne h n i room (omega arith)))
        (items_from-pushed element h room (suc i) k (omega arith))

  items-pushed :
      {q : MpscQueue A} {n : ℕ} (element : A)
      → Holds q n
      → n < q.capacity
      → items (pushed q element) (suc n) ≡ items q n ++ (element ∷ [])
  items-pushed {q} {n} element h room =
      items_from-snoc (pushed q element) 0 n
      ∙ ap₂ (λ l e. l ++ (e ∷ [])) (items_from-pushed element h room 0 n (omega arith))
          (ground (arith, writer-slot h, ap (slot q) {x = 0 + n} {y = n}))

  -- A push on a valid queue returns, with the code of the bounded FIFO of its elements, and leaves a
  -- valid queue of the same capacity that holds the elements of that FIFO.
  pub push_refines :
      {q : MpscQueue A} {n : ℕ} (element : A)
      → Holds q n
      → (q' : MpscQueue A) × (n' : ℕ) × (push (some q) (some element)
          ≡ some ((offer q.capacity (items q n) element).0, some q'))
        × Holds q' n'
        × (items q' n' ≡ (offer q.capacity (items q n) element).1)
        × (q'.capacity ≡ q.capacity)
  unfolding offer
  push_refines {q} {n} element h = elim (dec_lt n q.capacity) [
    | yes room ↦ (
      pushed q element,
      n + 1,
      ground (arith, push-pushed element h room, length-items_from q 0 n),
      pushed-Holds element h room,
      ground (
        arith,
        items-pushed element h room,
        length-items_from q 0 n,
        ap (items (pushed q element)) {x = n + 1} {y = suc n},
      ),
      refl,
    )
    | no over ↦ (
      record q { write_pos = sub32 (add32 q.write_pos 1) 1 },
      n,
      ground (arith, push-full element h (omega arith), length-items_from q 0 n),
      record {
        ready = h.ready;
        nonempty = h.nonempty;
        small = h.small;
        fits = h.fits;
        folds = h.folds;
        divides = h.divides;
        mask = h.mask;
        reader = h.reader;
        writer = omega (arith, h.writer, h.reader);
        full = h.full;
        free = h.free;
      },
      ground (arith, length-items_from q 0 n, h.fits),
      refl,
    )
  ]
