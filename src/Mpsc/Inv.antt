-- ===== src/Mpsc/Inv.antt =====
-- The representation invariant of the queue of silog_comm/src/silog_mpsc.c.
use Prim.Native.Nat.{bit_and}
use si_log.Base.{
  ℕ, zero, suc, ◌+◌, ◌-◌, ◌*◌, ◌%◌, ◌^◌, ◌≤◌, ◌<◌, ◌≡◌, ◌≢◌, true, some, refl, ap, sym, ◌∙◌, List,
  [], ◌∷◌, Option, arith, dec_lt, length,
}
use native.Mathlib.Nat.{
  mod-add-mod, mod-eq_of_lt, mod-eq-sub-mod, mod-lt, mod-mod_of_dvd, dvd-mul_right,
}
use si_log.Base.Bits.{power_of_two, bit_and_mask}
use si_log.Base.Word.{add32, mul32}
use si_log.Errors.{ok, invalid_arg}
use si_log.Mpsc.{MpscQueue, init, init_seq}

-- Reduction by 2 ^ 32 is not seen by a remainder modulo one of its divisors.
pub wrap-mod : (c m x : ℕ) → c * m ≡ 2 ^ 32 → x % 2 ^ 32 % c ≡ x % c
wrap-mod c m x e = rw (← e) (mod-mod_of_dvd c x (dvd-mul_right c m))

-- A step of less than `c` does not come back to the same remainder.
pub step-mod-ne : (c x d : ℕ) → 0 < d → d < c → (x + d) % c ≢ x % c
step-mod-ne c x d pos lt = elim (dec_lt (x % c + d) c) [
  | yes low ↦ omega (arith, mod-add-mod x c d, mod-eq_of_lt low)
  | no high ↦ omega (
    arith,
    mod-lt x {m = c} (omega arith),
    mod-add-mod x c d,
    mod-eq-sub-mod {n = x % c + d} {m = c} (omega arith),
    mod-eq_of_lt {n = x % c + d - c} {m = c} (omega (arith, mod-lt x {m = c} (omega arith))),
  )
]

-- Positions less than `c` apart lie in different slots.
slots-distinct : (c r i j : ℕ) → i < j → j < i + c → (r + i) % c ≢ (r + j) % c
slots-distinct c r i j lt near e =
    step-mod-ne c (r + i) (j - i) (omega arith) (omega arith)
      (ap (λ t. t % c) (omega arith) ∙ sym e)

init_seq_lem : (seq : ℕ → ℕ) (n i : ℕ) → i < n → init_seq seq n i ≡ i
unfolding init_seq
init_seq_lem seq zero i h = absurd (omega arith)
init_seq_lem seq (suc n) i h = ground (arith, init_seq_lem seq n i)

module _ {A : Type 0} where
  -- The position of the `i`-th element from the reader's, and the slot of that position.
  abbrev pub position : MpscQueue A → ℕ → ℕ
  position q i = add32 q.read_pos i

  abbrev pub slot : MpscQueue A → ℕ → ℕ
  slot q i = bit_and (position q i) q.capacity_mask

  -- The queue holds `n` elements from `read_pos` on: their slots carry the position plus one, and
  -- the free slots the position of the element that they wait for.
  pub record Holds (q : MpscQueue A) (n : ℕ) : Type 0 where
    pub ready : (q.has_buffer ≡ true) × (q.has_seq ≡ true)
    pub nonempty : 0 < q.capacity
    pub small : q.capacity < 2 ^ 32
    pub fits : n ≤ q.capacity
    pub folds : ℕ
    pub divides : q.capacity * folds ≡ 2 ^ 32
    pub mask : (a : ℕ) → bit_and a q.capacity_mask ≡ a % q.capacity
    pub reader : q.read_pos < 2 ^ 32
    pub writer : q.write_pos ≡ position q n
    pub full : (i : ℕ) → i < n → q.seq (slot q i) ≡ add32 (position q i) 1
    pub free : (i : ℕ) → n ≤ i → i < q.capacity → q.seq (slot q i) ≡ position q i

  pub slot-mod :
      {q : MpscQueue A} {n : ℕ} (h : Holds q n) (i : ℕ) → slot q i ≡ (q.read_pos + i) % q.capacity
  slot-mod {q} h i = h.mask (position q i) ∙ wrap-mod q.capacity h.folds (q.read_pos + i) h.divides

  -- The slots of the next `capacity` positions differ.
  pub slot-ne :
      {q : MpscQueue A} {n : ℕ} (h : Holds q n) (i j : ℕ)
      → i < q.capacity
      → j < q.capacity
      → i ≢ j
      → slot q i ≢ slot q j
  slot-ne {q} h i j hi hj ne e = elim (dec_lt i j) [
    | yes lt ↦
        slots-distinct q.capacity q.read_pos i j lt (omega arith)
          (sym (slot-mod h i) ∙ e ∙ slot-mod h j)
    | no ge ↦
        slots-distinct q.capacity q.read_pos j i (omega arith) (omega arith)
          (sym (slot-mod h j) ∙ sym e ∙ slot-mod h i)
  ]

  -- The element that a position may hold, and the elements of the queue from the oldest on.
  abbrev pub element_at : MpscQueue A → ℕ → A
  element_at q i = q.buffer (slot q i)

  abbrev pub items_from : MpscQueue A → ℕ → ℕ → List A
  items_from q i zero = []
  items_from q i (suc n) = element_at q i ∷ items_from q (suc i) n

  abbrev pub items : MpscQueue A → ℕ → List A
  items q n = items_from q 0 n

  pub length-items_from : (q : MpscQueue A) (i n : ℕ) → length (items_from q i n) ≡ n
  length-items_from q i zero = refl
  length-items_from q i (suc n) = ap suc (length-items_from q (suc i) n)

  -- What `SilogMpscQueueInit` leaves where the allocator answers.
  abbrev fresh : (ℕ → A) → (ℕ → ℕ) → ℕ → ℕ → MpscQueue A
  fresh buffer seq element_size capacity = record {
    has_buffer = true;
    buffer = buffer;
    element_size = element_size;
    capacity = capacity;
    write_pos = 0;
    read_pos = 0;
    has_seq = true;
    seq = init_seq seq capacity;
    capacity_mask = capacity - 1;
  }

  fresh-Holds :
      (buffer : ℕ → A) (seq : ℕ → ℕ) (element_size capacity : ℕ)
      → 0 < capacity
      → capacity < 2 ^ 32
      → bit_and capacity (capacity - 1) ≡ 0
      → Holds (fresh buffer seq element_size capacity) 0
  fresh-Holds buffer seq element_size capacity pos small single = record {
    ready = (refl, refl);
    nonempty = pos;
    small = small;
    fits = omega arith;
    folds = (power_of_two 32 capacity pos small single).0;
    divides = (power_of_two 32 capacity pos small single).1;
    mask = bit_and_mask 32 capacity pos small single;
    reader = omega arith;
    writer = refl;
    full = λ i lt. absurd (omega arith);
    free = λ i _ lt.
        let position_i : add32 0 i ≡ i = omega arith in
        let slot_i : bit_and i (capacity - 1) ≡ i =
          bit_and_mask 32 capacity pos small single i ∙ mod-eq_of_lt lt in
        rw (position_i, slot_i) (init_seq_lem seq capacity i lt);
  }

  -- Where both allocations answer, `SilogMpscQueueInit` with sizes that are not 0 and a capacity that
  -- is a power of two succeeds with a valid queue that holds nothing; with a capacity that is not
  -- 0 and not a power of two it answers `SILOG_INVALID_ARG`.
  init_lem :
      (malloc : ℕ → Option (ℕ → A)) (malloc_seq : ℕ → Option (ℕ → ℕ)) (q : MpscQueue A)
      (element_size capacity : ℕ) {buffer : ℕ → A} {seq : ℕ → ℕ}
      → element_size ≢ 0
      → capacity ≢ 0
      → capacity < 2 ^ 32
      → malloc (mul32 element_size capacity) ≡ some buffer
      → malloc_seq capacity ≡ some seq
      → (bit_and capacity (capacity - 1) ≡ 0
          → (q' : MpscQueue A) × (init malloc malloc_seq (some q) element_size capacity
              ≡ (ok, some q'))
            × Holds q' 0
            × (q'.capacity ≡ capacity))
        × (bit_and capacity (capacity - 1) ≢ 0
            → init malloc malloc_seq (some q) element_size capacity ≡ (invalid_arg, some q))
  unfolding init
  init_lem malloc malloc_seq q element_size capacity {buffer} {seq} he hc small answer answer_seq =
      (
        λ single. (
          fresh buffer seq element_size capacity,
          ground arith,
          fresh-Holds buffer seq element_size capacity (omega arith) small single,
          refl,
        ),
        λ shared. ground arith,
      )
