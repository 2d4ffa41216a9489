-- ===== src/Mpsc.antt =====
-- silog_comm/src/silog_mpsc.c and silog_comm/include/silog_mpsc.h: the lock-free queue, for a caller
-- that no other thread interrupts. An element of `element_size` bytes is one cell of the buffer. The
-- positions are uint32_t words that wrap.
pub mod Fifo
pub mod Inv
pub mod Push
pub mod Pop
pub mod Run
pub mod Threads
pub mod Sample
mod Tests
use Prim.Native.Nat.{bit_and}
use si_log.Base.{
  ℕ, zero, suc, ◌+◌, ◌-◌, Bool, true, false, not, Option, none, some, List, [], ◌∷◌, leb, ◌==◌,
  if◌then◌else◌, ◌||◌, update,
}
use si_log.Base.Word.{add32, sub32, mul32}
use si_log.Errors.{
  ErrorCode, ok, invalid_arg, out_of_memory, trans_not_init, trans_queue_full, trans_queue_empty,
}

-- `SiLogMpscQueue`. `has_buffer` and `has_seq` say that the two pointers are not NULL.
pub record MpscQueue (A : Type 0) : Type 0 where
  pub has_buffer : Bool
  pub buffer : ℕ → A
  pub element_size : ℕ
  pub capacity : ℕ
  pub write_pos : ℕ
  pub read_pos : ℕ
  pub has_seq : Bool
  pub seq : ℕ → ℕ
  pub capacity_mask : ℕ

-- The loop that sets `seq[i] = i` for the first `n` slots.
pub init_seq : (ℕ → ℕ) → ℕ → ℕ → ℕ
init_seq seq zero = seq
init_seq seq (suc n) = update (init_seq seq n) n n

module _ {A : Type 0} where
  -- `SilogMpscQueueInit`. The allocations are parameters, `none` for NULL; what they hold at first
  -- is not specified.
  pub init :
      (ℕ → Option (ℕ → A))
      → (ℕ → Option (ℕ → ℕ))
      → Option (MpscQueue A)
      → ℕ
      → ℕ
      → ErrorCode × Option (MpscQueue A)
  init malloc malloc_seq none element_size capacity = (invalid_arg, none)
  init malloc malloc_seq (some q) element_size capacity =
      if element_size == 0 || capacity == 0
      then (invalid_arg, some q)
      else (if not (bit_and capacity (capacity - 1) == 0)
          then (invalid_arg, some q)
          else elim (malloc (mul32 element_size capacity)) [
            | none ↦ (out_of_memory, some (record q { has_buffer = false }))
            | some buffer ↦ elim (malloc_seq capacity) [
              | none ↦ (out_of_memory, some (record q { has_buffer = false; has_seq = false }))
              | some seq ↦ (
                ok,
                some (record {
                  has_buffer = true;
                  buffer = buffer;
                  element_size = element_size;
                  capacity = capacity;
                  write_pos = 0;
                  read_pos = 0;
                  has_seq = true;
                  seq = init_seq seq capacity;
                  capacity_mask = capacity - 1;
                }),
              )
            ]
          ])

  -- `SilogMpscQueueDestroy`.
  pub destroy : Option (MpscQueue A) → Option (MpscQueue A)
  destroy none = none
  destroy (some q) = some (record q { has_buffer = false; has_seq = false })

  -- The end of a push that has claimed position `write`: copy, and publish.
  pub publish : MpscQueue A → ℕ → A → MpscQueue A
  publish q write element =
      let index = bit_and write q.capacity_mask in
      record q { buffer = update q.buffer index element; seq = update q.seq index (add32 write 1) }

  -- The loop on `atomic_compare_exchange_weak` at the claimed position. No other thread writes the
  -- slot, so an exchange that fails by its value fails again: `none` is a loop that does not end.
  pub claim_slot : MpscQueue A → ℕ → Option (MpscQueue A)
  claim_slot q write =
      let index = bit_and write q.capacity_mask in
      let desired = add32 write q.capacity in
      if q.seq index == write
      then some (record q { seq = update q.seq index desired })
      else (if q.seq index == desired then some q else none)

  -- `SilogMpscQueuePush`; `none` if it does not return.
  pub push : Option (MpscQueue A) → Option A → Option (ErrorCode × Option (MpscQueue A))
  push none element = some (invalid_arg, none)
  push (some q) none = some (invalid_arg, some q)
  push (some q) (some element) =
      let write = q.write_pos in
      let claimed = record q { write_pos = add32 write 1 } in
      let rolled_back = record q { write_pos = sub32 (add32 write 1) 1 } in
      if not q.has_buffer || (q.capacity == 0 || not q.has_seq)
      then some (trans_not_init, some q)
      else (if leb q.capacity (sub32 write q.read_pos)
          then some (trans_queue_full, some rolled_back)
          else elim (claim_slot claimed write) [
            | none ↦ none
            | some q' ↦ some (ok, some (publish q' write element))
          ])

  -- `SilogMpscQueuePop`; `wants` says that `outElement` is not NULL, and the option is what it
  -- receives.
  pub pop : Option (MpscQueue A) → Bool → ErrorCode × Option A × Option (MpscQueue A)
  pop none wants = (invalid_arg, none, none)
  pop (some q) false = (invalid_arg, none, some q)
  pop (some q) true =
      let read = q.read_pos in
      let index = bit_and read q.capacity_mask in
      if not q.has_buffer || not q.has_seq
      then (trans_not_init, none, some q)
      else (if not (q.seq index == add32 read 1) then (trans_queue_empty, none, some q) else (
        ok,
        some (q.buffer index),
        some (record q {
          seq = update q.seq index (add32 read q.capacity);
          read_pos = add32 read 1;
        }),
      ))
