-- ===== src/PQueue.antt =====
-- silog_comm/src/silog_pqueue.c and silog_comm/include/silog_pqueue.h: the priority queue, a binary
-- heap in an array. A pointer that may be NULL is an Option; an element of `element_size` bytes is one
-- cell of the buffer, moved as a whole by `memcpy_s`. The allocator is a parameter: it is asked for
-- a number of bytes and answers NULL or cells with unspecified contents.
pub mod Sift
pub mod Order
pub mod Push
pub mod Pop
pub mod Contents
pub mod Capacity
mod Tests
use si_log.Base.{
  ℕ, zero, suc, ◌+◌, ◌-◌, ◌*◌, ◌/◌, ◌^◌, ◌&&◌, Bool, true, false, Option, none, some, ltb, leb,
  ◌==◌, if◌then◌else◌, ◌||◌, update,
}
use si_log.Base.Int.{ℤ, is_positive}
use si_log.Base.Word.{mul32}
use si_log.Errors.{ErrorCode, ok, invalid_arg, out_of_memory, busy, trans_queue_empty}

-- `SiLogPQueue`. `allocated` is the number of bytes behind `buffer`, 0 for a NULL buffer.
pub record PQueue (A : Type 0) : Type 0 where
  pub buffer : ℕ → A
  pub allocated : ℕ
  pub element_size : ℕ
  pub capacity : ℕ
  pub size : ℕ
  pub compare : A → A → ℤ

-- `SiMalloc`, with `none` for NULL.
abbrev pub Malloc : Type 0 → Type 0
Malloc A = ℕ → Option (ℕ → A)

-- `realloc` of a buffer.
abbrev pub Realloc : Type 0 → Type 0
Realloc A = (ℕ → A) → ℕ → Option (ℕ → A)

module _ {A : Type 0} where
  -- The loop of `SiftUp`: the buffer and the index at which it stops. The fuel is `index`.
  pub sift_up_loop : (A → A → ℤ) → ℕ → (ℕ → A) → ℕ → A → (ℕ → A) × ℕ
  sift_up_loop compare zero buffer index temp = (buffer, index)
  sift_up_loop compare (suc fuel) buffer index temp =
      let parent = (index - 1) / 2 in
      let rest = sift_up_loop compare fuel (update buffer index (buffer parent)) parent temp in
      if ltb 0 index
      then (if is_positive (compare temp (buffer parent)) then rest else (buffer, index))
      else (buffer, index)

  -- `SiftUp`. `scratch` says whether the allocation of `temp` succeeds.
  pub sift_up : (A → A → ℤ) → Bool → (ℕ → A) → ℕ → ℕ → A
  unfolding sift_up_loop
  sift_up compare false buffer index = buffer
  sift_up compare true buffer index =
      let temp = buffer index in
      let (buffer', index') = sift_up_loop compare index buffer index temp in
      update buffer' index' temp

  -- The index that one round of the loop of `SiftDown` selects.
  pub largest_child : (A → A → ℤ) → (ℕ → A) → ℕ → ℕ → ℕ
  largest_child compare buffer size index =
      let left = 2 * index + 1 in
      let right = 2 * index + 2 in
      let largest =
        if ltb left size
        then (if is_positive (compare (buffer left) (buffer index)) then left else index)
        else index in
      if ltb right size
      then (if is_positive (compare (buffer right) (buffer largest)) then right else largest)
      else largest

  -- The loop of `SiftDown`. The fuel is `size`.
  pub sift_down_loop : (A → A → ℤ) → ℕ → (ℕ → A) → ℕ → ℕ → (ℕ → A) × ℕ
  unfolding largest_child
  sift_down_loop compare zero buffer size index = (buffer, index)
  sift_down_loop compare (suc fuel) buffer size index =
      let largest = largest_child compare buffer size index in
      let rest = sift_down_loop compare fuel (update buffer index (buffer largest)) size largest in
      if largest == index then (buffer, index) else rest

  -- `SiftDown`.
  pub sift_down : (A → A → ℤ) → Bool → (ℕ → A) → ℕ → ℕ → ℕ → A
  unfolding sift_down_loop
  sift_down compare false buffer size index = buffer
  sift_down compare true buffer size index =
      let temp = buffer index in
      let (buffer', index') = sift_down_loop compare size buffer size index in
      update buffer' index' temp

  -- `SilogPQueueInit`.
  unfoldable pub init :
      Malloc A → Option (PQueue A) → ℕ → ℕ → Option (A → A → ℤ) → ErrorCode × Option (PQueue A)
  init malloc none element_size capacity compare = (invalid_arg, none)
  init malloc (some q) element_size capacity none = (invalid_arg, some q)
  init malloc (some q) element_size capacity (some compare) =
      if element_size == 0 || capacity == 0
      then (invalid_arg, some q)
      else elim (malloc (mul32 element_size capacity)) [
        | none ↦ (out_of_memory, some (record q { allocated = 0 }))
        | some buffer ↦ (
          ok,
          some (record {
            buffer = buffer;
            allocated = mul32 element_size capacity;
            element_size = element_size;
            capacity = capacity;
            size = 0;
            compare = compare;
          }),
        )
      ]

  -- `SilogPQueueDestroy`.
  pub destroy : Option (PQueue A) → Option (PQueue A)
  destroy none = none
  destroy (some q) = some (record q { allocated = 0; size = 0; capacity = 0 })

  -- `SilogPQueueClear`.
  pub clear : Option (PQueue A) → Option (PQueue A)
  clear none = none
  clear (some q) = some (record q { size = 0 })

  -- `SilogPQueueIsEmpty`.
  pub is_empty : Option (PQueue A) → Bool
  is_empty none = true
  is_empty (some q) = q.size == 0

  -- `SilogPQueueIsFull`.
  pub is_full : Option (PQueue A) → Bool
  is_full none = true
  is_full (some q) = leb q.capacity q.size

  -- `SilogPQueueSize`.
  unfoldable pub size_of : Option (PQueue A) → ℕ
  size_of none = 0
  size_of (some q) = q.size

  -- `SilogPQueueCapacity`.
  pub capacity_of : Option (PQueue A) → ℕ
  capacity_of none = 0
  capacity_of (some q) = q.capacity

  -- The cell after the last element lies in the memory behind `buffer`, and its offset, a uint32_t, does not wrap.
  pub has_cell : PQueue A → Bool
  has_cell q =
      leb ((q.size + 1) * q.element_size) q.allocated && ltb (q.size * q.element_size) (2 ^ 32)

  -- `SilogPQueuePush`. `size` is below `capacity`, a uint32_t, so `size++` does not wrap. Where the new cell does not
  -- lie in the queue's memory the code writes elsewhere or over other elements: there is no queue any more, `none`.
  pub push : Bool → Option (PQueue A) → Option A → ErrorCode × Option (PQueue A)
  push scratch none element = (invalid_arg, none)
  push scratch (some q) none = (invalid_arg, some q)
  push scratch (some q) (some element) =
      if leb q.capacity q.size
      then (busy, some q)
      else (if has_cell q
          then (
            ok,
            some (record q {
              buffer = sift_up q.compare scratch (update q.buffer q.size element) q.size;
              size = q.size + 1;
            }),
          )
          else (ok, none))

  -- `SilogPQueuePop`; `wants` says that `outElement` is not NULL, and the option is what it receives.
  pub pop : Bool → Option (PQueue A) → Bool → ErrorCode × Option A × Option (PQueue A)
  pop scratch none wants = (invalid_arg, none, none)
  pop scratch (some q) false = (invalid_arg, none, some q)
  pop scratch (some q) true =
      let size = q.size - 1 in
      let moved = update q.buffer 0 (q.buffer size) in
      if q.size == 0 then (trans_queue_empty, none, some q) else (
        ok,
        some (q.buffer 0),
        (if ltb 0 size
            then some (record q { buffer = sift_down q.compare scratch moved size 0; size = size })
            else some (record q { size = size })),
      )

  -- `SilogPQueuePeek`.
  pub peek : Option (PQueue A) → Bool → ErrorCode × Option A
  peek none wants = (invalid_arg, none)
  peek (some q) false = (invalid_arg, none)
  peek (some q) true = if q.size == 0 then (trans_queue_empty, none) else (ok, some (q.buffer 0))

  -- `SilogPQueueReserve`.
  pub reserve : Realloc A → Option (PQueue A) → ℕ → ErrorCode × Option (PQueue A)
  reserve realloc none new_capacity = (invalid_arg, none)
  reserve realloc (some q) new_capacity =
      if leb new_capacity q.capacity
      then (invalid_arg, some q)
      else elim (realloc q.buffer (mul32 q.element_size new_capacity)) [
        | none ↦ (out_of_memory, some q)
        | some buffer ↦ (
          ok,
          some (record q {
            buffer = buffer;
            allocated = mul32 q.element_size new_capacity;
            capacity = new_capacity;
          }),
        )
      ]
