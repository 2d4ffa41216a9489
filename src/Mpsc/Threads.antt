-- ===== src/Mpsc/Threads.antt =====
-- silog_comm/src/silog_mpsc.c with several producers and one consumer: `SilogMpscQueuePush` and
-- `SilogMpscQueuePop` of an initialised queue as their accesses to the shared queue, one at a time. A
-- copy of an element is one access. The load of `readPos` by the consumer, which no other thread writes, goes
-- with its load of `seq`.
pub mod Stuck
pub mod Forever
mod Tests
use Prim.Native.Nat.{bit_and}
use si_log.Base.{ℕ, List, [], ◌∷◌, ◌++◌, leb, ◌==◌, if◌then◌else◌, get_or, set, update, length}
use si_log.Base.Word.{add32, sub32}
use si_log.Mpsc.{MpscQueue}

-- Where a producer stands in `SilogMpscQueuePush`, with its local variables.
pub data Pc (A : Type 0) : Type 0 where
  idle : Pc A  -- before the `atomic_fetch_add`
  got : ℕ → A → Pc A  -- before the load of `readPos`
  rolling : Pc A  -- before the `atomic_fetch_sub`
  claiming : ℕ → A → Pc A  -- in the loop on the compare-exchange
  copying : ℕ → A → Pc A  -- before the copy
  publishing : ℕ → Pc A  -- before the store to `seq`

-- Where the consumer stands in `SilogMpscQueuePop`.
pub data Consumer : Type 0 where
  waiting : Consumer  -- before the load of `seq`
  taking : ℕ → Consumer  -- before the copy
  releasing : ℕ → Consumer  -- before the store to `seq`
  advancing : ℕ → Consumer  -- before the store to `readPos`

-- The queue and its threads. `delivered` is what the consumer has copied out, in order.
pub record Threads (A : Type 0) : Type 0 where
  pub queue : MpscQueue A
  pub producers : List (Pc A)
  pub consumer : Consumer
  pub delivered : List A

-- The next access of one thread: of the `i`-th producer, with the element that it pushes if it is
-- idle, or of the consumer.
pub data Action (A : Type 0) : Type 0 where
  produce : ℕ → A → Action A
  consume : Action A

module _ {A : Type 0} where
  -- One access of `SilogMpscQueuePush`.
  pub producer_step : MpscQueue A → A → Pc A → MpscQueue A × Pc A
  producer_step q element idle =
      (record q { write_pos = add32 q.write_pos 1 }, got q.write_pos element)
  producer_step q element (got write e) =
      (q, (if leb q.capacity (sub32 write q.read_pos) then rolling else claiming write e))
  producer_step q element rolling = (record q { write_pos = sub32 q.write_pos 1 }, idle)
  producer_step q element (claiming write e) =
      let index = bit_and write q.capacity_mask in
      let desired = add32 write q.capacity in
      if q.seq index == write
      then (record q { seq = update q.seq index desired }, copying write e)
      else (if q.seq index == desired then (q, copying write e) else (q, claiming write e))
  producer_step q element (copying write e) =
      (record q { buffer = update q.buffer (bit_and write q.capacity_mask) e }, publishing write)
  producer_step q element (publishing write) =
      (record q { seq = update q.seq (bit_and write q.capacity_mask) (add32 write 1) }, idle)

  -- One access of `SilogMpscQueuePop`, with what it delivers.
  pub consumer_step : MpscQueue A → Consumer → MpscQueue A × Consumer × List A
  consumer_step q waiting =
      let read = q.read_pos in
      if q.seq (bit_and read q.capacity_mask) == add32 read 1
      then (q, taking read, [])
      else (q, waiting, [])
  consumer_step q (taking read) = (q, releasing read, q.buffer (bit_and read q.capacity_mask) ∷ [])
  consumer_step q (releasing read) =
      let index = bit_and read q.capacity_mask in
      (record q { seq = update q.seq index (add32 read q.capacity) }, advancing read, [])
  consumer_step q (advancing read) = (record q { read_pos = add32 read 1 }, waiting, [])

  -- One access of a thread; a number that is no producer's does nothing.
  pub step : Threads A → Action A → Threads A
  step s (produce i element) =
      let (q, pc) = producer_step s.queue element (get_or s.producers i idle) in
      if leb (length s.producers) i
      then s
      else record s { queue = q; producers = set s.producers i pc }
  step s consume =
      let (q, pc, out) = consumer_step s.queue s.consumer in
      record s { queue = q; consumer = pc; delivered = s.delivered ++ out }

  -- A schedule.
  pub run : List (Action A) → Threads A → Threads A
  run [] s = s
  run (a ∷ actions) s = run actions (step s a)
