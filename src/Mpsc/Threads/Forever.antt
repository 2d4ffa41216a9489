-- ===== src/Mpsc/Threads/Forever.antt =====
-- The queue of silog_comm/src/silog_mpsc.c with a position that no producer will ever fill: what
-- every schedule keeps.
use Prim.Native.Nat.{bit_and}
use si_log.Base.{ℕ, ◌-◌, ◌≤◌, ◌≡◌, ◌≢◌, List, length}
use si_log.Base.Word.{add32}
use si_log.Mpsc.Threads.{waiting, Threads}
use si_log.Mpsc.Threads.Stuck.{all_doomed, AllFine, IsCounted}

-- At most `n` producers and the consumer at a queue of `c` slots whose reader waits at `r` for a position
-- that nobody holds: the slot is not published, each producer that has claimed a slot has claimed one
-- behind it, and the writer's position is past it even when all that will be given back is.
pub record IsStuck {A : Type 0} (c r n : ℕ) (s : Threads A) : Type 0 where
  pub capacity : s.queue.capacity ≡ c
  pub capacity_mask : s.queue.capacity_mask ≡ c - 1
  pub reader : s.queue.read_pos ≡ r
  pub waits : s.consumer ≡ waiting
  pub unpublished : s.queue.seq (bit_and r (c - 1)) ≢ add32 r 1
  pub counted : IsCounted c (c - 1) r n s.queue (all_doomed c (c - 1) r n s.producers)
  pub fine : AllFine c (c - 1) r n s.producers
  pub few : length s.producers ≤ n
