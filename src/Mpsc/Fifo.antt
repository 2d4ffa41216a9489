-- ===== src/Mpsc/Fifo.antt =====
-- What the queue of silog_comm/src/silog_mpsc.c promises: a FIFO of at most `capacity` elements.
use si_log.Base.{ℕ, Option, none, some, List, [], ◌∷◌, ◌++◌, length, leb, if◌then◌else◌}
use si_log.Errors.{ErrorCode, ok, trans_queue_full, trans_queue_empty}

module _ {A : Type 0} where
  -- The newest element is dropped where the queue is full.
  unfoldable pub offer : ℕ → List A → A → ErrorCode × List A
  offer capacity items element =
      if leb capacity (length items)
      then (trans_queue_full, items)
      else (ok, items ++ (element ∷ []))

  unfoldable pub take_next : List A → ErrorCode × Option A × List A
  take_next [] = (trans_queue_empty, none, [])
  take_next (x ∷ items) = (ok, some x, items)
