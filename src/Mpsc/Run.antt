-- ===== src/Mpsc/Run.antt =====
-- A single thread's calls of silog_comm/src/silog_mpsc.c in order, against the same calls of the FIFO.
use si_log.Base.{ℕ, ◌≡◌, Option, none, some, List, [], ◌∷◌, true, refl}
use si_log.Errors.{ErrorCode}
use si_log.Mpsc.{MpscQueue, push, pop}
use si_log.Mpsc.Fifo.{offer, take_next}
use si_log.Mpsc.Inv.{Holds, items}
use si_log.Mpsc.Push.{push_refines}
use si_log.Mpsc.Pop.{pop_refines}

pub data Call (A : Type 0) : Type 0 where
  put : A → Call A
  get : Call A

abbrev pub Reply : Type 0 → Type 0
Reply A = ErrorCode × Option A

module _ {A : Type 0} where
  abbrev reply : Reply A → Option (List (Reply A)) → Option (List (Reply A))
  reply r none = none
  reply r (some replies) = some (r ∷ replies)

  -- The replies to the calls; `none` if a call does not return or loses the queue.
  unfoldable pub run : Option (MpscQueue A) → List (Call A) → Option (List (Reply A))
  run none calls = none
  run (some q) [] = some []
  run (some q) (put x ∷ calls) = elim (push (some q) (some x)) [
    | none ↦ none
    | some (code, q') ↦ reply (code, none) (run q' calls)
  ]
  run (some q) (get ∷ calls) =
      let (code, out, q') = pop (some q) true in reply (code, out) (run q' calls)

  pub run_fifo : ℕ → List A → List (Call A) → List (Reply A)
  run_fifo capacity held [] = []
  run_fifo capacity held (put x ∷ calls) =
      let (code, held') = offer capacity held x in (code, none) ∷ run_fifo capacity held' calls
  run_fifo capacity held (get ∷ calls) =
      let (code, out, held') = take_next held in (code, out) ∷ run_fifo capacity held' calls

  -- Every call of a sequence of pushes and pops on a valid queue returns, and the replies are those of
  -- the bounded FIFO that holds the queue's elements.
  pub run_refines :
      (calls : List (Call A)) {q : MpscQueue A} (n : ℕ)
      → Holds q n
      → run (some q) calls ≡ some (run_fifo q.capacity (items q n) calls)
  unfolding run run_fifo
  run_refines [] n h = refl
  run_refines (put x ∷ calls) {q} n h =
      let (q', n', e, h', same, cap) = push_refines x h in
      rw (e, run, run_refines calls n' h', same, cap)
  run_refines (get ∷ calls) {q} n h =
      let (q', n', e, h', same, cap) = pop_refines n h in
      rw (e, run, run_refines calls n' h', same, cap)
