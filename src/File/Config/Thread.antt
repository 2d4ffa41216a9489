-- ===== src/File/Config/Thread.antt =====
-- The compression thread of silog_dae/src/silog_file_manager.c, for what its queue holds.
use si_log.Base.{
  ℕ, zero, suc, ◌≤◌, ◌≡◌, ◌∙◌, refl, sym, ap, ap₂, subst, true, Option, some, List, [], ◌∷◌, ◌++◌,
  if◌then◌else◌, length, arith, if_holds,
}
use si_log.Errors.{ErrorCode}
use si_log.Mpsc
use si_log.Mpsc.{MpscQueue}
use si_log.Mpsc.Fifo.{take_next}
use si_log.Mpsc.Inv.{Holds, items, length-items_from}
use si_log.Mpsc.Pop.{pop_refines}
use si_log.File.{FileManager, Call, open_append, open_new, write, flush, close, rename, gzip}
use si_log.File.Config.{queue_or, compress_popped, compress_round, drain_popped, drain, deinit}

-- The paths that are compressed.
abbrev pub gzips : List Call → List (List ℕ)
gzips [] = []
gzips (gzip path ∷ calls) = path ∷ gzips calls
gzips (call ∷ calls) = gzips calls

pub gzips-append : (xs ys : List Call) → gzips (xs ++ ys) ≡ gzips xs ++ gzips ys
gzips-append [] ys = refl
gzips-append (open_append path ∷ xs) ys = gzips-append xs ys
gzips-append (open_new path ∷ xs) ys = gzips-append xs ys
gzips-append (write bytes ∷ xs) ys = gzips-append xs ys
gzips-append (flush ∷ xs) ys = gzips-append xs ys
gzips-append (close ∷ xs) ys = gzips-append xs ys
gzips-append (rename a b ∷ xs) ys = gzips-append xs ys
gzips-append (gzip path ∷ xs) ys = ap (λ t. path ∷ t) (gzips-append xs ys)

-- A valid queue that holds the paths.
abbrev pub Stores : MpscQueue (List ℕ) → ℕ → List (List ℕ) → Type 0
Stores q capacity held = (n : ℕ) × Holds q n × (items q n ≡ held) × (q.capacity ≡ capacity)

-- The next pop of a valid queue.
pop-Stores :
    (q : MpscQueue (List ℕ)) (capacity : ℕ) (held : List (List ℕ))
    → Stores q capacity held
    → (q' : MpscQueue (List ℕ)) × (Mpsc.pop (some q) true
        ≡ ((take_next held).0, (take_next held).1, some q'))
      × Stores q' capacity (take_next held).2
pop-Stores q capacity held (n, h, e, c) =
    let (q', n', popped, h', same, cap) = pop_refines n h in
    (
      q',
      popped ∙ ap (λ t. ((take_next t).0, (take_next t).1, some q')) e,
      (n', h', same ∙ ap (λ t. (take_next t).2) e, cap ∙ c),
    )

-- A round of the thread takes the oldest path, if there is one, and compresses it.
pub compress_round-Stores :
    (q : MpscQueue (List ℕ)) (capacity : ℕ) (held : List (List ℕ))
    → Stores q capacity held
    → Stores (compress_round q).0 capacity (take_next held).2
      × (gzips (compress_round q).1 ++ (take_next held).2 ≡ held)
unfolding compress_round compress_popped take_next
compress_round-Stores q capacity [] h =
    let (q', popped, h') = pop-Stores q capacity [] h in
    subst (λ (r : MpscQueue (List ℕ) × List Call). Stores r.0 capacity [] × (gzips r.1 ++ [] ≡ []))
      (sym (ap (compress_popped q) popped)) (h', refl)
compress_round-Stores q capacity (x ∷ held) h =
    let (q', popped, h') = pop-Stores q capacity (x ∷ held) h in
    subst
      (λ (r : MpscQueue (List ℕ) × List Call).
        Stores r.0 capacity held × (gzips r.1 ++ held ≡ x ∷ held))
      (sym (ap (compress_popped q) popped)) (h', refl)

-- With enough fuel the last loop compresses all that the queue holds.
drain-all :
    (fuel : ℕ) (q : MpscQueue (List ℕ)) (capacity : ℕ) (held : List (List ℕ))
    → Stores q capacity held
    → length held ≤ fuel
    → gzips (drain fuel q).1 ≡ held
unfolding drain take_next
drain-all zero q capacity [] h le = refl
drain-all zero q capacity (x ∷ held) h le = absurd (omega (arith, le))
drain-all (suc fuel) q capacity [] h le =
    let (q', popped, h') = pop-Stores q capacity [] h in
    ap
      (λ (r : ErrorCode × Option (List ℕ) × Option (MpscQueue (List ℕ))).
        gzips (drain_popped q r.1 (drain fuel (queue_or q r.2))).1)
      popped
drain-all (suc fuel) q capacity (x ∷ held) h le =
    let (q', popped, h') = pop-Stores q capacity (x ∷ held) h in
    ap
      (λ (r : ErrorCode × Option (List ℕ) × Option (MpscQueue (List ℕ))).
        gzips (drain_popped q r.1 (drain fuel (queue_or q r.2))).1)
      popped
    ∙ ap (λ t. x ∷ t) (drain-all fuel q' capacity held h' (omega (arith, le)))

pub deinit-Compresses :
    (m : FileManager) (capacity : ℕ) (held : List (List ℕ))
    → m.compress_thread_running ≡ true
    → m.has_compress_thread ≡ true
    → Stores m.compress_queue capacity held
    → length held ≤ m.compress_queue.capacity
    → gzips (deinit m).1 ≡ held
unfolding deinit
deinit-Compresses m capacity held runs exists h le =
    let drained = drain m.compress_queue.capacity m.compress_queue in
    let closing = if m.is_open then flush ∷ close ∷ [] else [] in
    let all = drain-all m.compress_queue.capacity m.compress_queue capacity held h le in
    let quiet : gzips closing ≡ [] =
      if_holds (λ calls. gzips calls ≡ []) m.is_open (flush ∷ close ∷ []) [] (λ e. refl)
        (λ e. refl) in
    let ended = gzips-append closing drained.1 ∙ ap₂ (λ xs ys. xs ++ ys) quiet all in
    rw (runs, exists) ended

pub Stores-length :
    (q : MpscQueue (List ℕ)) (capacity : ℕ) (held : List (List ℕ))
    → Stores q capacity held
    → length held ≤ q.capacity
Stores-length q capacity held (n, h, e, c) =
    omega (arith, ap length e, length-items_from q 0 n, h.fits)
