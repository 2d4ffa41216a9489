-- ===== src/File/Config/Compress.antt =====
-- The compression of history files in silog_dae/src/silog_file_manager.c, from a rotation's task to the thread's end.
use si_log.Base.{
  ℕ, suc, ◌+◌, ◌-◌, ◌≡◌, ◌∙◌, refl, sym, ap, ap₂, subst, true, not, Option, none, some, List, [],
  ◌∷◌, ◌++◌, leb, if◌then◌else◌, length, arith, Bool-cases, inl, inr, length-append,
}
use mathlib.Core.List.{append_assoc, append-nil}
use si_log.Mpsc.{MpscQueue}
use si_log.Mpsc.Fifo.{offer, take_next}
use si_log.Mpsc.Inv.{Holds, items, length-items_from}
use si_log.Mpsc.Push.{push_refines}
use si_log.File.{FileManager, compress_async, Call, queued, submit, compress_file}
use si_log.File.Config.{compress_round, deinit}
use si_log.File.Config.Thread.{
  gzips, gzips-append, Stores, compress_round-Stores, deinit-Compresses, Stores-length,
}

-- The steps of the writer and of the thread: a rotation's task, and a round.
pub data Step : Type 0 where
  task : List ℕ → Step
  round : Step

abbrev pub with_queue : FileManager → MpscQueue (List ℕ) × List Call → FileManager × List Call
with_queue m (q, calls) = (record m { compress_queue = q }, calls)

abbrev pub step : FileManager → Step → Option (FileManager × List Call)
step m (task path) = compress_file m path
step m round = some (with_queue m (compress_round m.compress_queue))

abbrev then_calls : List Call → Option (FileManager × List Call) → Option (FileManager × List Call)
then_calls calls none = none
then_calls calls (some (m, later)) = some (m, calls ++ later)

abbrev after_step :
    Option (FileManager × List Call)
    → (FileManager → Option (FileManager × List Call))
    → Option (FileManager × List Call)
after_step none later = none
after_step (some (m, calls)) later = then_calls calls (later m)

-- The steps in turn, and then the end of the file manager; `none` if one does not return.
abbrev pub run : FileManager → List Step → Option (FileManager × List Call)
run m [] = some (deinit m)
run m (s ∷ steps) = after_step (step m s) (λ m'. run m' steps)

-- The paths that find room, when `count` are held: a task is dropped where the queue is full.
abbrev pub accepted : ℕ → ℕ → List Step → List (List ℕ)
accepted capacity count [] = []
accepted capacity count (task path ∷ steps) =
    let dropped = accepted capacity count steps in
    let kept = path ∷ accepted capacity (count + 1) steps in
    if leb capacity count then dropped else kept
accepted capacity count (round ∷ steps) = accepted capacity (count - 1) steps

-- A manager whose compression thread runs, and that gives its tasks to it.
abbrev pub IsCompressing : FileManager → Type 0
IsCompressing m =
    (m.compress_thread_running ≡ true)
    × (m.has_compress_thread ≡ true)
    × (m.config.enable_compression ≡ true)
    × (m.config.compress_mode ≡ compress_async)

-- What a run compresses.
abbrev Compresses : Option (FileManager × List Call) → List (List ℕ) → Type 0
Compresses o paths =
    (m : FileManager) × (calls : List Call) × (o ≡ some (m, calls)) × (gzips calls ≡ paths)

then-Compresses :
    (calls : List Call) (o : Option (FileManager × List Call)) (paths : List (List ℕ))
    → Compresses o paths
    → Compresses (then_calls calls o) (gzips calls ++ paths)
then-Compresses calls o paths (m, later, e, f) = (
  m,
  calls ++ later,
  ap (then_calls calls) e,
  gzips-append calls later ∙ ap (λ t. gzips calls ++ t) f,
)

-- A task either finds room or is dropped.
compress_file-Stores :
    (m : FileManager) (capacity : ℕ) (held : List (List ℕ)) (path : List ℕ)
    → IsCompressing m
    → Stores m.compress_queue capacity held
    → (q' : MpscQueue (List ℕ)) × (compress_file m path
        ≡ some (record m { compress_queue = q' }, []))
      × Stores q' capacity (offer capacity held path).1
unfolding compress_file submit queued
compress_file-Stores m capacity held path (runs, exists, on, async) (n, h, e, c) =
    let (q', n', pushed, h', same, cap) = push_refines path h in
    (
      q',
      ap (λ b. if not b then some (m, []) else submit m.config.compress_mode m path) on
          ∙ (ap (λ mode. submit mode m path) async ∙ ap (queued m) pushed),
      (n', h', same ∙ ap₂ (λ k t. (offer k t path).1) c e, cap ∙ c),
    )

after-Compresses :
    (o : Option (FileManager × List Call)) (later : FileManager → Option (FileManager × List Call))
    (m : FileManager) (calls : List Call) (paths : List (List ℕ))
    → o ≡ some (m, calls)
    → Compresses (later m) paths
    → Compresses (after_step o later) (gzips calls ++ paths)
after-Compresses o later m calls paths e h =
    subst (λ o'. Compresses (after_step o' later) (gzips calls ++ paths)) (sym e)
      (then-Compresses calls (later m) paths h)

-- What is held and what is accepted, before and after a task.
offer-accepted :
    (capacity : ℕ) (held : List (List ℕ)) (path : List ℕ) (steps : List Step)
    → (offer capacity held path).1 ++ accepted capacity (length (offer capacity held path).1) steps
      ≡ held ++ accepted capacity (length held) (task path ∷ steps)
unfolding offer
offer-accepted capacity held path steps = elim (Bool-cases (leb capacity (length held))) [
  | inl full ↦ rw full refl
  | inr room ↦ rw room (
      ap (λ k. (held ++ path ∷ []) ++ accepted capacity k steps) (length-append held (path ∷ []))
      ∙ append_assoc held (path ∷ []) (accepted capacity (length held + 1) steps))
]

-- And before and after a round.
take_next-accepted :
    (capacity : ℕ) (held : List (List ℕ)) (compressed : List (List ℕ)) (steps : List Step)
    → compressed ++ (take_next held).2 ≡ held
    → compressed ++ ((take_next held).2 ++ accepted capacity (length (take_next held).2) steps)
      ≡ held ++ accepted capacity (length held) (round ∷ steps)
unfolding take_next
take_next-accepted capacity [] compressed steps e =
    ap (λ t. t ++ accepted capacity 0 steps) (sym (append-nil compressed) ∙ e)
take_next-accepted capacity (x ∷ held) compressed steps e =
    let later = accepted capacity (length held) steps in
    sym (append_assoc compressed held later)
    ∙ (ap (λ t. t ++ later) e
        ∙ ap (λ k. x ∷ (held ++ accepted capacity k steps)) {x = length held}
            {y = suc (length held) - 1} (omega arith))

run-Compresses :
    (m : FileManager) (capacity : ℕ) (held : List (List ℕ)) (steps : List Step)
    → IsCompressing m
    → Stores m.compress_queue capacity held
    → Compresses (run m steps) (held ++ accepted capacity (length held) steps)
run-Compresses m capacity held [] on h = (
  (deinit m).0,
  (deinit m).1,
  refl,
  deinit-Compresses m capacity held on.0 on.1 h (Stores-length m.compress_queue capacity held h)
      ∙ sym (append-nil held),
)
run-Compresses m capacity held (task path ∷ steps) on h =
    let (q', filed, h') = compress_file-Stores m capacity held path on h in
    let m' = record m { compress_queue = q' } in
    subst (Compresses (run m (task path ∷ steps))) (offer-accepted capacity held path steps) (
      after-Compresses (compress_file m path) (λ n. run n steps) m' []
        ((offer capacity held path).1
          ++ accepted capacity (length (offer capacity held path).1) steps)
        filed (run-Compresses m' capacity (offer capacity held path).1 steps on h'))
run-Compresses m capacity held (round ∷ steps) on h =
    let r = compress_round m.compress_queue in
    let (h', e) = compress_round-Stores m.compress_queue capacity held h in
    let m' = record m { compress_queue = r.0 } in
    let left = (take_next held).2 in
    subst (Compresses (run m (round ∷ steps)))
      (take_next-accepted capacity held (gzips r.1) steps e)
      (after-Compresses (step m round) (λ n. run n steps) m' r.1
        (left ++ accepted capacity (length left) steps) refl
        (run-Compresses m' capacity left steps on h'))

-- With a compression thread that runs and a valid queue that holds `held`, every sequence of tasks and rounds of the
-- thread returns, and with the end of the file manager exactly the paths held and those that found room are
-- compressed, each once and in their order; a task is dropped only while the queue is full.
pub run-gzips :
    (m : FileManager) (n : ℕ) (steps : List Step)
    → IsCompressing m
    → Holds m.compress_queue n
    → (m' : FileManager) × (calls : List Call) × (run m steps ≡ some (m', calls))
      × (gzips calls ≡ items m.compress_queue n ++ accepted m.compress_queue.capacity n steps)
run-gzips m n steps on h =
    let held = items m.compress_queue n in
    subst (λ k. Compresses (run m steps) (held ++ accepted m.compress_queue.capacity k steps))
      (length-items_from m.compress_queue 0 n)
      (run-Compresses m m.compress_queue.capacity held steps on (n, h, refl, refl))
