-- ===== src/Daemon/Written.antt =====
-- What the file of silog_dae/src/silog_daemon.c holds after any sequence of rounds of its two threads.
use si_log.Base.{
  ℕ, zero, suc, ◌≡◌, ◌∙◌, refl, ap, ap₂, sym, subst, Option, none, some, List, [], ◌∷◌, ◌++◌,
  length,
}
use si_log.Mpsc.Fifo.{take_next}
use si_log.Mpsc.Inv.{element_at}
use si_log.Mpsc.Pop.{pop_refines}
use si_log.File.{Call}
use si_log.File.Write.{written_in}
use si_log.File.Size.{written_in-append}
use si_log.Daemon.{Daemon, Platform, WriteCalls, share, with_entry, after_pop, write_round}
use si_log.Daemon.Line.{PrintsNumbers}
use si_log.Daemon.Room.{IsGood, write_entry-IsRoomy}
use si_log.Daemon.Pipeline.{
  Round, receive, write, round, file_calls, Spec, spec_round, view, IsRunning, IsSound, Follows,
  IsRoomy-less, AllTerminated, share-same, receive-Follows,
}

write_empty-Follows :
    (p : Platform) (d : Daemon) (c : WriteCalls) (k : ℕ)
    → IsRunning d 0 (suc k)
    → Follows p d 0 k (write c)
unfolding round write_round after_pop file_calls spec_round take_next
write_empty-Follows p d c k h =
    let (q, n', popped, holds, same, cap) = pop_refines 0 h.queue in
    record {
      after = d;
      count = 0;
      calls = [];
      answer = ap (λ r. file_calls (after_pop p d c r)) popped;
      running = record {
        queue = h.queue;
        terminated = tt;
        roomy = IsRoomy-less d.file k h.roomy;
        on = h.on;
      };
      state = refl;
      bytes = refl;
    }

write_next-Follows :
    (p : Platform) (d : Daemon) (c : WriteCalls) (m k : ℕ)
    → PrintsNumbers p
    → IsGood c
    → IsRunning d (suc m) (suc k)
    → Follows p d (suc m) k (write c)
unfolding round write_round after_pop with_entry file_calls spec_round take_next
write_next-Follows p d c m k nums good h =
    let (q, n', popped, holds, same, cap) = pop_refines (suc m) h.queue in
    let e = element_at d.log_queue 0 in
    let d1 : Daemon = record d { log_queue = q } in
    let (file, calls, wrote, bytes, roomy) =
      write_entry-IsRoomy p d1 e c k nums h.terminated.0 good h.roomy in
    let d2 : Daemon = record d1 { file = file } in
    let (shape, files) = share-same c.answers d2 e calls in
    let remote = (share c.answers d2 e calls).0.remote in
    record {
      after = record d2 { remote = remote };
      count = n';
      calls = calls;
      answer =
          ap (λ r. file_calls (after_pop p d c r)) popped
          ∙ (ap (λ r. file_calls (with_entry e r)) wrote ∙ ap₂ (λ s f. some (s, f)) shape files);
      running = record {
        queue = holds;
        terminated = subst AllTerminated (sym same) h.terminated.1;
        roomy = roomy;
        on = h.on;
      };
      state = rw (cap, same) refl;
      bytes = bytes;
    }

round-Follows :
    (p : Platform) (d : Daemon) (n k : ℕ) (r : Round)
    → PrintsNumbers p
    → IsSound p r
    → IsRunning d n (suc k)
    → Follows p d n k r
round-Follows p d n k (receive recv) nums sound h = receive-Follows p d n k recv h sound
round-Follows p d zero k (write c) nums good h = write_empty-Follows p d c k h
round-Follows p d (suc m) k (write c) nums good h = write_next-Follows p d c m k nums good h

-- The rounds of both threads, in the order in which they run.
pub later : List Call → Option (Daemon × List Call) → Option (Daemon × List Call)
later calls none = none
later calls (some (d, more)) = some (d, calls ++ more)

pub and_then :
    Option (Daemon × List Call)
    → (Daemon → Option (Daemon × List Call))
    → Option (Daemon × List Call)
and_then none next = none
and_then (some (d, calls)) next = later calls (next d)

pub run_rounds : Platform → Daemon → List Round → Option (Daemon × List Call)
run_rounds p d [] = some (d, [])
run_rounds p d (r ∷ rounds) = and_then (round p d r) (λ d'. run_rounds p d' rounds)

pub spec_rounds : Platform → Spec → List Round → Spec × List ℕ
spec_rounds p s [] = (s, [])
spec_rounds p s (r ∷ rounds) =
    let (s', bytes) = spec_round p s r in
    let (s'', more) = spec_rounds p s' rounds in (s'', bytes ++ more)

abbrev pub AllSound : Platform → List Round → Type 0
AllSound p [] = Unit
AllSound p (r ∷ rounds) = IsSound p r × AllSound p rounds

-- For a C library whose decimal numbers have at most eleven characters, and from a daemon that is initialised, with a
-- valid queue of entries with terminated arrays and an open file that has room for 442 bytes in every
-- round: in any order of the rounds of the receiving and the writing thread, where each datagram is
-- a whole entry with terminated arrays and the file takes all bytes, every round returns, and the queue and the
-- bytes written to the file are those of the specification, a bounded FIFO whose entries are written, as they
-- leave it, as their whole lines.
pub rounds_refine :
    (p : Platform) (d : Daemon) (n : ℕ) (rounds : List Round)
    → PrintsNumbers p
    → AllSound p rounds
    → IsRunning d n (length rounds)
    → (d' : Daemon) × (n' : ℕ) × (calls : List Call) × (run_rounds p d rounds ≡ some (d', calls))
      × IsRunning d' n' 0
      × ((view d' n', written_in calls) ≡ spec_rounds p (view d n) rounds)
unfolding run_rounds and_then later spec_rounds
rounds_refine p d n [] nums sound h = (d, n, [], refl, h, refl)
rounds_refine p d n (r ∷ rounds) nums sound h =
    let f = round-Follows p d n (length rounds) r nums sound.0 h in
    let (d', n', calls, ran, running, same) =
      rounds_refine p f.after f.count rounds nums sound.1 f.running in
    (
      d',
      n',
      f.calls ++ calls,
      ap (λ t. and_then t (λ d'. run_rounds p d' rounds)) f.answer ∙ ap (later f.calls) ran,
      running,
      ap (λ w. (view d' n', w)) (written_in-append f.calls calls)
          ∙ (ap (λ t. (t.0, written_in f.calls ++ t.1)) same
              ∙ ap₂ (λ s b. ((spec_rounds p s rounds).0, b ++ (spec_rounds p s rounds).1)) f.state
                  f.bytes),
    )
