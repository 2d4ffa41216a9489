-- ===== src/Daemon/Pipeline.antt =====
-- The two threads of silog_dae/src/silog_daemon.c in any order of their rounds: what is received comes into the file.
use si_log.Base.{
  ℕ, suc, ◌≡◌, refl, ap, sym, subst, true, Option, none, some, List, [], ◌∷◌, ◌++◌, length, leb,
  if◌then◌else◌, Bool-cases, inl, inr, arith,
}
use si_log.Base.Int.{is_positive}
use si_log.Entry.{LogEntry}
use si_log.Mpsc.{MpscQueue, push}
use si_log.Mpsc.Fifo.{offer, take_next}
use si_log.Mpsc.Inv.{Holds, items}
use si_log.Mpsc.Push.{push_refines}
use si_log.Ipc.{Agent, server_recv}
use si_log.Ipc.Send.{server_recv-some}
use si_log.File.{FileManager, Call}
use si_log.File.Write.{written_in}
use si_log.Remote.Server.{Sent}
use si_log.Daemon.{
  Daemon, Platform, WriteCalls, Done, line_of, share, after_push, write_round, recv_round,
}
use si_log.Daemon.Line.{IsTerminated, time_of}
use si_log.Daemon.Room.{IsRoomy, IsGood}

-- A round of one of the threads, with what the system answers in it.
pub data Round : Type 0 where
  receive : (ℕ → Option (List ℕ)) → Round
  write : WriteCalls → Round

pub no_calls : Option Daemon → Option (Daemon × List Call)
no_calls none = none
no_calls (some d) = some (d, [])

unfoldable pub file_calls : Option (Option LogEntry × Daemon × Done) → Option (Daemon × List Call)
file_calls none = none
file_calls (some (e, d, done)) = some (d, done.files)

-- One round, with its calls on files.
unfoldable pub round : Platform → Daemon → Round → Option (Daemon × List Call)
round p d (receive recv) = no_calls (recv_round p d recv)
round p d (write c) = file_calls (write_round p d c)

-- The specification: a bounded FIFO of entries, and a file to which the line of each entry is written as it leaves the
-- FIFO. `entry` is what the last datagram left.
pub record Spec : Type 0 where
  pub capacity : ℕ
  pub agent : Agent
  pub entry : LogEntry
  pub pending : List LogEntry

pub spec_receive : Platform → Spec → (ℕ → Option (List ℕ)) → Spec
spec_receive p s recv =
    let (n, bytes) = server_recv s.agent p.sizeof_entry recv in
    let entry = p.fill bytes s.entry in
    if is_positive n
    then record s { entry = entry; pending = (offer s.capacity s.pending entry).1 }
    else s

abbrev pub line_if : Platform → WriteCalls → Option LogEntry → List ℕ
line_if p c none = []
line_if p c (some e) = line_of p (time_of p e c.timebuf) e

unfoldable pub spec_round : Platform → Spec → Round → Spec × List ℕ
spec_round p s (receive recv) = (spec_receive p s recv, [])
spec_round p s (write c) =
    let (code, e, pending) = take_next s.pending in (record s { pending = pending }, line_if p c e)

-- What the specification sees of a daemon whose queue holds `n` entries.
abbrev pub view : Daemon → ℕ → Spec
view d n = record {
  capacity = d.log_queue.capacity;
  agent = d.agent;
  entry = d.entry;
  pending = items d.log_queue n;
}

abbrev pub AllTerminated : List LogEntry → Type 0
AllTerminated [] = Unit
AllTerminated (e ∷ es) = IsTerminated e × AllTerminated es

AllTerminated-append :
    (es : List LogEntry) (e : LogEntry)
    → AllTerminated es
    → IsTerminated e
    → AllTerminated (es ++ e ∷ [])
AllTerminated-append [] e all t = (t, tt)
AllTerminated-append (x ∷ es) e all t = (all.0, AllTerminated-append es e all.1 t)

offer-AllTerminated :
    (capacity : ℕ) (es : List LogEntry) (e : LogEntry)
    → AllTerminated es
    → IsTerminated e
    → AllTerminated (offer capacity es e).1
unfolding offer
offer-AllTerminated capacity es e all t = elim (Bool-cases (leb capacity (length es))) [
  | inl full ↦ rw full all
  | inr room ↦ rw room (AllTerminated-append es e all t)
]

-- The local socket is initialised, the queue is valid and holds `n` entries with terminated arrays, and the file has room for `k` rounds.
pub record IsRunning (d : Daemon) (n k : ℕ) : Type 0 where
  pub queue : Holds d.log_queue n
  pub terminated : AllTerminated (items d.log_queue n)
  pub roomy : IsRoomy d.file k
  pub on : d.agent.is_init ≡ true

-- What a round brings: a datagram is a whole entry with terminated arrays, and a writing is good.
abbrev pub IsSound : Platform → Round → Type 0
IsSound p (receive recv) =
    (bytes : List ℕ)
    → recv p.sizeof_entry ≡ some bytes
    → (e : LogEntry) → IsTerminated (p.fill bytes e)
IsSound p (write c) = IsGood c

-- A round is as specified, and leaves the daemon running.
pub record Follows (p : Platform) (d : Daemon) (n k : ℕ) (r : Round) : Type 0 where
  pub after : Daemon
  pub count : ℕ
  pub calls : List Call
  pub answer : round p d r ≡ some (after, calls)
  pub running : IsRunning after count k
  pub state : view after count ≡ (spec_round p (view d n) r).0
  pub bytes : written_in calls ≡ (spec_round p (view d n) r).1

pub IsRoomy-less : (m : FileManager) (k : ℕ) → IsRoomy m (suc k) → IsRoomy m k
IsRoomy-less m k h = record {
  on = h.on;
  opened = h.opened;
  room = omega (arith, h.room);
  small = h.small;
}

-- A push of an entry with terminated arrays.
push-Follows :
    (d : Daemon) (n k : ℕ) (e : LogEntry)
    → IsRunning d n (suc k)
    → IsTerminated e
    → (q : MpscQueue LogEntry) × (n' : ℕ) × (after_push
          (record d { entry = e })
          (push (some d.log_queue) (some e))
        ≡ some (record d { entry = e; log_queue = q }))
      × IsRunning (record d { entry = e; log_queue = q }) n' k
      × (items q n' ≡ (offer d.log_queue.capacity (items d.log_queue n) e).1)
      × (q.capacity ≡ d.log_queue.capacity)
unfolding after_push
push-Follows d n k e h t =
    let (q, n', pushed, holds, same, cap) = push_refines e h.queue in
    (
      q,
      n',
      ap (after_push (record d { entry = e })) pushed,
      record {
        queue = holds;
        terminated =
            subst AllTerminated (sym same)
              (offer-AllTerminated d.log_queue.capacity (items d.log_queue n) e h.terminated t);
        roomy = IsRoomy-less d.file k h.roomy;
        on = h.on;
      },
      same,
      cap,
    )

pub receive-Follows :
    (p : Platform) (d : Daemon) (n k : ℕ) (recv : ℕ → Option (List ℕ))
    → IsRunning d n (suc k)
    → IsSound p (receive recv)
    → Follows p d n k (receive recv)
unfolding round recv_round no_calls spec_round spec_receive
receive-Follows p d n k recv h sound =
    let got = server_recv d.agent p.sizeof_entry recv in
    elim (Bool-cases (is_positive got.0)) [
      | inr nobody ↦ record {
        after = d;
        count = n;
        calls = [];
        answer = rw nobody refl;
        running = record {
          queue = h.queue;
          terminated = h.terminated;
          roomy = IsRoomy-less d.file k h.roomy;
          on = h.on;
        };
        state = rw nobody refl;
        bytes = refl;
      }
      | inl some_bytes ↦
          let e = p.fill got.1 d.entry in
          let t =
            sound got.1 (server_recv-some d.agent p.sizeof_entry recv h.on some_bytes) d.entry in
          let (q, n', pushed, running, same, cap) = push-Follows d n k e h t in
          record {
            after = record d { entry = e; log_queue = q };
            count = n';
            calls = [];
            answer = rw some_bytes (ap no_calls pushed);
            running = running;
            state = rw (some_bytes, cap, same) refl;
            bytes = refl;
          }
    ]

-- The round of a broadcast touches the table of clients only.
pub share-same :
    (answers : ℕ → ℕ → ℕ → Sent) (d : Daemon) (e : LogEntry) (files : List Call)
    → ((share answers d e files).0 ≡ record d { remote = (share answers d e files).0.remote })
      × ((share answers d e files).1.files ≡ files)
unfolding share
share-same answers d e files = elim (Bool-cases d.remote_enabled) [
  | inl x ↦ rw x (refl, refl)
  | inr x ↦ rw x (refl, refl)
]
