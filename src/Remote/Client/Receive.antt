-- ===== src/Remote/Client/Receive.antt =====
-- `SilogRemoteClientReceive` of silog_comm/src/silog_remote.c: a frame that arrives in pieces.
use si_log.Base.{
  ℕ, ◌≤◌, ◌<◌, ◌≡◌, ◌∙◌, refl, ap, true, List, [], ◌∷◌, ◌++◌, leb, length, length-append, arith,
}
use mathlib.Core.List.{append_assoc}
use si_log.Errors.{ErrorCode, ok}
use si_log.Entry.{LogEntry}
use si_log.Remote.Wire.{entry_size}
use si_log.Remote.Wire.Roundtrip.{IsEntry, read_back, wire, length-wire, deserialize-wire}
use si_log.Remote.Client.{ClientCtx, bytes, take_frame, receive, is_connected}

take_frame-part :
    (m : ClientCtx) (buf : List ℕ)
    → length buf < 377
    → take_frame m buf ≡ (ok, record m { received = buf }, [], [])
unfolding take_frame
take_frame-part m buf lt = ground arith

receive-bytes :
    (m : ClientCtx) (chunk : List ℕ)
    → m.is_init ≡ true
    → m.is_connected ≡ true
    → receive m true (bytes chunk) ≡ take_frame m (m.received ++ chunk)
unfolding receive
receive-bytes m chunk on up = ground arith

-- A connected client that receives bytes stays connected.
pub receive-kept :
    (m : ClientCtx) (chunk : List ℕ)
    → m.is_init ≡ true
    → m.is_connected ≡ true
    → ((receive m true (bytes chunk)).1.is_init ≡ true)
      × ((receive m true (bytes chunk)).1.is_connected ≡ true)
unfolding receive take_frame
receive-kept m chunk on up = (ground (arith, on, up), ground (arith, on, up))

pub is_connected_lem :
    (m : ClientCtx) → m.is_init ≡ true → m.is_connected ≡ true → is_connected m ≡ true
unfolding is_connected
is_connected_lem m on up = rw (on, up) refl

-- Bytes that do not complete a frame are kept.
pub receive-part :
    (m : ClientCtx) (chunk : List ℕ)
    → m.is_init ≡ true
    → m.is_connected ≡ true
    → length (m.received ++ chunk) < 377
    → receive m true (bytes chunk) ≡ (ok, record m { received = m.received ++ chunk }, [], [])
receive-part m chunk on up short =
    receive-bytes m chunk on up ∙ take_frame-part m (m.received ++ chunk) short

take_frame-whole :
    (m : ClientCtx) (e : LogEntry)
    → IsEntry e
    → take_frame m (wire e) ≡ (ok, record m { received = [] }, read_back e ∷ [], [])
unfolding take_frame
take_frame-whole m e h =
    let full : leb entry_size (length (wire e)) ≡ true = ground (arith, length-wire e h) in
    rw (full, deserialize-wire e h) refl

abbrev pub joined : List (List ℕ) → List ℕ → List ℕ
joined [] last = last
joined (c ∷ chunks) last = c ++ joined chunks last

-- The calls that receive the chunks in turn: the client after them, and all entries passed on.
abbrev pub receive_all : ClientCtx → List (List ℕ) → List ℕ → ClientCtx × List LogEntry
receive_all m [] last =
    let (code, m', entries, closed) = receive m true (bytes last) in (m', entries)
receive_all m (c ∷ chunks) last =
    let (code, m', entries, closed) = receive m true (bytes c) in
    let (m'', entries') = receive_all m' chunks last in (m'', entries ++ entries')

joined-longer : (chunks : List (List ℕ)) (last : List ℕ) → length last ≤ length (joined chunks last)
joined-longer [] last = omega arith
joined-longer (c ∷ chunks) last =
    omega (arith, joined-longer chunks last, length-append c (joined chunks last))

-- A connected client that receives the frame of an entry in pieces, however it is cut, as long as the last
-- piece is not empty, passes exactly one entry to the callback, the sent one as it is read back (with the
-- level modulo 256, the length of the stored message, and the time as `read_ts` gives it), and is ready for the next
-- frame. The entry's numbers fit their words, and its arrays are whole and ended.
pub receive_all-wire :
    (m : ClientCtx) (chunks : List (List ℕ)) (last : List ℕ) (e : LogEntry)
    → m.is_init ≡ true
    → m.is_connected ≡ true
    → IsEntry e
    → 0 < length last
    → m.received ++ joined chunks last ≡ wire e
    → receive_all m chunks last ≡ (record m { received = [] }, read_back e ∷ [])
receive_all-wire m [] last e on up h more all =
    let step = receive-bytes m last on up ∙ (ap (take_frame m) all ∙ take_frame-whole m e h) in
    ap (λ (r : ErrorCode × ClientCtx × List LogEntry × List ℕ). (r.1, r.2)) step
receive_all-wire m (c ∷ chunks) last e on up h more all =
    let whole : m.received ++ (c ++ joined chunks last) ≡ wire e = all in
    let short : length (m.received ++ c) < 377 = omega (
      arith,
      ap length all ∙ length-wire e h,
      joined-longer chunks last,
      length-append m.received c,
      length-append c (joined chunks last),
      length-append m.received (c ++ joined chunks last),
    ) in
    let step = receive-bytes m c on up ∙ take_frame-part m (m.received ++ c) short in
    let rest =
      receive_all-wire (record m { received = m.received ++ c }) chunks last e on up h more
        (append_assoc m.received c (joined chunks last) ∙ all) in
    ap
      (λ (r : ErrorCode × ClientCtx × List LogEntry × List ℕ).
        let (m'', entries') = receive_all r.1 chunks last in (m'', r.2 ++ entries'))
      step
    ∙ rest
