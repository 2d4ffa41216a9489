-- ===== src/Ipc/Send.antt =====
-- What `SilogIpcClientSend` of silog_comm/src/silog_ipc.c delivers.
use si_log.Base.{
  ℕ, ◌≡◌, ◌∙◌, refl, sym, ap, ap₂, subst, Bool, true, false, Option, none, some, List, [], ◌∷◌,
  ◌++◌, arith, Option-cases, inl, inr,
}
use si_log.Errors.{ErrorCode, ok}
use si_log.Ipc.Balance.{send-again}
use si_log.Base.Int.{is_positive}
use si_log.Ipc.{
  server_recv, dgram_server_recv, Agent, SocketCalls, SendCalls, SendAnswer, accepted, no_server,
  failed, Effect, opened, closed, connected, bound, unlinked, sent, refused, set_nonblock,
  close_held, retry, dgram_client_init, dgram_client_close, dgram_client_send, client_send,
}

-- The datagrams that the socket accepted, in order.
abbrev pub datagrams : List Effect → List (List ℕ)
datagrams [] = []
datagrams (sent fd bytes ∷ es) = bytes ∷ datagrams es
datagrams (e ∷ es) = datagrams es

datagrams-append : (es fs : List Effect) → datagrams (es ++ fs) ≡ datagrams es ++ datagrams fs
datagrams-append [] fs = refl
datagrams-append (opened fd ∷ es) fs = datagrams-append es fs
datagrams-append (closed fd ∷ es) fs = datagrams-append es fs
datagrams-append (connected fd ∷ es) fs = datagrams-append es fs
datagrams-append (bound fd ∷ es) fs = datagrams-append es fs
datagrams-append (unlinked ∷ es) fs = datagrams-append es fs
datagrams-append (sent fd d ∷ es) fs = ap (λ t. d ∷ t) (datagrams-append es fs)
datagrams-append (refused fd ∷ es) fs = datagrams-append es fs

-- What a send delivers of `bytes` if it answers the code.
abbrev pub delivered_with : ErrorCode → List ℕ → List (List ℕ)
delivered_with ok bytes = bytes ∷ []
delivered_with other bytes = []

init-datagrams : (a : Agent) (s : SocketCalls) → datagrams (dgram_client_init a s).2 ≡ []
unfolding dgram_client_init set_nonblock
init-datagrams a s = ground arith

retry-datagrams :
    (a : Agent) (bytes : List ℕ) (second_ok : Bool) (code : ErrorCode) (es : List Effect)
    → datagrams es ≡ []
    → datagrams (retry bytes second_ok (code, a, es)).2
      ≡ delivered_with (retry bytes second_ok (code, a, es)).0 bytes
unfolding retry
retry-datagrams a bytes second_ok code es e = elim (Option-cases a.send_fd) [
  | inl n ↦ ground (arith, e, n)
  | inr (fd, n) ↦
      ground (
        arith,
        e,
        n,
        datagrams-append es (sent fd bytes ∷ []),
        datagrams-append es (refused fd ∷ []),
      )
]

close-datagrams : (fd : Option ℕ) → datagrams (close_held fd) ≡ []
close-datagrams none = refl
close-datagrams (some fd) = refl

again-datagrams :
    (a : Agent) (s : SocketCalls) (fd : ℕ)
    → datagrams
        (refused fd ∷ (dgram_client_close a).1 ++ (dgram_client_init (dgram_client_close a).0 s).2)
      ≡ []
unfolding dgram_client_close
again-datagrams a s fd =
    datagrams-append (close_held a.send_fd) (dgram_client_init (dgram_client_close a).0 s).2
    ∙ ap₂ (λ l r. l ++ r) (close-datagrams a.send_fd) (init-datagrams (dgram_client_close a).0 s)

dgram_client_send-datagrams :
    (a : Agent) (bytes : List ℕ) (os : SendCalls) (first : SendAnswer)
    → os.first ≡ first
    → datagrams (dgram_client_send a bytes os).2
      ≡ delivered_with (dgram_client_send a bytes os).0 bytes
unfolding dgram_client_send
dgram_client_send-datagrams a bytes os accepted e = ground (arith, e)
dgram_client_send-datagrams a bytes os failed e = ground (arith, e)
dgram_client_send-datagrams a bytes os no_server e = elim (Option-cases a.send_fd) [
  | inl n ↦ ground (arith, n)
  | inr (fd, n) ↦
      let again = dgram_client_init (dgram_client_close a).0 os.reconnect in
      let done = refused fd ∷ (dgram_client_close a).1 ++ again.2 in
      subst (λ t. datagrams t.2 ≡ delivered_with t.0 bytes) (sym (send-again a bytes os fd n e))
        (retry-datagrams again.1 bytes os.second_ok again.0 done
          (again-datagrams a os.reconnect fd))
]

-- `SilogIpcClientSend` answers `SILOG_OK` exactly where the socket accepted the datagram, once and whole, be it at
-- the first try or after it has connected again; with every other code it accepted none.
pub client_send-datagrams :
    (a : Agent) (bytes : List ℕ) (os : SendCalls)
    → datagrams (client_send a bytes os).2 ≡ delivered_with (client_send a bytes os).0 bytes
unfolding client_send
client_send-datagrams a bytes os =
    ground (arith, dgram_client_send-datagrams a bytes os os.first refl)

-- Sends one after the other, with what the system answers to each.
abbrev pub send_all : Agent → List (List ℕ × SendCalls) → Agent × List Effect
send_all a [] = (a, [])
send_all a ((bytes, os) ∷ sends) =
    let (code, b, done) = client_send a bytes os in
    let (c, later) = send_all b sends in (c, done ++ later)

-- Without a descriptor nothing is tried.
send_all-unconnected :
    (a : Agent) (sends : List (List ℕ × SendCalls)) → a.send_fd ≡ none → send_all a sends ≡ (a, [])
unfolding client_send dgram_client_send
send_all-unconnected a [] n = refl
send_all-unconnected a ((bytes, os) ∷ sends) n =
    let here : ((client_send a bytes os).1 ≡ a) × ((client_send a bytes os).2 ≡ []) =
      ground (arith, n) in
    rw (here.0, here.1) (send_all-unconnected a sends n)

-- For an initialised client with a descriptor: if the daemon is gone at one send and cannot be connected again at
-- once, none of the sends that follow delivers a datagram or calls the socket at all, whatever the system would
-- answer then.
pub send_all-gone :
    (a : Agent) (bytes : List ℕ) (os : SendCalls) (fd : ℕ) (later : List (List ℕ × SendCalls))
    → a.is_init ≡ true
    → a.send_fd ≡ some fd
    → os.first ≡ no_server
    → os.reconnect.attached ≡ false
    → send_all (client_send a bytes os).1 later ≡ ((client_send a bytes os).1, [])
unfolding client_send dgram_client_send dgram_client_close dgram_client_init set_nonblock retry
send_all-gone a bytes os fd later on n e gone =
    send_all-unconnected (client_send a bytes os).1 later (ground (arith, on, n, e, gone))

-- A positive answer of an initialised module is the size of a datagram.
pub server_recv-some :
    (a : Agent) (len : ℕ) (recv : ℕ → Option (List ℕ))
    → a.is_init ≡ true
    → is_positive (server_recv a len recv).0 ≡ true
    → recv len ≡ some (server_recv a len recv).1
unfolding server_recv dgram_server_recv
server_recv-some a len recv on h = elim (Option-cases a.recv_fd) [
  | inl n ↦ absurd (ground (arith, h, on, n))
  | inr (fd, n) ↦ elim (Option-cases (recv len)) [
    | inl e ↦ absurd (ground (arith, h, on, n, e))
    | inr (bytes, e) ↦ ground (arith, on, n, e)
  ]
]
