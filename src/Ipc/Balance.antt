-- ===== src/Ipc/Balance.antt =====
-- Which descriptors silog_comm/src/silog_ipc.c opens and closes in one of its datagram functions.
use si_log.Base.{
  ℕ, ◌+◌, ◌≡◌, refl, sym, subst, Bool, inl, inr, Option, none, some, List, [], ◌∷◌, ◌++◌, ◌==◌,
  if◌then◌else◌, arith, Option-cases,
}
use si_log.Errors.{ErrorCode}
use si_log.Ipc.{
  Agent, SocketCalls, SendCalls, SendAnswer, accepted, no_server, failed, Effect, opened, closed,
  connected, bound, unlinked, sent, refused, set_nonblock, close_held, retry, dgram_client_init,
  dgram_client_close, dgram_client_send, dgram_server_init, dgram_server_close,
}

abbrev one_if : ℕ → ℕ → ℕ
one_if x fd = if x == fd then 1 else 0

-- How often a descriptor was opened and closed.
abbrev pub opens : ℕ → List Effect → ℕ
opens x [] = 0
opens x (opened fd ∷ es) = one_if x fd + opens x es
opens x (e ∷ es) = opens x es

abbrev pub closes : ℕ → List Effect → ℕ
closes x [] = 0
closes x (closed fd ∷ es) = one_if x fd + closes x es
closes x (e ∷ es) = closes x es

abbrev holds_one : ℕ → Option ℕ → ℕ
holds_one x none = 0
holds_one x (some fd) = one_if x fd

-- How often the agent holds a descriptor.
abbrev pub holds : ℕ → Agent → ℕ
holds x a = holds_one x a.send_fd + holds_one x a.recv_fd

-- What was held or opened is held or closed after.
abbrev pub Balanced : Agent → Agent → List Effect → Type 0
Balanced a b es = (x : ℕ) → holds x a + opens x es ≡ holds x b + closes x es

pub opens-append : (x : ℕ) (es fs : List Effect) → opens x (es ++ fs) ≡ opens x es + opens x fs
opens-append x [] fs = omega arith
opens-append x (opened fd ∷ es) fs = omega (arith, opens-append x es fs)
opens-append x (closed fd ∷ es) fs = opens-append x es fs
opens-append x (connected fd ∷ es) fs = opens-append x es fs
opens-append x (bound fd ∷ es) fs = opens-append x es fs
opens-append x (unlinked ∷ es) fs = opens-append x es fs
opens-append x (sent fd d ∷ es) fs = opens-append x es fs
opens-append x (refused fd ∷ es) fs = opens-append x es fs

pub closes-append : (x : ℕ) (es fs : List Effect) → closes x (es ++ fs) ≡ closes x es + closes x fs
closes-append x [] fs = omega arith
closes-append x (opened fd ∷ es) fs = closes-append x es fs
closes-append x (closed fd ∷ es) fs = omega (arith, closes-append x es fs)
closes-append x (connected fd ∷ es) fs = closes-append x es fs
closes-append x (bound fd ∷ es) fs = closes-append x es fs
closes-append x (unlinked ∷ es) fs = closes-append x es fs
closes-append x (sent fd d ∷ es) fs = closes-append x es fs
closes-append x (refused fd ∷ es) fs = closes-append x es fs

pub Balanced-trans :
    (a b c : Agent) (es fs : List Effect)
    → Balanced a b es
    → Balanced b c fs
    → Balanced a c (es ++ fs)
Balanced-trans a b c es fs p q x =
    omega (arith, p x, q x, opens-append x es fs, closes-append x es fs)

pub dgram_client_close-Balanced :
    (a : Agent) → Balanced a (dgram_client_close a).0 (dgram_client_close a).1
unfolding dgram_client_close
dgram_client_close-Balanced a x = ground arith

-- A failed setting up closes what it opened.
pub dgram_client_init-Balanced :
    (a : Agent) (s : SocketCalls)
    → a.send_fd ≡ none
    → Balanced a (dgram_client_init a s).1 (dgram_client_init a s).2
unfolding dgram_client_init set_nonblock
dgram_client_init-Balanced a s free x = ground (arith, free)

pub dgram_server_init-Balanced :
    (a : Agent) (s : SocketCalls)
    → a.recv_fd ≡ none
    → Balanced a (dgram_server_init a s).1 (dgram_server_init a s).2
unfolding dgram_server_init set_nonblock
dgram_server_init-Balanced a s free x = ground (arith, free)

pub dgram_server_close-Balanced :
    (a : Agent) → Balanced a (dgram_server_close a).0 (dgram_server_close a).1
unfolding dgram_server_close
dgram_server_close-Balanced a x = ground arith

-- The second `send` keeps the agent, and neither opens nor closes.
retry-Balanced :
    (a b : Agent) (bytes : List ℕ) (second_ok : Bool) (code : ErrorCode) (es : List Effect)
    → Balanced a b es
    → Balanced a (retry bytes second_ok (code, b, es)).1 (retry bytes second_ok (code, b, es)).2
unfolding retry
retry-Balanced a b bytes second_ok code es p x = elim (Option-cases b.send_fd) [
  | inl e ↦ ground (arith, p x, e)
  | inr (fd, e) ↦ ground (
    arith,
    p x,
    e,
    opens-append x es (sent fd bytes ∷ []),
    opens-append x es (refused fd ∷ []),
    closes-append x es (sent fd bytes ∷ []),
    closes-append x es (refused fd ∷ []),
  )
]

reconnect-Balanced :
    (a : Agent) (s : SocketCalls)
    → Balanced a
        (dgram_client_init (dgram_client_close a).0 s).1
        ((dgram_client_close a).1 ++ (dgram_client_init (dgram_client_close a).0 s).2)
unfolding dgram_client_close
reconnect-Balanced a s =
    Balanced-trans a (record a { send_fd = none })
      (dgram_client_init (record a { send_fd = none }) s).1 (close_held a.send_fd)
      (dgram_client_init (record a { send_fd = none }) s).2 (dgram_client_close-Balanced a)
      (dgram_client_init-Balanced (record a { send_fd = none }) s refl)

pub send-again :
    (a : Agent) (bytes : List ℕ) (os : SendCalls) (fd : ℕ)
    → a.send_fd ≡ some fd
    → os.first ≡ no_server
    → (let again = dgram_client_init (dgram_client_close a).0 os.reconnect in
        dgram_client_send a bytes os
        ≡ retry bytes os.second_ok
            (again.0, again.1, refused fd ∷ (dgram_client_close a).1 ++ again.2))
unfolding dgram_client_send
send-again a bytes os fd n e = ground (arith, n, e)

pub dgram_client_send-Balanced :
    (a : Agent) (bytes : List ℕ) (os : SendCalls) (first : SendAnswer)
    → os.first ≡ first
    → Balanced a (dgram_client_send a bytes os).1 (dgram_client_send a bytes os).2
unfolding dgram_client_send
dgram_client_send-Balanced a bytes os accepted e = λ x. ground (arith, e)
dgram_client_send-Balanced a bytes os failed e = λ x. ground (arith, e)
dgram_client_send-Balanced a bytes os no_server e = elim (Option-cases a.send_fd) [
  | inl n ↦ λ x. ground (arith, n)
  | inr (fd, n) ↦
      let again = dgram_client_init (dgram_client_close a).0 os.reconnect in
      let done = refused fd ∷ (dgram_client_close a).1 ++ again.2 in
      subst (λ t. Balanced a t.1 t.2) (sym (send-again a bytes os fd n e))
        (retry-Balanced a again.1 bytes os.second_ok again.0 done
          (reconnect-Balanced a os.reconnect))
]
