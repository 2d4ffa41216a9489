-- ===== src/Ipc/Idle.antt =====
-- A client of silog_comm/src/silog_ipc.c that connects and closes again.
use si_log.Base.{
  ℕ, ◌+◌, ◌≡◌, refl, subst, Bool, true, false, ◌&&◌, none, some, List, ◌++◌, arith, Option-cases,
  inl, inr,
}
use si_log.Errors.{ErrorCode, is_ok}
use si_log.Ipc.{
  Agent, SocketCalls, SendCalls, Effect, unix_dgram, at_start, init, client_init, client_send,
  client_close, dgram_client_init, dgram_client_send, dgram_client_close, set_nonblock, retry,
}
use si_log.Ipc.Balance.{opens, closes, opens-append, closes-append, Balanced}

-- A local socket that is initialised and has no descriptor.
abbrev pub idle : Agent
idle = record { is_init = true; send_fd = none; recv_fd = none }

-- A local socket that is idle once it is initialised.
abbrev pub IsIdle : Agent → Type 0
IsIdle a = init a unix_dgram ≡ idle

-- Each descriptor is opened as often as it is closed.
abbrev pub IsClosed : List Effect → Type 0
IsClosed es = (x : ℕ) → opens x es ≡ closes x es

pub append-IsClosed : (es fs : List Effect) → IsClosed es → IsClosed fs → IsClosed (es ++ fs)
append-IsClosed es fs p q x = omega (arith, p x, q x, opens-append x es fs, closes-append x es fs)

pub Balanced-IsClosed : (a : Agent) (es : List Effect) → a ≡ idle → Balanced idle a es → IsClosed es
Balanced-IsClosed a es e p x =
    let q : 0 + opens x es ≡ 0 + closes x es = subst (λ b. Balanced idle b es) e p x in
    omega (arith, q)

-- Whether the system lets a socket reach the daemon's.
abbrev pub reaches : SocketCalls → Bool
reaches s = elim s.fd [
  | none ↦ false
  | some fd ↦ s.get_flags_ok && s.set_flags_ok && s.path_ok && s.attached
]

pub idle-IsIdle : IsIdle idle
unfolding init
idle-IsIdle = refl

pub at_start-IsIdle : IsIdle at_start
unfolding init
at_start-IsIdle = refl

-- The agents of a client: initialised, and without the server's descriptor.
abbrev pub IsClient : Agent → Type 0
IsClient a = (a.is_init ≡ true) × (a.recv_fd ≡ none)

-- What a client's connection leaves.
pub record Connects (s : SocketCalls) (r : ErrorCode × Agent × List Effect) : Type 0 where
  pub answer : is_ok r.0 ≡ reaches s
  pub client : IsClient r.1
  pub balanced : Balanced idle r.1 r.2
  pub failed_idle : is_ok r.0 ≡ false → r.1 ≡ idle

pub client_init-Connects : (s : SocketCalls) → Connects s (client_init idle s)
unfolding client_init dgram_client_init set_nonblock
client_init-Connects s = elim (Option-cases s.fd) [
  | inl e ↦ record {
    answer = ground (arith, e);
    client = (ground (arith, e), ground (arith, e));
    balanced = λ x. ground (arith, e);
    failed_idle = λ h. ground (arith, e);
  }
  | inr (fd, e) ↦ record {
    answer = ground (arith, e);
    client = (ground (arith, e), ground (arith, e));
    balanced = λ x. ground (arith, e);
    failed_idle = λ h. ground (arith, e, h);
  }
]

pub client_close-idle : (a : Agent) → IsClient a → (client_close a).0 ≡ idle
unfolding client_close dgram_client_close
client_close-idle a (on, free) = ground (arith, on, free)

pub client_send-IsClient :
    (a : Agent) (bytes : List ℕ) (os : SendCalls) → IsClient a → IsClient (client_send a bytes os).1
unfolding client_send dgram_client_send dgram_client_init dgram_client_close set_nonblock retry
client_send-IsClient a bytes os (on, free) = (ground (arith, on, free), ground (arith, on, free))
