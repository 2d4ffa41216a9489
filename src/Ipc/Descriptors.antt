-- ===== src/Ipc/Descriptors.antt =====
-- The descriptors of silog_comm/src/silog_ipc.c: which are open, over a sequence of calls.
use si_log.Base.{
  ℕ, ◌≡◌, refl, Bool, true, false, not, none, List, [], ◌∷◌, ◌++◌, if◌then◌else◌, arith,
}
use si_log.Errors.{ErrorCode, not_implemented}
use si_log.Ipc.{
  IpcType, unix_dgram, unix_stream, Agent, SocketCalls, SendCalls, Effect, dgram_client_init,
  dgram_client_close, dgram_client_send, dgram_server_init, dgram_server_close, init, client_init,
  client_send, client_close, server_init, server_close,
}
use si_log.Ipc.Balance.{
  Balanced, Balanced-trans, dgram_client_close-Balanced, dgram_client_init-Balanced,
  dgram_server_init-Balanced, dgram_server_close-Balanced, dgram_client_send-Balanced,
}

if-Balanced :
    (test : Bool) (a : Agent) (u v : ErrorCode × Agent × List Effect)
    → Balanced a u.1 u.2
    → Balanced a v.1 v.2
    → Balanced a (if test then u else v).1 (if test then u else v).2
if-Balanced true a u v p q = p
if-Balanced false a u v p q = q

if_two-Balanced :
    (test : Bool) (a : Agent) (u v : Agent × List Effect)
    → Balanced a u.0 u.1
    → Balanced a v.0 v.1
    → Balanced a (if test then u else v).0 (if test then u else v).1
if_two-Balanced true a u v p q = p
if_two-Balanced false a u v p q = q

pub client_close-Balanced : (a : Agent) → Balanced a (client_close a).0 (client_close a).1
unfolding client_close
client_close-Balanced a =
    if_two-Balanced (not a.is_init) a (a, []) (dgram_client_close a) (λ x. refl)
      (dgram_client_close-Balanced a)

pub client_send-Balanced :
    (a : Agent) (bytes : List ℕ) (os : SendCalls)
    → Balanced a (client_send a bytes os).1 (client_send a bytes os).2
unfolding client_send
client_send-Balanced a bytes os =
    if-Balanced (not a.is_init) a (not_implemented, a, []) (dgram_client_send a bytes os)
      (λ x. refl) (dgram_client_send-Balanced a bytes os os.first refl)

-- A call of the module, with what the system answers to it.
pub data Call : Type 0 where
  initialise : IpcType → Call
  start_client : SocketCalls → Call
  send : List ℕ → SendCalls → Call
  stop_client : Call
  start_server : SocketCalls → Call
  stop_server : Call

abbrev pub perform : Agent → Call → Agent × List Effect
perform a (initialise type) = (init a type, [])
perform a (start_client s) = ((client_init a s).1, (client_init a s).2)
perform a (send bytes os) = ((client_send a bytes os).1, (client_send a bytes os).2)
perform a stop_client = client_close a
perform a (start_server s) = ((server_init a s).1, (server_init a s).2)
perform a stop_server = server_close a

-- A side is started only when it has no descriptor, and the module is initialised only when
-- neither has.
abbrev pub IsAllowed : Agent → Call → Type 0
IsAllowed a (initialise type) = (a.send_fd ≡ none) × (a.recv_fd ≡ none)
IsAllowed a (start_client s) = a.send_fd ≡ none
IsAllowed a (start_server s) = a.recv_fd ≡ none
IsAllowed a other = Unit

perform-Balanced :
    (a : Agent) (call : Call) → IsAllowed a call → Balanced a (perform a call).0 (perform a call).1
unfolding init client_init server_init server_close
perform-Balanced a (initialise unix_dgram) (s, r) = λ x. ground (arith, s, r)
perform-Balanced a (initialise unix_stream) h = λ x. refl
perform-Balanced a (start_client s) free =
    if-Balanced (not a.is_init) a (not_implemented, a, []) (dgram_client_init a s) (λ x. refl)
      (dgram_client_init-Balanced a s free)
perform-Balanced a (send bytes os) h = client_send-Balanced a bytes os
perform-Balanced a stop_client h = client_close-Balanced a
perform-Balanced a (start_server s) free =
    if-Balanced (not a.is_init) a (not_implemented, a, []) (dgram_server_init a s) (λ x. refl)
      (dgram_server_init-Balanced a s free)
perform-Balanced a stop_server h =
    if_two-Balanced (not a.is_init) a (a, [])
      (record (dgram_server_close a).0 { is_init = false }, (dgram_server_close a).1) (λ x. refl)
      (dgram_server_close-Balanced a)

abbrev pub perform_all : Agent → List Call → Agent × List Effect
perform_all a [] = (a, [])
perform_all a (call ∷ calls) =
    let (b, done) = perform a call in let (c, later) = perform_all b calls in (c, done ++ later)

abbrev pub AllAllowed : Agent → List Call → Type 0
AllAllowed a [] = Unit
AllAllowed a (call ∷ calls) = IsAllowed a call × AllAllowed (perform a call).0 calls

-- Over every sequence of calls that starts a side only when it has no descriptor, and initialises the module
-- only when neither has one: each descriptor is held at the end as often as it was held at first
-- or opened, less the times it was closed. So none leaks, also where a call fails or a send
-- connects again, and none is closed that was not held.
pub perform_all-Balanced :
    (a : Agent) (calls : List Call)
    → AllAllowed a calls
    → Balanced a (perform_all a calls).0 (perform_all a calls).1
perform_all-Balanced a [] h = λ x. refl
perform_all-Balanced a (call ∷ calls) h =
    let b = (perform a call).0 in
    Balanced-trans a b (perform_all b calls).0 (perform a call).1 (perform_all b calls).1
      (perform-Balanced a call h.0) (perform_all-Balanced b calls h.1)
