-- ===== src/Ipc.antt =====
-- silog_comm/src/silog_ipc.c and silog_comm/include/silog_ipc.h: the datagram socket between the programs and
-- the daemon. A descriptor that is -1 is `none`. What the system answers is an argument, and the calls made are
-- part of the result.
pub mod Balance
pub mod Descriptors
pub mod Idle
pub mod Send
mod Tests
use si_log.Base.{
  ℕ, Bool, true, false, not, ◌&&◌, Option, none, some, List, [], ◌∷◌, ◌++◌, if◌then◌else◌, length,
}
use si_log.Base.Int.{ℤ, pos, negsuc}
use si_log.Errors.{
  ErrorCode, ok, net_file_create, net_file_error, net_file_open, net_connect, net_send, str_err,
  not_implemented,
}

-- `SilogIpcType_t`
pub data IpcType : Type 0 where
  unix_dgram unix_stream : IpcType

-- `SilogIpcAgent`
pub record Agent : Type 0 where
  pub is_init : Bool
  pub send_fd : Option ℕ
  pub recv_fd : Option ℕ

-- `g_silogIpcAgent` when the process starts: all zero.
abbrev pub at_start : Agent
at_start = record { is_init = false; send_fd = some 0; recv_fd = some 0 }

-- What the system answers while a socket is set up: `socket`, the two calls of `fcntl`, whether the path could be
-- formatted, and `connect` or `bind`.
pub record SocketCalls : Type 0 where
  pub fd : Option ℕ
  pub get_flags_ok : Bool
  pub set_flags_ok : Bool
  pub path_ok : Bool
  pub attached : Bool

-- What the code does to descriptors and to the socket's file.
pub data Effect : Type 0 where
  opened : ℕ → Effect
  closed : ℕ → Effect
  connected : ℕ → Effect
  bound : ℕ → Effect
  unlinked : Effect
  sent : ℕ → List ℕ → Effect  -- a datagram that `send` accepted
  refused : ℕ → Effect  -- a `send` that failed

-- `setNonblock`
pub set_nonblock : SocketCalls → ErrorCode
set_nonblock s =
    if not s.get_flags_ok then net_file_error else (if s.set_flags_ok then ok else net_file_error)

-- `SilogIpcDgramClientInit`
pub dgram_client_init : Agent → SocketCalls → ErrorCode × Agent × List Effect
dgram_client_init a s = elim s.fd [
  | none ↦ (net_file_create, a, [])
  | some fd ↦ elim (set_nonblock s) [
    | ok ↦
        if not s.path_ok
        then (str_err, a, opened fd ∷ closed fd ∷ [])
        else (if s.attached
            then (ok, record a { send_fd = some fd }, opened fd ∷ connected fd ∷ [])
            else (net_connect, a, opened fd ∷ closed fd ∷ []))
    | other ↦ (other, a, opened fd ∷ closed fd ∷ [])
  ]
]

-- What `close` is called for, as the code tests that the descriptor is not negative.
abbrev pub close_held : Option ℕ → List Effect
close_held none = []
close_held (some fd) = closed fd ∷ []

-- `SilogIpcDgramClientClose`
pub dgram_client_close : Agent → Agent × List Effect
dgram_client_close a = (record a { send_fd = none }, close_held a.send_fd)

-- What `send` answers.
pub data SendAnswer : Type 0 where
  accepted : SendAnswer
  no_server : SendAnswer  -- `ECONNREFUSED` or `ENOENT`
  failed : SendAnswer

-- What the system answers to `SilogIpcDgramClientSend`: to the first `send`, while the client connects again, and
-- whether the second `send` is accepted.
pub record SendCalls : Type 0 where
  pub first : SendAnswer
  pub reconnect : SocketCalls
  pub second_ok : Bool

-- The second `send`.
unfoldable retry : List ℕ → Bool → ErrorCode × Agent × List Effect → ErrorCode × Agent × List Effect
retry bytes second_ok (ok, a, done) = elim a.send_fd [
  | none ↦ (net_send, a, done)
  | some fd ↦
      if second_ok
      then (ok, a, done ++ sent fd bytes ∷ [])
      else (net_send, a, done ++ refused fd ∷ [])
]
retry bytes second_ok (code, a, done) = (net_send, a, done)

-- `SilogIpcDgramClientSend`
pub dgram_client_send : Agent → List ℕ → SendCalls → ErrorCode × Agent × List Effect
dgram_client_send a bytes os = elim a.send_fd [
  | none ↦ (net_file_error, a, [])
  | some fd ↦ elim os.first [
    | accepted ↦ (ok, a, sent fd bytes ∷ [])
    | failed ↦ (net_send, a, refused fd ∷ [])
    | no_server ↦
        let (a1, closed1) = dgram_client_close a in
        let (code, a2, done) = dgram_client_init a1 os.reconnect in
        retry bytes os.second_ok (code, a2, refused fd ∷ closed1 ++ done)
  ]
]

-- `SilogIpcDgramServerInit`
pub dgram_server_init : Agent → SocketCalls → ErrorCode × Agent × List Effect
dgram_server_init a s = elim s.fd [
  | none ↦ (net_file_create, a, unlinked ∷ [])
  | some fd ↦ elim (set_nonblock s) [
    | ok ↦
        if not s.path_ok
        then (str_err, a, unlinked ∷ opened fd ∷ closed fd ∷ [])
        else (if s.attached
            then (ok, record a { recv_fd = some fd }, unlinked ∷ opened fd ∷ bound fd ∷ [])
            else (net_file_open, a, unlinked ∷ opened fd ∷ closed fd ∷ []))
    | other ↦ (other, a, unlinked ∷ opened fd ∷ closed fd ∷ [])
  ]
]

-- `SilogIpcDgramServerRecv`. `recv` answers the bytes of a datagram, at most `len`, or `none` for an error.
pub dgram_server_recv : Agent → ℕ → (ℕ → Option (List ℕ)) → ℤ × List ℕ
dgram_server_recv a len recv = elim a.recv_fd [
  | none ↦ (pos 0, [])
  | some fd ↦ elim (recv len) [ none ↦ (negsuc 0, []) | some bytes ↦ (pos (length bytes), bytes) ]
]

-- `SilogIpcDgramServerClose`
pub dgram_server_close : Agent → Agent × List Effect
dgram_server_close a = (record a { recv_fd = none }, close_held a.recv_fd ++ unlinked ∷ [])

-- `SilogIpcInit`
pub init : Agent → IpcType → Agent
init a unix_dgram =
    if a.is_init then a else record a { is_init = true; send_fd = none; recv_fd = none }
init a unix_stream = a

-- `SilogIpcIsInit`
pub is_init : Agent → Bool
is_init a = a.is_init

-- `SilogIpcClientInit`
pub client_init : Agent → SocketCalls → ErrorCode × Agent × List Effect
client_init a s = if not a.is_init then (not_implemented, a, []) else dgram_client_init a s

-- `SilogIpcClientSend`
pub client_send : Agent → List ℕ → SendCalls → ErrorCode × Agent × List Effect
client_send a bytes os =
    if not a.is_init then (not_implemented, a, []) else dgram_client_send a bytes os

-- `SilogIpcClientClose`
pub client_close : Agent → Agent × List Effect
client_close a = if not a.is_init then (a, []) else dgram_client_close a

-- `SilogIpcServerInit`
pub server_init : Agent → SocketCalls → ErrorCode × Agent × List Effect
server_init a s = if not a.is_init then (not_implemented, a, []) else dgram_server_init a s

-- `SilogIpcServerClose`
pub server_close : Agent → Agent × List Effect
server_close a =
    if not a.is_init
    then (a, [])
    else (let (b, done) = dgram_server_close a in (record b { is_init = false }, done))

-- `SilogIpcServerRecv`. `SILOG_NOT_IMPLEMENTED` is 1005.
pub server_recv : Agent → ℕ → (ℕ → Option (List ℕ)) → ℤ × List ℕ
server_recv a len recv = if not a.is_init then (pos 1005, []) else dgram_server_recv a len recv
