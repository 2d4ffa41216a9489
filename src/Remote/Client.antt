-- ===== src/Remote/Client.antt =====
-- The client's half of silog_comm/src/silog_remote.c: one connection, and the bytes of the frame that it
-- is receiving. A descriptor is `none` for -1, and each operation also answers the descriptors closed.
pub mod Receive
pub mod Sockets
pub mod Sample
mod Tests
use si_log.Base.{
  ℕ, zero, suc, ◌-◌, Bool, true, false, not, Option, none, some, List, [], ◌∷◌, ◌++◌, leb, ◌==◌,
  ◌&&◌, if◌then◌else◌, length,
}
use si_log.Errors.{
  ErrorCode, ok, null_ptr, invalid_arg, net_connect, net_file_create, net_file_error, net_recv,
  net_timeout, net_closed, trans_not_init,
}
use si_log.Entry.{LogEntry}
use si_log.Remote.Wire.{deserialize, entry_size}

-- `SilogRemoteClientConfig`, the address as its bytes up to the terminating 0.
pub record ClientConfig : Type 0 where
  pub server_addr : List ℕ
  pub server_port : ℕ
  pub use_reconnect : Bool
  pub reconnect_ms : ℕ

-- `SilogRemoteClientCtx`. `received` is what the first `recvOffset` bytes of the buffer hold.
pub record ClientCtx : Type 0 where
  pub is_init : Bool
  pub is_connected : Bool
  pub socket_fd : Option ℕ
  pub config : ClientConfig
  pub received : List ℕ

abbrev pub fd_list : Option ℕ → List ℕ
fd_list none = []
fd_list (some fd) = fd ∷ []

-- The settings that `SilogRemoteClientInit` takes from its argument; the default address is a
-- parameter.
pub client_config : List ℕ → ℕ → ℕ → ClientConfig → Option ClientConfig → ClientConfig
client_config addr port reconnect old none = record {
  server_addr = addr;
  server_port = port;
  use_reconnect = true;
  reconnect_ms = reconnect;
}
client_config addr port reconnect old (some config) = record {
  server_addr = if length config.server_addr == 0 then addr else config.server_addr;
  server_port = if config.server_port == 0 then port else config.server_port;
  use_reconnect = config.use_reconnect;
  reconnect_ms = if config.reconnect_ms == 0 then reconnect else config.reconnect_ms;
}

-- `SilogRemoteClientInit`
pub client_init : List ℕ → ℕ → ℕ → ClientCtx → Option ClientConfig → ErrorCode × ClientCtx
client_init addr port reconnect m config = if m.is_init then (ok, m) else (
  ok,
  record {
    is_init = true;
    is_connected = false;
    socket_fd = none;
    config = client_config addr port reconnect m.config config;
    received = [];
  },
)

-- `SilogRemoteClientDisconnect`
pub disconnect : ClientCtx → ClientCtx × List ℕ
disconnect m =
    if m.is_init
    then (record m { socket_fd = none; is_connected = false; received = [] }, fd_list m.socket_fd)
    else (m, [])

-- `SilogRemoteClientDeinit`
pub client_deinit : ClientCtx → ClientCtx × List ℕ
client_deinit m =
    let (m', closed) = disconnect m in
    if m.is_init then (record m' { is_init = false; received = [] }, closed) else (m, [])

-- `SilogRemoteClientConnect`, where `socket`, `inet_pton` and `connect` answer as given. What
-- `SilogRemoteClientSetNonblock` answers is not read.
pub connect : ClientCtx → Option ℕ → Bool → Bool → ErrorCode × ClientCtx × List ℕ
connect m socket addr_ok connect_ok =
    if not m.is_init
    then (trans_not_init, m, [])
    else (if m.is_connected then (ok, m, []) else elim socket [
      | none ↦ (net_file_create, record m { socket_fd = none }, [])
      | some fd ↦
          if not addr_ok
          then (invalid_arg, record m { socket_fd = none }, fd ∷ [])
          else (if not connect_ok
              then (net_connect, record m { socket_fd = none }, fd ∷ [])
              else (ok, record m { socket_fd = some fd; is_connected = true; received = [] }, []))
    ])

-- `SilogRemoteClientIsConnected`
pub is_connected : ClientCtx → Bool
is_connected m = m.is_init && m.is_connected

-- What `select` and then `recv` answer to `SilogRemoteClientReceive`.
pub data Received : Type 0 where
  interrupted select_failed no_data would_block recv_failed closed : Received
  bytes : List ℕ → Received

-- The loop of `SilogRemoteClientReceive` over complete frames, with the entries passed to the callback.
-- The buffer holds at most one frame, so the bytes left behind it are none.
pub take_frame : ClientCtx → List ℕ → ErrorCode × ClientCtx × List LogEntry × List ℕ
take_frame m buf =
    let (code, entry) = deserialize (some buf) entry_size true in
    if leb entry_size (length buf)
    then (ok, record m { received = [] }, elim entry [ none ↦ [] | some e ↦ e ∷ [] ], [])
    else (ok, record m { received = buf }, [], [])

-- `SilogRemoteClientReceive`: the code, the client, the entries passed to the callback and the
-- descriptors closed. `recv` answers at most the bytes that are missing.
pub receive : ClientCtx → Bool → Received → ErrorCode × ClientCtx × List LogEntry × List ℕ
receive m has_callback answer =
    let (down, fds) = disconnect m in
    if not m.is_init
    then (trans_not_init, m, [], [])
    else (if not m.is_connected
        then (net_closed, m, [], [])
        else (if not has_callback then (null_ptr, m, [], []) else elim answer [
          | interrupted ↦ (net_timeout, m, [], [])
          | select_failed ↦ (net_file_error, down, [], fds)
          | no_data ↦ (net_timeout, m, [], [])
          | would_block ↦ (net_timeout, m, [], [])
          | recv_failed ↦ (net_recv, down, [], fds)
          | closed ↦ (net_closed, down, [], fds)
          | bytes chunk ↦ take_frame m (m.received ++ chunk)
        ]))

-- `SilogRemoteClientIsInit`
pub client_is_init : ClientCtx → Bool
client_is_init m = m.is_init
