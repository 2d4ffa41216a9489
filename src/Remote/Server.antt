-- ===== src/Remote/Server.antt =====
-- The server's half of silog_comm/src/silog_remote.c: the table of clients. A file descriptor is
-- `none` for -1; what the system calls answer is a parameter, and each operation also returns the
-- descriptors that it closes. A NULL table is the empty list.
pub mod Table
pub mod Send
pub mod Inv
pub mod Service
pub mod Fate
pub mod Rounds
pub mod Broadcast
mod Tests
use si_log.Base.{
  ℕ, zero, suc, ◌+◌, ◌-◌, Bool, true, false, not, Option, none, some, List, [], ◌∷◌, ◌++◌, ltb, leb,
  ◌==◌, ◌||◌, ◌&&◌, if◌then◌else◌, length, get_or, set, replicate,
}
use si_log.Errors.{
  ErrorCode, ok, null_ptr, invalid_arg, out_of_memory, net_file_create, net_file_open,
  net_file_error, net_timeout, trans_not_init,
}
use si_log.Entry.{LogEntry}
use si_log.Remote.Wire.{serialize, entry_size}

-- `SilogRemoteClient`
pub record Client : Type 0 where
  pub fd : Option ℕ
  pub addr : ℕ
  pub active : Bool

-- `SilogRemoteManager`, without its lock.
pub record Manager : Type 0 where
  pub is_init : Bool
  pub listen_fd : Option ℕ
  pub listen_port : ℕ
  pub max_clients : ℕ
  pub clients : List Client
  pub client_count : ℕ

-- `SilogRemoteConfig_t`
pub record Config : Type 0 where
  pub listen_port : ℕ
  pub max_clients : ℕ
  pub enable_auth : Bool

-- `SILOG_REMOTE_DEFAULT_PORT`
abbrev pub default_port : ℕ
default_port = 9090

-- `SILOG_REMOTE_DEFAULT_MAX_CLIENTS`
abbrev pub default_max_clients : ℕ
default_max_clients = 10

-- A slot that holds no client.
abbrev pub vacant : Client
vacant = record { fd = none; addr = 0; active = false }

-- The value of `g_silogRemoteMgr` at the start.
abbrev pub initial : Manager
initial = record {
  is_init = false;
  listen_fd = none;
  listen_port = default_port;
  max_clients = default_max_clients;
  clients = [];
  client_count = 0;
}

abbrev pub fd_list : Option ℕ → List ℕ
fd_list none = []
fd_list (some fd) = fd ∷ []

-- `SilogRemoteSetNonblock`, where the two calls of `fcntl` succeed or fail as given.
abbrev pub set_nonblock : Bool → Bool → ErrorCode
set_nonblock get_ok set_ok = if get_ok && set_ok then ok else net_file_error

-- The loop of `SilogRemoteFindFreeSlot` over the slots from `i` on.
pub find_free_from : List Client → ℕ → Option ℕ
find_free_from [] i = none
find_free_from (c ∷ cs) i =
    let rest = find_free_from cs (i + 1) in if not c.active then some i else rest

-- `SilogRemoteFindFreeSlot`, `none` for -1.
pub find_free_slot : Manager → Option ℕ
find_free_slot m = find_free_from m.clients 0

-- The descriptors that the closing of a slot closes.
abbrev pub closed_by : Client → List ℕ
closed_by c = if c.active then fd_list c.fd else []

-- `SilogRemoteCloseClientInternal`
pub close_client : Manager → ℕ → Manager × List ℕ
close_client m idx =
    let client = get_or m.clients idx vacant in
    if leb m.max_clients idx then (m, []) else (
      record m {
        clients = set m.clients idx vacant;
        client_count =
            if client.active && ltb 0 m.client_count then m.client_count - 1 else m.client_count;
      },
      closed_by client,
    )

-- What the system answers during `SilogRemoteInit`.
pub record InitCalls : Type 0 where
  pub malloc_ok : Bool
  pub socket : Option ℕ
  pub bind_ok : Bool
  pub listen_ok : Bool
  pub get_flags_ok : Bool
  pub set_flags_ok : Bool

-- The settings that `SilogRemoteInit` takes from its argument.
pub apply_config : Manager → Option Config → Manager
apply_config m none = record m { listen_port = default_port; max_clients = default_max_clients }
apply_config m (some config) = record m {
  listen_port = if config.listen_port == 0 then default_port else config.listen_port;
  max_clients = if config.max_clients == 0 then default_max_clients else config.max_clients;
}

-- The end of `SilogRemoteInit`, once the listening socket exists.
pub open_service : Manager → ℕ → InitCalls → ErrorCode × Manager × List ℕ
open_service m fd os =
    let undone = record m { listen_fd = none; clients = [] } in
    if not os.bind_ok
    then (net_file_open, undone, fd ∷ [])
    else (if not os.listen_ok
        then (net_file_error, undone, fd ∷ [])
        else elim (set_nonblock os.get_flags_ok os.set_flags_ok) [
          | ok ↦ (ok, record m { listen_fd = some fd; is_init = true }, [])
          | code ↦ (code, undone, fd ∷ [])
        ])

-- `SilogRemoteInit`
pub init : Manager → Option Config → InitCalls → ErrorCode × Manager × List ℕ
init m config os =
    let m' = apply_config m config in
    let table = record m' { clients = replicate m'.max_clients vacant; client_count = 0 } in
    if m.is_init
    then (ok, m, [])
    else (if not os.malloc_ok
        then (out_of_memory, record m' { clients = [] }, [])
        else elim os.socket [
          | none ↦ (net_file_create, record table { listen_fd = none; clients = [] }, [])
          | some fd ↦ open_service table fd os
        ])

-- The loop of `SilogRemoteDeinit` over the slots from `i` on.
pub close_from : ℕ → ℕ → Manager → Manager × List ℕ
close_from zero i m = (m, [])
close_from (suc k) i m =
    let (m', closed) = close_client m i in
    let (m'', closed') = close_from k (i + 1) m' in (m'', closed ++ closed')

-- `SilogRemoteDeinit`
pub deinit : Manager → Manager × List ℕ
deinit m =
    let (m', closed) = close_from m.max_clients 0 m in
    if not m.is_init then (m, []) else (
      record m' { listen_fd = none; clients = []; client_count = 0; is_init = false },
      closed ++ fd_list m'.listen_fd,
    )

-- What `accept` answers: a connection, no connection yet, or an error.
pub data Accepted : Type 0 where
  connection : ℕ → ℕ → Accepted
  none_waiting accept_failed : Accepted

-- The part of `SilogRemoteAccept` under the lock, for the connection `fd` from `addr`.
pub admit : Manager → ℕ → ℕ → Bool → Bool → ErrorCode × Manager × List ℕ
admit m fd addr get_ok set_ok =
    if leb m.max_clients m.client_count
    then (net_file_error, m, fd ∷ [])
    else elim (find_free_slot m) [
      | none ↦ (net_file_error, m, fd ∷ [])
      | some slot ↦ elim (set_nonblock get_ok set_ok) [
        | ok ↦ (
          ok,
          record m {
            clients = set m.clients slot (record { fd = some fd; addr = addr; active = true });
            client_count = m.client_count + 1;
          },
          [],
        )
        | code ↦ (code, m, fd ∷ [])
      ]
    ]

-- `SilogRemoteAccept`
pub accept : Manager → Accepted → Bool → Bool → ErrorCode × Manager × List ℕ
accept m answer get_ok set_ok = if not m.is_init then (net_file_error, m, []) else elim answer [
  | none_waiting ↦ (net_timeout, m, [])
  | accept_failed ↦ (net_file_error, m, [])
  | connection fd addr ↦ admit m fd addr get_ok set_ok
]

-- What a call of `send` answers: a number of bytes, EAGAIN or EWOULDBLOCK, or another error.
pub data Sent : Type 0 where
  bytes : ℕ → Sent
  would_block send_failed : Sent

-- The loop of `SilogRemoteSendFull` with `sent` bytes behind it: the code, and the bytes sent in
-- all. `answer k n` is what `send` answers to its `k`-th call, for `n` bytes. The fuel is the number of
-- bytes to send.
pub send_loop : ℕ → (ℕ → ℕ → Sent) → ℕ → ℕ → ℕ → ErrorCode × ℕ
send_loop zero answer k len sent = (ok, sent)
send_loop (suc fuel) answer k len sent =
    if ltb sent len
    then elim (answer k (len - sent)) [
      | would_block ↦ (net_timeout, sent)
      | send_failed ↦ (net_file_error, sent)
      | bytes zero ↦ (net_file_error, sent)
      | bytes (suc n) ↦ send_loop fuel answer (k + 1) len (sent + suc n)
    ]
    else (ok, sent)

-- `SilogRemoteSendFull`
pub send_full : (ℕ → ℕ → Sent) → ℕ → ErrorCode × ℕ
send_full answer len = send_loop len answer 0 len 0

-- The loop of `SilogRemoteBroadcast` over `k` slots from `i` on, where no other thread changes the
-- table while the lock is released: the table, the clients served and the descriptors closed.
pub broadcast_loop : (ℕ → ℕ → ℕ → Sent) → ℕ → ℕ → ℕ → Manager → ℕ → List ℕ → Manager × ℕ × List ℕ
broadcast_loop answers len zero i m served closed = (m, served, closed)
broadcast_loop answers len (suc k) i m served closed =
    let client = get_or m.clients i vacant in
    elim (if client.active then client.fd else none) [
      | none ↦ broadcast_loop answers len k (i + 1) m served closed
      | some fd ↦ elim (send_full (answers fd) len).0 [
        | ok ↦ broadcast_loop answers len k (i + 1) m (served + 1) closed
        | net_timeout ↦ broadcast_loop answers len k (i + 1) m served closed
        | code ↦
            let (m', c) = close_client m i in
            broadcast_loop answers len k (i + 1) m' served (closed ++ c)
      ]
    ]

-- `SilogRemoteBroadcast`: the code, the number that `sentCount` receives, the table and the
-- descriptors closed.
pub broadcast : (ℕ → ℕ → ℕ → Sent) → Manager → Option LogEntry → ErrorCode × ℕ × Manager × List ℕ
broadcast answers m entry = if not m.is_init then (trans_not_init, 0, m, []) else elim entry [
  | none ↦ (null_ptr, 0, m, [])
  | some e ↦
      if m.client_count == 0 then (ok, 0, m, []) else elim (serialize e true entry_size true) [
        | none ↦ (invalid_arg, 0, m, [])
        | some buf ↦
            let (m', served, closed) = broadcast_loop answers (length buf) m.max_clients 0 m 0 [] in
            (ok, served, m', closed)
      ]
]

-- `SilogRemoteGetClientCount`
pub get_client_count : Manager → ℕ
get_client_count m = if m.is_init then m.client_count else 0

-- `SilogRemoteIsInit`
pub is_initialized : Manager → Bool
is_initialized m = m.is_init
