-- ===== src/Cat/Loop.antt =====
-- The main loop of silog_cat/src/silog_cat.c and `main`: the client connects when it is not connected, and shows what it
-- receives.
pub mod Frames
pub mod Stream
pub mod Episodes
pub mod Yields
pub mod Sessions
pub mod Sockets
use si_log.Base.{
  ℕ, Bool, true, false, not, Option, none, some, List, [], ◌∷◌, ◌++◌, if◌then◌else◌, take,
}
use si_log.Base.Int.{ℤ}
use si_log.Errors.{ErrorCode, ok, is_ok}
use si_log.Entry.{LogEntry}
use si_log.Time.{Tm}
use si_log.Prelog
use si_log.Prelog.{PrelogConfig, PrelogManager}
use si_log.Remote.Client.{
  ClientConfig, ClientCtx, Received, client_init, client_deinit, connect, is_connected, receive,
}
use si_log.Cat.{CatConfig, initial_config, Parsed, parsed, failed, exits, parse_args}
use si_log.Cat.Print.{Printed, print_log}

-- What the loop keeps: the client, and `wasConnected`.
pub record CatState : Type 0 where
  pub client : ClientCtx
  pub was_connected : Bool

-- What the system answers in one round: to `socket`, `inet_pton` and `connect` if the client connects, and to `select`
-- and `recv`.
pub record RoundCalls : Type 0 where
  pub socket : Option ℕ
  pub addr_ok : Bool
  pub connect_ok : Bool
  pub answer : Received

-- The lines behind one that may be missing.
abbrev pub after_line : Option Printed → List Printed → List Printed
after_line none lines = lines
after_line (some line) lines = line ∷ lines

-- What the callback prints for the entries.
pub shown : CatConfig → (ℕ → Tm) → List LogEntry → List Printed
shown c localtime [] = []
shown c localtime (e ∷ es) = after_line (print_log c localtime e) (shown c localtime es)

-- The part of a round that receives, with the lines printed and the descriptors closed.
pub receive_shown :
    CatConfig → (ℕ → Tm) → ClientCtx → Bool → Received → CatState × List Printed × List ℕ
receive_shown c localtime m was_connected answer =
    let (code, m', entries, closed) = receive m true answer in
    (record { client = m'; was_connected = was_connected }, shown c localtime entries, closed)

-- What follows the connection.
pub after_connect :
    CatConfig
    → (ℕ → Tm)
    → ErrorCode × ClientCtx × List ℕ
    → Received
    → CatState × List Printed × List ℕ
after_connect c localtime (code, m, closed) answer =
    let (st, lines, closed') = receive_shown c localtime m true answer in
    if is_ok code
    then (st, lines, closed ++ closed')
    else (record { client = m; was_connected = false }, [], closed)

-- One round of the loop.
pub round : CatConfig → (ℕ → Tm) → CatState → RoundCalls → CatState × List Printed × List ℕ
round c localtime st os =
    if not (is_connected st.client)
    then after_connect c localtime (connect st.client os.socket os.addr_ok os.connect_ok) os.answer
    else receive_shown c localtime st.client st.was_connected os.answer

-- The rounds until a signal ends the loop.
pub rounds : CatConfig → (ℕ → Tm) → CatState → List RoundCalls → CatState × List Printed × List ℕ
rounds c localtime st [] = (st, [], [])
rounds c localtime st (os ∷ calls) =
    let (st', lines, closed) = round c localtime st os in
    let (last, later, closed') = rounds c localtime st' calls in
    (last, lines ++ later, closed ++ closed')

-- The configuration of the remote client.
pub remote_client_config : CatConfig → ClientConfig
remote_client_config c = record {
  server_addr = take 63 c.server_addr;
  server_port = c.server_port;
  use_reconnect = true;
  reconnect_ms = 5000;
}

-- The client after `SilogRemoteClientInit`, with the code.
pub start_client : ClientCtx → CatConfig → ErrorCode × ClientCtx
start_client m c =
    client_init initial_config.server_addr 9090 5000 m (some (remote_client_config c))

-- `main` once the arguments are read.
pub show :
    CatConfig → (ℕ → Tm) → ErrorCode × ClientCtx → List RoundCalls → ℕ × List Printed × List ℕ
show c localtime (code, m) calls =
    let (st, lines, closed) =
      rounds c localtime (record { client = m; was_connected = false }) calls in
    let (m', closed') = client_deinit st.client in
    if is_ok code then (0, lines, closed ++ closed') else (1, [], [])

-- What `main` does for what the arguments say.
pub show_parsed : Parsed → (ℕ → Tm) → ClientCtx → List RoundCalls → ℕ × List Printed × List ℕ
show_parsed exits localtime m calls = (0, [], [])
show_parsed failed localtime m calls = (1, [], [])
show_parsed (parsed c) localtime m calls = show c localtime (start_client m c) calls

-- `SilogDaemonClientInit`, where `fopen` of the pre-log's path answers as `opens`.
pub daemon_client_init : PrelogManager → (List ℕ → Bool) → PrelogManager
daemon_client_init prelog opens =
    let config : PrelogConfig = record {
      path =
          b'/' ∷ b't' ∷ b'm' ∷ b'p' ∷ b'/' ∷ b's' ∷ b'i' ∷ b'l' ∷ b'o' ∷ b'g' ∷ b'_' ∷ b'c' ∷ b'a'
          ∷ b't' ∷ b'.' ∷ b't' ∷ b'x' ∷ b't' ∷ [];
      min_level = 0;
      enable_stdout = false;
    } in
    let (code, prelog') = Prelog.init prelog (some config) opens in prelog'

-- `main`: the pre-log, the exit code, the lines printed for entries and the descriptors closed.
pub main :
    (List ℕ → ℤ)
    → (ℕ → Tm)
    → PrelogManager
    → (List ℕ → Bool)
    → ClientCtx
    → List (List ℕ)
    → List RoundCalls
    → PrelogManager × ℕ × List Printed × List ℕ
main atoi localtime prelog opens m args calls =
    let (code, lines, closed) =
      show_parsed (parse_args atoi initial_config args) localtime m calls in
    (daemon_client_init prelog opens, code, lines, closed)
