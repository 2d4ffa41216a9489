-- ===== src/Remote/Server/Tests.antt =====
-- The server's table at concrete inputs.
use si_log.Base.{
  ℕ, ◌+◌, ◌<◌, ◌≡◌, ◌≢◌, ◌⊎◌, refl, true, false, some, List, [], ◌∷◌, ltb, if◌then◌else◌, replicate,
  arith,
}
use si_log.Errors.{ok, net_timeout, net_file_error}
use si_log.Entry.{LogEntry}
use si_log.Remote.Server.{
  Client, Manager, Config, InitCalls, connection, Sent, bytes, would_block, send_failed, vacant,
  initial, init, deinit, accept, send_full,
}
use si_log.Remote.Server.Table.{times}
use si_log.Remote.Server.Inv.{IsValid, owned, opened_by, accept-IsValid}
use si_log.Remote.Server.Service.{Started, Refused, init-IsValid, deinit-owned}
use si_log.Remote.Server.Send.{IsBounded, send_full-Outcome}

abbrev calls : InitCalls
calls = record {
  malloc_ok = true;
  socket = some 3;
  bind_ok = true;
  listen_ok = true;
  get_flags_ok = true;
  set_flags_ok = true;
}

abbrev config : Config
config = record { listen_port = 0; max_clients = 3; enable_auth = false }

init-IsValid_example :
    (((init initial (some config) calls).0 ≡ ok)
      × Started
          (some config)
          calls
          initial
          (init initial (some config) calls).1
          (init initial (some config) calls).2)
    ⊎ (((init initial (some config) calls).0 ≢ ok)
        × Refused calls (init initial (some config) calls).1 (init initial (some config) calls).2)
init-IsValid_example = init-IsValid initial (some config) calls refl refl

-- Two clients and a free slot between them.
abbrev clients : List Client
clients =
    record { fd = some 7; addr = 1; active = true }
    ∷ vacant
    ∷ record { fd = some 9; addr = 2; active = true }
    ∷ []

abbrev running : Manager
running = record {
  is_init = true;
  listen_fd = some 3;
  listen_port = 9090;
  max_clients = 3;
  clients = clients;
  client_count = 2;
}

running-IsValid : IsValid running
running-IsValid = record {
  whole = refl;
  counted = refl;
  slots = ((λ p. cc), (refl, ((λ p. cc), tt)));
}

accept-IsValid_example :
    IsValid (accept running (connection 11 5) true true).1
    × ((x : ℕ)
        → times x (owned (accept running (connection 11 5) true true).1)
            + times x (accept running (connection 11 5) true true).2
          ≡ times x (owned running) + times x (opened_by (connection 11 5)))
accept-IsValid_example = accept-IsValid (connection 11 5) true true running-IsValid

deinit-owned_example :
    ((deinit running).1 ≡ owned running)
    × ((deinit running).0.is_init ≡ false)
    × (owned (deinit running).0 ≡ [])
    × ((deinit running).0.client_count ≡ 0)
deinit-owned_example = deinit-owned running-IsValid refl

-- A socket whose buffer takes five bytes.
abbrev small : ℕ → ℕ → Sent
small k left = if ltb k 1 then (if ltb left 5 then bytes left else bytes 5) else would_block

small-IsBounded : IsBounded small
small-IsBounded k left n e = ground arith

send_full-Outcome_example :
    (((send_full small 8).0 ≡ ok) × ((send_full small 8).1 ≡ 8))
    ⊎ ((((send_full small 8).0 ≡ net_timeout) ⊎ ((send_full small 8).0 ≡ net_file_error))
        × ((send_full small 8).1 < 8))
send_full-Outcome_example = send_full-Outcome small 8 small-IsBounded

-- The first client is gone, the second takes everything.
abbrev line : ℕ → ℕ → ℕ → Sent
line fd k left = if ltb fd 8 then send_failed else bytes left

abbrev entry : LogEntry
entry = record {
  ts = 1_700_000_000_123;
  pid = 1;
  tid = 2;
  level = 3;
  tag = replicate 32 0;
  file = replicate 64 0;
  line = 77;
  msg = replicate 256 0;
  msg_len = 0;
  enabled = 1;
}
