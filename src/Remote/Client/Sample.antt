-- ===== src/Remote/Client/Sample.antt =====
-- An entry, and a connected client of silog_comm/src/silog_remote.c.
use si_log.Base.{refl, true, some, [], ◌∷◌, replicate, arith}
use si_log.Entry.{LogEntry}
use si_log.Remote.Wire.Roundtrip.{IsEntry}
use si_log.Remote.Client.{ClientCtx}

abbrev pub entry : LogEntry
entry = record {
  ts = 99;
  pid = 5;
  tid = 6;
  level = 1;
  tag = replicate 32 0;
  file = replicate 64 0;
  line = 12;
  msg = b'!' ∷ replicate 255 0;
  msg_len = 1;
  enabled = 1;
}

pub entry-IsEntry : IsEntry entry
entry-IsEntry = record {
  ts = omega arith;
  pid = omega arith;
  tid = omega arith;
  line = omega arith;
  tag = record { whole = refl; ended = refl };
  file = record { whole = refl; ended = refl };
  msg = record { whole = refl; ended = refl };
}

abbrev pub client : ClientCtx
client = record {
  is_init = true;
  is_connected = true;
  socket_fd = some 4;
  config = record {
    server_addr = b'h' ∷ [];
    server_port = 9090;
    use_reconnect = true;
    reconnect_ms = 3000;
  };
  received = [];
}
