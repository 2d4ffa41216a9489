-- ===== src/Daemon/Start/Sample.antt =====
-- A service of silog_dae/src/silog_daemon.c that has not been started, and a system on which the writing thread cannot
-- be created.
use si_log.Base.{true, false, none, some, []}
use si_log.Entry.{LogEntry}
use si_log.File.Config.{default_config}
use si_log.Remote.Server.{initial}
use si_log.Daemon.Start.{Service, Answers}

abbrev pub no_entry : LogEntry
no_entry = record {
  ts = 0;
  pid = 0;
  tid = 0;
  level = 0;
  tag = [];
  file = [];
  line = 0;
  msg = [];
  msg_len = 0;
  enabled = 0;
}

abbrev pub stopped : Service
stopped = record {
  daemon_running = false;
  recv_thread = false;
  write_thread = false;
  remote_thread = false;
  remote_running = false;
  remote_enabled = false;
  log_queue = none;
  file = record {
    config = default_config;
    is_open = false;
    current_size = 0;
    async_buffer_size = 0;
    last_flush_time_ms = 0;
    initialized = false;
    compress_queue = record {
      has_buffer = false;
      buffer = λ i. [];
      element_size = 512;
      capacity = 64;
      write_pos = 0;
      read_pos = 0;
      has_seq = false;
      seq = λ i. i;
      capacity_mask = 63;
    };
    compress_thread_running = false;
    has_compress_thread = false;
    bad_join = false;
  };
  remote = initial;
}

abbrev pub answers : Answers
answers = record {
  file = record {
    dir = record { stat = some true; made = false };
    open_ok = true;
    stat_size = some 0;
    malloc = λ n. some (λ i. []);
    malloc_seq = λ n. some (λ i. 0);
    thread_ok = true;
    now = 5;
  };
  malloc = λ n. some (λ i. no_entry);
  malloc_seq = λ n. some (λ i. 0);
  remote = record {
    malloc_ok = true;
    socket = some 7;
    bind_ok = true;
    listen_ok = true;
    get_flags_ok = true;
    set_flags_ok = true;
  };
  recv_ok = true;
  write_ok = false;
  remote_ok = true;
}
