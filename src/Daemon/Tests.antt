-- ===== src/Daemon/Tests.antt =====
-- A daemon that receives one entry and writes it.
use si_log.Base.{ℕ, ◌≡◌, refl, true, false, none, some, List, [], ◌∷◌, replicate, arith}
use si_log.Entry.{LogEntry}
use si_log.Mpsc.{MpscQueue}
use si_log.Mpsc.Sample.{two_slots, two_slots-Holds}
use si_log.File.{FileManager, Call}
use si_log.File.Write.{written_in}
use si_log.File.Config.{default_config}
use si_log.Remote.Server.{would_block}
use si_log.Daemon.{Daemon, Platform, WriteCalls}
use si_log.Daemon.Line.{IsTerminated, PrintsNumbers}
use si_log.Daemon.Pipeline.{Round, receive, write, view, IsRunning}
use si_log.Daemon.Written.{run_rounds, spec_rounds, rounds_refine}

abbrev sample : LogEntry
sample = record {
  ts = 1000;
  pid = 7;
  tid = 8;
  level = 1;
  tag = b'T' ∷ replicate 31 0;
  file = b'f' ∷ replicate 63 0;
  line = 3;
  msg = b'm' ∷ replicate 255 0;
  msg_len = 1;
  enabled = 1;
}

abbrev queue : MpscQueue LogEntry
queue = two_slots 384 sample

abbrev file : FileManager
file = record {
  config = default_config;
  is_open = true;
  current_size = 0;
  async_buffer_size = 0;
  last_flush_time_ms = 0;
  initialized = true;
  compress_queue = two_slots 512 [];
  compress_thread_running = true;
  has_compress_thread = true;
  bad_join = false;
}

abbrev daemon : Daemon
daemon = record {
  log_queue = queue;
  agent = record { is_init = true; send_fd = none; recv_fd = some 4 };
  entry = sample;
  file = file;
  remote = record {
    is_init = false;
    listen_fd = none;
    listen_port = 9090;
    max_clients = 10;
    clients = [];
    client_count = 0;
  };
  remote_enabled = false;
}

abbrev platform : Platform
platform = record {
  signed = λ n. b'7' ∷ [];
  unsigned = λ n. b'3' ∷ [];
  localtime = λ sec. none;
  print_time = λ numbers. none;
  sizeof_entry = 384;
  fill = λ bytes e. sample;
}

platform-PrintsNumbers : PrintsNumbers platform
platform-PrintsNumbers = record {
  signed = λ n. record { short = omega arith; no_end = ((λ e. absurd (omega (arith, e))), tt) };
  unsigned = λ n. record { short = omega arith; no_end = ((λ e. absurd (omega (arith, e))), tt) };
}

sample-IsTerminated : IsTerminated sample
sample-IsTerminated = record {
  tag = record { whole = refl; ended = refl };
  file = record { whole = refl; ended = refl };
  msg = record { whole = refl; ended = refl };
}

abbrev writing : WriteCalls
writing = record {
  timebuf = replicate 32 0;
  logbuf = replicate 512 0;
  print_ok = true;
  rotation = record {
    date = [];
    millis = none;
    exists = λ j. false;
    rename_ok = λ r. true;
    open_append_ok = true;
    open_new_ok = true;
  };
  written = λ n. n;
  now = 500;
  answers = λ fd sent asked. would_block;
}

abbrev rounds : List Round
rounds = receive (λ n. some (replicate n 0)) ∷ write writing ∷ write writing ∷ []

daemon-IsRunning : IsRunning daemon 0 3
daemon-IsRunning = record {
  queue = (two_slots-Holds 384 sample);
  terminated = tt;
  roomy = record { on = refl; opened = refl; room = omega arith; small = omega arith };
  on = refl;
}

rounds_refine_example :
    (d' : Daemon) × (n' : ℕ) × (calls : List Call) × (run_rounds platform daemon rounds
      ≡ some (d', calls))
    × IsRunning d' n' 0
    × ((view d' n', written_in calls) ≡ spec_rounds platform (view daemon 0) rounds)
rounds_refine_example =
    rounds_refine platform daemon 0 rounds platform-PrintsNumbers
      (
        (λ bytes e any. sample-IsTerminated),
        (
          record { prints = refl; timebuf = refl; logbuf = refl; takes = λ n. refl },
          (record { prints = refl; timebuf = refl; logbuf = refl; takes = λ n. refl }, tt),
        ),
      )
      daemon-IsRunning
