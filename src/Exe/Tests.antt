-- ===== src/Exe/Tests.antt =====
-- The commands of the program, run against a system that answers as a running daemon's does.
use si_log.Base.{none, true, false, some, [], ◌∷◌, if◌then◌else◌, ltb}
use si_log.Base.Int.{pos}
use si_log.Ipc.{at_start, SocketCalls, accepted, no_server}
use si_log.Ipc.Idle.{at_start-IsIdle}
use si_log.Daemon.Start.Sample.{stopped, answers}
use si_log.Prelog.Sample.{manager}
use si_log.Exe.{
  Process, terminate, StopCalls, StartDaemonCalls, parent, stop_daemon, read_pid_file, pid_in,
}
use si_log.Exe.Stop.{Stopped, stop_daemon-Stopped}
use si_log.Exe.Main.{RunCalls, TestCalls, main}
use si_log.Exe.Main.Run.{IsTidyEnd, main-IsTidyEnd}

-- The daemon's socket is there, or is not.
abbrev reached : SocketCalls
reached = record {
  fd = some 5;
  get_flags_ok = true;
  set_flags_ok = true;
  path_ok = true;
  attached = true;
}

abbrev gone : SocketCalls
gone = record reached { attached = false }

abbrev process : Process
process = record {
  prelog = manager;
  agent = at_start;
  service = stopped;
  pid_file = some (some (pos 42));
}

-- The daemon answers two probes and then is gone.
abbrev stopping : StopCalls
stopping = record {
  probe = reached;
  kill_ok = true;
  unlink_ok = true;
  probes = λ i. if ltb i 2 then reached else gone;
}

-- The daemon answers the fourth probe.
abbrev starting : StartDaemonCalls
starting = record {
  probe = gone;
  fork = parent 42;
  probes = λ i. if ltb i 3 then gone else reached;
  file_ok = true;
  setsid_ok = true;
  opens = λ path. true;
  daemon = answers;
}

-- The second entry has to connect again.
abbrev testing : TestCalls
testing = record {
  probe = reached;
  client = record reached { fd = some 6 };
  sends = λ i. record {
    first = if ltb i 1 then accepted else no_server;
    reconnect = record reached { fd = some 7 };
    second_ok = true;
  };
}

abbrev run_calls : RunCalls
run_calls = record {
  start = starting;
  opens = λ path. true;
  foreground = answers;
  stop = stopping;
  status = reached;
  test = testing;
}

-- Sends the test entries.
main-IsTidyEnd_example :
    IsTidyEnd (main 384 (λ e. e.msg) 77 process run_calls ((b't' ∷ b'e' ∷ b's' ∷ b't' ∷ []) ∷ []))
main-IsTidyEnd_example =
    main-IsTidyEnd 384 (λ e. e.msg) 77 process run_calls ((b't' ∷ b'e' ∷ b's' ∷ b't' ∷ []) ∷ [])
      at_start-IsIdle

stop_daemon-Stopped_example : Stopped none (terminate (pos 42) ∷ []) (stop_daemon process stopping)
unfolding read_pid_file pid_in
stop_daemon-Stopped_example = stop_daemon-Stopped process stopping at_start-IsIdle
