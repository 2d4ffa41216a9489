-- ===== src/Logger/Tests.antt =====
-- A message that is longer than its array, and a call of the logger with a full queue.
use si_log.Base.{ℕ, ◌≡◌, refl, true, none, some, List, [], replicate, zero, suc, arith}
use si_log.Errors.{ok}
use si_log.Entry.{LogEntry}
use si_log.Mpsc.{MpscQueue}
use si_log.Mpsc.Sample.{two_slots, two_slots-Holds}
use si_log.Mpsc.Inv.{items}
use si_log.Securec.Text.Arrays.{NoZero}
use si_log.Logger.{LogManager, BuildCalls, MngCalls, build_entry, silog_log}
use si_log.Logger.Build.{Built, build_entry-Built}
use si_log.Logger.Enqueue.{IsQueued, offered, silog_log-IsQueued}
use si_log.Base.{◌≤◌, ◌<◌, ◌⊎◌}

abbrev long : List ℕ
long = replicate 300 b'x'

abbrev calls : BuildCalls
calls = record {
  message = some long;
  clock = none;
  pid = 7;
  tid = 8;
  tag_ok = true;
  file_ok = true;
}

replicate-NoZero : (n : ℕ) → NoZero (replicate n b'x')
replicate-NoZero zero = tt
replicate-NoZero (suc n) = ((λ e. absurd (omega (arith, e))), replicate-NoZero n)

build_entry-Built_example :
    (e : LogEntry) × (build_entry 1 (replicate 3 b'x') (replicate 70 b'x') 12 calls ≡ (ok, some e))
    × Built 1 (replicate 3 b'x') (replicate 70 b'x') 12 long e
build_entry-Built_example =
    build_entry-Built 1 12 (replicate 3 b'x') (replicate 70 b'x') long calls refl refl refl
      (replicate-NoZero 3) (replicate-NoZero 70) (replicate-NoZero 300)
      (record {
        pid = omega arith;
        tid = omega arith;
        small_level = omega arith;
        small_line = omega arith;
      })

abbrev no_entry : LogEntry
no_entry = record {
  ts = 0;
  pid = 0;
  tid = 0;
  level = 0;
  tag = [];
  file = [];
  line = 0;
  msg = [];
  msg_len = 0;
  enabled = 0;
}

abbrev queue : MpscQueue LogEntry
queue = two_slots 384 no_entry

abbrev manager : LogManager
manager = record {
  min_level = 1;
  once = true;
  init_success = true;
  log_queue = some queue;
  agent = record { is_init = true; send_fd = some 5; recv_fd = none };
}

abbrev unused : MngCalls
unused = record {
  malloc = λ n. none;
  malloc_seq = λ n. none;
  socket = record {
    fd = none;
    get_flags_ok = true;
    set_flags_ok = true;
    path_ok = true;
    attached = true;
  };
  thread_ok = true;
}

silog_log-IsQueued_example :
    ((1 ≤ 2)
      × IsQueued manager
          (offered 2 (items queue 0) (build_entry 2 [] [] 12 calls))
          (silog_log 384 manager 2 [] [] 12 unused calls))
    ⊎ ((2 < 1) × IsQueued manager (items queue 0) (silog_log 384 manager 2 [] [] 12 unused calls))
silog_log-IsQueued_example =
    silog_log-IsQueued manager queue 0 refl (two_slots-Holds 384 no_entry) 384 2 12 [] [] unused
      calls refl refl
