-- ===== src/Prelog/Sample.antt =====
-- The pre-log of silog_comm/src/silog_prelog.c when a process starts.
use si_log.Base.{false, []}
use si_log.Prelog.{PrelogManager}

abbrev pub manager : PrelogManager
manager = record {
  has_file = false;
  config = record { path = []; min_level = 0; enable_stdout = false };
  initialized = false;
}
