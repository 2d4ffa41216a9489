-- ===== src/Errors.antt =====
-- silog_comm/include/silog_error.h: the error codes that the functions of every module return.
use mathlib.Core.Bool.{Bool, true, false}

-- `ErrorCode`, without the prefix `SILOG_`.
pub data ErrorCode : Type 0 where
  ok : ErrorCode
  unknown invalid_arg null_ptr out_of_memory timeout not_implemented busy : ErrorCode
  file_open file_read file_write file_not_exist file_permission : ErrorCode
  net_connect net_file_create net_file_open net_file_error net_send net_recv net_timeout net_closed
        net_unreachable :
      ErrorCode
  sys_call sys_resource thread_create thread_join mutex_lock : ErrorCode
  str_too_long str_empty str_err trans_not_init trans_queue_full trans_queue_empty
        file_manager_not_init :
      ErrorCode

-- ret == SILOG_OK
abbrev pub is_ok : ErrorCode → Bool
is_ok ok = true
is_ok other = false
