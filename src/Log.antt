-- ===== src/Log.antt =====
-- base/tgp_log.cc: what glog is told. glog itself is not modelled.
use tgproxy.Common.{ℕ, Bool, true, ◌++◌, ◌||◌, Text, codes, c_str}

pub record LogDetails : Type 0 where
  pub stderr_info : Bool
  pub colorlogtostderr : Bool
  pub info_dest : Text
  pub warning_dest : Text
  pub error_dest : Text
  pub logbufsecs : ℕ
  pub max_log_size : ℕ
  pub stop_logging_if_full_disk : Bool

-- `setLogDetails(log_dir, logtostderr)` on what was told before.
unfoldable pub set_log_details : Text → Bool → LogDetails → LogDetails
set_log_details log_dir logtostderr d = record {
  stderr_info = logtostderr || d.stderr_info;
  colorlogtostderr = logtostderr || d.colorlogtostderr;
  info_dest = c_str (log_dir ++ codes "/INFO_");
  warning_dest = c_str (log_dir ++ codes "/WARNING_");
  error_dest = c_str (log_dir ++ codes "/ERROR_");
  logbufsecs = 0;
  max_log_size = 2000;
  stop_logging_if_full_disk = true;
}
