-- ===== src/Log.antt =====
-- src/log.c: where a log message goes, and under which name or syslog level.
pub mod Streams
use Prim.Native.Nat.{bit_and, bit_or}
use rauc_hawkbit_updater.Base.{ℕ, String, Bool, true, false, ◌==◌, leb, if◌then◌else◌, ◌<+>◌}
use rauc_hawkbit_updater.Config.{
  level_error, level_critical, level_warning, level_message, level_info, level_debug,
}

-- G_LOG_FLAG_RECURSION, G_LOG_FLAG_FATAL, and G_LOG_LEVEL_MASK, which clears them in a guint
abbrev pub flag_recursion : ℕ
flag_recursion = 1

abbrev pub flag_fatal : ℕ
flag_fatal = 2

abbrev pub level_mask : ℕ
level_mask = 0xfffffffc

-- The `switch` on a level that is one bit.
unfoldable pub log_level_to_string : ℕ → String
log_level_to_string level =
    if level == level_error
    then "ERROR"
    else if level == level_critical
    then "CRITICAL"
    else if level == level_warning
    then "WARNING"
    else if level == level_message
    then "MESSAGE"
    else if level == level_info
    then "INFO"
    else if level == level_debug
    then "DEBUG"
    else "UNKNOWN"

-- LOG_CRIT, LOG_ERR, LOG_WARNING, LOG_NOTICE, LOG_INFO and LOG_DEBUG of syslog.h
unfoldable pub log_level_to_int : ℕ → ℕ
log_level_to_int level =
    if level == level_error
    then 3
    else if level == level_critical
    then 2
    else if level == level_warning
    then 4
    else if level == level_message
    then 5
    else if level == level_info
    then 6
    else if level == level_debug
    then 7
    else 6

-- sd_journal_print, g_printerr and g_print
pub data Output : Type 0 where
  journal : ℕ → String → Output
  standard_error standard_output : String → Output

-- A build with systemd; the first argument is `output_to_systemd`.
unfoldable pub log_handler_cb : Bool → ℕ → String → Output
unfolding log_level_to_string log_level_to_int
log_handler_cb output_to_systemd log_level message =
    let level = bit_and log_level level_mask in
    let line = log_level_to_string level <+> ": " <+> message <+> "\n" in
    if output_to_systemd
    then journal (log_level_to_int level) message
    else if leb log_level level_warning
    then standard_error line
    else standard_output line

-- What `setup_logging` registers: the levels that the handler is called for, and the output.
pub record Logging : Type 0 where
  pub levels : ℕ
  pub output_to_systemd : Bool

unfoldable pub setup_logging : ℕ → Bool → Logging
setup_logging level to_systemd = record {
  levels = bit_or (bit_or level flag_fatal) flag_recursion;
  output_to_systemd = to_systemd;
}
