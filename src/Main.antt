-- ===== src/Main.antt =====
-- src/rauc-hawkbit-updater.c: main, up to the call that polls.
pub mod Starts
use rauc_hawkbit_updater.Base.{ℕ, String, Bool, true, false, Option, none, some, if◌then◌else◌}
use rauc_hawkbit_updater.GError.{Result, ok, err}
use rauc_hawkbit_updater.Config.{Config, KeyFile, Glib, load_config_file}
use rauc_hawkbit_updater.Log.{Logging, level_mask, setup_logging}

-- What the options set.
pub record Options : Type 0 where
  pub version : Bool
  pub config_file : Option String
  pub debug : Bool
  pub run_once : Bool
  pub output_systemd : Bool

-- The exit status before the service is started; or its start, with what it is started with.
pub data Start : Type 0 where
  exited : ℕ → Start
  started : Config → Logging → Bool → Start

abbrev pub log_level_for : Options → Config → ℕ
log_level_for options config = if options.debug then level_mask else config.log_level

-- From load_config_file on.
pub start_with : Options → Result Config → Start
start_with options (err e) = exited 4
start_with options (ok config) =
    started config (setup_logging (log_level_for options config) options.output_systemd)
      options.run_once

-- g_file_test is the parameter `exists`.
pub start_file :
    Glib → (String → Bool) → (String → Result KeyFile) → Options → Option String → Start
unfolding start_with
start_file g exists load options none = exited 2
start_file g exists load options (some config_file) =
    if exists config_file
    then start_with options (load_config_file g load config_file)
    else exited 3

-- `parsed` is what the parse of the options gives.
unfoldable pub main : Glib → (String → Bool) → (String → Result KeyFile) → Result Options → Start
unfolding start_file
main g exists load (err e) = exited 1
main g exists load (ok options) =
    if options.version then exited 0 else start_file g exists load options options.config_file
