-- ===== src/Config/Defaults.antt =====
-- src/config-file.c: what `load_config_file` makes of the keys that a file leaves out.
use rauc_hawkbit_updater.Base.{String, ◌≡◌, refl, Bool, true, false, none, some, ℤ, pos}
use rauc_hawkbit_updater.GError.{Result, ok, err, set_error, key_file_error}
use rauc_hawkbit_updater.Config.{
  Config, KeyFile, Glib, Table, key_not_found, get_group, read_config, load_config_file,
  check_tokens, check_timeouts, check_location, log_level_from_string, get_key_string, get_key_bool,
  get_key_int,
}

-- g_key_file_get_string and _get_integer on a key that is not in the file.
abbrev absent : {A : Type 0} → String → Result A
absent m = err (set_error key_file_error key_not_found m)

-- The four mandatory options and a device section are there, and no other key of [client].
pub record IsMinimal (g : Glib) (file : KeyFile) (server token target location : String)
    (device : Table) (m : String) : Type 0 where
  pub server_set : get_key_string g file "client" "hawkbit_server" none ≡ ok server
  pub token_set : get_key_string g file "client" "auth_token" none ≡ ok token
  pub target_set : get_key_string g file "client" "target_name" none ≡ ok target
  pub location_set : get_key_string g file "client" "bundle_download_location" none ≡ ok location
  pub device_set : get_group g file "device" ≡ ok device
  pub no_gateway : file.get_string "client" "gateway_token" ≡ absent m
  pub no_tenant : file.get_string "client" "tenant_id" ≡ absent m
  pub no_ssl : file.get_string "client" "ssl" ≡ absent m
  pub no_ssl_verify : file.get_string "client" "ssl_verify" ≡ absent m
  pub no_resume : file.get_string "client" "resume_downloads" ≡ absent m
  pub no_stream : file.get_string "client" "stream_bundle" ≡ absent m
  pub no_log_level : file.get_string "client" "log_level" ≡ absent m
  pub no_reboot : file.get_string "client" "post_update_reboot" ≡ absent m
  pub no_connect_timeout : file.get_integer "client" "connect_timeout" ≡ absent m
  pub no_timeout : file.get_integer "client" "timeout" ≡ absent m
  pub no_retry_wait : file.get_integer "client" "retry_wait" ≡ absent m
  pub no_low_speed_rate : file.get_integer "client" "low_speed_rate" ≡ absent m
  pub no_low_speed_time : file.get_integer "client" "low_speed_time" ≡ absent m

-- The documented defaults (docs/reference.rst).
abbrev pub defaults : String → String → String → String → Table → Config
defaults server token target location device = record {
  hawkbit_server = server;
  ssl = true;
  ssl_verify = true;
  post_update_reboot = false;
  resume_downloads = false;
  stream_bundle = false;
  auth_token = some token;
  gateway_token = none;
  tenant_id = "DEFAULT";
  controller_id = target;
  bundle_download_location = some location;
  connect_timeout = pos 20;
  timeout = pos 60;
  retry_wait = pos 300;
  low_speed_time = pos 60;
  low_speed_rate = pos 100;
  log_level = 60;
  device = device;
}

module _ (g : Glib) (file : KeyFile) where
  get_key_bool-absent :
      (key m : String) (d : Bool)
      → file.get_string "client" key ≡ absent m
      → get_key_bool g file "client" key d ≡ ok d
  unfolding get_key_bool
  get_key_bool-absent key m d e = rw (e, get_key_bool) refl

  get_key_int-absent :
      (key m : String) (d : ℤ)
      → file.get_integer "client" key ≡ absent m
      → get_key_int g file "client" key d ≡ ok d
  unfolding get_key_int
  get_key_int-absent key m d e = rw (e, get_key_int) refl

  get_key_string-absent :
      (key m d : String)
      → file.get_string "client" key ≡ absent m
      → get_key_string g file "client" key (some d) ≡ ok d
  unfolding get_key_string
  get_key_string-absent key m d e = rw (e, get_key_string) refl

  get_key_string_required :
      (key m : String)
      → file.get_string "client" key ≡ absent m
      → get_key_string g file "client" key none ≡ absent m
  unfolding get_key_string
  get_key_string_required key m e = rw (e, get_key_string) refl

  read_config-defaults :
      (server token target location : String) (device : Table) (m : String)
      → IsMinimal g file server token target location device m
      → read_config g file ≡ ok (defaults server token target location device)
  unfolding read_config check_tokens check_timeouts check_location log_level_from_string
  read_config-defaults server token target location device m h = simp (
    h.server_set,
    h.token_set,
    h.target_set,
    h.location_set,
    h.device_set,
    get_key_string_required "gateway_token" m h.no_gateway,
    get_key_string-absent "tenant_id" m "DEFAULT" h.no_tenant,
    get_key_string-absent "log_level" m "message" h.no_log_level,
    get_key_bool-absent "ssl" m true h.no_ssl,
    get_key_bool-absent "ssl_verify" m true h.no_ssl_verify,
    get_key_bool-absent "resume_downloads" m false h.no_resume,
    get_key_bool-absent "stream_bundle" m false h.no_stream,
    get_key_bool-absent "post_update_reboot" m false h.no_reboot,
    get_key_int-absent "connect_timeout" m (pos 20) h.no_connect_timeout,
    get_key_int-absent "timeout" m (pos 60) h.no_timeout,
    get_key_int-absent "retry_wait" m (pos 300) h.no_retry_wait,
    get_key_int-absent "low_speed_rate" m (pos 100) h.no_low_speed_rate,
    get_key_int-absent "low_speed_time" m (pos 60) h.no_low_speed_time,
  )

-- A file with the mandatory options alone is loaded, with the documented default of every other
-- option.
pub load_config_file-defaults :
    (g : Glib) (load : String → Result KeyFile) (name : String) (file : KeyFile)
    (server token target location : String) (device : Table) (m : String)
    → load name ≡ ok file
    → IsMinimal g file server token target location device m
    → load_config_file g load name ≡ ok (defaults server token target location device)
unfolding load_config_file
load_config_file-defaults g load name file server token target location device m e h =
    rw (e, load_config_file) (read_config-defaults g file server token target location device m h)
