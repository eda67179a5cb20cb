-- ===== src/Config.antt =====
-- src/config-file.c and include/config-file.h: the configuration file. GLib's key file parser and
-- its text functions are parameters; the getters and `load_config_file` are translated.
pub mod Getters
pub mod Loaded
pub mod Defaults
use Prim.Native.Nat.{bit_or}
use rauc_hawkbit_updater.Base.{
  ℕ, ◌*◌, String, Bool, true, false, not, ◌&&◌, ◌||◌, Option, none, some, List, [], ◌∷◌, str_eq,
  is_some, if◌then◌else◌, ◌<+>◌, ℤ, pos, ltb_ℤ, decimal_ℤ,
}
use rauc_hawkbit_updater.GError.{
  GError, Result, ok, err, ◌>>=◌, ◌>>◌, set_error, key_file_error, error_matches, to_option,
}

-- G_KEY_FILE_ERROR_PARSE, _KEY_NOT_FOUND and _INVALID_VALUE
abbrev pub parse_error : ℕ
parse_error = 1

abbrev pub key_not_found : ℕ
key_not_found = 3

abbrev pub invalid_value : ℕ
invalid_value = 5

-- A loaded GKeyFile, by the reads that the program makes of it: group, then key.
pub record KeyFile : Type 0 where
  pub get_string : String → String → Result String
  pub get_integer : String → String → Result ℤ
  pub get_keys : String → Result (List String)
  pub get_value : String → String → Result String

-- GLib's functions on texts: g_strchomp, and g_ascii_strcasecmp(a, b) == 0.
pub record Glib : Type 0 where
  pub strchomp : String → String
  pub strcasecmp_eq : String → String → Bool

-- A GHashTable of texts as an association list; an insertion replaces the value of its key.
abbrev pub Table : Type 0
Table = List (String × String)

unfoldable pub table_insert : String → String → Table → Table
table_insert k v [] = (k, v) ∷ []
table_insert k v ((j, w) ∷ t) = if str_eq j k then (k, v) ∷ t else (j, w) ∷ table_insert k v t

-- GLogLevelFlags
abbrev pub level_error : ℕ
level_error = 4

abbrev pub level_critical : ℕ
level_critical = 8

abbrev pub level_warning : ℕ
level_warning = 16

abbrev pub level_message : ℕ
level_message = 32

abbrev pub level_info : ℕ
level_info = 64

abbrev pub level_debug : ℕ
level_debug = 128

pub record Config : Type 0 where
  pub hawkbit_server : String
  pub ssl : Bool
  pub ssl_verify : Bool
  pub post_update_reboot : Bool
  pub resume_downloads : Bool
  pub stream_bundle : Bool
  pub auth_token : Option String
  pub gateway_token : Option String
  pub tenant_id : String
  pub controller_id : String
  pub bundle_download_location : Option String
  pub connect_timeout : ℤ
  pub timeout : ℤ
  pub retry_wait : ℤ
  pub low_speed_time : ℤ
  pub low_speed_rate : ℤ
  pub log_level : ℕ
  pub device : Table

abbrev pub default_connecttimeout : ℤ
default_connecttimeout = pos 20

abbrev pub default_timeout : ℤ
default_timeout = pos 60

abbrev pub default_retry_wait : ℤ
default_retry_wait = pos (5 * 60)

unfoldable pub log_level_from_string : String → ℕ
log_level_from_string s =
    if str_eq s "error"
    then level_error
    else if str_eq s "critical"
    then bit_or level_error level_critical
    else if str_eq s "warning"
    then bit_or (bit_or level_error level_critical) level_warning
    else if str_eq s "message"
    then bit_or (bit_or (bit_or level_error level_critical) level_warning) level_message
    else if str_eq s "info"
    then bit_or (bit_or (bit_or (bit_or level_error level_critical) level_warning) level_message)
        level_info
    else if str_eq s "debug"
    then bit_or
        (bit_or (bit_or (bit_or (bit_or level_error level_critical) level_warning) level_message)
          level_info)
        level_debug
    else bit_or (bit_or (bit_or level_error level_critical) level_warning) level_message

abbrev invalid : {A : Type 0} → String → Result A
invalid m = err (set_error key_file_error invalid_value m)

-- "Neither" and "both" tokens set
unfoldable pub check_tokens : Option String → Option String → Result (Unit {0})
check_tokens auth_token gateway_token =
    if not (is_some auth_token) && not (is_some gateway_token)
    then invalid "Neither 'auth_token' nor 'gateway_token' set"
    else if is_some auth_token && is_some gateway_token
    then invalid "Both 'auth_token' and 'gateway_token' set"
    else ok tt

unfoldable pub check_timeouts : ℤ → ℤ → Result (Unit {0})
check_timeouts timeout connect_timeout =
    if ltb_ℤ (pos 0) timeout && ltb_ℤ (pos 0) connect_timeout && ltb_ℤ timeout connect_timeout
    then invalid (
        "'timeout' ("
        <+> decimal_ℤ timeout
        <+> ") must be greater than 'connect_timeout' ("
        <+> decimal_ℤ connect_timeout
        <+> ")")
    else ok tt

unfoldable pub check_location : Option String → Bool → Result (Unit {0})
check_location location stream_bundle =
    if not (is_some location) && not stream_bundle
    then err (
        set_error key_file_error key_not_found
          "'bundle_download_location' is required if 'stream_bundle' is disabled")
    else ok tt

module _ (g : Glib) where
  unfoldable pub is_no : String → Bool
  is_no val = str_eq val "0" || g.strcasecmp_eq val "no" || g.strcasecmp_eq val "false"

  unfoldable pub is_yes : String → Bool
  is_yes val = str_eq val "1" || g.strcasecmp_eq val "yes" || g.strcasecmp_eq val "true"

  -- The tests on a value that is there.
  unfoldable pub read_bool : String → Result Bool
  read_bool val =
      if is_no val
      then ok false
      else if is_yes val
      then ok true
      else invalid ("Value '" <+> val <+> "' cannot be interpreted as a boolean.")

module _ (g : Glib) (file : KeyFile) where
  -- `none` for the default is NULL: the key is required.
  unfoldable pub get_key_string : String → String → Option String → Result String
  get_key_string group key default_value = elim (file.get_string group key) [
    | ok val ↦ ok (g.strchomp val)
    | err e ↦ elim default_value [ some d ↦ ok d | none ↦ err e ]
  ]

  -- Every error of g_key_file_get_string counts as "not found".
  unfoldable pub get_key_bool : String → String → Bool → Result Bool
  unfolding read_bool is_no is_yes
  get_key_bool group key default_value = elim (file.get_string group key) [
    | ok val ↦ read_bool g (g.strchomp val)
    | err e ↦ ok default_value
  ]

  unfoldable pub get_key_int : String → String → ℤ → Result ℤ
  get_key_int group key default_value = elim (file.get_integer group key) [
    | ok val ↦ ok val
    | err e ↦
        if error_matches (some e) key_file_error key_not_found then ok default_value else err e
  ]

  -- The `for` loop of `get_group`, over the keys that are left.
  unfoldable pub fill_group : String → List String → Table → Result Table
  fill_group group [] hash = ok hash
  fill_group group (key ∷ keys) hash = do
    value ← file.get_value group key
    fill_group group keys (table_insert key (g.strchomp value) hash)

  -- The test on `num_keys`, and the loop.
  unfoldable pub read_group : String → List String → Result Table
  read_group group [] =
      err (set_error key_file_error parse_error ("Group '" <+> group <+> "' has no keys set"))
  read_group group (key ∷ keys) = fill_group group (key ∷ keys) []

  unfoldable pub get_group : String → Result Table
  get_group group = do keys ← file.get_keys group; read_group group keys

  -- `load_config_file` once GLib has parsed the file.
  unfoldable pub read_config : Result Config
  read_config = do
    hawkbit_server ← get_key_string "client" "hawkbit_server" none
    let auth_token = to_option (get_key_string "client" "auth_token" none)
    let gateway_token = to_option (get_key_string "client" "gateway_token" none)
    check_tokens auth_token gateway_token
    controller_id ← get_key_string "client" "target_name" none
    tenant_id ← get_key_string "client" "tenant_id" (some "DEFAULT")
    let location = to_option (get_key_string "client" "bundle_download_location" none)
    ssl ← get_key_bool "client" "ssl" true
    ssl_verify ← get_key_bool "client" "ssl_verify" true
    device ← get_group "device"
    connect_timeout ← get_key_int "client" "connect_timeout" default_connecttimeout
    timeout ← get_key_int "client" "timeout" default_timeout
    retry_wait ← get_key_int "client" "retry_wait" default_retry_wait
    low_speed_rate ← get_key_int "client" "low_speed_rate" (pos 100)
    low_speed_time ← get_key_int "client" "low_speed_time" (pos 60)
    resume_downloads ← get_key_bool "client" "resume_downloads" false
    stream_bundle ← get_key_bool "client" "stream_bundle" false
    val ← get_key_string "client" "log_level" (some "message")
    post_update_reboot ← get_key_bool "client" "post_update_reboot" false
    check_timeouts timeout connect_timeout
    check_location location stream_bundle
    ok (record {
      hawkbit_server = hawkbit_server;
      ssl = ssl;
      ssl_verify = ssl_verify;
      post_update_reboot = post_update_reboot;
      resume_downloads = resume_downloads;
      stream_bundle = stream_bundle;
      auth_token = auth_token;
      gateway_token = gateway_token;
      tenant_id = tenant_id;
      controller_id = controller_id;
      bundle_download_location = location;
      connect_timeout = connect_timeout;
      timeout = timeout;
      retry_wait = retry_wait;
      low_speed_time = low_speed_time;
      low_speed_rate = low_speed_rate;
      log_level = log_level_from_string val;
      device = device;
    })

-- g_key_file_load_from_file is the parameter `load`: the file's name to the parsed file.
unfoldable pub load_config_file : Glib → (String → Result KeyFile) → String → Result Config
load_config_file g load config_file = do file ← load config_file; read_config g file
