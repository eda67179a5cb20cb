-- ===== src/Samples/Values.antt =====
-- Tests of the configuration, the JSON helpers, the response buffer and the log levels.
use rauc_hawkbit_updater.Base.{true, false, ◌≡◌, refl, ◌↔◌, none, some, [], ◌∷◌, pos, arith}
use mathlib.Core.List.{append-nil, append_assoc}
use rauc_hawkbit_updater.GError.{ok}
use rauc_hawkbit_updater.Exec.{done}
use rauc_hawkbit_updater.Config.{
  load_config_file, read_config, get_key_bool, get_key_string, get_key_int, get_group, read_group,
  fill_group, check_tokens, check_timeouts, check_location, log_level_from_string, table_insert,
}
use rauc_hawkbit_updater.Config.Loaded.{IsValid, load_config_file-IsValid}
use rauc_hawkbit_updater.Config.Defaults.{IsMinimal, load_config_file-defaults}
use rauc_hawkbit_updater.Config.Getters.{IsCaseFold, Says, get_key_bool-Says}
use rauc_hawkbit_updater.Http.Headers.{Authorized, load_config_file-Authorized}
use rauc_hawkbit_updater.JsonHelper.{
  json_contains, json_get_first_matching_element, json_get_string, json_get_int, json_get_array,
}
use rauc_hawkbit_updater.JsonHelper.Matches.{json_contains-match}
use rauc_hawkbit_updater.Services.{Chunk}
use rauc_hawkbit_updater.Payload.{collect, empty_payload}
use rauc_hawkbit_updater.Payload.Collects.{Holds, AreTaken, collect-body}
use rauc_hawkbit_updater.Status.{json_build_status}
use rauc_hawkbit_updater.Status.Documents.{write, status_document, json_build_status-document}
use rauc_hawkbit_updater.Binary.{get_file_checksum}
use rauc_hawkbit_updater.Binary.Sums.{IsStreaming, get_file_checksum-whole}
use rauc_hawkbit_updater.Artifact.{parsed, read_artifact}
use rauc_hawkbit_updater.Artifact.Reads.{IsRead, read_artifact-IsRead}
use rauc_hawkbit_updater.World.{Artifact}
use rauc_hawkbit_updater.Main.{Options, main}
use rauc_hawkbit_updater.Main.Starts.{Justified, main-Justified}
use rauc_hawkbit_updater.Samples.{lower, glib, key_file, load, config, json, document, checksum}

lower-IsCaseFold : IsCaseFold glib lower
lower-IsCaseFold = record {
  folds = λ a b. refl;
  lower_no = refl;
  lower_false = refl;
  lower_yes = refl;
  lower_true = refl;
  lower_zero = refl;
  lower_one = refl;
}

load_config_file_test : load_config_file glib load "config.conf" ≡ ok config
unfolding load_config_file read_config get_key_bool get_key_string get_key_int get_group read_group
    fill_group check_tokens check_timeouts check_location log_level_from_string table_insert
load_config_file_test = refl

key_file-IsMinimal :
    IsMinimal glib key_file "hawkbit.example" "token" "device" "/tmp/bundle.raucb"
      (("product", "board") ∷ [])
      "missing"
unfolding get_key_string get_group read_group fill_group table_insert
key_file-IsMinimal = record {
  server_set = refl;
  token_set = refl;
  target_set = refl;
  location_set = refl;
  device_set = refl;
  no_gateway = refl;
  no_tenant = refl;
  no_ssl = refl;
  no_ssl_verify = refl;
  no_resume = refl;
  no_stream = refl;
  no_log_level = refl;
  no_reboot = refl;
  no_connect_timeout = refl;
  no_timeout = refl;
  no_retry_wait = refl;
  no_low_speed_rate = refl;
  no_low_speed_time = refl;
}

load_config_file-IsValid_example : IsValid config
load_config_file-IsValid_example =
    load_config_file-IsValid glib load "config.conf" config load_config_file_test

load_config_file-Authorized_example : Authorized config
load_config_file-Authorized_example =
    load_config_file-Authorized glib load "config.conf" config load_config_file_test

load_config_file-defaults_example : load_config_file glib load "config.conf" ≡ ok config
load_config_file-defaults_example =
    load_config_file-defaults glib load "config.conf" key_file "hawkbit.example" "token" "device"
      "/tmp/bundle.raucb" (("product", "board") ∷ []) "missing" refl key_file-IsMinimal

get_key_bool-Says_example :
    (get_key_bool glib (record key_file { get_string = λ group key. ok "YES" }) "client" "ssl" false
      ≡ ok true)
    ↔ Says lower true "YES"
get_key_bool-Says_example =
    get_key_bool-Says glib lower lower-IsCaseFold
      (record key_file { get_string = λ group key. ok "YES" }) "client" "ssl" false "YES" refl true

json_contains-match_example :
    (json_contains json document "$.id" ≡ done true)
    ↔ ((m : _) × (json_get_first_matching_element json document "$.id" ≡ ok m))
json_contains-match_example = json_contains-match json document "$.id"

abbrev piece : Chunk
piece = record { content = 104 ∷ 105 ∷ []; size = 1; nmemb = 2 }

collect-body_example :
    Holds (104 ∷ 105 ∷ 104 ∷ 105 ∷ []) (collect (piece ∷ piece ∷ []) empty_payload)
    × AreTaken (piece ∷ piece ∷ []) empty_payload
collect-body_example = collect-body piece (piece ∷ []) (refl, (refl, tt)) (omega arith)

json_build_status-document_example :
    json_build_status "20260101T120000" (some "7") none "success" "closed" none
    ≡ write (status_document "20260101T120000" (some "7") none "success" "closed" none)
json_build_status-document_example =
    json_build_status-document "20260101T120000" (some "7") none "success" "closed" none

checksum-IsStreaming : IsStreaming checksum
checksum-IsStreaming = record {
  update-nil = λ c. append-nil c;
  update-append = λ c xs ys. append_assoc c xs ys;
}

get_file_checksum-whole_example :
    get_file_checksum checksum (record { content = 1 ∷ 2 ∷ 3 ∷ []; fails_from = none })
    ≡ some (ok "sum")
get_file_checksum-whole_example =
    get_file_checksum-whole checksum (1 ∷ 2 ∷ 3 ∷ []) checksum-IsStreaming

abbrev the_artifact : Artifact
the_artifact = record {
  name = "1";
  version = "1";
  size = pos 512;
  download_url = "http://hawkbit.example/bundle";
  feedback_url = "https://hawkbit.example/feedback";
  sha1 = "sum";
  maintenance_window = none;
  do_install = true;
}

read_artifact_test :
    read_artifact json document "7" "https://hawkbit.example/feedback" none true
    ≡ parsed the_artifact
unfolding read_artifact json_get_string json_get_int json_get_array json_get_first_matching_element
read_artifact_test = refl

read_artifact-IsRead_example :
    IsRead json document the_artifact "https://hawkbit.example/feedback" none true
read_artifact-IsRead_example =
    read_artifact-IsRead json document "7" "https://hawkbit.example/feedback" none true the_artifact
      read_artifact_test

abbrev pub options : Options
options = record {
  version = false;
  config_file = some "config.conf";
  debug = false;
  run_once = true;
  output_systemd = false;
}

main-Justified_example :
    Justified glib (λ name. true) load (ok options) (main glib (λ name. true) load (ok options))
main-Justified_example = main-Justified glib (λ name. true) load (ok options)
