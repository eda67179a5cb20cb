-- ===== src/Samples.antt =====
-- Concrete libraries and inputs for the tests: a configuration file, a document, and a client.
mod Values
mod Threads
mod Install
mod Service
mod Program
mod Client
mod Deployments
mod Download
use rauc_hawkbit_updater.Base.{
  ℕ, String, Bool, true, false, Option, none, some, List, [], ◌∷◌, ◌++◌, ℤ, pos, str_eq, ◌||◌, ◌+◌,
  if◌then◌else◌,
}
use rauc_hawkbit_updater.GError.{Result, ok, err, set_error, key_file_error, json_parser_error}
use rauc_hawkbit_updater.Exec.{pure}
use rauc_hawkbit_updater.Config.{Config, KeyFile, Glib, key_not_found}
use rauc_hawkbit_updater.Config.Defaults.{defaults}
use rauc_hawkbit_updater.JsonHelper.{Json}
use rauc_hawkbit_updater.World.{World, ActionState, Artifact, HawkbitAction}
use rauc_hawkbit_updater.Poll.{Others}
use rauc_hawkbit_updater.Installer.{BusSignal, properties_changed, completed, Bus}
use rauc_hawkbit_updater.Services.{
  Services, Curl, Checksum, Host, Response, Received, Chunk, File, Tm,
}

abbrev pub lower : String → String
lower v = if str_eq v "YES" then "yes" else v

abbrev pub glib : Glib
glib = record { strchomp = λ s. s; strcasecmp_eq = λ v w. str_eq (lower v) (lower w) }

abbrev missing : {A : Type 0} → Result A
missing = err (set_error key_file_error key_not_found "missing")

abbrev client_value : String → Result String
client_value key =
    if str_eq key "hawkbit_server"
    then ok "hawkbit.example"
    else if str_eq key "auth_token"
    then ok "token"
    else if str_eq key "target_name"
    then ok "device"
    else if str_eq key "bundle_download_location"
    then ok "/tmp/bundle.raucb"
    else missing

abbrev pub key_file : KeyFile
key_file = record {
  get_string = λ group key. client_value key;
  get_integer = λ group key. missing;
  get_keys = λ group. ok ("product" ∷ []);
  get_value = λ group key. ok "board";
}

abbrev pub load : String → Result KeyFile
load name = ok key_file

abbrev pub config : Config
config = defaults "hawkbit.example" "token" "device" "/tmp/bundle.raucb" (("product", "board") ∷ [])

-- A document that answers every request of the client.
pub data Node : Type 0 where
  document chunk image : Node
  text : String → Node
  number : ℤ → Node
  -- an array of one element
  one : Node → Node

abbrev no_match : Result Node
no_match = err (set_error json_parser_error 0 "no match")

abbrev in_document : String → Result Node
in_document path =
    if str_eq path "$.deployment.chunks"
    then ok (one (one chunk))
    else if str_eq path "$._links.deploymentBase" || str_eq path "$._links.cancelAction"
    then ok (one document)
    else if str_eq path "$._links.deploymentBase.href" || str_eq path "$._links.cancelAction.href"
    then ok (one (text "https://hawkbit.example/action"))
    else if str_eq path "$.deployment.download" || str_eq path "$.deployment.update"
    then ok (one (text "forced"))
    else if str_eq path "$.id" || str_eq path "$.cancelAction.stopId"
    then ok (one (text "7"))
    else no_match

abbrev in_chunk : String → Result Node
in_chunk path =
    if str_eq path "$.artifacts"
    then ok (one (one image))
    else if str_eq path "$.version" || str_eq path "$.name"
    then ok (one (text "1"))
    else no_match

abbrev in_image : String → Result Node
in_image path =
    if str_eq path "$.size"
    then ok (one (number (pos 512)))
    else if str_eq path "$.hashes.sha1"
    then ok (one (text "sum"))
    else if str_eq path "$._links.download-http.href"
    then ok (one (text "http://hawkbit.example/bundle"))
    else no_match

abbrev query : String → Node → Result Node
query path document = in_document path
query path chunk = in_chunk path
query path image = in_image path
query path _ = no_match

abbrev as_array : Node → Option (List Node)
as_array (one node) = some (node ∷ [])
as_array _ = none

abbrev as_text : Node → Option String
as_text (text t) = some t
as_text _ = none

abbrev as_number : Node → ℤ
as_number (number n) = n
as_number _ = pos 0

abbrev is_value : Node → Bool
is_value (text t) = true
is_value (number n) = true
is_value _ = false

abbrev is_array : Node → Bool
is_array (one node) = true
is_array _ = false

abbrev pub json : Json Node
json = record {
  path_query = query;
  get_array = as_array;
  dup_string = as_text;
  holds_value = is_value;
  get_int = as_number;
  holds_array = is_array;
  dup_array = as_array;
}

abbrev pub checksum : Checksum (List ℕ)
checksum = record { start = []; update = λ c xs. c ++ xs; hex = λ c. "sum" }

abbrev curl : Curl ℕ
curl = record {
  easy_init = λ e. (true, e);
  slist_append = λ headers header e. (true, e);
  perform = λ request e. (
    record {
      code = 0;
      http_code = 200;
      chunks = record { content = 123 ∷ 125 ∷ []; size = 1; nmemb = 2 } ∷ [];
    },
    e + 1,
  );
  download = λ transfer e. (record { code = 0; http_code = 200; speed = 5 }, e + 1);
  strerror = λ code. "error";
}

abbrev noon : Tm
noon = record { tm_sec = pos 0; tm_min = pos 0; tm_hour = pos 12 }

abbrev host : Host ℕ
host = record {
  stat_size = λ file e. (none, e);
  open_for_download = λ file append e. (none, e);
  read_back = λ file e. (record { content = 1 ∷ 2 ∷ []; fails_from = none }, e);
  is_regular = λ file e. (true, e);
  remove = λ file e. (true, e);
  dirname = λ file. "/tmp";
  statvfs = λ path e. (ok (4096, 1000), e);
  utc_time = λ e. ("20260101T120000", e);
  uninitialised = λ e. (noon, e);
  strptime = λ t tm. noon;
  render = λ bytes. "text";
  format_speed = λ speed. "5.00";
}

abbrev pub services : Services Node (List ℕ) ℕ
services = record {
  json = json;
  load_from_data = λ bytes. ok document;
  curl = curl;
  checksum = checksum;
  host = host;
  config = config;
  run_once = false;
  software_ready_cb = λ userdata. pure true;
}

-- The world in a state of the action, with or without the mutex.
abbrev pub world_in : ActionState → Bool → World ℕ
world_in state locked = record {
  env = 0;
  locked = locked;
  action = record { id = some "7"; state = state };
  thread_download = false;
  thread_install = false;
  trace = [];
}

abbrev pub artifact_for : Bool → Artifact
artifact_for do_install = record {
  name = "bundle";
  version = "1";
  size = pos 512;
  download_url = "https://hawkbit.example/bundle";
  feedback_url = "https://hawkbit.example/feedback";
  sha1 = "sum";
  maintenance_window = none;
  do_install = do_install;
}

-- One step, one failed call, and the end.
abbrev pub sent : List BusSignal
sent =
    properties_changed false
      (record { operation = none; progress = some (pos 5, "Checking"); last_error = none })
    ∷ properties_changed false (record { operation = none; progress = none; last_error = some "" })
    ∷ completed (pos 0)
    ∷ []

abbrev pub bus : Bus ℕ
bus = record {
  new_proxy = λ e. (ok tt, e);
  connect_properties_changed = λ e. (true, e);
  connect_completed = λ e. (true, e);
  install_bundle = λ bundle args e. (ok tt, e);
  signals = λ e. (sent, e);
}

abbrev pub others : Others ℕ
others = record { waits = []; joins = λ w. (true, w) }
