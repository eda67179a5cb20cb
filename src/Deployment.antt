-- ===== src/Deployment.antt =====
-- src/hawkbit-client.c: `process_deployment` and `start_streaming_installation`, both called with
-- active_action->mutex locked. The result is the return value and `*error`; each `goto` is a call of
-- the function that stands for its label.
pub mod Results
pub mod Empty
pub mod Sends
pub mod Moves
use rauc_hawkbit_updater.Base.{
  ℕ, ◌*◌, String, Bool, true, false, not, ◌&&◌, Option, none, some, List, [], ◌∷◌, leb, str_eq,
  strcmp0_eq, if◌then◌else◌, ◌<+>◌, ℤ, pos, ltb_ℤ, decimal_ℤ, wrap_64,
}
use rauc_hawkbit_updater.GError.{
  GError, Result, ok, err, set_error, client_error, file_error, client_code, already_in_progress,
  stream_install, to_option,
}
use rauc_hawkbit_updater.Exec.{
  Exec, pure, stop, of_result, attempt, gets, modify, lift, null_pointer, critical, ◌>>=◌, ◌>>◌,
}
use rauc_hawkbit_updater.JsonHelper.{json_get_string}
use rauc_hawkbit_updater.World.{
  World, Artifact, UserData, HttpMethod, get_method, ActionState, state_none, canceled, processing,
  installing, cancel_requested, state_number, state_eq, call, emit, signalled, software_ready,
  download_joined, download_started, set_state, set_id, lock, unlock,
}
use rauc_hawkbit_updater.Services.{Services}
use rauc_hawkbit_updater.Http.{get_auth_header}
use rauc_hawkbit_updater.Rest.{rest_request}
use rauc_hawkbit_updater.Feedback.{
  feedback_url, feedback, process_deployment_cleanup, logged, or_null,
}
use rauc_hawkbit_updater.Artifact.{Parsed, parsed, rejected, read_artifact}

-- G_FILE_ERROR_NOSPC and G_FILE_ERROR_FAILED
abbrev pub no_space : ℕ
no_space = 12

abbrev pub file_failed : ℕ
file_failed = 24

-- The return value of a function, and its `*error`.
abbrev pub Returned : Type 0
Returned = Bool × Option GError

module _ {Node C E : Type 0} (s : Services Node C E) where
  -- Label `error`.
  unfoldable pub on_error : Option GError → Exec (World E) Returned
  on_error e = do process_deployment_cleanup s; set_state state_none; pure (false, e)

  -- Label `proc_error`, which reads (*error)->message.
  unfoldable pub on_proc_error : String → Option GError → Exec (World E) Returned
  on_proc_error id none = stop null_pointer
  on_proc_error id (some e) = do
    logged s (feedback s (feedback_url s (some id)) (some id) e.message "failure" "closed")
    on_error (some e)

  -- g_strdup(NULL) and dirname(NULL) are harmless; g_return_val_if_fail(path) is not.
  unfoldable pub get_available_space : Option String → Exec (World E) ℤ
  get_available_space none = stop critical
  get_available_space (some path) = do
    stat ← call (s.host.statvfs (s.host.dirname path))
    (bsize, bavail) ← of_result stat
    pure (wrap_64 (bsize * bavail))

  pub finish_streaming : Bool → Returned
  finish_streaming true = (true, none)
  finish_streaming false = (
    false,
    some (set_error client_error (client_code stream_install) "Streaming installation failed"),
  )

  streaming_userdata : Artifact → String → UserData
  streaming_userdata artifact auth_header = record {
    file = artifact.download_url;
    auth_header = some auth_header;
    ssl_verify = s.config.ssl_verify;
  }

  pub start_installing : Artifact → String → Exec (World E) Returned
  unfolding finish_streaming streaming_userdata
  start_installing artifact auth_header = do
    set_state installing
    emit signalled
    unlock
    let userdata = streaming_userdata artifact auth_header
    emit (software_ready userdata)
    install_success ← s.software_ready_cb userdata
    lock
    pure (finish_streaming install_success)

  unfoldable pub start_streaming_installation : Artifact → Exec (World E) Returned
  unfolding start_installing
  start_streaming_installation artifact = do
    auth_header ← lift (get_auth_header s.config)
    state ← gets (λ w. w.action.state)
    if state_eq state cancel_requested
        then (do set_state canceled; emit signalled; pure (true, none))
        else if not artifact.do_install
        then (do set_state state_none; pure (true, none))
        else start_installing artifact auth_header

  pub join_previous : Bool → Exec (World E) (Unit {0})
  join_previous false = pure tt
  join_previous true = emit download_joined

  -- Join the previous download thread, and start one.
  unfoldable pub start_download : Artifact → Exec (World E) Returned
  unfolding join_previous
  start_download artifact = do
    running ← gets (λ w. w.thread_download)
    join_previous running
    modify (λ w. record w { thread_download = true })
    emit (download_started artifact)
    pure (true, none)

  pub check_space : String → Artifact → Result ℤ → Exec (World E) Returned
  check_space id artifact (err e) = on_proc_error id (some e)
  check_space id artifact (ok freespace) =
      if ltb_ℤ freespace artifact.size
      then on_proc_error id (
          some (
            set_error file_error no_space (
              "File size "
              <+> decimal_ℤ artifact.size
              <+> " exceeds available space "
              <+> decimal_ℤ freespace)))
      else start_download artifact

  unfoldable pub deploy : String → Parsed Artifact → Exec (World E) Returned
  unfolding check_space
  deploy id (rejected e) = on_proc_error id e
  deploy id (parsed artifact) =
      if s.config.stream_bundle then start_streaming_installation artifact else do
        freespace ← attempt (get_available_space s.config.bundle_download_location)
        check_space id artifact freespace

  -- `active_action->id` is the new id from here on; without one the deployment is given up.
  pub deploy_as : Node → Option String → Bool → Result String → Exec (World E) Returned
  deploy_as root maintenance_window do_install (err e) = on_error (some e)
  deploy_as root maintenance_window do_install (ok id) =
      deploy id
        (read_artifact s.json root id (feedback_url s (some id)) maintenance_window do_install)

  -- From "clean up on changed deployment id" on.
  unfoldable pub adopt_deployment :
      Node → Option String → Bool → Result String → Exec (World E) Returned
  unfolding deploy_as
  adopt_deployment root maintenance_window do_install temp_id = do
    id ← gets (λ w. w.action.id)
    if strcmp0_eq (to_option temp_id) id then pure tt else process_deployment_cleanup s
    set_id (to_option temp_id)
    deploy_as root maintenance_window do_install temp_id

  pub error_of : {A : Type 0} → Result A → Option GError
  error_of (ok _) = none
  error_of (err e) = some e

  -- `deployment.update`, and the deployment that still waits.
  unfoldable pub consider_update : Node → Option String → Result String → Exec (World E) Returned
  unfolding error_of
  consider_update root maintenance_window (err e) = on_error (some e)
  consider_update root maintenance_window (ok update) = do
    let do_install = not (str_eq update "skip")
    let temp_id = json_get_string s.json root "$.id"
    id ← gets (λ w. w.action.id)
    if not do_install && strcmp0_eq (to_option temp_id) id
        then (do set_state state_none; pure (true, error_of temp_id))
        else adopt_deployment root maintenance_window do_install temp_id

  -- `deployment.download`
  unfoldable pub consider_download : Node → Result String → Exec (World E) Returned
  consider_download root (err e) = on_error (some e)
  consider_download root (ok download) =
      let maintenance_window =
        to_option (json_get_string s.json root "$.deployment.maintenanceWindow") in
      if str_eq download "skip"
      then (do set_state state_none; pure (true, none))
      else consider_update root maintenance_window
          (json_get_string s.json root "$.deployment.update")

  -- json_parser_get_root is not to be called with NULL, which an empty answer leaves.
  unfoldable pub with_root : Result (Option Node) → Exec (World E) Returned
  with_root (err e) = on_error (some e)
  with_root (ok none) = stop critical
  with_root (ok (some root)) =
      consider_download root (json_get_string s.json root "$.deployment.download")

  unfoldable pub fetch_deployment : Result String → Exec (World E) Returned
  fetch_deployment (err e) = on_error (some e)
  fetch_deployment (ok deployment) = do
    answer ← attempt (rest_request s get_method deployment none true)
    with_root answer

  unfoldable pub process_deployment : Node → Exec (World E) Returned
  process_deployment req_root = do
    action ← gets (λ w. w.action)
    if leb (state_number processing) (state_number action.state)
        then pure (
          false,
          some (
              set_error client_error (client_code already_in_progress)
                ("Deployment " <+> or_null action.id <+> " is already in progress.")),
        )
        else do
          set_state processing
          fetch_deployment (json_get_string s.json req_root "$._links.deploymentBase.href")
