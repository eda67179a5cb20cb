-- ===== src/Samples/Client.antt =====
-- Tests of the client: a deployment, a cancelation, the download thread and the polling.
use rauc_hawkbit_updater.Base.{
  some, List, pos, ℕ, ◌≤◌, true, false, ◌≡◌, refl, ◌⊎◌, none, [], ◌∷◌, arith,
}
use rauc_hawkbit_updater.GError.{json_parser_error, set_error, err, ok}
use rauc_hawkbit_updater.Exec.{◌>>=◌, pure, done, crash, null_pointer}
use rauc_hawkbit_updater.JsonHelper.{
  json_get_first_matching_element, json_get_string, json_get_int, json_get_array,
}
use rauc_hawkbit_updater.World.Runs.{with_lock, with_state}
use rauc_hawkbit_updater.Services.{Services}
use rauc_hawkbit_updater.Feedback.{install_complete_cb, hawkbit_progress}
use rauc_hawkbit_updater.Feedback.Completes.{Leaves, install_complete_cb-Leaves}
use rauc_hawkbit_updater.Artifact.{read_artifact}
use rauc_hawkbit_updater.Deployment.Empty.{deploy-zero}
use rauc_hawkbit_updater.Cancel.Answers.{Finished, finish_cancel-Finished}
use rauc_hawkbit_updater.World.{
  lock, World, UserData, post_method, state_none, success, processing, installing, downloading,
  canceled, cancel_requested,
}
use rauc_hawkbit_updater.World.Quiet.{shared, Calm, Calm-pure}
use rauc_hawkbit_updater.Rest.{rest_request, rest_request_retriable}
use rauc_hawkbit_updater.Rest.Retries.{Attempts, wants_retry, rest_request_retriable-Attempts}
use rauc_hawkbit_updater.Deployment.{process_deployment, deploy}
use rauc_hawkbit_updater.Deployment.Results.{Processed, process_deployment-Processed}
use rauc_hawkbit_updater.Download.{
  starting, last_chance, verified, download_step, download_run, is_download_only,
}
use rauc_hawkbit_updater.Download.Steps.{StepOk, download_step-StepOk}
use rauc_hawkbit_updater.Download.Ends.{Ended, download_run-Ended}
use rauc_hawkbit_updater.Download.Only.{Unsignalled, download_step-Unsignalled}
use rauc_hawkbit_updater.Cancel.{finish_cancel}
use rauc_hawkbit_updater.Cancel.Tells.{told}
use rauc_hawkbit_updater.Poll.{
  leave_poll, handle_answer, Others, poll, hawkbit_pull_cb, initial_data,
}
use rauc_hawkbit_updater.Http.{add_curl_header, set_auth_curl_header, get_auth_header}
use rauc_hawkbit_updater.Rest.{read_response}
use rauc_hawkbit_updater.Payload.{collect}
use rauc_hawkbit_updater.Poll.{handle_answer, leave_poll}
use rauc_hawkbit_updater.Poll.Ticks.{ticks, waiting, ticks-poll}
use rauc_hawkbit_updater.Poll.Frees.{Free, hawkbit_pull_cb-Free}
use rauc_hawkbit_updater.Samples.{
  Node, json, chunk, image, config, document, services, world_in, artifact_for,
}

installs-Calm : (u : UserData) → Calm (services.software_ready_cb u)
installs-Calm u = Calm-pure true

-- The download thread stops, as it does when it was asked to.
abbrev stop_download : World ℕ → World ℕ
stop_download w = record w { action = record w.action { state = canceled } }

abbrev others : Others ℕ
others = record { waits = stop_download ∷ []; joins = λ w. (true, w) }

hawkbit_pull_cb-Free_example :
    Free
      (hawkbit_pull_cb services others (initial_data config false) (world_in state_none false)).0
      (shared
        (hawkbit_pull_cb services others (initial_data config false) (world_in state_none false)).1)
unfolding pure
hawkbit_pull_cb-Free_example =
    hawkbit_pull_cb-Free services others (initial_data config false) (world_in state_none false)
      refl (λ w h. h) (λ u v h. h)

process_deployment-Processed_example :
    Processed services
      (shared (world_in state_none true))
      (process_deployment services document (world_in state_none true)).0
      (shared (process_deployment services document (world_in state_none true)).1)
process_deployment-Processed_example =
    process_deployment-Processed services document (world_in state_none true) refl installs-Calm

installed_test : is_download_only services (artifact_for true) ≡ false
unfolding is_download_only
installed_test = refl

downloaded_test : is_download_only services (artifact_for false) ≡ true
unfolding is_download_only
downloaded_test = refl

download_step-StepOk_example :
    StepOk
      (shared (world_in cancel_requested false))
      (download_step services (artifact_for true) last_chance (world_in cancel_requested false)).0
      (shared
        (download_step services
          (artifact_for true)
          last_chance
          (world_in cancel_requested false)).1)
download_step-StepOk_example =
    download_step-StepOk services (artifact_for true) last_chance (world_in cancel_requested false)
      refl installed_test installs-Calm

download_run-Ended_example :
    Ended
      (download_run services (artifact_for true) 6 starting (world_in downloading false)).0
      (shared (download_run services (artifact_for true) 6 starting (world_in downloading false)).1)
download_run-Ended_example =
    download_run-Ended services (artifact_for true) 6 (world_in downloading false) refl
      installs-Calm refl (omega arith)

download_step-Unsignalled_example :
    Unsignalled
      (shared (world_in cancel_requested false))
      (download_step services (artifact_for false) verified (world_in cancel_requested false)).0
      (shared
        (download_step services (artifact_for false) verified (world_in cancel_requested false)).1)
download_step-Unsignalled_example =
    download_step-Unsignalled services (artifact_for false) (world_in cancel_requested false) refl
      downloaded_test

rest_request_retriable-Attempts_example :
    (n : ℕ) × (n ≤ 10)
    × Attempts services
        (rest_request services post_method "https://hawkbit.example" none false)
        n
        (world_in state_none false)
        (rest_request_retriable services post_method "https://hawkbit.example" none false
          (world_in state_none false))
    × ((n ≡ 10)
        ⊎ (wants_retry services
              (rest_request services post_method "https://hawkbit.example" none false)
              (rest_request_retriable services post_method "https://hawkbit.example" none false
                (world_in state_none false)).0
            ≡ false))
rest_request_retriable-Attempts_example =
    rest_request_retriable-Attempts services post_method "https://hawkbit.example" none false
      (world_in state_none false)

-- hawkBit's answer cannot be parsed: the next poll is due after `retry_wait`.
abbrev garbled : Services Node (List ℕ) ℕ
garbled = record services { load_from_data = λ bytes. err (set_error json_parser_error 0 "bad") }

abbrev left_world : World ℕ
left_world = (poll garbled others true (world_in state_none false)).1

poll_test :
    poll garbled others true (world_in state_none false)
    ≡ (done (true, waiting garbled others true 300 0), left_world)
unfolding poll handle_answer leave_poll lock ◌>>=◌ rest_request add_curl_header set_auth_curl_header
    get_auth_header read_response collect
poll_test = refl

ticks-poll_example :
    (hawkbit_pull_cb garbled others (initial_data config false) ≡ poll garbled others false)
    × (ticks garbled others 299 (waiting garbled others true 300 0) left_world
        ≡ (done (true, waiting garbled others true 300 299), left_world))
    × (hawkbit_pull_cb garbled others (waiting garbled others true 300 299)
        ≡ poll garbled others true)
ticks-poll_example =
    ticks-poll garbled others false true true 299 (waiting garbled others true 300 0)
      (world_in state_none false) left_world poll_test refl

finish_cancel-Finished_example :
    Finished "8"
      (shared (world_in downloading true))
      (finish_cancel services "8" (world_in downloading true)).0
      (shared (finish_cancel services "8" (world_in downloading true)).1)
    × ((finish_cancel services "8" (world_in downloading true)).1.trace
        ≡ told services "8" (some ("Action canceled.", "closed")) (world_in state_none true))
finish_cancel-Finished_example = finish_cancel-Finished services "8" (world_in downloading true)

install_complete_cb-Leaves_example :
    (Leaves
      (with_lock false (with_state success (shared (world_in installing false))))
      (install_complete_cb services true (world_in installing false)).0
      (shared (install_complete_cb services true (world_in installing false)).1))
    × (Leaves
        (with_lock false (shared (world_in installing false)))
        (hawkbit_progress services "50%" (world_in installing false)).0
        (shared (hawkbit_progress services "50%" (world_in installing false)).1))
install_complete_cb-Leaves_example =
    install_complete_cb-Leaves services true "50%" (world_in installing false) refl

-- The document with an artifact of size 0.
abbrev empty_services : Services Node (List ℕ) ℕ
empty_services = record services { json = record json { get_int = λ node. pos 0 } }

chunks_test : json_get_array empty_services.json document "$.deployment.chunks" ≡ ok (chunk ∷ [])
unfolding json_get_array json_get_first_matching_element
chunks_test = refl

artifacts_test : json_get_array empty_services.json chunk "$.artifacts" ≡ ok (image ∷ [])
unfolding json_get_array json_get_first_matching_element
artifacts_test = refl

version_test : json_get_string empty_services.json chunk "$.version" ≡ ok "1"
unfolding json_get_string json_get_first_matching_element
version_test = refl

name_test : json_get_string empty_services.json chunk "$.name" ≡ ok "1"
unfolding json_get_string json_get_first_matching_element
name_test = refl

size_test : json_get_int empty_services.json image "$.size" ≡ ok (pos 0)
unfolding json_get_int json_get_first_matching_element
size_test = refl

deploy-zero_example :
    deploy empty_services "7"
      (read_artifact empty_services.json document "7" "https://hawkbit.example/feedback" none true)
      (world_in processing true)
    ≡ (crash null_pointer, world_in processing true)
deploy-zero_example =
    deploy-zero empty_services document chunk image "7" "https://hawkbit.example/feedback" "1" "1"
      none true (world_in processing true) chunks_test artifacts_test version_test name_test
      size_test
