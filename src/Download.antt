-- ===== src/Download.antt =====
-- src/hawkbit-client.c: the download thread, as a machine that runs from one place where it does not
-- hold the mutex to the next, so that other threads can come between two steps.
pub mod Table
pub mod Refines
pub mod Stuck
pub mod Steps
pub mod Ends
pub mod Only
pub mod Answers
pub mod Stops
pub mod Sends
use rauc_hawkbit_updater.Base.{
  ℕ, zero, suc, String, Bool, true, false, not, ◌&&◌, ◌||◌, Option, none, some, List, [], ◌∷◌, ◌==◌,
  str_eq, strcmp0_eq, if◌then◌else◌, ◌<+>◌,
}
use rauc_hawkbit_updater.GError.{
  GError, Result, ok, err, set_error, prefix_error, client_error, client_code, download,
  error_matches, curl_error,
}
use rauc_hawkbit_updater.Exec.{Exec, pure, stop, attempt, gets, assertion, ◌>>=◌, ◌>>◌}
use rauc_hawkbit_updater.World.{
  World, Artifact, UserData, ActionState, state_none, canceled, error, success, downloading,
  installing, cancel_requested, state_eq, call, emit, slept, signalled, software_ready, set_state,
  lock, unlock,
}
use rauc_hawkbit_updater.Services.{Services}
use rauc_hawkbit_updater.Feedback.{feedback, feedback_progress, process_deployment_cleanup, logged}
use rauc_hawkbit_updater.Binary.{get_binary}

-- The CURLcodes OPERATION_TIMEDOUT, COULDNT_RESOLVE_HOST, COULDNT_CONNECT, PARTIAL_FILE, SEND_ERROR,
-- RECV_ERROR, HTTP2 and HTTP2_STREAM.
abbrev pub resumable_codes : List ℕ
resumable_codes = 28 ∷ 6 ∷ 7 ∷ 18 ∷ 55 ∷ 56 ∷ 16 ∷ 92 ∷ []

-- The `for` loop over the codes.
abbrev pub matches_any : Option GError → List ℕ → Bool
matches_any e [] = false
matches_any e (code ∷ codes) = error_matches e curl_error code || matches_any e codes

-- Where the thread stands. `finished` has its return value.
pub data Pc : Type 0 where
  starting attempting resuming verified last_chance ready : Pc
  downloaded : String → ℕ → Pc
  report_err : GError → Pc
  finished : Bool → Pc

-- The places from which the thread still comes to a test for a cancelation.
abbrev pub is_answering : Pc → Bool
is_answering ready = false
is_answering (finished r) = false
is_answering _ = true

module _ {Node C E : Type 0} (s : Services Node C E) (artifact : Artifact) where
  -- The end of label `cancel`.
  pub leave_canceled : Exec (World E) Pc
  leave_canceled = do process_deployment_cleanup s; emit signalled; unlock; pure (finished false)

  -- Label `cancel`, with the mutex locked.
  unfoldable pub on_cancel : Exec (World E) Pc
  unfolding leave_canceled
  on_cancel = do
    state ← gets (λ w. w.action.state)
    if state_eq state cancel_requested then set_state canceled else pure tt
    leave_canceled

  -- g_assert_nonnull, and the first test.
  pub step_start : Option String → Exec (World E) Pc
  step_start none = stop assertion
  step_start (some file) = do
    lock
    state ← gets (λ w. w.action.state)
    if state_eq state cancel_requested
        then on_cancel
        else do set_state downloading; unlock; pure attempting

  pub after_attempt : Result (String × ℕ) → Pc
  after_attempt (ok (sha1sum, speed)) = downloaded sha1sum speed
  after_attempt (err e) =
      if not s.config.resume_downloads || not (matches_any (some e) resumable_codes)
      then report_err (prefix_error "Download failed: " e)
      else resuming

  abbrev resume_offset : Option ℕ → ℕ
  resume_offset none = 0
  resume_offset (some size) = size

  pub step_attempt : Option String → Exec (World E) Pc
  unfolding after_attempt
  step_attempt none = stop assertion
  step_attempt (some file) = do
    size ← call (s.host.stat_size file)
    result ← attempt (get_binary s artifact.download_url file (resume_offset size))
    pure (after_attempt result)

  pub step_resume : Exec (World E) Pc
  step_resume = do
    lock
    state ← gets (λ w. w.action.state)
    if state_eq state cancel_requested
        then on_cancel
        else do unlock; emit (slept 500000); pure attempting

  pub checksum_error : String → GError
  checksum_error sha1sum = set_error client_error (client_code download) (
      "Software: " <+> artifact.name <+> " V" <+> artifact.version <+> ". Invalid checksum: "
      <+> sha1sum <+> " expected " <+> artifact.sha1)

  pub step_downloaded : String → ℕ → Exec (World E) Pc
  step_downloaded sha1sum speed = do
    lock
    id ← gets (λ w. w.action.id)
    logged s (
        feedback_progress s artifact.feedback_url id
          ("Download complete. " <+> s.host.format_speed speed <+> " MB/s"))
    unlock
    pure (if str_eq artifact.sha1 sha1sum then verified else report_err (checksum_error sha1sum))

  -- hawkBit asked for the download alone, and now is the time.
  unfoldable pub is_download_only : Bool
  is_download_only =
      not artifact.do_install
      && (strcmp0_eq artifact.maintenance_window none
          || strcmp0_eq artifact.maintenance_window (some "available"))

  pub download_only : Exec (World E) Pc
  download_only = do
    set_state success
    id ← gets (λ w. w.action.id)
    logged s (feedback s artifact.feedback_url id "File checksum OK." "success" "downloaded")
    unlock
    pure (finished true)

  pub step_verified : Exec (World E) Pc
  unfolding download_only
  step_verified = do
    lock
    if is_download_only then download_only else do
      id ← gets (λ w. w.action.id)
      logged s (feedback_progress s artifact.feedback_url id "File checksum OK.")
      unlock
      pure last_chance

  pub step_last_chance : Exec (World E) Pc
  step_last_chance = do
    lock
    state ← gets (λ w. w.action.state)
    if state_eq state cancel_requested
        then on_cancel
        else if not artifact.do_install
        then (do set_state state_none; unlock; pure (finished true))
        else do set_state installing; emit signalled; unlock; pure ready

  pub bundle_userdata : String → UserData
  bundle_userdata file = record {
    file = file;
    auth_header = none;
    ssl_verify = s.config.ssl_verify;
  }

  pub step_ready : Option String → Exec (World E) Pc
  unfolding bundle_userdata
  step_ready none = stop assertion
  step_ready (some file) = do
    emit (software_ready (bundle_userdata file))
    install_success ← s.software_ready_cb (bundle_userdata file)
    pure (finished install_success)

  pub step_report : GError → Exec (World E) Pc
  step_report e = do
    lock
    id ← gets (λ w. w.action.id)
    logged s (feedback s artifact.feedback_url id e.message "failure" "closed")
    set_state error
    on_cancel

  unfoldable pub download_step : Pc → Exec (World E) Pc
  unfolding step_start step_attempt step_resume step_downloaded step_verified step_last_chance
      step_ready step_report checksum_error
  download_step starting = step_start s.config.bundle_download_location
  download_step attempting = step_attempt s.config.bundle_download_location
  download_step resuming = step_resume
  download_step (downloaded sha1sum speed) = step_downloaded sha1sum speed
  download_step verified = step_verified
  download_step last_chance = step_last_chance
  download_step ready = step_ready s.config.bundle_download_location
  download_step (report_err e) = step_report e
  download_step (finished r) = pure (finished r)

  -- The thread run for at most `fuel` steps, with no other thread between them.
  unfoldable pub download_run : ℕ → Pc → Exec (World E) Pc
  download_run zero pc = pure pc
  download_run (suc fuel) pc = do pc' ← download_step pc; download_run fuel pc'
