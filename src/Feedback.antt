-- ===== src/Feedback.antt =====
-- src/hawkbit-client.c: feedback to hawkBit, the identification, the clean-up of the bundle, and the
-- two callbacks of the installation.
pub mod Effects
pub mod Sends
pub mod Completes
use rauc_hawkbit_updater.Base.{
  ℕ, String, Bool, true, false, ◌&&◌, Option, none, some, List, [], ◌∷◌, if◌then◌else◌, ◌<+>◌,
}
use rauc_hawkbit_updater.GError.{GError, Result, ok, err, prefix_error}
use rauc_hawkbit_updater.Exec.{Exec, pure, stop, throw, attempt, gets, critical, ◌>>=◌, ◌>>◌}
use rauc_hawkbit_updater.World.{
  World, HttpMethod, post_method, put_method, ActionState, success, error, call, emit, removed,
  synced, rebooted, set_state, lock, unlock,
}
use rauc_hawkbit_updater.Services.{Services}
use rauc_hawkbit_updater.Http.{build_api_url}
use rauc_hawkbit_updater.Rest.{rest_request_retriable}
use rauc_hawkbit_updater.Status.{json_build_status}

-- What printf writes for `%s` and NULL.
abbrev pub or_null : Option String → String
or_null none = "(null)"
or_null (some s) = s

module _ {Node C E : Type 0} (s : Services Node C E) where
  unfoldable pub feedback_url : Option String → String
  feedback_url id = build_api_url s.config (some ("deploymentBase/" <+> or_null id <+> "/feedback"))

  reported : String → Result (Option Node) → Exec (World E) (Unit {0})
  reported detail (ok _) = pure tt
  reported detail (err e) =
      throw (prefix_error ("Failed to report \"" <+> detail <+> "\" feedback: ") e)

  send_feedback : String → String → String → String → String → Exec (World E) (Unit {0})
  unfolding reported
  send_feedback url id detail finished execution = do
    time ← call s.host.utc_time
    let body = json_build_status time (some id) (some detail) finished execution none
    result ← attempt (rest_request_retriable s post_method url (some body) false)
    reported detail result

  -- An `id` of NULL is refused by g_return_val_if_fail.
  unfoldable pub feedback :
      String → Option String → String → String → String → Exec (World E) (Unit {0})
  unfolding send_feedback
  feedback url none detail finished execution = stop critical
  feedback url (some id) detail finished execution = send_feedback url id detail finished execution

  progress_reported : Result (Unit {0}) → Exec (World E) (Unit {0})
  progress_reported (ok _) = pure tt
  progress_reported (err e) = throw (prefix_error "Progress feedback: " e)

  unfoldable pub feedback_progress : String → Option String → String → Exec (World E) (Unit {0})
  unfolding progress_reported
  feedback_progress url id detail = do
    result ← attempt (feedback url id detail "none" "proceeding")
    progress_reported result

  -- A failure is only logged, by the callers that say so.
  unfoldable pub logged : Exec (World E) (Unit {0}) → Exec (World E) (Unit {0})
  logged m = do result ← attempt m; pure tt

  unfoldable pub hawkbit_progress : String → Exec (World E) (Unit {0})
  hawkbit_progress msg = do
    lock
    id ← gets (λ w. w.action.id)
    logged (feedback_progress (feedback_url id) id msg)
    unlock

  unfoldable pub identify : Exec (World E) (Option Node)
  identify = do
    time ← call s.host.utc_time
    let body = json_build_status time none none "success" "closed" (some s.config.device)
    rest_request_retriable s put_method (build_api_url s.config (some "configData")) (some body)
        false

  remove_regular : String → Bool → Exec (World E) (Unit {0})
  remove_regular path false = pure tt
  remove_regular path true = do emit (removed path); gone ← call (s.host.remove path); pure tt

  cleanup_at : Option String → Exec (World E) (Unit {0})
  unfolding remove_regular
  cleanup_at none = pure tt
  cleanup_at (some path) = do regular ← call (s.host.is_regular path); remove_regular path regular

  unfoldable pub process_deployment_cleanup : Exec (World E) (Unit {0})
  unfolding cleanup_at
  process_deployment_cleanup = cleanup_at s.config.bundle_download_location

  pub reboot_if : Bool → Exec (World E) (Unit {0})
  reboot_if false = pure tt
  reboot_if true = do emit synced; emit rebooted

  -- A failure of reboot(2) itself, which is a critical message, is left out.
  unfoldable pub install_complete_cb : Bool → Exec (World E) (Unit {0})
  unfolding reboot_if
  install_complete_cb install_success = do
    lock
    set_state (if install_success then success else error)
    id ← gets (λ w. w.action.id)
    logged (
        feedback (feedback_url id) id
          (if install_success
            then "Software bundle installed successfully."
            else "Failed to install software bundle.")
          (if install_success then "success" else "failure") "closed")
    process_deployment_cleanup
    unlock
    reboot_if (install_success && s.config.post_update_reboot)
