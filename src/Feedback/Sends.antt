-- ===== src/Feedback/Sends.antt =====
-- src/hawkbit-client.c: feedback, the identification and the callbacks of the installation only send
-- what is authorized.
use rauc_hawkbit_updater.Base.{String, Bool, true, false, Option, none, some}
use rauc_hawkbit_updater.GError.{Result, ok, err}
use rauc_hawkbit_updater.Exec.{Exec}
use rauc_hawkbit_updater.World.{World}
use rauc_hawkbit_updater.World.Sends.{Sends, Whatever, Sends-stop, sends_rules}
use rauc_hawkbit_updater.Services.{Services}
use rauc_hawkbit_updater.Rest.Sends.{rest_request_retriable-Sends}
use rauc_hawkbit_updater.Feedback.{
  reported, send_feedback, feedback, progress_reported, feedback_progress, logged, identify,
  remove_regular, cleanup_at, process_deployment_cleanup, reboot_if, hawkbit_progress,
  install_complete_cb,
}

module _ {Node C E : Type 0} (s : Services Node C E) where
  reported-Sends :
      (detail : String) (r : Result (Option Node)) → Sends s.config Whatever (reported s detail r)
  unfolding reported
  reported-Sends detail (ok x) = search sends_rules
  reported-Sends detail (err e) = search sends_rules

  send_feedback-Sends :
      (url id detail finished execution : String)
      → Sends s.config Whatever (send_feedback s url id detail finished execution)
  unfolding send_feedback
  send_feedback-Sends url id detail finished execution =
      search (sends_rules, rest_request_retriable-Sends, reported-Sends)

  pub feedback-Sends :
      (url : String) (id : Option String) (detail finished execution : String)
      → Sends s.config Whatever (feedback s url id detail finished execution)
  unfolding feedback
  feedback-Sends url none detail finished execution = Sends-stop _
  feedback-Sends url (some id) detail finished execution =
      send_feedback-Sends url id detail finished execution

  progress_reported-Sends :
      (r : Result (Unit {0})) → Sends s.config Whatever (progress_reported s r)
  unfolding progress_reported
  progress_reported-Sends (ok x) = search sends_rules
  progress_reported-Sends (err e) = search sends_rules

  pub feedback_progress-Sends :
      (url : String) (id : Option String) (detail : String)
      → Sends s.config Whatever (feedback_progress s url id detail)
  unfolding feedback_progress
  feedback_progress-Sends url id detail =
      search (sends_rules, feedback-Sends, progress_reported-Sends)

  pub logged-Sends :
      (m : Exec (World E) (Unit {0}))
      → Sends s.config Whatever m
      → Sends s.config Whatever (logged s m)
  unfolding logged
  logged-Sends m q = search sends_rules

  pub identify-Sends : Sends s.config Whatever (identify s)
  unfolding identify
  identify-Sends = search (sends_rules, rest_request_retriable-Sends)

  remove_regular-Sends :
      (path : String) (b : Bool) → Sends s.config Whatever (remove_regular s path b)
  unfolding remove_regular
  remove_regular-Sends path false = search sends_rules
  remove_regular-Sends path true = search sends_rules

  cleanup_at-Sends : (path : Option String) → Sends s.config Whatever (cleanup_at s path)
  unfolding cleanup_at
  cleanup_at-Sends none = search sends_rules
  cleanup_at-Sends (some path) = search (sends_rules, remove_regular-Sends)

  pub process_deployment_cleanup-Sends : Sends s.config Whatever (process_deployment_cleanup s)
  unfolding process_deployment_cleanup
  process_deployment_cleanup-Sends = cleanup_at-Sends _

  reboot_if-Sends : (b : Bool) → Sends s.config Whatever (reboot_if s b)
  unfolding reboot_if
  reboot_if-Sends false = search sends_rules
  reboot_if-Sends true = search sends_rules

  pub hawkbit_progress-Sends : (msg : String) → Sends s.config Whatever (hawkbit_progress s msg)
  unfolding hawkbit_progress
  hawkbit_progress-Sends msg = search (sends_rules, feedback_progress-Sends, logged-Sends)

  pub install_complete_cb-Sends :
      (install_success : Bool) → Sends s.config Whatever (install_complete_cb s install_success)
  unfolding install_complete_cb
  install_complete_cb-Sends install_success =
      search
        (
          sends_rules, feedback-Sends, logged-Sends, process_deployment_cleanup-Sends,
          reboot_if-Sends,
        )
        depth 12

pub ruleset sends_feedback_rules =
    (feedback-Sends, feedback_progress-Sends, logged-Sends, process_deployment_cleanup-Sends)
