-- ===== src/Feedback/Effects.antt =====
-- src/hawkbit-client.c: feedback, the identification and the clean-up leave the shared state alone;
-- the installation's callbacks leave the mutex as they found it.
use rauc_hawkbit_updater.Base.{String, Bool, true, false, Option, none, some}
use rauc_hawkbit_updater.GError.{Result, ok, err}
use rauc_hawkbit_updater.Exec.{Exec}
use rauc_hawkbit_updater.World.{World}
use rauc_hawkbit_updater.World.Quiet.{Quiet, Quiet-stop, Calm, quiet_rules, calm_rules}
use rauc_hawkbit_updater.Services.{Services}
use rauc_hawkbit_updater.Rest.Effects.{rest_request_retriable-Quiet}
use rauc_hawkbit_updater.Feedback.{
  reported, send_feedback, feedback, progress_reported, feedback_progress, logged, identify,
  remove_regular, cleanup_at, process_deployment_cleanup, reboot_if,
}

module _ {Node C E : Type 0} (s : Services Node C E) where
  reported-Quiet : (detail : String) (r : Result (Option Node)) → Quiet (reported s detail r)
  unfolding reported
  reported-Quiet detail (ok x) = search quiet_rules
  reported-Quiet detail (err e) = search quiet_rules

  send_feedback-Quiet :
      (url id detail finished execution : String)
      → Quiet (send_feedback s url id detail finished execution)
  unfolding send_feedback
  send_feedback-Quiet url id detail finished execution =
      search (quiet_rules, rest_request_retriable-Quiet, reported-Quiet)

  pub feedback-Quiet :
      (url : String) (id : Option String) (detail finished execution : String)
      → Quiet (feedback s url id detail finished execution)
  unfolding feedback
  feedback-Quiet url none detail finished execution = Quiet-stop _
  feedback-Quiet url (some id) detail finished execution =
      send_feedback-Quiet url id detail finished execution

  progress_reported-Quiet : (r : Result (Unit {0})) → Quiet (progress_reported s r)
  unfolding progress_reported
  progress_reported-Quiet (ok x) = search quiet_rules
  progress_reported-Quiet (err e) = search quiet_rules

  pub feedback_progress-Quiet :
      (url : String) (id : Option String) (detail : String)
      → Quiet (feedback_progress s url id detail)
  unfolding feedback_progress
  feedback_progress-Quiet url id detail =
      search (quiet_rules, feedback-Quiet, progress_reported-Quiet)

  pub logged-Quiet : (m : Exec (World E) (Unit {0})) → Quiet m → Quiet (logged s m)
  unfolding logged
  logged-Quiet m q = search quiet_rules

  pub identify-Quiet : Quiet (identify s)
  unfolding identify
  identify-Quiet = search (quiet_rules, rest_request_retriable-Quiet)

  remove_regular-Quiet : (path : String) (b : Bool) → Quiet (remove_regular s path b)
  unfolding remove_regular
  remove_regular-Quiet path false = search quiet_rules
  remove_regular-Quiet path true = search quiet_rules

  cleanup_at-Quiet : (path : Option String) → Quiet (cleanup_at s path)
  unfolding cleanup_at
  cleanup_at-Quiet none = search quiet_rules
  cleanup_at-Quiet (some path) = search (quiet_rules, remove_regular-Quiet)

  pub process_deployment_cleanup-Quiet : Quiet (process_deployment_cleanup s)
  unfolding process_deployment_cleanup
  process_deployment_cleanup-Quiet = cleanup_at-Quiet _

  pub logged-Calm : (m : Exec (World E) (Unit {0})) → Quiet m → Calm (logged s m)
  unfolding logged
  logged-Calm m q = search (calm_rules)

  remove_regular-Calm : (path : String) (b : Bool) → Calm (remove_regular s path b)
  unfolding remove_regular
  remove_regular-Calm path false = search calm_rules
  remove_regular-Calm path true = search calm_rules

  cleanup_at-Calm : (path : Option String) → Calm (cleanup_at s path)
  unfolding cleanup_at
  cleanup_at-Calm none = search calm_rules
  cleanup_at-Calm (some path) = search (calm_rules, remove_regular-Calm)

  pub process_deployment_cleanup-Calm : Calm (process_deployment_cleanup s)
  unfolding process_deployment_cleanup
  process_deployment_cleanup-Calm = cleanup_at-Calm _

  reboot_if-Quiet : (b : Bool) → Quiet (reboot_if s b)
  unfolding reboot_if
  reboot_if-Quiet false = search quiet_rules
  reboot_if-Quiet true = search quiet_rules

pub ruleset feedback_rules =
    (feedback-Quiet, feedback_progress-Quiet, logged-Calm, process_deployment_cleanup-Calm)
