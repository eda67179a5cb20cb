-- ===== src/Download/Sends.antt =====
-- src/hawkbit-client.c: the download thread only sends what is authorized.
use rauc_hawkbit_updater.Base.{◌≡◌, ℕ, String, refl, Option, none, some}
use rauc_hawkbit_updater.GError.{GError}
use rauc_hawkbit_updater.World.{Artifact, UserData}
use rauc_hawkbit_updater.World.Sends.{
  Sends, Whatever, GoodData, Sends-stop, Sends-pure, Sends-bind, Sends-emit-Good, sends_rules,
}
use rauc_hawkbit_updater.Services.{Services}
use rauc_hawkbit_updater.Binary.Sends.{get_binary-Sends}
use rauc_hawkbit_updater.Feedback.Sends.{sends_feedback_rules}
use rauc_hawkbit_updater.Download.{
  Pc, starting, attempting, resuming, verified, last_chance, ready, downloaded, report_err,
  finished, leave_canceled, on_cancel, step_start, step_attempt, step_resume, step_downloaded,
  download_only, step_verified, step_last_chance, bundle_userdata, step_ready, step_report,
  download_step,
}

module _ {Node C E : Type 0} (s : Services Node C E) (artifact : Artifact)
    (q : (u : UserData)
      → GoodData s.config u
      → Sends s.config Whatever (s.software_ready_cb u)) where
  on_cancel-Sends : Sends s.config Whatever (on_cancel s artifact)
  unfolding on_cancel leave_canceled
  on_cancel-Sends = search (sends_rules, sends_feedback_rules) depth 12

  step_start-Sends : (file : Option String) → Sends s.config Whatever (step_start s artifact file)
  unfolding step_start
  step_start-Sends none = Sends-stop _
  step_start-Sends (some file) = search (sends_rules, on_cancel-Sends) depth 12

  step_attempt-Sends :
      (file : Option String) → Sends s.config Whatever (step_attempt s artifact file)
  unfolding step_attempt
  step_attempt-Sends none = Sends-stop _
  step_attempt-Sends (some file) = search (sends_rules, get_binary-Sends) depth 12

  step_resume-Sends : Sends s.config Whatever (step_resume s artifact)
  unfolding step_resume
  step_resume-Sends = search (sends_rules, on_cancel-Sends) depth 12

  step_downloaded-Sends :
      (sha1sum : String) (speed : ℕ)
      → Sends s.config Whatever (step_downloaded s artifact sha1sum speed)
  unfolding step_downloaded
  step_downloaded-Sends sha1sum speed = search (sends_rules, sends_feedback_rules) depth 12

  step_verified-Sends : Sends s.config Whatever (step_verified s artifact)
  unfolding step_verified download_only
  step_verified-Sends = search (sends_rules, sends_feedback_rules) depth 12

  step_last_chance-Sends : Sends s.config Whatever (step_last_chance s artifact)
  unfolding step_last_chance
  step_last_chance-Sends = search (sends_rules, on_cancel-Sends) depth 12

  step_ready-Sends :
      (file : Option String)
      → s.config.bundle_download_location ≡ file
      → Sends s.config Whatever (step_ready s artifact file)
  unfolding step_ready bundle_userdata
  step_ready-Sends none k = Sends-stop _
  step_ready-Sends (some file) k =
      Sends-bind _ _ (Sends-emit-Good _ (refl, k))
        (λ _. Sends-bind _ _ (q _ (refl, k)) (λ _. Sends-pure _))

  step_report-Sends : (e : GError) → Sends s.config Whatever (step_report s artifact e)
  unfolding step_report
  step_report-Sends e = search (sends_rules, sends_feedback_rules, on_cancel-Sends) depth 12

  pub download_step-Sends : (pc : Pc) → Sends s.config Whatever (download_step s artifact pc)
  unfolding download_step
  download_step-Sends starting = step_start-Sends _
  download_step-Sends attempting = step_attempt-Sends _
  download_step-Sends resuming = step_resume-Sends
  download_step-Sends (downloaded sha1sum speed) = step_downloaded-Sends sha1sum speed
  download_step-Sends verified = step_verified-Sends
  download_step-Sends last_chance = step_last_chance-Sends
  download_step-Sends ready = step_ready-Sends _ refl
  download_step-Sends (report_err e) = step_report-Sends e
  download_step-Sends (finished r) = Sends-pure _
