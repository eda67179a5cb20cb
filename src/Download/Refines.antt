-- ===== src/Download/Refines.antt =====
-- src/hawkbit-client.c: each step of the download thread is a move of its table.
use rauc_hawkbit_updater.Base.{
  arith, str_eq, not, ◌||◌, ap, ℕ, suc, String, Bool, true, false, ◌≡◌, refl, inl, inr, Option,
  none, some, if◌then◌else◌,
}
use rauc_hawkbit_updater.GError.{prefix_error, GError, Result, ok, err}
use rauc_hawkbit_updater.Exec.{Outcome, pure}
use rauc_hawkbit_updater.World.{
  ActionState, canceled, cancel_requested, state_eq, World, Artifact, UserData,
}
use rauc_hawkbit_updater.World.Quiet.{Shared, shared, Calm}
use rauc_hawkbit_updater.World.Runs.{
  Runs-if, with_lock, Runs, runs_rules, Runs-pure, Runs-stop, Runs-calm-bind, Runs-signal-bind,
  Runs-unlock-bind, Runs-gets_state-bind, Runs-if-bind, Runs-set_state-bind, Runs-pure-bind,
  Runs-lock-bind, Runs-gets_id-bind,
}
use rauc_hawkbit_updater.Services.{Services}
use rauc_hawkbit_updater.Feedback.Effects.{
  feedback_rules, logged-Calm, feedback-Quiet, process_deployment_cleanup-Calm,
}
use rauc_hawkbit_updater.Binary.Effects.{get_binary-Quiet}
use rauc_hawkbit_updater.Download.{
  resumable_codes, matches_any, Pc, starting, attempting, resuming, verified, last_chance, ready,
  downloaded, report_err, finished, leave_canceled, on_cancel, step_start, step_attempt,
  step_resume, step_downloaded, step_verified, step_last_chance, step_ready, step_report,
  download_only, is_download_only, download_step, after_attempt,
}
use rauc_hawkbit_updater.Download.Table.{is_testing, Move, Takes}

attempted-Move :
    (artifact : Artifact) (resume only : Bool) (e : GError) (st : ActionState) (b : Bool)
    → matches_any (some e) resumable_codes ≡ b
    → Move artifact resume only attempting st false
        (if not resume || not b then report_err (prefix_error "Download failed: " e) else resuming)
        st
attempted-Move artifact true only e st true k = Move.is_cut_off e refl k
attempted-Move artifact true only e st false k = Move.breaks e k
attempted-Move artifact false only e st b k = Move.breaks e refl

module _ {Node C E : Type 0} (s : Services Node C E) (artifact : Artifact) where
  abbrev Goes : Pc → Shared → Outcome Pc → Shared → Type 0
  Goes = Takes artifact s.config.resume_downloads (is_download_only s artifact)

  abbrev Turn : Pc → ActionState → Bool → Pc → ActionState → Type 0
  Turn = Move artifact s.config.resume_downloads (is_download_only s artifact)

  module _ (pc : Pc) (v : Shared) where
    -- The end of a step that does not signal.
    Runs-silent :
        (u : Shared) (pc' : Pc)
        → u.locked ≡ false
        → u.action.id ≡ v.action.id
        → u.thread_download ≡ v.thread_download
        → u.signals_sent ≡ v.signals_sent
        → Turn pc v.action.state false pc' u.action.state
        → Runs (pure {S = World E} pc') u (Goes pc v)
    Runs-silent u pc' h i t n m = Runs-pure u pc' (h, i, t, inl (m, n))

    Runs-signals :
        (u : Shared) (pc' : Pc)
        → u.locked ≡ false
        → u.action.id ≡ v.action.id
        → u.thread_download ≡ v.thread_download
        → u.signals_sent ≡ suc v.signals_sent
        → Turn pc v.action.state true pc' u.action.state
        → Runs (pure {S = World E} pc') u (Goes pc v)
    Runs-signals u pc' h i t n m = Runs-pure u pc' (h, i, t, inr (m, n))

    leave_canceled-Runs :
        (u : Shared)
        → u.action.id ≡ v.action.id
        → u.thread_download ≡ v.thread_download
        → u.signals_sent ≡ v.signals_sent
        → Turn pc v.action.state true (finished false) u.action.state
        → Runs (leave_canceled s artifact) u (Goes pc v)
    unfolding leave_canceled
    leave_canceled-Runs u i t n m =
        Runs-calm-bind u _ _ (process_deployment_cleanup-Calm s)
          (λ _.
            Runs-signal-bind u _
              (Runs-unlock-bind _ _ (Runs-signals _ (finished false) refl i t (ap suc n) m)))
          (λ c. tt)

    on_cancel-Runs :
        (u : Shared)
        → u.action.id ≡ v.action.id
        → u.thread_download ≡ v.thread_download
        → u.signals_sent ≡ v.signals_sent
        → (state_eq u.action.state cancel_requested ≡ true
            → Turn pc v.action.state true (finished false) canceled)
        → (state_eq u.action.state cancel_requested ≡ false
            → Turn pc v.action.state true (finished false) u.action.state)
        → Runs (on_cancel s artifact) u (Goes pc v)
    unfolding on_cancel
    on_cancel-Runs u i t n m k = Runs-gets_state-bind u _ (
        Runs-if-bind u _ _ _ _ (λ e. Runs-set_state-bind u _ _ (leave_canceled-Runs _ i t n (m e)))
          (λ e. Runs-pure-bind u _ _ (leave_canceled-Runs u i t n (k e))))

    -- Label `cancel`, from a test.
    test-Runs :
        is_testing pc ≡ true
        → state_eq v.action.state cancel_requested ≡ true
        → Runs (on_cancel s artifact) (with_lock true v) (Goes pc v)
    test-Runs a e = on_cancel-Runs _ refl refl refl (λ _. Move.is_canceled a e) (λ n. absurd cc)

  after_attempt-Move :
      (r : Result (String × ℕ)) (st : ActionState)
      → Turn attempting st false (after_attempt s artifact r) st
  unfolding after_attempt
  after_attempt-Move (ok (sum, speed)) st = Move.arrives sum speed
  after_attempt-Move (err e) st = attempted-Move artifact s.config.resume_downloads _ e st _ refl

  checked-Move :
      (b : Bool) (e : GError) {sum : String} {speed : ℕ} (st : ActionState)
      → str_eq artifact.sha1 sum ≡ b
      → Turn (downloaded sum speed) st false (if b then verified else report_err e) st
  checked-Move true e st k = Move.matches k
  checked-Move false e st k = Move.differs e k

  not-false : (b : Bool) → not b ≡ false → b ≡ true
  not-false b k = ground arith

  not-true : (b : Bool) → not b ≡ true → b ≡ false
  not-true b k = ground arith

  module _ (v : Shared) (h : v.locked ≡ false) where
    step_start-Runs : (file : Option String) → Runs (step_start s artifact file) v (Goes starting v)
    unfolding step_start
    step_start-Runs none = Runs-stop v _ tt
    step_start-Runs (some file) =
        search (runs_rules, test-Runs starting v, Runs-silent starting v, Move.begins) depth 14

    step_attempt-Runs :
        (file : Option String) → Runs (step_attempt s artifact file) v (Goes attempting v)
    unfolding step_attempt
    step_attempt-Runs none = Runs-stop v _ tt
    step_attempt-Runs (some file) =
        search (runs_rules, get_binary-Quiet, Runs-silent attempting v, after_attempt-Move) depth 14

    step_resume-Runs : Runs (step_resume s artifact) v (Goes resuming v)
    unfolding step_resume
    step_resume-Runs =
        search (runs_rules, test-Runs resuming v, Runs-silent resuming v, Move.resumes) depth 14

    step_downloaded-Runs :
        (sum : String) (speed : ℕ)
        → Runs (step_downloaded s artifact sum speed) v (Goes (downloaded sum speed) v)
    unfolding step_downloaded
    step_downloaded-Runs sum speed =
        search (runs_rules, feedback_rules, Runs-silent (downloaded sum speed) v, checked-Move)
          depth 14

    step_verified-Runs : Runs (step_verified s artifact) v (Goes verified v)
    unfolding step_verified download_only
    step_verified-Runs =
        search (runs_rules, feedback_rules, Runs-silent verified v, Move.is_kept, Move.goes_on)
          depth 14

    step_last_chance-Runs : Runs (step_last_chance s artifact) v (Goes last_chance v)
    unfolding step_last_chance
    step_last_chance-Runs = Runs-lock-bind v _ h (
        Runs-gets_state-bind _ _ (
          Runs-if _ _ _ _ (λ e. test-Runs last_chance v refl e)
            (λ n.
              Runs-if _ _ _ _
                (λ d. Runs-set_state-bind _ _ _ (
                  Runs-unlock-bind _ _ (
                    Runs-silent last_chance v _ (finished true) refl refl refl refl
                      (Move.defers n (not-true _ d)))))
                (λ d. Runs-set_state-bind _ _ _ (
                  Runs-signal-bind _ _ (
                    Runs-unlock-bind _ _ (
                      Runs-signals last_chance v _ ready refl refl refl refl
                        (Move.installs n (not-false _ d)))))))))

    step_ready-Runs :
        (file : Option String)
        → ((u : UserData) → Calm (s.software_ready_cb u))
        → Runs (step_ready s artifact file) v (Goes ready v)
    unfolding step_ready
    step_ready-Runs none q = Runs-stop v _ tt
    step_ready-Runs (some file) q =
        search (runs_rules, q, Runs-silent ready v, Move.returns) depth 14

    step_report-Runs : (e : GError) → Runs (step_report s artifact e) v (Goes (report_err e) v)
    unfolding step_report
    step_report-Runs e = Runs-lock-bind v _ h (
        Runs-gets_id-bind _ _ (
          Runs-calm-bind _ _ _ (logged-Calm s _ (feedback-Quiet s _ _ _ _ _))
            (λ _. Runs-set_state-bind _ _ _ (
              on_cancel-Runs (report_err e) v _ refl refl refl (λ n. absurd cc)
                (λ _. Move.reports)))
            (λ c. tt)))

    pub download_step-Takes-Runs :
        (pc : Pc)
        → ((u : UserData) → Calm (s.software_ready_cb u))
        → Runs (download_step s artifact pc) v (Goes pc v)
    unfolding download_step
    download_step-Takes-Runs starting q = step_start-Runs _
    download_step-Takes-Runs attempting q = step_attempt-Runs _
    download_step-Takes-Runs resuming q = step_resume-Runs
    download_step-Takes-Runs verified q = step_verified-Runs
    download_step-Takes-Runs last_chance q = step_last_chance-Runs
    download_step-Takes-Runs ready q = step_ready-Runs _ q
    download_step-Takes-Runs (downloaded sum speed) q = step_downloaded-Runs sum speed
    download_step-Takes-Runs (report_err e) q = step_report-Runs e
    download_step-Takes-Runs (finished r) q =
        Runs-silent (finished r) v v (finished r) h refl refl refl Move.is_over

pub download_step-Takes :
    {Node C E : Type 0} (s : Services Node C E) (artifact : Artifact) (pc : Pc) (w : World E)
    → w.locked ≡ false
    → ((u : UserData) → Calm (s.software_ready_cb u))
    → Takes artifact s.config.resume_downloads
        (is_download_only s artifact)
        pc
        (shared w)
        (download_step s artifact pc w).0
        (shared (download_step s artifact pc w).1)
download_step-Takes s artifact pc w h q =
    (download_step-Takes-Runs s artifact (shared w) h pc q).at w refl
