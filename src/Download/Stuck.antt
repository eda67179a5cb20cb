-- ===== src/Download/Stuck.antt =====
-- src/hawkbit-client.c: the download thread while another thread holds the mutex.
use rauc_hawkbit_updater.Base.{
  ℕ, zero, suc, String, Bool, true, false, ◌≡◌, refl, ◌∙◌, Option, none, some, if◌then◌else◌, not,
  ◌||◌,
}
use rauc_hawkbit_updater.GError.{GError, Result, ok, err}
use rauc_hawkbit_updater.Exec.{
  Outcome, done, fail, crash, Exec, self_deadlock, continue, stop, ◌>>=◌,
}
use rauc_hawkbit_updater.World.{World, Artifact, lock}
use rauc_hawkbit_updater.World.Quiet.{Shared, shared}
use rauc_hawkbit_updater.World.Runs.{Runs, runs_rules, Runs-pure, Runs-stop, Runs-bind}
use rauc_hawkbit_updater.Services.{Services}
use rauc_hawkbit_updater.Binary.Effects.{get_binary-Quiet}
use rauc_hawkbit_updater.Download.{
  Pc, starting, attempting, resuming, verified, last_chance, ready, downloaded, report_err,
  finished, step_start, step_attempt, step_resume, step_downloaded, step_verified, step_last_chance,
  step_report, is_answering, download_step, download_run, after_attempt,
}

-- The thread is no further than a place from which it still comes to a test. The other outcome is
-- that it stands before the mutex, or that the process is stopped.
abbrev pub Stuck : Outcome Pc → Shared → Type 0
Stuck (done pc) u = (u.locked ≡ true) × (is_answering pc ≡ true)
Stuck (fail e) u = ⊥
Stuck (crash c) u = Unit

module _ {E B : Type 0} where
  -- `lock`, which does not return.
  Runs-held :
      (v : Shared) (f : Unit {0} → Exec (World E) B) (Q : Outcome B → Shared → Type 0)
      → v.locked ≡ true
      → ((u : Shared) → Q (crash self_deadlock) u)
      → Runs (lock >>= f) v Q
  unfolding lock ◌>>=◌ stop
  Runs-held v f Q h q = record { at = λ w e. rw ((λ i. (e i).locked) ∙ h) (q _) }

retries-answering :
    (a b : Bool) (x e : GError)
    → is_answering (if not a || not b then report_err x else resuming) ≡ true
retries-answering true true x e = refl
retries-answering true false x e = refl
retries-answering false b x e = refl

module _ {Node C E : Type 0} (s : Services Node C E) (artifact : Artifact) where
  after_attempt-answering :
      (r : Result (String × ℕ)) → is_answering (after_attempt s artifact r) ≡ true
  unfolding after_attempt
  after_attempt-answering (ok (sum, speed)) = refl
  after_attempt-answering (err e) = retries-answering s.config.resume_downloads _ _ e

  module _ (v : Shared) (h : v.locked ≡ true) where
    step_attempt-Stuck : (file : Option String) → Runs (step_attempt s artifact file) v Stuck
    unfolding step_attempt
    step_attempt-Stuck none = Runs-stop v _ tt
    step_attempt-Stuck (some file) =
        search (runs_rules, get_binary-Quiet, after_attempt-answering) depth 14

    step_start-Stuck : (file : Option String) → Runs (step_start s artifact file) v Stuck
    unfolding step_start
    step_start-Stuck none = Runs-stop v _ tt
    step_start-Stuck (some file) = Runs-held v _ _ h (λ u. tt)

    download_step-Stuck :
        (pc : Pc) → is_answering pc ≡ true → Runs (download_step s artifact pc) v Stuck
    unfolding download_step step_resume step_downloaded step_verified step_last_chance step_report
    download_step-Stuck starting a = step_start-Stuck _
    download_step-Stuck attempting a = step_attempt-Stuck _
    download_step-Stuck resuming a = Runs-held v _ _ h (λ u. tt)
    download_step-Stuck (downloaded sum speed) a = Runs-held v _ _ h (λ u. tt)
    download_step-Stuck verified a = Runs-held v _ _ h (λ u. tt)
    download_step-Stuck last_chance a = Runs-held v _ _ h (λ u. tt)
    download_step-Stuck (report_err e) a = Runs-held v _ _ h (λ u. tt)
    download_step-Stuck ready a = absurd cc
    download_step-Stuck (finished r) a = absurd cc

  go_on :
      (fuel : ℕ) (r : Outcome Pc) (u : Shared)
      → Stuck r u
      → ((pc : Pc)
          → u.locked ≡ true
          → is_answering pc ≡ true
          → Runs (download_run s artifact fuel pc) u Stuck)
      → Runs (continue r (λ pc. download_run s artifact fuel pc)) u Stuck
  go_on fuel (done pc) u (l, b) k = k pc l b
  go_on fuel (fail e) u x k = absurd x
  go_on fuel (crash c) u x k = record { at = λ w e. tt }

  download_run-Stuck-Runs :
      (fuel : ℕ) (pc : Pc) (v : Shared)
      → v.locked ≡ true
      → is_answering pc ≡ true
      → Runs (download_run s artifact fuel pc) v Stuck
  unfolding download_run
  download_run-Stuck-Runs zero pc v h a = Runs-pure v pc (h, a)
  download_run-Stuck-Runs (suc fuel) pc v h a =
      Runs-bind v _ _ (download_step-Stuck v h pc a)
        (λ r u x. go_on fuel r u x (λ pc' l b. download_run-Stuck-Runs fuel pc' u l b))

-- A download thread that still comes to a test for a cancelation does not return as long as another
-- thread holds the mutex, however many steps it is given: it stands before the mutex, or the
-- process is stopped.
pub download_run-Stuck :
    {Node C E : Type 0} (s : Services Node C E) (artifact : Artifact) (fuel : ℕ) (pc : Pc)
    (w : World E)
    → w.locked ≡ true
    → is_answering pc ≡ true
    → Stuck (download_run s artifact fuel pc w).0 (shared (download_run s artifact fuel pc w).1)
download_run-Stuck s artifact fuel pc w h a =
    (download_run-Stuck-Runs s artifact fuel pc (shared w) h a).at w refl
