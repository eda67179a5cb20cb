-- ===== src/Download/Only.antt =====
-- src/hawkbit-client.c: the end of a download without an installation.
use rauc_hawkbit_updater.Base.{true, false, ◌≡◌, refl, sym}
use rauc_hawkbit_updater.Exec.{Outcome, done, fail, crash}
use rauc_hawkbit_updater.World.{World, Artifact, success}
use rauc_hawkbit_updater.World.Quiet.{Shared, shared}
use rauc_hawkbit_updater.World.Runs.{Runs, runs_rules, with_state, with_lock}
use rauc_hawkbit_updater.Services.{Services}
use rauc_hawkbit_updater.Feedback.Effects.{feedback_rules}
use rauc_hawkbit_updater.Download.{
  Pc, verified, finished, step_verified, download_only, is_download_only, download_step,
}

-- The thread returns TRUE; the state is success whatever it was, and nothing else has changed: the
-- condition has not been signalled.
abbrev pub Unsignalled : Shared → Outcome Pc → Shared → Type 0
Unsignalled v (done pc) u = (pc ≡ finished true) × (u ≡ with_state success v)
Unsignalled v (fail e) u = ⊥
Unsignalled v (crash c) u = Unit

module _ {Node C E : Type 0} (s : Services Node C E) (artifact : Artifact) where
  step_verified-Runs :
      (v : Shared)
      → v.locked ≡ false
      → is_download_only s artifact ≡ true
      → Runs (step_verified s artifact) v (Unsignalled v)
  unfolding step_verified download_only
  step_verified-Runs v h d = rw d (search (runs_rules, feedback_rules, unlocked) depth 14)
    where
      unlocked : with_lock false (with_state success (with_lock true v)) ≡ with_state success v
      unlocked = rw (sym h) refl

-- A download without an installation ends in the state "success" even if a cancelation was
-- requested meanwhile, and without a signal: a `process_cancel` that waits for one is not woken.
pub download_step-Unsignalled :
    {Node C E : Type 0} (s : Services Node C E) (artifact : Artifact) (w : World E)
    → w.locked ≡ false
    → is_download_only s artifact ≡ true
    → Unsignalled
        (shared w)
        (download_step s artifact verified w).0
        (shared (download_step s artifact verified w).1)
unfolding download_step
download_step-Unsignalled s artifact w h d =
    (step_verified-Runs s artifact (shared w) h d).at w refl
