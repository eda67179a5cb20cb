-- ===== src/Feedback/Completes.antt =====
-- src/hawkbit-client.c: the two callbacks of an installation.
use rauc_hawkbit_updater.Base.{String, Bool, true, false, ◌≡◌, refl, ◌∙◌, if◌then◌else◌}
use rauc_hawkbit_updater.Exec.{Outcome, done, fail, crash, Exec, modify}
use rauc_hawkbit_updater.World.{World, unlock, success, error}
use rauc_hawkbit_updater.World.Quiet.{Shared, shared, Calm, NoFail, calm_rules}
use rauc_hawkbit_updater.World.Runs.{Runs, runs_rules, with_state, with_lock}
use rauc_hawkbit_updater.Services.{Services}
use rauc_hawkbit_updater.Feedback.{install_complete_cb, hawkbit_progress, reboot_if}
use rauc_hawkbit_updater.Feedback.Effects.{feedback_rules}

-- It returns without an error, and what the threads share is then `u`.
abbrev pub Leaves : Shared → Outcome (Unit {0}) → Shared → Type 0
Leaves v (done _) u = u ≡ v
Leaves v (fail e) u = ⊥
Leaves v (crash c) u = Unit

module _ {Node C E : Type 0} (s : Services Node C E) where
  reboot_if-Calm : (b : Bool) → Calm (reboot_if s b)
  unfolding reboot_if
  reboot_if-Calm false = search calm_rules
  reboot_if-Calm true = search calm_rules

  done-Leaves : (r : Outcome (Unit {0})) (v u : Shared) → NoFail r → u ≡ v → Leaves v r u
  done-Leaves (done a) v u n e = e
  done-Leaves (fail x) v u n e = n
  done-Leaves (crash c) v u n e = tt

  -- The last action of a callback.
  Runs-last : (v : Shared) (m : Exec (World E) (Unit {0})) → Calm m → Runs m v (Leaves v)
  Runs-last v m c = record {
    at = λ w e. done-Leaves (m w).0 v (shared (m w).1) (c.no_fail w) (c.quiet.at w ∙ e);
  }

  Runs-unlock : (v : Shared) → Runs (unlock {E = E}) v (Leaves (with_lock false v))
  unfolding unlock modify
  Runs-unlock v = record { at = λ w e. λ i. with_lock false (e i) }

  module _ (v : Shared) (h : v.locked ≡ false) where
    install_complete_cb-Runs :
        (b : Bool)
        → Runs
            (install_complete_cb s b)
            v
            (Leaves (with_lock false (with_state (if b then success else error) v)))
    unfolding install_complete_cb
    install_complete_cb-Runs b =
        search (runs_rules, feedback_rules, reboot_if-Calm, Runs-last) depth 14

    hawkbit_progress-Runs :
        (msg : String) → Runs (hawkbit_progress s msg) v (Leaves (with_lock false v))
    unfolding hawkbit_progress
    hawkbit_progress-Runs msg = search (runs_rules, feedback_rules, Runs-unlock) depth 14

-- Both callbacks of an installation, called with the mutex free, leave it free, and no error leaves
-- them, whether or not hawkBit can be reached. A progress message changes nothing that the threads
-- share; the end of the installation changes the state alone, to success or to error by its result.
pub install_complete_cb-Leaves :
    {Node C E : Type 0} (s : Services Node C E) (install_success : Bool) (msg : String)
    (w : World E)
    → w.locked ≡ false
    → (Leaves
        (with_lock false (with_state (if install_success then success else error) (shared w)))
        (install_complete_cb s install_success w).0
        (shared (install_complete_cb s install_success w).1))
      × (Leaves
          (with_lock false (shared w))
          (hawkbit_progress s msg w).0
          (shared (hawkbit_progress s msg w).1))
install_complete_cb-Leaves s install_success msg w h = (
  (install_complete_cb-Runs s (shared w) h install_success).at w refl,
  (hawkbit_progress-Runs s (shared w) h msg).at w refl,
)
