-- ===== src/Samples/Install.antt =====
-- Tests of the installation: RAUC reports its progress, and succeeds.
use rauc_hawkbit_updater.Base.{
  ℕ, String, Bool, true, false, ◌≡◌, refl, none, some, [], ◌∷◌, pos, decimal_ℤ, if◌then◌else◌,
}
use rauc_hawkbit_updater.Exec.{Exec, done, ◌>>=◌, ◌>>◌}
use rauc_hawkbit_updater.World.{World, slept}
use rauc_hawkbit_updater.Installer.{
  percent, status_message, InstallContext, new_context, rauc_install, install_loop_thread,
}
use rauc_hawkbit_updater.Callbacks.{notify_with}
use rauc_hawkbit_updater.Callbacks.Relays.{read_signals}
use rauc_hawkbit_updater.World.Asserts.{Assured, Any}
use rauc_hawkbit_updater.Callbacks.Asserts.{Freeable, rauc_install-Assured}
use rauc_hawkbit_updater.Samples.{sent, bus}

-- Callbacks that leave a mark.
abbrev progress : String → Exec (World ℕ) (Unit {0})
progress msg w = (done tt, record w { trace = slept 1 ∷ w.trace })

abbrev complete : Bool → Exec (World ℕ) (Unit {0})
complete success w = (done tt, record w { trace = slept (if success then 2 else 3) ∷ w.trace })

abbrev begun : InstallContext
begun = new_context "bundle" none true false

read_signals_test : read_signals sent ≡ ("  5% Checking" ∷ [], some (pos 0))
unfolding percent status_message decimal_ℤ
read_signals_test = refl

progress-Assured : (msg : String) → Assured Any (progress msg)
progress-Assured msg = record { at = λ w. tt }

complete-Assured : (success : Bool) → Assured Any (complete success)
complete-Assured success = record { at = λ w. tt }

rauc_install-Assured_example :
    Assured Any (rauc_install (notify_with progress complete) bus "bundle" none true true)
    × Assured Freeable (
        install_loop_thread
          (notify_with progress complete)
          bus
          (new_context "bundle" none true false))
rauc_install-Assured_example =
    rauc_install-Assured progress complete bus progress-Assured complete-Assured "bundle" none true
      true
