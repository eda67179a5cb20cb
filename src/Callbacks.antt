-- ===== src/Callbacks.antt =====
-- src/rauc-hawkbit-updater.c: the callbacks that join the client to the installer.
pub mod Relays
pub mod Asserts
pub mod Ready
pub mod Sends
use rauc_hawkbit_updater.Base.{String, Bool, List, [], ◌∷◌, is_zero_ℤ}
use rauc_hawkbit_updater.Exec.{Exec, pure, ◌>>=◌, ◌>>◌}
use rauc_hawkbit_updater.World.{World, UserData}
use rauc_hawkbit_updater.Services.{Services}
use rauc_hawkbit_updater.Feedback.{hawkbit_progress, install_complete_cb}
use rauc_hawkbit_updater.Installer.{InstallContext, Bus, Notify, rauc_install}

module _ {E : Type 0} where
  -- The `while` loop, with `notify_hawkbit_install_progress`.
  unfoldable pub pop_messages :
      (String → Exec (World E) (Unit {0})) → List String → Exec (World E) (Unit {0})
  pop_messages notify_progress [] = pure tt
  pop_messages notify_progress (msg ∷ messages) = do
    notify_progress msg
    pop_messages notify_progress messages

  unfoldable pub on_rauc_install_progress_cb :
      (String → Exec (World E) (Unit {0})) → InstallContext → Exec (World E) InstallContext
  on_rauc_install_progress_cb notify_progress context = do
    pop_messages notify_progress context.status_messages
    pure (record context { status_messages = [] })

  unfoldable pub on_rauc_install_complete_cb :
      (Bool → Exec (World E) (Unit {0})) → InstallContext → Exec (World E) (Unit {0})
  on_rauc_install_complete_cb notify_complete context =
      notify_complete (is_zero_ℤ context.status_result)

  abbrev pub notify_with :
      (String → Exec (World E) (Unit {0})) → (Bool → Exec (World E) (Unit {0})) → Notify E
  notify_with notify_progress notify_complete = record {
    event = on_rauc_install_progress_cb notify_progress;
    complete = on_rauc_install_complete_cb notify_complete;
  }

module _ {Node C E : Type 0} (bus : Bus E) (s : Services Node C E) where
  -- The userdata's two callbacks are always those of the client.
  unfoldable pub on_new_software_ready_cb : UserData → Exec (World E) Bool
  on_new_software_ready_cb userdata =
      rauc_install (notify_with (hawkbit_progress s) (install_complete_cb s)) bus userdata.file
        userdata.auth_header userdata.ssl_verify s.run_once

  -- The client with the callback that main() gives it.
  abbrev pub client : Services Node C E
  client = record s { software_ready_cb = on_new_software_ready_cb }
