-- ===== src/Callbacks/Sends.antt =====
-- src/rauc-hawkbit-updater.c, src/hawkbit-client.c: everything that leaves the process is authorized.
use rauc_hawkbit_updater.Base.{◌≡◌, String, List, [], ◌∷◌}
use rauc_hawkbit_updater.World.{UserData}
use rauc_hawkbit_updater.World.Sends.{
  Header, Sends, Whatever, GoodData, Sends-pure, Sends-bind, sends_rules,
}
use rauc_hawkbit_updater.Services.{Services}
use rauc_hawkbit_updater.Feedback.{hawkbit_progress, install_complete_cb}
use rauc_hawkbit_updater.Feedback.Sends.{hawkbit_progress-Sends, install_complete_cb-Sends}
use rauc_hawkbit_updater.Installer.{InstallContext, Bus, install_loop_thread}
use rauc_hawkbit_updater.Installer.Sends.{rauc_install-Sends, install_loop_thread-Sends}
use rauc_hawkbit_updater.Callbacks.{
  pop_messages, on_rauc_install_progress_cb, on_rauc_install_complete_cb, notify_with,
  on_new_software_ready_cb,
}

module _ {Node C E : Type 0} (bus : Bus E) (s : Services Node C E) where
  pop_messages-Sends :
      (messages : List String)
      → Sends s.config Whatever (pop_messages (hawkbit_progress s) messages)
  unfolding pop_messages
  pop_messages-Sends [] = Sends-pure tt
  pop_messages-Sends (m ∷ messages) =
      Sends-bind _ _ (hawkbit_progress-Sends s m) (λ _. pop_messages-Sends messages)

  progress-Sends :
      (context : InstallContext)
      → Sends s.config Whatever (on_rauc_install_progress_cb (hawkbit_progress s) context)
  unfolding on_rauc_install_progress_cb
  progress-Sends context = search (sends_rules, pop_messages-Sends)

  complete-Sends :
      (context : InstallContext)
      → Sends s.config Whatever (on_rauc_install_complete_cb (install_complete_cb s) context)
  unfolding on_rauc_install_complete_cb
  complete-Sends context = install_complete_cb-Sends s _

  pub ready-Sends :
      (u : UserData)
      → GoodData s.config u
      → Sends s.config Whatever (on_new_software_ready_cb bus s u)
  unfolding on_new_software_ready_cb
  ready-Sends u (v, h) =
      rauc_install-Sends s.config (notify_with (hawkbit_progress s) (install_complete_cb s)) bus
        progress-Sends complete-Sends u.file u.auth_header u.ssl_verify s.run_once v h

  pub thread-Sends :
      (context : InstallContext)
      → context.ssl_verify ≡ s.config.ssl_verify
      → Header s.config context.bundle context.auth_header
      → Sends s.config Whatever (
          install_loop_thread
            (notify_with (hawkbit_progress s) (install_complete_cb s))
            bus
            context)
  thread-Sends context v h =
      install_loop_thread-Sends s.config (notify_with (hawkbit_progress s) (install_complete_cb s))
        bus progress-Sends complete-Sends context (v, h)
