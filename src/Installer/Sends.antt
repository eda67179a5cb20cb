-- ===== src/Installer/Sends.antt =====
-- src/rauc-installer.c: an installation only sends what is authorized, where its callbacks do.
use rauc_hawkbit_updater.Base.{
  not, ap, none, some, String, Bool, true, false, ◌≡◌, refl, Option, List, [], ◌∷◌, ℤ,
}
use rauc_hawkbit_updater.GError.{Result, ok, err}
use rauc_hawkbit_updater.Exec.{modify}
use rauc_hawkbit_updater.Config.{Config}
use rauc_hawkbit_updater.World.{World, install_joined}
use rauc_hawkbit_updater.World.Sends.{
  Sends, Whatever, Header, GoodCall, Sends-stop, Sends-pure, Sends-bind, Sends-if, Sends-gets,
  Sends-call, Sends-emit, Sends-emit-Good, sends_rules,
}
use rauc_hawkbit_updater.Installer.{
  InstallContext, BusSignal, properties_changed, completed, Bus, Notify, notify_queued,
  on_installer_status, on_installer_completed, dispatch, run_loop, check_freed,
  install_context_free, await_result, install_bundle, contact, install_loop_thread, join_install,
  wait_for, rauc_install, install_args, new_context,
}

module _ {E : Type 0} (config : Config) (notify : Notify E) (bus : Bus E)
    (p : (context : InstallContext) → Sends config Whatever (notify.event context))
    (c : (context : InstallContext) → Sends config Whatever (notify.complete context)) where
  notify_queued-Sends :
      (messages : List String) (context : InstallContext)
      → Sends config Whatever (notify_queued notify messages context)
  unfolding notify_queued
  notify_queued-Sends [] context = Sends-pure _
  notify_queued-Sends (m ∷ messages) context = p context

  dispatch-Sends :
      (signal : BusSignal) (context : InstallContext)
      → Sends config Whatever (dispatch notify signal context)
  unfolding dispatch on_installer_status on_installer_completed
  dispatch-Sends (properties_changed invalidated changed) context =
      Sends-if invalidated _ _ (Sends-pure _) (notify_queued-Sends _ _)
  dispatch-Sends (completed result) context = search sends_rules

  run_loop-Sends :
      (signals : List BusSignal) (context : InstallContext)
      → Sends config Whatever (run_loop notify signals context)
  unfolding run_loop
  run_loop-Sends [] context = search sends_rules
  run_loop-Sends (signal ∷ signals) context =
      Sends-if context.quit _ _ (Sends-pure _)
        (Sends-bind _ _ (dispatch-Sends signal context) (run_loop-Sends signals))

  check_freed-Sends :
      (messages : List String) (result : ℤ)
      → Sends config Whatever (check_freed notify messages result)
  unfolding check_freed
  check_freed-Sends [] result = search sends_rules
  check_freed-Sends (m ∷ messages) result = Sends-stop _

  install_context_free-Sends :
      (context : InstallContext) → Sends config Whatever (install_context_free notify context)
  unfolding install_context_free
  install_context_free-Sends context =
      check_freed-Sends context.status_messages context.status_result

  await_result-Sends :
      (context : InstallContext) (r : Result (Unit {0}))
      → Sends config Whatever (await_result notify bus context r)
  unfolding await_result
  await_result-Sends context (err e) = Sends-pure _
  await_result-Sends context (ok _) =
      Sends-bind _ _ (Sends-call _) (λ signals. run_loop-Sends signals context)

  -- The context is of an installation that is authorized.
  abbrev GoodContext : InstallContext → Type 0
  GoodContext context =
      (context.ssl_verify ≡ config.ssl_verify) × Header config context.bundle context.auth_header

  args-Good :
      (bundle : String) (auth_header : Option String) (context : InstallContext)
      → context.auth_header ≡ auth_header
      → context.ssl_verify ≡ config.ssl_verify
      → Header config bundle auth_header
      → GoodCall config bundle
          (install_args context).http_headers
          (install_args context).tls_no_verify
  unfolding install_args
  args-Good bundle none context e v h = rw e (h, refl)
  args-Good bundle (some token) context e v h = rw e (h, ap (λ b. some (not b)) v)

  install_bundle-Sends :
      (context : InstallContext)
      → GoodContext context
      → Sends config Whatever (install_bundle notify bus context)
  unfolding install_bundle
  install_bundle-Sends context (v, h) = Sends-bind _ _ (Sends-call _) (λ b.
      Sends-if (not b) _ _ (Sends-pure _) (
        Sends-bind _ _ (Sends-call _) (λ b'. Sends-if (not b') _ _ (Sends-pure _) (
          Sends-bind _ _
            (Sends-emit-Good _ (args-Good context.bundle context.auth_header context refl v h))
            (λ _. Sends-bind _ _ (Sends-call _) (await_result-Sends context))))))

  contact-Sends :
      (context : InstallContext) (r : Result (Unit {0}))
      → GoodContext context
      → Sends config Whatever (contact notify bus context r)
  unfolding contact
  contact-Sends context (err e) g = Sends-pure _
  contact-Sends context (ok _) g = install_bundle-Sends context g

  pub install_loop_thread-Sends :
      (context : InstallContext)
      → GoodContext context
      → Sends config Whatever (install_loop_thread notify bus context)
  unfolding install_loop_thread
  install_loop_thread-Sends context g =
      search (sends_rules, contact-Sends, install_context_free-Sends, c) depth 14

  join_install-Sends : (running : Bool) → Sends config Whatever (join_install notify bus running)
  unfolding join_install
  join_install-Sends false = Sends-pure tt
  join_install-Sends true = Sends-emit install_joined refl

  wait_for-Sends :
      (context : InstallContext)
      → GoodContext context
      → Sends config Whatever (wait_for notify bus context)
  unfolding wait_for
  wait_for-Sends context g =
      search (sends_rules, install_loop_thread-Sends, install_context_free-Sends)

  set_thread-Sends :
      Sends config Whatever (modify {S = World E} (λ w. record w { thread_install = true }))
  unfolding modify
  set_thread-Sends = record { at = λ w h. (h, tt) }

  pub rauc_install-Sends :
      (bundle : String) (auth_header : Option String) (ssl_verify wait : Bool)
      → ssl_verify ≡ config.ssl_verify
      → Header config bundle auth_header
      → Sends config Whatever (rauc_install notify bus bundle auth_header ssl_verify wait)
  unfolding rauc_install new_context
  rauc_install-Sends bundle auth_header ssl_verify wait e h =
      Sends-bind _ _ (Sends-gets _) (λ running. Sends-bind _ _ (join_install-Sends running) (λ _.
        Sends-bind _ _ set_thread-Sends (λ _.
          Sends-bind _ _ (Sends-emit-Good _ (e, h))
            (λ _. Sends-if wait _ _ (wait_for-Sends _ (e, h)) (Sends-pure true)))))
