-- ===== src/Installer/Moves.antt =====
-- src/rauc-installer.c: an installation leaves the mutex free, where its callbacks do.
use rauc_hawkbit_updater.Base.{String, Bool, true, false, Option, List, [], ◌∷◌, ℤ}
use rauc_hawkbit_updater.GError.{Result, ok, err}
use rauc_hawkbit_updater.Exec.{modify}
use rauc_hawkbit_updater.World.{World, install_joined}
use rauc_hawkbit_updater.World.Moves.{
  Moves, Moves-stop, Moves-pure, Moves-bind, Moves-if, Moves-gets, Moves-call, Moves-emit,
  moves_rules,
}
use rauc_hawkbit_updater.Installer.{
  InstallContext, BusSignal, properties_changed, completed, Bus, Notify, notify_queued,
  on_installer_status, on_installer_completed, dispatch, run_loop, check_freed,
  install_context_free, await_result, install_bundle, contact, install_loop_thread, join_install,
  wait_for, rauc_install,
}

module _ {E : Type 0} (notify : Notify E) (bus : Bus E)
    (p : (context : InstallContext) → Moves false false (notify.event context))
    (c : (context : InstallContext) → Moves false false (notify.complete context)) where
  notify_queued-Moves :
      (messages : List String) (context : InstallContext)
      → Moves false false (notify_queued notify messages context)
  unfolding notify_queued
  notify_queued-Moves [] context = Moves-pure _
  notify_queued-Moves (m ∷ messages) context = p context

  dispatch-Moves :
      (signal : BusSignal) (context : InstallContext)
      → Moves false false (dispatch notify signal context)
  unfolding dispatch on_installer_status on_installer_completed
  dispatch-Moves (properties_changed invalidated changed) context =
      Moves-if invalidated _ _ (Moves-pure _) (notify_queued-Moves _ _)
  dispatch-Moves (completed result) context = search moves_rules

  run_loop-Moves :
      (signals : List BusSignal) (context : InstallContext)
      → Moves false false (run_loop notify signals context)
  unfolding run_loop
  run_loop-Moves [] context = search moves_rules
  run_loop-Moves (signal ∷ signals) context =
      Moves-if context.quit _ _ (Moves-pure _)
        (Moves-bind _ _ (dispatch-Moves signal context) (run_loop-Moves signals))

  check_freed-Moves :
      (messages : List String) (result : ℤ) → Moves false false (check_freed notify messages result)
  unfolding check_freed
  check_freed-Moves [] result = search moves_rules
  check_freed-Moves (m ∷ messages) result = Moves-stop _

  install_context_free-Moves :
      (context : InstallContext) → Moves false false (install_context_free notify context)
  unfolding install_context_free
  install_context_free-Moves context =
      check_freed-Moves context.status_messages context.status_result

  await_result-Moves :
      (context : InstallContext) (r : Result (Unit {0}))
      → Moves false false (await_result notify bus context r)
  unfolding await_result
  await_result-Moves context (err e) = Moves-pure _
  await_result-Moves context (ok _) =
      Moves-bind _ _ (Moves-call _) (λ signals. run_loop-Moves signals context)

  install_bundle-Moves :
      (context : InstallContext) → Moves false false (install_bundle notify bus context)
  unfolding install_bundle
  install_bundle-Moves context = search (moves_rules, await_result-Moves) depth 14

  contact-Moves :
      (context : InstallContext) (r : Result (Unit {0}))
      → Moves false false (contact notify bus context r)
  unfolding contact
  contact-Moves context (err e) = Moves-pure _
  contact-Moves context (ok _) = install_bundle-Moves context

  pub install_loop_thread-Moves :
      (context : InstallContext) → Moves false false (install_loop_thread notify bus context)
  unfolding install_loop_thread
  install_loop_thread-Moves context =
      search (moves_rules, contact-Moves, install_context_free-Moves, c) depth 14

  join_install-Moves : (running : Bool) → Moves false false (join_install notify bus running)
  unfolding join_install
  join_install-Moves false = Moves-pure tt
  join_install-Moves true = Moves-emit install_joined

  wait_for-Moves : (context : InstallContext) → Moves false false (wait_for notify bus context)
  unfolding wait_for
  wait_for-Moves context =
      search (moves_rules, install_loop_thread-Moves, install_context_free-Moves)

  set_thread-Moves :
      Moves false false (modify {S = World E} (λ w. record w { thread_install = true }))
  unfolding modify
  set_thread-Moves = record { at = λ w h. h }

  pub rauc_install-Moves :
      (bundle : String) (auth_header : Option String) (ssl_verify wait : Bool)
      → Moves false false (rauc_install notify bus bundle auth_header ssl_verify wait)
  unfolding rauc_install
  rauc_install-Moves bundle auth_header ssl_verify wait = Moves-bind _ _ (Moves-gets _) (λ running.
      Moves-bind _ _ (join_install-Moves running) (λ _. Moves-bind _ _ set_thread-Moves (λ _.
        Moves-bind _ _ (Moves-emit _)
          (λ _. Moves-if wait _ _ (wait_for-Moves _) (Moves-pure true)))))
