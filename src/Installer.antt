-- ===== src/Installer.antt =====
-- src/rauc-installer.c: the installation of a bundle by RAUC, over its D-Bus proxy. The proxy and the
-- signals that come from it are parameters, and so are the two callbacks.
pub mod Sends
pub mod Moves
use rauc_hawkbit_updater.Base.{
  suc, String, Bool, true, false, not, Option, none, some, List, [], ◌∷◌, ◌++◌, ltb, str_eq,
  if◌then◌else◌, ◌<+>◌, ℤ, pos, negsuc, ltb_ℤ, is_zero_ℤ, decimal_ℤ,
}
use rauc_hawkbit_updater.GError.{Result, ok, err}
use rauc_hawkbit_updater.Exec.{Exec, pure, stop, gets, modify, assertion, blocked, ◌>>=◌, ◌>>◌}
use rauc_hawkbit_updater.World.{
  bundle_installed, World, call, emit, install_joined, install_started,
}

-- struct install_context, without its mutex, contexts and callbacks; `quit` is that the main loop
-- was told to quit.
pub record InstallContext : Type 0 where
  pub bundle : String
  pub auth_header : Option String
  pub ssl_verify : Bool
  pub status_messages : List String
  pub status_result : ℤ
  pub quit : Bool
  pub keep_install_context : Bool

-- g_variant_lookup of "Operation", "Progress" and "LastError" in the changed properties.
pub record Changed : Type 0 where
  pub operation : Option String
  pub progress : Option (ℤ × String)
  pub last_error : Option String

-- What comes from the bus: changed properties, with whether any were invalidated; or the end.
pub data BusSignal : Type 0 where
  properties_changed : Bool → Changed → BusSignal
  completed : ℤ → BusSignal

-- The entries of the dictionary that goes with the call.
pub record InstallArgs : Type 0 where
  pub http_headers : Option String
  pub tls_no_verify : Option Bool

-- r_installer_proxy_new_for_bus_sync, g_signal_connect twice, InstallBundle, and the signals that
-- come while the main loop runs.
pub record Bus (E : Type 0) : Type 0 where
  pub new_proxy : E → Result (Unit {0}) × E
  pub connect_properties_changed : E → Bool × E
  pub connect_completed : E → Bool × E
  pub install_bundle : String → InstallArgs → E → Result (Unit {0}) × E
  pub signals : E → List BusSignal × E

-- The two callbacks, which `rauc_install` is always given. The first one can take messages out of the
-- queue.
pub record Notify (E : Type 0) : Type 0 where
  pub event : InstallContext → Exec (World E) InstallContext
  pub complete : InstallContext → Exec (World E) (Unit {0})

-- `%3d%%` of printf
unfoldable pub percent : ℤ → String
percent (pos n) =
    (if ltb n 10 then "  " else if ltb n 100 then " " else "") <+> decimal_ℤ (pos n) <+> "%"
percent (negsuc n) = (if ltb (suc n) 10 then " " else "") <+> decimal_ℤ (negsuc n) <+> "%"

last_error_message : Option String → Option String
last_error_message none = none
last_error_message (some message) =
    if str_eq message "" then none else some ("LastError: " <+> message)

progress_message : Option (ℤ × String) → Option String → Option String
progress_message none last_error = last_error_message last_error
progress_message (some (percentage, message)) last_error =
    some (percent percentage <+> " " <+> message)

-- The chain of g_variant_lookup: the message that is queued, if any.
unfoldable pub status_message : Changed → Option String
unfolding last_error_message progress_message
status_message changed = elim changed.operation [
  | some message ↦ some message
  | none ↦ progress_message changed.progress changed.last_error
]

abbrev pub queued : Option String → List String
queued none = []
queued (some message) = message ∷ []

-- Without a header no other option is sent either.
unfoldable pub install_args : InstallContext → InstallArgs
install_args context = elim context.auth_header [
  | none ↦ record { http_headers = none; tls_no_verify = none }
  | some header ↦ record {
    http_headers = some header;
    tls_no_verify = some (not context.ssl_verify);
  }
]

unfoldable pub new_context : String → Option String → Bool → Bool → InstallContext
new_context bundle auth_header ssl_verify wait = record {
  bundle = bundle;
  auth_header = auth_header;
  ssl_verify = ssl_verify;
  status_messages = [];
  status_result = pos 2;
  quit = false;
  keep_install_context = wait;
}

module _ {E : Type 0} (notify : Notify E) where
  -- The callback is called at once: the thread owns the context that it is invoked in.
  notify_queued : List String → InstallContext → Exec (World E) InstallContext
  notify_queued [] context = pure context
  notify_queued (m ∷ messages) context = notify.event context

  unfoldable pub on_installer_status :
      Bool → Changed → InstallContext → Exec (World E) InstallContext
  unfolding notify_queued
  on_installer_status invalidated changed context =
      if invalidated
      then pure (record context { status_result = pos 2; quit = true })
      else let messages = context.status_messages ++ queued (status_message changed) in
        notify_queued messages (record context { status_messages = messages })

  unfoldable pub on_installer_completed : ℤ → InstallContext → Exec (World E) InstallContext
  on_installer_completed result context =
      if ltb_ℤ result (pos 0)
      then pure (record context { status_result = result })
      else pure (record context { status_result = result; quit = true })

  unfoldable pub dispatch : BusSignal → InstallContext → Exec (World E) InstallContext
  dispatch (properties_changed invalidated changed) = on_installer_status invalidated changed
  dispatch (completed result) = on_installer_completed result

  -- g_main_loop_run: the signals from RAUC up to the one on which the loop is told to quit; without
  -- that one it does not end. GLib still dispatches what else is ready in the same iteration as that
  -- signal, which is left out.
  unfoldable pub run_loop : List BusSignal → InstallContext → Exec (World E) InstallContext
  run_loop [] context = if context.quit then pure context else stop blocked
  run_loop (signal ∷ signals) context =
      if context.quit
      then pure context
      else do context' ← dispatch signal context; run_loop signals context'

  check_freed : List String → ℤ → Exec (World E) (Unit {0})
  check_freed [] result = if ltb_ℤ result (pos 0) then stop assertion else pure tt
  check_freed (m ∷ messages) result = stop assertion

  -- The two assertions: the result is not negative, and the queue is empty.
  unfoldable pub install_context_free : InstallContext → Exec (World E) (Unit {0})
  unfolding check_freed
  install_context_free context = check_freed context.status_messages context.status_result

  module _ (bus : Bus E) where
    -- From the answer to InstallBundle to label `out_loop`.
    unfoldable pub await_result : InstallContext → Result (Unit {0}) → Exec (World E) InstallContext
    await_result context (err e) = pure context
    await_result context (ok _) = do signals ← call bus.signals; run_loop signals context

    unfoldable pub install_bundle : InstallContext → Exec (World E) InstallContext
    unfolding await_result
    install_bundle context = do
      properties ← call bus.connect_properties_changed
      if not properties then pure context else do
        end ← call bus.connect_completed
        if not end then pure context else do
          let args = install_args context
          emit (bundle_installed context.bundle args.http_headers args.tls_no_verify)
          answer ← call (bus.install_bundle context.bundle args)
          await_result context answer

    unfoldable pub contact : InstallContext → Result (Unit {0}) → Exec (World E) InstallContext
    unfolding install_bundle
    contact context (err e) = pure context
    contact context (ok _) = install_bundle context

    -- The context is what `rauc_install` reads if it keeps it.
    unfoldable pub install_loop_thread : InstallContext → Exec (World E) InstallContext
    unfolding contact
    install_loop_thread context = do
      proxy ← call bus.new_proxy
      context' ← contact context proxy
      notify.complete context'
      if context'.keep_install_context then pure tt else install_context_free context'
      pure context'

    -- Join the previous thread.
    unfoldable pub join_install : Bool → Exec (World E) (Unit {0})
    join_install false = pure tt
    join_install true = emit install_joined

    -- The thread that is waited for runs to its end.
    unfoldable pub wait_for : InstallContext → Exec (World E) Bool
    wait_for context = do
      context' ← install_loop_thread context
      install_context_free context'
      pure (is_zero_ℤ context'.status_result)

    unfoldable pub rauc_install : String → Option String → Bool → Bool → Exec (World E) Bool
    unfolding new_context join_install wait_for
    rauc_install bundle auth_header ssl_verify wait = do
      running ← gets (λ w. w.thread_install)
      join_install running
      modify (λ w. record w { thread_install = true })
      let context = new_context bundle auth_header ssl_verify wait
      emit (
          install_started
            (record { file = bundle; auth_header = auth_header; ssl_verify = ssl_verify }))
      if wait then wait_for context else pure true
