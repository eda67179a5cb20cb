-- ===== src/Service.antt =====
-- src/hawkbit-client.c: hawkbit_init and hawkbit_start_service_sync, with systemd. What the main loop
-- dispatches, and when, is a parameter.
pub mod Once
pub mod Starts
pub mod Frees
pub mod Sends
use rauc_hawkbit_updater.Base.{
  not, String, Bool, true, false, Option, none, some, List, [], ◌∷◌, ℤ, pos, negsuc, ltb_ℤ,
  if◌then◌else◌,
}
use rauc_hawkbit_updater.Exec.{Exec, pure, stop, modify, critical, blocked, ◌>>=◌, ◌>>◌}
use rauc_hawkbit_updater.Config.{Config}
use rauc_hawkbit_updater.World.{World, UserData, HawkbitAction, state_none, call}
use rauc_hawkbit_updater.Services.{Services}
use rauc_hawkbit_updater.Poll.{ClientData, Others, hawkbit_pull_cb, initial_data, exit_status}
use rauc_hawkbit_updater.SdHelper.{
  Systemd, SdSource, sd_source_dispatch, sd_source_on_exit, sd_source_new, sd_source_attach,
}

-- What is dispatched: the timeout source, once a second; the source of systemd's event loop; the
-- exit of that loop.
pub data LoopEvent : Type 0 where
  second systemd_ready systemd_exit : LoopEvent

-- What the main loop knows: the client data, whether it was told to quit, and whether the source of
-- systemd is still attached.
pub record MainLoop : Type 0 where
  pub client_data : ClientData
  pub quit : Bool
  pub attached : Bool

module _ {Node C E : Type 0} where
  -- A configuration that is not NULL; curl_global_init is left out.
  unfoldable pub hawkbit_init :
      Config → (UserData → Exec (World E) Bool) → Services Node C E → Services Node C E
  hawkbit_init config on_install_ready s = record s {
    config = config;
    software_ready_cb = on_install_ready;
  }

unfoldable pub action_new : HawkbitAction
action_new = record { id = none; state = state_none }

-- -ENOMEM
abbrev no_memory : ℤ
no_memory = negsuc 11

module _ {Node C E : Type 0} (sd : Systemd E) (s : Services Node C E) (others : Others E) where
  unfoldable pub dispatch_systemd : Option SdSource → MainLoop → Exec (World E) MainLoop
  dispatch_systemd source loop = do
    stays ← sd_source_dispatch sd source
    pure (record loop { attached = stays })

  unfoldable pub dispatch_event : Option SdSource → LoopEvent → MainLoop → Exec (World E) MainLoop
  dispatch_event source second loop = do
    (stays, next) ← hawkbit_pull_cb s others loop.client_data
    pure (record loop { client_data = next; quit = not stays })
  dispatch_event source systemd_ready loop =
      if loop.attached then dispatch_systemd source loop else pure loop
  dispatch_event source systemd_exit loop = do
    result ← sd_source_on_exit sd source
    pure (record loop { quit = true })

  -- g_main_loop_run; without another event it does not end.
  unfoldable pub main_loop : Option SdSource → List LoopEvent → MainLoop → Exec (World E) ClientData
  main_loop source [] loop = if loop.quit then pure loop.client_data else stop blocked
  main_loop source (event ∷ events) loop =
      if loop.quit
      then pure loop.client_data
      else do next ← dispatch_event source event loop; main_loop source events next

  -- g_source_destroy, of which NULL makes a critical message.
  unfoldable pub destroy : Option SdSource → Exec (World E) (Unit {0})
  destroy none = stop critical
  destroy (some source) = pure tt

  -- Label `finish`.
  unfoldable pub finish_service : Option SdSource → ℤ → Exec (World E) ℤ
  finish_service source res = do destroy source; stopped ← call (sd.set_watchdog false); pure res

  pub serve : Option SdSource → Bool → List LoopEvent → Exec (World E) ℤ
  serve source garbage events = do
    told ←
        call (sd.notify "READY=1\nSTATUS=Init completed, start polling HawkBit for new software.")
    end ←
        main_loop source events
          (record { client_data = initial_data s.config garbage; quit = false; attached = true })
    told_stop ← call (sd.notify "STOPPING=1\nSTATUS=Stopped polling HawkBit for new software.")
    finish_service source (pos (exit_status end))

  pub attach_systemd : Bool → List LoopEvent → Option SdSource → Exec (World E) ℤ
  unfolding serve
  attach_systemd garbage events none = finish_service none no_memory
  attach_systemd garbage events (some source) = do
    res ← sd_source_attach sd (some source)
    if ltb_ℤ res (pos 0)
        then finish_service (some source) res
        else serve (some source) garbage events

  -- From sd_event_set_watchdog on.
  unfoldable pub watch : Bool → List LoopEvent → Exec (World E) ℤ
  unfolding attach_systemd
  watch garbage events = do
    res ← call (sd.set_watchdog true)
    if ltb_ℤ res (pos 0)
        then finish_service none res
        else do source ← sd_source_new sd; attach_systemd garbage events source

  -- `garbage` is what `cdata.res` holds before it is written.
  unfoldable pub hawkbit_start_service_sync : Bool → List LoopEvent → Exec (World E) ℤ
  unfolding action_new
  hawkbit_start_service_sync garbage events = do
    modify (λ w. record w { locked = false; action = action_new })
    res ← call sd.default_event
    if ltb_ℤ res (pos 0) then finish_service none res else watch garbage events
