-- ===== src/SdHelper.antt =====
-- src/sd-helper.c: systemd's event loop as a source of GLib's main loop. libsystemd is a parameter.
pub mod Iterates
use rauc_hawkbit_updater.Base.{ℕ, String, Bool, true, false, not, Option, none, some, ℤ, pos, ltb_ℤ}
use rauc_hawkbit_updater.Exec.{Exec, pure, stop, critical, ◌>>=◌, ◌>>◌}
use rauc_hawkbit_updater.World.{World, loop_quit, call, emit}

-- sd_event_prepare, sd_event_wait (with a timeout of 0), sd_event_dispatch, sd_event_get_fd,
-- sd_event_add_exit; sd_event_default, sd_event_set_watchdog and sd_notify; and whether g_source_new
-- gives a source. Their events are one: the default event loop.
pub record Systemd (E : Type 0) : Type 0 where
  pub prepare : E → ℤ × E
  pub wait : E → ℤ × E
  pub dispatch : E → ℤ × E
  pub get_fd : E → ℤ × E
  pub add_exit : E → ℤ × E
  pub default_event : E → ℤ × E
  pub set_watchdog : Bool → E → ℤ × E
  pub notify : String → E → ℤ × E
  pub source_new : E → Bool × E

-- struct SDSource: its GPollFD.
pub record SdSource : Type 0 where
  pub fd : ℤ
  pub events : ℕ

-- G_IO_IN | G_IO_HUP
abbrev pub in_or_hup : ℕ
in_or_hup = 17

-- `none` is NULL, which g_return_val_if_fail refuses.
module _ {E : Type 0} (sd : Systemd E) where
  unfoldable pub sd_source_prepare : Option SdSource → Exec (World E) Bool
  sd_source_prepare none = stop critical
  sd_source_prepare (some source) = do r ← call sd.prepare; pure (ltb_ℤ (pos 0) r)

  unfoldable pub sd_source_check : Option SdSource → Exec (World E) Bool
  sd_source_check none = stop critical
  sd_source_check (some source) = do r ← call sd.wait; pure (ltb_ℤ (pos 0) r)

  -- Whether the source stays.
  unfoldable pub sd_source_dispatch : Option SdSource → Exec (World E) Bool
  sd_source_dispatch none = stop critical
  sd_source_dispatch (some source) = do r ← call sd.dispatch; pure (not (ltb_ℤ r (pos 0)))

  unfoldable pub sd_source_on_exit : Option SdSource → Exec (World E) ℤ
  sd_source_on_exit none = stop critical
  sd_source_on_exit (some source) = do emit loop_quit; pure (pos 0)

  unfoldable pub sd_source_attach : Option SdSource → Exec (World E) ℤ
  sd_source_attach none = stop critical
  sd_source_attach (some source) = call sd.add_exit

  unfoldable pub new_source : Bool → Exec (World E) (Option SdSource)
  new_source false = pure none
  new_source true = do fd ← call sd.get_fd; pure (some (record { fd = fd; events = in_or_hup }))

  -- Of an event that is not NULL.
  unfoldable pub sd_source_new : Exec (World E) (Option SdSource)
  unfolding new_source
  sd_source_new = do created ← call sd.source_new; new_source created

  pub dispatch_if : Option SdSource → Bool → Exec (World E) Bool
  dispatch_if source false = pure true
  dispatch_if source true = sd_source_dispatch source

  pub check_unless : Option SdSource → Bool → Exec (World E) Bool
  check_unless source true = pure true
  check_unless source false = sd_source_check source

  -- What the main loop does with a source in one round (GSourceFuncs): `prepare`, where that is
  -- FALSE `check`, and where either is TRUE `dispatch`.
  unfoldable pub iterate : Option SdSource → Exec (World E) Bool
  unfolding dispatch_if check_unless
  iterate source = do
    prepared ← sd_source_prepare source
    ready ← check_unless source prepared
    dispatch_if source ready
