-- ===== src/Program.antt =====
-- src/rauc-hawkbit-updater.c: the program, from its command line to its exit status.
pub mod Runs
use rauc_hawkbit_updater.Base.{Bool, List, ℤ, pos}
use rauc_hawkbit_updater.Exec.{Exec, pure}
use rauc_hawkbit_updater.Config.{Config}
use rauc_hawkbit_updater.World.{World}
use rauc_hawkbit_updater.Services.{Services}
use rauc_hawkbit_updater.Poll.{Others}
use rauc_hawkbit_updater.SdHelper.{Systemd}
use rauc_hawkbit_updater.Installer.{Bus}
use rauc_hawkbit_updater.Callbacks.{on_new_software_ready_cb}
use rauc_hawkbit_updater.Service.{LoopEvent, hawkbit_init, hawkbit_start_service_sync}
use rauc_hawkbit_updater.Main.{Start, exited, started}

module _ {Node C E : Type 0} (sd : Systemd E) (bus : Bus E) (s : Services Node C E)
    (others : Config → Others E) (garbage : Bool) (events : List LoopEvent) where
  -- What the client's callbacks work with once hawkbit_init has set the configuration.
  abbrev pub configured : Config → Bool → Services Node C E
  configured config run_once = record s { config = config; run_once = run_once }

  -- The last two calls of main(); what the other threads do can depend on the configuration.
  unfoldable pub run : Start → Exec (World E) ℤ
  run (exited n) = pure (pos n)
  run (started config logging run_once) =
      hawkbit_start_service_sync sd
        (hawkbit_init config (on_new_software_ready_cb bus (configured config run_once))
          (record s { run_once = run_once }))
        (others config) garbage events
