-- ===== src/Samples/Service.antt =====
-- Tests of the service: systemd's event loop, --run-once, and a start without systemd.
use rauc_hawkbit_updater.Base.{
  ℕ, zero, suc, true, false, ◌≡◌, refl, inl, List, [], ◌∷◌, some, pos, negsuc, ℤ,
}
use rauc_hawkbit_updater.Exec.{crash, critical, pure, ◌>>=◌}
use rauc_hawkbit_updater.World.{state_none}
use rauc_hawkbit_updater.Services.{Services}
use rauc_hawkbit_updater.Poll.{initial_data, poll}
use rauc_hawkbit_updater.SdHelper.{Systemd, SdSource}
use rauc_hawkbit_updater.SdHelper.Iterates.{SdState, initial, armed, pending}
use rauc_hawkbit_updater.Service.{second, systemd_exit, main_loop, hawkbit_start_service_sync}
use rauc_hawkbit_updater.World.Quiet.{shared}
use rauc_hawkbit_updater.Poll.Frees.{Free}
use rauc_hawkbit_updater.Callbacks.{client}
use rauc_hawkbit_updater.Service.Frees.{hawkbit_start_service_sync-Free}
use rauc_hawkbit_updater.Service.Once.{main_loop-once}
use rauc_hawkbit_updater.Service.Starts.{hawkbit_start_service_sync-critical}
use rauc_hawkbit_updater.Samples.{bus, others, Node, services, config, world_in}

-- The environment counts: nothing prepared, armed, pending.
abbrev state_at : ℕ → SdState
state_at zero = initial
state_at (suc zero) = armed
state_at _ = pending

abbrev waited : ℕ → ℤ × ℕ
waited (suc zero) = (pos 1, 2)
waited e = (negsuc 15, e)

abbrev systemd : Systemd ℕ
systemd = record {
  prepare = λ e. (pos 0, 1);
  wait = waited;
  dispatch = λ e. (pos 1, 0);
  get_fd = λ e. (pos 3, e);
  add_exit = λ e. (pos 0, e);
  default_event = λ e. (negsuc 1, e);
  set_watchdog = λ on e. (pos 0, e);
  notify = λ text e. (pos 0, e);
  source_new = λ e. (true, e);
}

abbrev source : SdSource
source = record { fd = pos 3; events = 17 }

-- With --run-once.
abbrev once_services : Services Node (List ℕ) ℕ
once_services = record services { run_once = true }

main_loop-once_example :
    main_loop systemd once_services others
      (some source)
      (second ∷ systemd_exit ∷ [])
      (record { client_data = initial_data config true; quit = false; attached = true })
      (world_in state_none false)
    ≡ (do (_, d) ← poll once_services others false; pure d) (world_in state_none false)
main_loop-once_example =
    main_loop-once systemd once_services others (some source) (systemd_exit ∷ []) true
      (world_in state_none false) refl

-- Where systemd is there.
abbrev pub running_systemd : Systemd ℕ
running_systemd = record systemd { default_event = λ e. (pos 0, e) }

hawkbit_start_service_sync-Free_example :
    Free
      (hawkbit_start_service_sync running_systemd
        (client bus services)
        others
        true
        (second ∷ systemd_exit ∷ [])
        (world_in state_none false)).0
      (shared
        (hawkbit_start_service_sync running_systemd
          (client bus services)
          others
          true
          (second ∷ systemd_exit ∷ [])
          (world_in state_none false)).1)
hawkbit_start_service_sync-Free_example =
    hawkbit_start_service_sync-Free running_systemd bus services others true
      (second ∷ systemd_exit ∷ []) (world_in state_none false) (λ w h. h)

hawkbit_start_service_sync-critical_example :
    (hawkbit_start_service_sync systemd services others true [] (world_in state_none false)).0
    ≡ crash critical
hawkbit_start_service_sync-critical_example =
    hawkbit_start_service_sync-critical systemd services others true [] (world_in state_none false)
      (inl refl)
