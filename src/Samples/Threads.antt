-- ===== src/Samples/Threads.antt =====
-- Tests of the threads beside each other: a deployment that is canceled while it is downloaded.
use rauc_hawkbit_updater.Base.{List, true, false, ◌≡◌, ℕ, refl}
use rauc_hawkbit_updater.Exec.{done, ◌>>=◌}
use rauc_hawkbit_updater.World.{UserData, processing, downloading, cancel_requested, lock}
use rauc_hawkbit_updater.World.Quiet.{shared, Calm}
use rauc_hawkbit_updater.Download.{
  starting, attempting, download_step, download_run, is_download_only,
}
use rauc_hawkbit_updater.Cancel.{begin_cancel}
use rauc_hawkbit_updater.System.{
  System, waiting, ask_cancel, woken, Reach, start, later, download, ask,
}
use rauc_hawkbit_updater.System.Asks.{WaitsAgain}
use rauc_hawkbit_updater.System.Wakes.{Over, Signalled, wait-Over}
use rauc_hawkbit_updater.Services.{Services}
use rauc_hawkbit_updater.Callbacks.{client}
use rauc_hawkbit_updater.Callbacks.Ready.{on_new_software_ready_cb-Calm}
use rauc_hawkbit_updater.Samples.{bus, Node, services, world_in, artifact_for}

-- The client with the callback that main() gives it.
abbrev pub threads : Services Node (List ℕ) ℕ
threads = client bus services

pub ready-Calm : (u : UserData) → Calm (threads.software_ready_cb u)
ready-Calm u = on_new_software_ready_cb-Calm bus services refl u

install_test : is_download_only threads (artifact_for true) ≡ false
unfolding is_download_only
install_test = refl

starting_test :
    download_step threads (artifact_for true) starting (world_in processing false)
    ≡ (done attempting, world_in downloading false)
unfolding download_step lock ◌>>=◌
starting_test = refl

asking_test :
    ask_cancel threads "7" (world_in downloading false)
    ≡ (done (waiting "7" 0), world_in cancel_requested false)
unfolding ask_cancel begin_cancel lock ◌>>=◌
asking_test = refl

abbrev asked : System ℕ
asked = record { world = world_in cancel_requested false; pc = attempting; main = waiting "7" 0 }

asked_test : Reach threads (artifact_for true) asked
asked_test =
    later (later (start (world_in processing false) refl refl) (download starting_test))
      (ask "7" refl asking_test)

wait-Over_example :
    (Signalled 0
      (download_run threads (artifact_for true) 5 attempting (world_in cancel_requested false)).0
      (shared
        (download_run threads
          (artifact_for true)
          5
          attempting
          (world_in cancel_requested false)).1))
    × Over
        ((do pc ← download_run threads (artifact_for true) 5 attempting; woken threads "7")
          (world_in cancel_requested false)).0
    × WaitsAgain threads (waiting "7" 0) (world_in cancel_requested false)
wait-Over_example =
    wait-Over threads (artifact_for true) asked "7" 0 install_test ready-Calm asked_test refl
