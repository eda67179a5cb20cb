-- ===== src/Samples/Download.antt =====
-- Tests of the download thread: the table of its moves, and the thread before a mutex that is held.
use rauc_hawkbit_updater.Base.{true, refl}
use rauc_hawkbit_updater.World.{downloading}
use rauc_hawkbit_updater.World.Quiet.{shared}
use rauc_hawkbit_updater.Download.{attempting, download_run}
use rauc_hawkbit_updater.Download.Stuck.{Stuck, download_run-Stuck}
use rauc_hawkbit_updater.Samples.{world_in, artifact_for}
use rauc_hawkbit_updater.Samples.Threads.{threads}

download_run-Stuck_example :
    Stuck
      (download_run threads (artifact_for true) 6 attempting (world_in downloading true)).0
      (shared (download_run threads (artifact_for true) 6 attempting (world_in downloading true)).1)
download_run-Stuck_example =
    download_run-Stuck threads (artifact_for true) 6 attempting (world_in downloading true) refl
      refl
