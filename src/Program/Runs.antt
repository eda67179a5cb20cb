-- ===== src/Program/Runs.antt =====
-- src/rauc-hawkbit-updater.c: what holds of a run of the program.
use rauc_hawkbit_updater.Base.{ℕ, ◌≤◌, String, ◌≡◌, ℤ, pos}
use rauc_hawkbit_updater.GError.{Result, ok}
use rauc_hawkbit_updater.Exec.{Outcome, done}
use rauc_hawkbit_updater.Config.{Config, KeyFile, Glib, load_config_file}
use rauc_hawkbit_updater.Config.Loaded.{IsValid}
use rauc_hawkbit_updater.World.{World}
use rauc_hawkbit_updater.World.Quiet.{shared}
use rauc_hawkbit_updater.World.Sends.{AllGood}
use rauc_hawkbit_updater.Services.{Services}
use rauc_hawkbit_updater.Poll.Frees.{Free}

-- A run that ends before the service is started leaves everything as it was; or it is the service, with the
-- configuration that a file has.
pub data Ran {E : Type 0} (g : Glib) (load : String → Result KeyFile) (w : World E)
    : Outcome ℤ → World E → Type 0 where
  not_started : (n : ℕ) → n ≤ 4 → Ran g load w (done (pos n)) w
  served :
      (name : String) (c : Config) {r : Outcome ℤ} {w' : World E}
      → load_config_file g load name ≡ ok c
      → IsValid c
      → Free r (shared w')
      → AllGood c w'.trace
      → Ran g load w r w'
