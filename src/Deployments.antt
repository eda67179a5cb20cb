-- ===== src/Deployments.antt =====
-- src/hawkbit-client.c: the client over many deployments, one after another: the main thread, which
-- polls hawkBit for a deployment or a cancelation, the download thread of the latest deployment, and
-- the callbacks of its installation, interleaved in any order. A step goes from one place where its
-- thread does not hold the mutex to the next.
pub mod Fits
pub mod Diagram
pub mod Main
pub mod Polls
pub mod Invariant
pub mod Follows
pub mod Apart
pub mod Rests
pub mod Waits
use rauc_hawkbit_updater.Base.{
  ltb, ℕ, String, Bool, true, false, not, ◌&&◌, ◌||◌, ◌≡◌, ◌⊎◌, some, List, [], ◌∷◌, leb,
  strcmp0_eq, if◌then◌else◌,
}
use rauc_hawkbit_updater.Exec.{done}
use rauc_hawkbit_updater.World.{
  World, Artifact, ActionState, Event, download_started, state_none, processing, state_number,
  state_eq,
}
use rauc_hawkbit_updater.World.Quiet.{starts}
use rauc_hawkbit_updater.Services.{Services}
use rauc_hawkbit_updater.Feedback.{install_complete_cb, hawkbit_progress}
use rauc_hawkbit_updater.Deployment.{Returned}
use rauc_hawkbit_updater.Download.{Pc, ready, finished, download_step}
use rauc_hawkbit_updater.Poll.{poll_deployment}
use rauc_hawkbit_updater.System.{MainPc, polling, waiting, ask_cancel, woken}

-- What `process_deployment` takes on a new deployment in.
abbrev pub is_idle : ActionState → Bool
is_idle st = not (leb (state_number processing) (state_number st))

abbrev pub is_ready : Pc → Bool
is_ready ready = true
is_ready _ = false

-- The deployment of the download thread that was started last, or the one before.
abbrev pub newest : Artifact → List Event → Artifact
newest artifact [] = artifact
newest artifact (download_started a ∷ trace) = a
newest artifact (_ ∷ trace) = newest artifact trace

-- `artifact` and `pc` are of the latest download thread; `installs` is that RAUC has been started by
-- it, and has not said that it is done.
pub record Client (E : Type 0) : Type 0 where
  pub world : World E
  pub artifact : Artifact
  pub pc : Pc
  pub main : MainPc
  pub installs : Bool

-- Whether a download thread has been started between two traces.
abbrev pub begun : List Event → List Event → Bool
begun before after = ltb (starts before) (starts after)

module _ {Node C E : Type 0} (s : Services Node C E) where
  -- Of hawkBit it is assumed that it cancels the action that the client works on, or any one while
  -- the client works on none; `process_cancel` also takes another id while it does.
  pub data Next (t : Client E) : Client E → Type 0 where
    poll :
        (root : Node) (res : Bool) {r : Returned} {w : World E}
        → t.main ≡ polling
        → poll_deployment s root res true t.world ≡ (done r, w)
        → Next t (record {
          world = w;
          artifact = if begun t.world.trace w.trace then newest t.artifact w.trace else t.artifact;
          pc = if begun t.world.trace w.trace then Pc.starting else t.pc;
          main = t.main;
          installs = t.installs;
        })
    ask :
        (stop_id : String) {m : MainPc} {w : World E}
        → t.main ≡ polling
        → (is_idle t.world.action.state ≡ true)
          ⊎ (strcmp0_eq (some stop_id) t.world.action.id ≡ true)
        → ask_cancel s stop_id t.world ≡ (done m, w)
        → Next t (record {
          world = w;
          artifact = t.artifact;
          pc = t.pc;
          main = m;
          installs = t.installs;
        })
    wake :
        (stop_id : String) (seen : ℕ) {m : MainPc} {w : World E}
        → t.main ≡ waiting stop_id seen
        → woken s stop_id t.world ≡ (done m, w)
        → Next t (record {
          world = w;
          artifact = t.artifact;
          pc = t.pc;
          main = m;
          installs = t.installs;
        })
    download :
        {pc : Pc} {w : World E}
        → download_step s t.artifact t.pc t.world ≡ (done pc, w)
        → Next t (record {
          world = w;
          artifact = t.artifact;
          pc = pc;
          main = t.main;
          installs = t.installs || is_ready t.pc;
        })
    progress :
        (msg : String) {w : World E}
        → t.installs ≡ true
        → hawkbit_progress s msg t.world ≡ (done tt, w)
        → Next t
            (record { world = w; artifact = t.artifact; pc = t.pc; main = t.main; installs = true })
    complete :
        (install_success : Bool) {w : World E}
        → t.installs ≡ true
        → install_complete_cb s install_success t.world ≡ (done tt, w)
        → Next t (record {
          world = w;
          artifact = t.artifact;
          pc = t.pc;
          main = t.main;
          installs = false;
        })
    outside :
        (env : E)
        → Next t (record {
          world = record t.world { env = env };
          artifact = t.artifact;
          pc = t.pc;
          main = t.main;
          installs = t.installs;
        })

  -- From the start of the service, with no download thread and no deployment.
  pub data Comes : Client E → Type 0 where
    start :
        (w : World E) (artifact : Artifact) (r : Bool)
        → w.locked ≡ false
        → w.action.state ≡ state_none
        → Comes (record {
          world = w;
          artifact = artifact;
          pc = finished r;
          main = polling;
          installs = false;
        })
    later : {t u : Client E} → Comes t → Next t u → Comes u
