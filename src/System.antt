-- ===== src/System.antt =====
-- src/hawkbit-client.c: the main thread in `process_cancel` beside the download thread of one
-- deployment and the callbacks of its installation, interleaved in any order. A step goes from one
-- place where its thread does not hold the mutex to the next.
pub mod Asks
pub mod Phases
pub mod Invariant
pub mod Wakes
use rauc_hawkbit_updater.Base.{ℕ, String, Bool, true, false, ◌≡◌, List, if◌then◌else◌}
use rauc_hawkbit_updater.Exec.{Exec, done, pure, attempt, gets, ◌>>=◌, ◌>>◌}
use rauc_hawkbit_updater.World.{
  World, Artifact, cancel_requested, processing, state_eq, lock, unlock,
}
use rauc_hawkbit_updater.World.Quiet.{signals}
use rauc_hawkbit_updater.Services.{Services}
use rauc_hawkbit_updater.Feedback.{install_complete_cb, hawkbit_progress}
use rauc_hawkbit_updater.Download.{Pc, starting, download_step, is_answering}
use rauc_hawkbit_updater.Cancel.{begin_cancel, finish_cancel}

-- The main thread, once it knows the `stopId`: between two calls, or in g_cond_wait, with the number
-- of signals that had been sent when it began to wait.
pub data MainPc : Type 0 where
  polling : MainPc
  waiting : String → ℕ → MainPc

module _ {Node C E : Type 0} (s : Services Node C E) where
  -- g_cond_wait, up to where it releases the mutex.
  pub go_wait : String → Exec (World E) MainPc
  go_wait stop_id = do seen ← gets (λ w. signals w.trace); unlock; pure (waiting stop_id seen)

  -- From the end of the wait to the end of `process_cancel`; `hawkbit_pull_cb` only logs its failure.
  pub finish : String → Exec (World E) MainPc
  finish stop_id = do result ← attempt (finish_cancel s stop_id); pure polling

  unfoldable pub wait_or_finish : String → Bool → Exec (World E) MainPc
  wait_or_finish stop_id false = finish stop_id
  wait_or_finish stop_id true = go_wait stop_id

  unfoldable pub ask_cancel : String → Exec (World E) MainPc
  unfolding go_wait finish wait_or_finish
  ask_cancel stop_id = do lock; waits ← begin_cancel stop_id; wait_or_finish stop_id waits

  -- g_cond_wait returns, and the `while` tests again.
  unfoldable pub woken : String → Exec (World E) MainPc
  unfolding go_wait finish
  woken stop_id = do
    lock
    state ← gets (λ w. w.action.state)
    if state_eq state cancel_requested then go_wait stop_id else finish stop_id

pub record System (E : Type 0) : Type 0 where
  pub world : World E
  pub pc : Pc
  pub main : MainPc

module _ {Node C E : Type 0} (s : Services Node C E) (artifact : Artifact) where
  -- A step that ends the process has no next state. g_cond_wait may return at any time, and the
  -- outside may change at any time.
  pub data Step (t : System E) : System E → Type 0 where
    download :
        {pc : Pc} {w : World E}
        → download_step s artifact t.pc t.world ≡ (done pc, w)
        → Step t (record { world = w; pc = pc; main = t.main })
    ask :
        (stop_id : String) {m : MainPc} {w : World E}
        → t.main ≡ polling
        → ask_cancel s stop_id t.world ≡ (done m, w)
        → Step t (record { world = w; pc = t.pc; main = m })
    wake :
        (stop_id : String) (seen : ℕ) {m : MainPc} {w : World E}
        → t.main ≡ waiting stop_id seen
        → woken s stop_id t.world ≡ (done m, w)
        → Step t (record { world = w; pc = t.pc; main = m })
    progress :
        (msg : String) {w : World E}
        → is_answering t.pc ≡ false
        → hawkbit_progress s msg t.world ≡ (done tt, w)
        → Step t (record { world = w; pc = t.pc; main = t.main })
    complete :
        (install_success : Bool) {w : World E}
        → is_answering t.pc ≡ false
        → install_complete_cb s install_success t.world ≡ (done tt, w)
        → Step t (record { world = w; pc = t.pc; main = t.main })
    outside :
        (env : E)
        → Step t (record { world = record t.world { env = env }; pc = t.pc; main = t.main })

  -- From where `process_deployment` has started the thread.
  pub data Reach : System E → Type 0 where
    start :
        (w : World E)
        → w.locked ≡ false
        → w.action.state ≡ processing
        → Reach (record { world = w; pc = starting; main = polling })
    later : {t u : System E} → Reach t → Step t u → Reach u
