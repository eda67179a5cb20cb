-- ===== src/SdHelper/Iterates.antt =====
-- src/sd-helper.c: the source and the state of systemd's event loop.
use rauc_hawkbit_updater.Base.{Bool, ◌⊎◌, true, false, ◌≡◌, pos, ltb_ℤ}
use rauc_hawkbit_updater.Exec.{Outcome, done}
use rauc_hawkbit_updater.World.{World}
use rauc_hawkbit_updater.SdHelper.{Systemd}

-- sd_event_wait(3): SD_EVENT_INITIAL, SD_EVENT_ARMED, SD_EVENT_PENDING, and SD_EVENT_FINISHED.
pub data SdState : Type 0 where
  initial armed pending exited : SdState

-- What the manual says of each call, in the states in which it may be made: prepare arms the loop, or
-- finds something pending; wait with no timeout finds something pending, or gives up; dispatch handles
-- what is pending, or gives 0 if an exit was requested; of its failure nothing is said. A failure to
-- prepare leaves the loop as it was; wait where nothing was prepared fails.
pub record Documented {E : Type 0} (sd : Systemd E) (state : E → SdState) : Type 0 where
  pub prepare_pending :
      (e : E)
      → state e ≡ initial
      → ltb_ℤ (pos 0) (sd.prepare e).0 ≡ true
      → state (sd.prepare e).1 ≡ pending
  pub prepare_failed :
      (e : E)
      → state e ≡ initial
      → ltb_ℤ (sd.prepare e).0 (pos 0) ≡ true
      → state (sd.prepare e).1 ≡ initial
  pub prepare_armed :
      (e : E)
      → state e ≡ initial
      → ltb_ℤ (pos 0) (sd.prepare e).0 ≡ false
      → ltb_ℤ (sd.prepare e).0 (pos 0) ≡ false
      → state (sd.prepare e).1 ≡ armed
  pub wait_pending :
      (e : E) → state e ≡ armed → ltb_ℤ (pos 0) (sd.wait e).0 ≡ true → state (sd.wait e).1 ≡ pending
  pub wait_nothing :
      (e : E)
      → state e ≡ armed
      → ltb_ℤ (pos 0) (sd.wait e).0 ≡ false
      → state (sd.wait e).1 ≡ initial
  pub wait_busy :
      (e : E)
      → state e ≡ initial
      → (ltb_ℤ (pos 0) (sd.wait e).0 ≡ false) × (state (sd.wait e).1 ≡ initial)
  pub dispatched :
      (e : E)
      → state e ≡ pending
      → ltb_ℤ (pos 0) (sd.dispatch e).0 ≡ true
      → state (sd.dispatch e).1 ≡ initial
  pub dispatched_last :
      (e : E)
      → state e ≡ pending
      → ltb_ℤ (pos 0) (sd.dispatch e).0 ≡ false
      → ltb_ℤ (sd.dispatch e).0 (pos 0) ≡ false
      → state (sd.dispatch e).1 ≡ exited

-- After a round: the source is removed, or the loop is as the next round needs it, or an exit was
-- requested.
abbrev pub IsLeft : Outcome Bool → SdState → Type 0
IsLeft r st = (r ≡ done false) ⊎ ((st ≡ initial) ⊎ (st ≡ exited))
