-- ===== src/Deployments/Fits.antt =====
-- src/hawkbit-client.c: the state of the action tells what the threads do.
use rauc_hawkbit_updater.Base.{
  Bool, true, false, not, ◌&&◌, ◌||◌, ◌≡◌, refl, some, strcmp0_eq, if◌then◌else◌, arith,
}
use rauc_hawkbit_updater.World.{
  Artifact, ActionState, error, success, processing, downloading, installing, cancel_requested,
  state_eq,
}
use rauc_hawkbit_updater.World.Quiet.{Shared}
use rauc_hawkbit_updater.Download.{Pc, starting, ready, finished}
use rauc_hawkbit_updater.Download.Table.{Move}
use rauc_hawkbit_updater.System.{MainPc, polling, waiting}
use rauc_hawkbit_updater.Deployments.{is_idle, is_ready}

-- The state beside a download thread that has not returned, where `process_cancel` waits and where
-- it does not; there is no such wait for a thread that is past its last test.
abbrev pub at_work : Pc → Bool → ActionState → Bool
at_work starting waits st = state_eq st (if waits then cancel_requested else processing)
at_work ready waits st = not waits && state_eq st installing
at_work _ waits st = state_eq st (if waits then cancel_requested else downloading)

-- Where the thread has returned, there is an installation or no action in progress.
abbrev pub fits : Pc → Bool → Bool → ActionState → Bool
fits (finished r) false waits st = is_idle st
fits (finished r) true waits st = not waits && state_eq st installing
fits pc installs waits st = not installs && at_work pc waits st

abbrev pub is_waiting : MainPc → Bool
is_waiting polling = false
is_waiting (waiting stop_id seen) = true

abbrev pub is_finished : Pc → Bool
is_finished (finished r) = true
is_finished _ = false

-- A wait is for the action that the client works on.
abbrev pub Owned : MainPc → Shared → Type 0
Owned polling v = Unit
Owned (waiting stop_id seen) v = strcmp0_eq (some stop_id) v.action.id ≡ true

abbrev pub Fits : Pc → Bool → MainPc → Shared → Type 0
Fits pc installs m v =
    (v.locked ≡ false) × (fits pc installs (is_waiting m) v.action.state ≡ true) × Owned m v

pub idle-finished :
    (pc : Pc) (i w : Bool) (st : ActionState)
    → fits pc i w st ≡ true
    → is_idle st ≡ true
    → (is_finished pc ≡ true) × (i ≡ false)
idle-finished (finished r) false w st f d = (refl, refl)
idle-finished pc i w st f d = ground arith

pub begin-fits :
    (pc : Pc) (i : Bool) (st : ActionState)
    → fits pc i false st ≡ true
    → (state_eq st processing || state_eq st downloading) ≡ true
    → fits pc i true cancel_requested ≡ true
begin-fits pc i st f d = ground arith

pub woken-fits :
    (pc : Pc) (i : Bool) (st : ActionState)
    → fits pc i true st ≡ true
    → state_eq st cancel_requested ≡ false
    → fits pc i false st ≡ true
woken-fits pc i st f d = ground arith

pub complete-fits :
    (pc : Pc) (w : Bool) (st : ActionState) (b : Bool)
    → fits pc true w st ≡ true
    → fits pc false w (if b then success else error) ≡ true
complete-fits pc w st b f = ground arith

pub Move-fits :
    {artifact : Artifact} {resume only b : Bool} {pc pc' : Pc} {st st' : ActionState} (i w : Bool)
    → Move artifact resume only pc st b pc' st'
    → fits pc i w st ≡ true
    → fits pc' (i || is_ready pc) w st' ≡ true
Move-fits i w (Move.begins n) f = ground arith
Move-fits i w (Move.is_canceled {pc} a e) f = ground arith
Move-fits i w (Move.arrives sum speed) f = ground arith
Move-fits i w (Move.breaks e k) f = ground arith
Move-fits i w (Move.is_cut_off e r k) f = ground arith
Move-fits i w (Move.resumes n) f = ground arith
Move-fits i w (Move.matches k) f = ground arith
Move-fits i w (Move.differs e k) f = ground arith
Move-fits i w (Move.is_kept o) f = ground arith
Move-fits i w (Move.goes_on o) f = ground arith
Move-fits i w (Move.defers n k) f = ground arith
Move-fits i w (Move.installs n k) f = ground arith
Move-fits i w (Move.returns r) f = ground arith
Move-fits i w Move.reports f = ground arith
Move-fits i w Move.is_over f = ground arith
