-- ===== src/Download/Steps.antt =====
-- src/hawkbit-client.c: what a step of the download thread makes of the shared state.
use rauc_hawkbit_updater.Base.{Bool, ◌<◌, false, ◌≡◌, ◌≢◌, refl, ◌⊎◌, inl, inr, arith}
use rauc_hawkbit_updater.Exec.{Outcome, done, fail, crash}
use rauc_hawkbit_updater.World.{World, Artifact, UserData, ActionState, cancel_requested}
use rauc_hawkbit_updater.World.Quiet.{Shared, shared, Calm}
use rauc_hawkbit_updater.Services.{Services}
use rauc_hawkbit_updater.Download.Table.{requested_ne, Move, Takes}
use rauc_hawkbit_updater.Download.Refines.{download_step-Takes}
use rauc_hawkbit_updater.Download.{Pc, is_download_only, download_step}

-- A waiting thread is not left behind: the state is as it was, or no cancelation was requested, or
-- the condition was signalled.
abbrev pub Wakes : Shared → Shared → Type 0
Wakes v u =
    (u.action.state ≡ v.action.state)
    ⊎ ((v.action.state ≢ cancel_requested) ⊎ (v.signals_sent < u.signals_sent))

abbrev pub StepOk : Shared → Outcome Pc → Shared → Type 0
StepOk v (done pc) u = (u.locked ≡ false) × (u.action.id ≡ v.action.id) × Wakes v u
StepOk v (fail e) u = ⊥
StepOk v (crash c) u = Unit

-- A move without a signal.
silent-Move :
    {artifact : Artifact} {resume only : Bool} {pc pc' : Pc} {st st' : ActionState}
    → only ≡ false
    → Move artifact resume only pc st false pc' st'
    → (st' ≡ st) ⊎ (st ≢ cancel_requested)
silent-Move d (Move.begins n) = inr (requested_ne _ n)
silent-Move d (Move.arrives sum speed) = inl refl
silent-Move d (Move.breaks e k) = inl refl
silent-Move d (Move.is_cut_off e r k) = inl refl
silent-Move d (Move.resumes n) = inl refl
silent-Move d (Move.matches k) = inl refl
silent-Move d (Move.differs e k) = inl refl
silent-Move d (Move.is_kept o) = absurd cc
silent-Move d (Move.goes_on o) = inl refl
silent-Move d (Move.defers n k) = inr (requested_ne _ n)
silent-Move d (Move.returns r) = inl refl
silent-Move d Move.is_over = inl refl

Takes-StepOk :
    (artifact : Artifact) (resume only : Bool) (pc : Pc) (v : Shared) (r : Outcome Pc) (u : Shared)
    → only ≡ false
    → Takes artifact resume only pc v r u
    → StepOk v r u
Takes-StepOk artifact resume only pc v (done pc') u d (l, i, _, inl (m, _)) =
    (l, i, elim (silent-Move d m) [ inl k ↦ inl k | inr n ↦ inr (inl n) ])
Takes-StepOk artifact resume only pc v (done pc') u d (l, i, _, inr (_, n)) =
    (l, i, inr (inr (omega arith)))
Takes-StepOk artifact resume only pc v (fail e) u d x = x
Takes-StepOk artifact resume only pc v (crash c) u d x = tt

-- Each step of the download thread that takes up the mutex gives it back, leaves the action's id
-- alone and does not return with an error; and it leaves the state as it was, or no cancelation was
-- requested, or it signals the condition, so that a waiting `process_cancel` is woken. The artifact
-- is not for download only, and the callback that starts the installation just starts it.
pub download_step-StepOk :
    {Node C E : Type 0} (s : Services Node C E) (artifact : Artifact) (pc : Pc) (w : World E)
    → w.locked ≡ false
    → is_download_only s artifact ≡ false
    → ((u : UserData) → Calm (s.software_ready_cb u))
    → StepOk (shared w) (download_step s artifact pc w).0 (shared (download_step s artifact pc w).1)
download_step-StepOk s artifact pc w h d q =
    Takes-StepOk artifact s.config.resume_downloads _ pc (shared w) _ _ d
      (download_step-Takes s artifact pc w h q)
