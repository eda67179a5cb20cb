-- ===== src/Deployments/Rests.antt =====
-- src/hawkbit-client.c: the threads while nothing is in progress.
use rauc_hawkbit_updater.Base.{
  ℕ, ltb, ◌&&◌, ◌||◌, leb, Bool, true, false, ◌≡◌, refl, sym, inl, inr, subst, arith, String,
}
use rauc_hawkbit_updater.Exec.{continue, done}
use rauc_hawkbit_updater.World.{
  Artifact, downloading, state_eq, state_number, ActionState, processing,
}
use rauc_hawkbit_updater.World.Quiet.{Shared}
use rauc_hawkbit_updater.World.Runs.{Runs, Runs-bind, Runs-lock-bind}
use rauc_hawkbit_updater.Services.{Services}
use rauc_hawkbit_updater.Download.{Pc, is_answering}
use rauc_hawkbit_updater.System.Asks.{begin_cancel-Runs}
use rauc_hawkbit_updater.System.{ask_cancel, wait_or_finish, polling}
use rauc_hawkbit_updater.System.Wakes.{finish-Over, Over}
use rauc_hawkbit_updater.Deployments.{finished, Client, is_idle, is_ready}
use rauc_hawkbit_updater.Deployments.Fits.{fits, is_finished}
use rauc_hawkbit_updater.Cancel.{begin_cancel}
use rauc_hawkbit_updater.Download.Table.{Move, Takes}
use rauc_hawkbit_updater.Deployments.Polls.{Follows}

-- Nothing is in progress, and nothing is waited for.
abbrev pub Rests : {E : Type 0} → Client E → Type 0
Rests t =
    (t.main ≡ polling)
    × (is_finished t.pc ≡ true)
    × (t.installs ≡ false)
    × (is_idle t.world.action.state ≡ true)

-- A thread and an installation that are over.
pub rests-idle :
    (pc : Pc) (i w : Bool) (st : ActionState)
    → fits pc i w st ≡ true
    → is_finished pc ≡ true
    → i ≡ false
    → is_idle st ≡ true
rests-idle pc i w st f p n = ground arith

pub installs-over :
    (pc : Pc) (i w : Bool) (st : ActionState)
    → fits pc i w st ≡ true
    → i ≡ true
    → is_answering pc ≡ false
installs-over pc i w st f n = ground arith

-- What a poll that starts a thread has made of the state.
pub begun-processing :
    (st st' : ActionState) (n n' : ℕ) → Follows st n st' n' → ltb n n' ≡ true → st' ≡ processing
begun-processing st st' n n' (inl (e, k)) b = absurd (ground arith)
begun-processing st st' n n' (inr (_, inl (e, k))) b = absurd (ground arith)
begun-processing st st' n n' (inr (_, inr (e, k))) b = e

-- What a poll that starts no thread makes of a state in which nothing is in progress.
pub idle-still :
    (st st' : ActionState) (n n' : ℕ)
    → is_idle st ≡ true
    → Follows st n st' n'
    → ltb n n' ≡ false
    → is_idle st' ≡ true
idle-still st st' n n' d (inl (e, k)) b = rw e d
idle-still st st' n n' d (inr (_, inl (e, k))) b = rw e refl
idle-still st st' n n' d (inr (_, inr (e, k))) b = absurd (ground arith)

pub not_asked :
    (b : Bool) (st : ActionState)
    → is_idle st ≡ true
    → (b && (state_eq st processing || state_eq st downloading)) ≡ true
    → ⊥
not_asked b st d e = ground arith

pub returned-Move :
    {artifact : Artifact} {resume only b r : Bool} {pc' : Pc} {st st' : ActionState}
    → Move artifact resume only (finished r) st b pc' st'
    → is_finished pc' ≡ true
returned-Move Move.is_over = refl
returned-Move (Move.is_canceled a e) = refl

pub Move-finished :
    (artifact : Artifact) (resume only b : Bool) (pc pc' : Pc) (st st' : ActionState)
    → is_finished pc ≡ true
    → Move artifact resume only pc st b pc' st'
    → is_finished pc' ≡ true
Move-finished artifact resume only b (finished r) pc' st st' p m = returned-Move m
Move-finished artifact resume only b pc pc' st st' p m = absurd cc

pub moved-finished :
    (artifact : Artifact) (resume only : Bool) (pc pc' : Pc) (v u : Shared)
    → Takes artifact resume only pc v (done pc') u
    → is_finished pc ≡ true
    → is_finished pc' ≡ true
moved-finished artifact resume only pc pc' v u (_, _, _, inl (m, _)) p =
    Move-finished _ _ _ _ _ _ _ _ p m
moved-finished artifact resume only pc pc' v u (_, _, _, inr (m, _)) p =
    Move-finished _ _ _ _ _ _ _ _ p m

pub not_ready :
    (pc : Pc) (i : Bool) → is_finished pc ≡ true → i ≡ false → (i || is_ready pc) ≡ false
not_ready pc i p n = ground arith

pub busy_of :
    (st : ActionState) → is_idle st ≡ false → leb (state_number processing) (state_number st) ≡ true
busy_of st d = ground arith

module _ {Node C E : Type 0} (s : Services Node C E) where
  pub begin_cancel-idle :
      (stop_id : String) (v : Shared)
      → is_idle v.action.state ≡ true
      → Runs (begin_cancel {E = E} stop_id) v (λ r u. r ≡ done false)
  begin_cancel-idle stop_id v d =
      begin_cancel-Runs stop_id v (λ e. absurd (not_asked _ v.action.state d e)) (λ e. refl)

  -- While nothing is in progress, `process_cancel` does not wait.
  pub ask_cancel-Over :
      (stop_id : String) (v : Shared)
      → v.locked ≡ false
      → is_idle v.action.state ≡ true
      → Runs (ask_cancel s stop_id) v (λ r _. Over r)
  unfolding ask_cancel wait_or_finish
  ask_cancel-Over stop_id v h d = Runs-lock-bind v _ h (
      Runs-bind _ _ _ (begin_cancel-idle stop_id _ d) (λ r u e.
        subst (λ x. Runs (continue x (λ b. wait_or_finish s stop_id b)) u (λ r' _. Over r')) (sym e)
          (finish-Over s stop_id u)))
