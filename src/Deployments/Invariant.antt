-- ===== src/Deployments/Invariant.antt =====
-- src/hawkbit-client.c: the state of the action tells what the threads do, over many deployments.
use rauc_hawkbit_updater.Base.{
  ℕ, suc, ltb, String, some, strcmp0_eq, Bool, true, false, ◌≡◌, refl, ◌⊎◌, inl, inr, sym, ap, ◌∙◌,
  subst, ◌||◌, if◌then◌else◌, arith,
}
use rauc_hawkbit_updater.Exec.{Outcome, done, Exec}
use rauc_hawkbit_updater.World.{Artifact, error, success, World, ActionState, UserData}
use rauc_hawkbit_updater.World.Quiet.{Shared, shared, starts, Calm}
use rauc_hawkbit_updater.World.Runs.{with_lock, with_state}
use rauc_hawkbit_updater.Services.{Services}
use rauc_hawkbit_updater.Feedback.{hawkbit_progress, install_complete_cb}
use rauc_hawkbit_updater.Feedback.Completes.{Leaves, install_complete_cb-Leaves}
use rauc_hawkbit_updater.Deployment.{Returned}
use rauc_hawkbit_updater.Download.{is_download_only, Pc, starting, download_step}
use rauc_hawkbit_updater.Download.Table.{Takes}
use rauc_hawkbit_updater.Download.Refines.{download_step-Takes}
use rauc_hawkbit_updater.Poll.{poll_deployment}
use rauc_hawkbit_updater.System.{MainPc, polling, waiting, ask_cancel, woken}
use rauc_hawkbit_updater.Deployments.{
  Client, Next, Comes, poll, ask, wake, download, progress, complete, outside, start, later,
  is_idle, is_ready,
}
use rauc_hawkbit_updater.Deployments.Fits.{
  fits, is_waiting, Owned, Fits, idle-finished, complete-fits, Move-fits,
}
use rauc_hawkbit_updater.Deployments.Main.{none-fits, Ends, ask_cancel-Ends, woken-Ends}
use rauc_hawkbit_updater.Deployments.Polls.{Follows, Polled, poll_deployment-Polled}

ltb-same : (n : ℕ) → ltb n n ≡ false
ltb-same n = ground arith

ltb-more : (n : ℕ) → ltb n (suc n) ≡ true
ltb-more n = ground arith

poll-fits :
    (pc : Pc) (i : Bool) (st st' : ActionState) (n n' : ℕ)
    → fits pc i false st ≡ true
    → Follows st n st' n'
    → fits (if ltb n n' then starting else pc) i false st' ≡ true
poll-fits pc i st st' n n' f (inl (e, k)) = rw (e, k, ltb-same n) f
poll-fits pc i st st' n n' f (inr (d, inl (e, k))) = rw (e, k, ltb-same n) (none-fits pc i st f d)
poll-fits pc i st st' n n' f (inr (d, inr (e, k))) =
    rw (e, k, ltb-more n, (idle-finished pc i false st f d).1) refl

Takes-Fits :
    (artifact : Artifact) (resume only : Bool) (pc pc' : Pc) (i : Bool) (m : MainPc) (v u : Shared)
    → Takes artifact resume only pc v (done pc') u
    → Fits pc i m v
    → Fits pc' (i || is_ready pc) m u
Takes-Fits artifact resume only pc pc' i polling v u (l, _, _, inl (k, _)) (_, f, o) =
    (l, Move-fits i false k f, tt)
Takes-Fits artifact resume only pc pc' i polling v u (l, _, _, inr (k, _)) (_, f, o) =
    (l, Move-fits i false k f, tt)
Takes-Fits artifact resume only pc pc' i (waiting id n) v u (l, e, _, inl (k, _)) (_, f, o) =
    (l, Move-fits i true k f, ap (λ x. strcmp0_eq (some id) x) e ∙ o)
Takes-Fits artifact resume only pc pc' i (waiting id n) v u (l, e, _, inr (k, _)) (_, f, o) =
    (l, Move-fits i true k f, ap (λ x. strcmp0_eq (some id) x) e ∙ o)

-- The callbacks keep the id.
Owned-state :
    (m : MainPc) (st : ActionState) (v : Shared)
    → Owned m v
    → Owned m (with_lock false (with_state st v))
Owned-state polling st v o = tt
Owned-state (waiting id n) st v o = o

Owned-lock : (m : MainPc) (v : Shared) → Owned m v → Owned m (with_lock false v)
Owned-lock polling v o = tt
Owned-lock (waiting id n) v o = o

module _ {Node C E : Type 0} (s : Services Node C E)
    (q : (u : UserData) → Calm (s.software_ready_cb u)) (n : s.config.stream_bundle ≡ false) where
  abbrev IsFit : Client E → Type 0
  IsFit t = Fits t.pc t.installs t.main (shared t.world)

  -- What a step of one thread ends with, from what holds of its run.
  pub ends_with :
      {A : Type 0} (t : Client E) {a : A} {w : World E} (f : Exec (World E) A)
      (Q : Outcome A → Shared → Type 0)
      → Q (f t.world).0 (shared (f t.world).1)
      → f t.world ≡ (done a, w)
      → Q (done a) (shared w)
  ends_with t f Q k e = subst (λ x. Q x.0 (shared x.1)) e k

  module _ (t : Client E) (i : IsFit t) where
    pub polled :
        (root : Node) (res : Bool) {r : Returned} {w : World E}
        → poll_deployment s root res true t.world ≡ (done r, w)
        → Polled (shared t.world) (done r) (shared w)
    polled root res e =
        ends_with t (poll_deployment s root res true) (Polled (shared t.world))
          ((poll_deployment-Polled s (shared t.world) q n root res i.0).at t.world refl) e

    pub asked :
        (stop_id : String) {m : MainPc} {w : World E}
        → t.main ≡ polling
        → (is_idle t.world.action.state ≡ true)
          ⊎ (strcmp0_eq (some stop_id) t.world.action.id ≡ true)
        → ask_cancel s stop_id t.world ≡ (done m, w)
        → Ends t.pc t.installs t.world.action.state (done m) (shared w)
    asked stop_id k o e =
        ends_with t (ask_cancel s stop_id) (Ends t.pc t.installs t.world.action.state)
          ((ask_cancel-Ends s t.pc t.installs (shared t.world) i.0 stop_id
              (subst (λ m. fits t.pc t.installs (is_waiting m) t.world.action.state ≡ true) k i.1)
              o).at
            t.world refl)
          e

    pub woke :
        (stop_id : String) (seen : ℕ) {m : MainPc} {w : World E}
        → t.main ≡ waiting stop_id seen
        → woken s stop_id t.world ≡ (done m, w)
        → Ends t.pc t.installs t.world.action.state (done m) (shared w)
    woke stop_id seen k e =
        let (l, f, o) = subst (λ m. Fits t.pc t.installs m (shared t.world)) k i in
        ends_with t (woken s stop_id) (Ends t.pc t.installs t.world.action.state)
          ((woken-Ends s t.pc t.installs (shared t.world) l stop_id f o).at t.world refl) e

    pub moved :
        {pc : Pc} {w : World E}
        → download_step s t.artifact t.pc t.world ≡ (done pc, w)
        → Takes t.artifact s.config.resume_downloads
            (is_download_only s t.artifact)
            t.pc
            (shared t.world)
            (done pc)
            (shared w)
    moved e =
        ends_with t (download_step s t.artifact t.pc) (Takes _ _ _ t.pc (shared t.world))
          (download_step-Takes s t.artifact t.pc t.world i.0 q) e

    pub completed :
        (b : Bool) {w : World E}
        → install_complete_cb s b t.world ≡ (done tt, w)
        → shared w ≡ with_lock false (with_state (if b then success else error) (shared t.world))
    completed b e =
        ends_with t (install_complete_cb s b) (Leaves _)
          (install_complete_cb-Leaves s b "" t.world i.0).0 e

    pub progressed :
        (msg : String) {w : World E}
        → hawkbit_progress s msg t.world ≡ (done tt, w)
        → shared w ≡ with_lock false (shared t.world)
    progressed msg e =
        ends_with t (hawkbit_progress s msg) (Leaves _)
          (install_complete_cb-Leaves s true msg t.world i.0).1 e

    pub installs_fits :
        t.installs ≡ true → fits t.pc true (is_waiting t.main) t.world.action.state ≡ true
    installs_fits c = subst (λ x. fits t.pc x (is_waiting t.main) t.world.action.state ≡ true) c i.1

  poll-IsFit :
      (t : Client E) (m : MainPc) (u : Shared)
      → m ≡ polling
      → Fits t.pc t.installs m (shared t.world)
      → (u.locked ≡ false)
        × Follows t.world.action.state (starts t.world.trace) u.action.state u.threads_started
      → Fits
          (if ltb (starts t.world.trace) u.threads_started then starting else t.pc)
          t.installs
          m
          u
  poll-IsFit t polling u k (_, f, _) (l, p) = (l, poll-fits t.pc t.installs _ _ _ _ f p, tt)
  poll-IsFit t (waiting id x) u k i p = absurd cc

  Next-IsFit : {t u : Client E} → Next s t u → IsFit t → IsFit u
  Next-IsFit {t} (poll root res {r} {w} k e) i =
      poll-IsFit t t.main (shared w) k i (polled t i root res e)
  Next-IsFit {t} (ask stop_id k o e) i = (asked t i stop_id k o e).0
  Next-IsFit {t} (wake stop_id seen k e) i = (woke t i stop_id seen k e).0
  Next-IsFit {t} (download {pc} {w} e) i =
      Takes-Fits _ _ _ t.pc pc t.installs t.main (shared t.world) (shared w) (moved t i e) i
  Next-IsFit {t} (progress msg c e) i =
      subst (Fits t.pc true t.main) (sym (progressed t i msg e))
        (refl, installs_fits t i c, Owned-lock t.main (shared t.world) i.2)
  Next-IsFit {t} (complete b c e) i = subst (Fits t.pc false t.main) (sym (completed t i b e)) (
    refl,
    complete-fits t.pc (is_waiting t.main) t.world.action.state b (installs_fits t i c),
    Owned-state t.main _ (shared t.world) i.2,
  )
  Next-IsFit (outside env) i = i

  Comes-IsFit : {t : Client E} → Comes s t → IsFit t
  Comes-IsFit (start w artifact r h k) = (h, rw k refl, tt)
  Comes-IsFit (later c st) = Next-IsFit st (Comes-IsFit c)

-- Over any number of deployments, in whatever order the polls, `process_cancel`, the download
-- threads and the callbacks of the installations take their turns, the mutex is free between two
-- steps and the state of the action tells what the threads do. It is processing exactly before the
-- first test of the thread, downloading up to its last one, and installing from there until RAUC is
-- done; cancel_requested takes the place of the first two while `process_cancel` waits, which it
-- does for the action that the client works on. In every other state there is neither a download
-- thread nor an installation. Bundles are not streamed, hawkBit cancels another action than the
-- client's only while the client works on none, and the callback that starts the installation just
-- starts it.
pub Comes-Fits :
    {Node C E : Type 0} (s : Services Node C E) (t : Client E)
    → ((u : UserData) → Calm (s.software_ready_cb u))
    → s.config.stream_bundle ≡ false
    → Comes s t
    → Fits t.pc t.installs t.main (shared t.world)
Comes-Fits s t q n c = Comes-IsFit s q n c
