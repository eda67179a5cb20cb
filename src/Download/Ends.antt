-- ===== src/Download/Ends.antt =====
-- src/hawkbit-client.c: the download thread comes to an end.
use rauc_hawkbit_updater.Base.{zero, ◌-◌, ℕ, suc, inl, inr, ◌≤◌, Bool, false, ◌≡◌, refl, arith}
use rauc_hawkbit_updater.Exec.{continue, Outcome, done, fail, crash}
use rauc_hawkbit_updater.World.{ActionState, World, Artifact, UserData}
use rauc_hawkbit_updater.World.Quiet.{Shared, shared, Calm}
use rauc_hawkbit_updater.World.Runs.{Runs-weaken, Runs, Runs-bind, Runs-pure}
use rauc_hawkbit_updater.Services.{Services}
use rauc_hawkbit_updater.Download.Table.{Move, Takes}
use rauc_hawkbit_updater.Download.Refines.{download_step-Takes-Runs}
use rauc_hawkbit_updater.Download.{
  Pc, starting, attempting, resuming, verified, last_chance, ready, downloaded, report_err,
  finished, download_step, download_run,
}

-- How many steps are left where downloads are not resumed.
abbrev pub steps_left : Pc → ℕ
steps_left starting = 6
steps_left resuming = 6
steps_left attempting = 5
steps_left (downloaded sha1sum speed) = 4
steps_left verified = 3
steps_left last_chance = 2
steps_left (report_err e) = 1
steps_left ready = 1
steps_left (finished r) = 0

-- Nearer to the end, with the mutex free.
abbrev pub Nearer : Pc → Outcome Pc → Shared → Type 0
Nearer pc (done pc') u = (u.locked ≡ false) × (steps_left pc' ≤ steps_left pc - 1)
Nearer pc (fail e) u = ⊥
Nearer pc (crash c) u = Unit

-- The thread has returned, with the mutex free.
abbrev pub Ended : Outcome Pc → Shared → Type 0
Ended (done (finished r)) u = u.locked ≡ false
Ended (done _) u = ⊥
Ended (fail e) u = ⊥
Ended (crash c) u = Unit

Move-Nearer :
    {artifact : Artifact} {resume only b : Bool} {pc pc' : Pc} {st st' : ActionState}
    → resume ≡ false
    → Move artifact resume only pc st b pc' st'
    → steps_left pc' ≤ steps_left pc - 1
Move-Nearer n (Move.begins e) = omega arith
Move-Nearer n (Move.is_canceled a e) = omega arith
Move-Nearer n (Move.arrives sum speed) = omega arith
Move-Nearer n (Move.breaks e k) = omega arith
Move-Nearer n (Move.is_cut_off e r k) = absurd cc
Move-Nearer n (Move.resumes e) = omega arith
Move-Nearer n (Move.matches k) = omega arith
Move-Nearer n (Move.differs e k) = omega arith
Move-Nearer n (Move.is_kept o) = omega arith
Move-Nearer n (Move.goes_on o) = omega arith
Move-Nearer n (Move.defers e k) = omega arith
Move-Nearer n (Move.installs e k) = omega arith
Move-Nearer n (Move.returns r) = omega arith
Move-Nearer n Move.reports = omega arith
Move-Nearer n Move.is_over = omega arith

Takes-Nearer :
    (artifact : Artifact) (resume only : Bool) (pc : Pc) (v : Shared) (r : Outcome Pc) (u : Shared)
    → resume ≡ false
    → Takes artifact resume only pc v r u
    → Nearer pc r u
Takes-Nearer artifact resume only pc v (done pc') u n (l, _, _, inl (m, _)) = (l, Move-Nearer n m)
Takes-Nearer artifact resume only pc v (done pc') u n (l, _, _, inr (m, _)) = (l, Move-Nearer n m)
Takes-Nearer artifact resume only pc v (fail e) u n x = x
Takes-Nearer artifact resume only pc v (crash c) u n x = tt

module _ {Node C E : Type 0} (s : Services Node C E) (artifact : Artifact) where
  module _ (n : s.config.resume_downloads ≡ false)
      (q : (u : UserData) → Calm (s.software_ready_cb u)) where
    pub download_step-Runs :
        (pc : Pc) (v : Shared) → v.locked ≡ false → Runs (download_step s artifact pc) v (Nearer pc)
    download_step-Runs pc v h =
        Runs-weaken v _ (download_step-Takes-Runs s artifact v h pc q)
          (λ r u x. Takes-Nearer artifact s.config.resume_downloads _ pc v r u n x)

    finished_already :
        (pc : Pc) (v : Shared) → v.locked ≡ false → steps_left pc ≤ 0 → Ended (done pc) v
    finished_already (finished r) v h k = h
    finished_already starting v h k = absurd (omega arith)
    finished_already attempting v h k = absurd (omega arith)
    finished_already resuming v h k = absurd (omega arith)
    finished_already verified v h k = absurd (omega arith)
    finished_already last_chance v h k = absurd (omega arith)
    finished_already ready v h k = absurd (omega arith)
    finished_already (downloaded sha1sum speed) v h k = absurd (omega arith)
    finished_already (report_err e) v h k = absurd (omega arith)

    -- What follows a step, by the rest of the run.
    go_on :
        (pc : Pc) (fuel : ℕ) (r : Outcome Pc) (u : Shared)
        → steps_left pc ≤ suc fuel
        → Nearer pc r u
        → ((pc' : Pc)
            → u.locked ≡ false
            → steps_left pc' ≤ fuel
            → Runs (download_run s artifact fuel pc') u Ended)
        → Runs (continue r (λ pc'. download_run s artifact fuel pc')) u Ended
    go_on pc fuel (done pc') u k (l, m) f = f pc' l (omega arith)
    go_on pc fuel (fail e) u k x f = absurd x
    go_on pc fuel (crash c) u k x f = record { at = λ w e. tt }

    download_run-Runs :
        (fuel : ℕ) (pc : Pc) (v : Shared)
        → v.locked ≡ false
        → steps_left pc ≤ fuel
        → Runs (download_run s artifact fuel pc) v Ended
    unfolding download_run
    download_run-Runs zero pc v h k = Runs-pure v pc (finished_already pc v h k)
    download_run-Runs (suc fuel) pc v h k =
        Runs-bind v _ _ (download_step-Runs pc v h)
          (λ r u x. go_on pc fuel r u k x (λ pc' l m. download_run-Runs fuel pc' u l m))

-- Where downloads are not resumed, the download thread comes to an end in at most six steps, with
-- the mutex free, from every state of the action. It never returns with an error; otherwise the
-- process is stopped. The callback that starts the installation just starts it.
pub download_run-Ended :
    {Node C E : Type 0} (s : Services Node C E) (artifact : Artifact) (fuel : ℕ) (w : World E)
    → s.config.resume_downloads ≡ false
    → ((u : UserData) → Calm (s.software_ready_cb u))
    → w.locked ≡ false
    → 6 ≤ fuel
    → Ended
        (download_run s artifact fuel starting w).0
        (shared (download_run s artifact fuel starting w).1)
download_run-Ended s artifact fuel w n q h k =
    (download_run-Runs s artifact n q fuel starting (shared w) h k).at w refl
