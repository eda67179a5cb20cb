-- ===== src/Download/Stops.antt =====
-- src/hawkbit-client.c: once a cancelation is requested, the download thread comes to an end, also where
-- downloads are resumed.
use rauc_hawkbit_updater.Base.{◌-◌, ℕ, ◌≤◌, Bool, true, false, ◌≡◌, ◌⊎◌, inl, inr, arith}
use rauc_hawkbit_updater.Exec.{Outcome, done, fail, crash}
use rauc_hawkbit_updater.World.{ActionState, Artifact, UserData, cancel_requested, state_eq}
use rauc_hawkbit_updater.World.Quiet.{Shared, Calm}
use rauc_hawkbit_updater.World.Runs.{Runs-weaken, Runs}
use rauc_hawkbit_updater.Services.{Services}
use rauc_hawkbit_updater.Download.Table.{Move, Takes}
use rauc_hawkbit_updater.Download.Refines.{download_step-Takes-Runs}
use rauc_hawkbit_updater.Download.{
  Pc, starting, attempting, resuming, verified, last_chance, ready, downloaded, report_err,
  finished, download_step, is_answering,
}

-- How many steps are left where a cancelation is requested, or no test for one comes any more.
abbrev pub tests_left : Pc → ℕ
tests_left starting = 1
tests_left resuming = 1
tests_left attempting = 5
tests_left (downloaded sha1sum speed) = 4
tests_left verified = 3
tests_left last_chance = 2
tests_left (report_err e) = 1
tests_left ready = 1
tests_left (finished r) = 0

abbrev pub Sooner : Pc → Outcome Pc → Shared → Type 0
Sooner pc (done pc') u = tests_left pc' ≤ tests_left pc - 1
Sooner pc (fail e) u = ⊥
Sooner pc (crash c) u = Unit

Move-Sooner :
    {artifact : Artifact} {resume only b : Bool} {pc pc' : Pc} {st st' : ActionState}
    → (state_eq st cancel_requested ≡ true) ⊎ (is_answering pc ≡ false)
    → Move artifact resume only pc st b pc' st'
    → tests_left pc' ≤ tests_left pc - 1
Move-Sooner (inl r) (Move.begins e) = absurd cc
Move-Sooner (inr n) (Move.begins e) = absurd cc
Move-Sooner k (Move.is_canceled a e) = omega arith
Move-Sooner k (Move.arrives sum speed) = omega arith
Move-Sooner x (Move.breaks e k) = omega arith
Move-Sooner x (Move.is_cut_off e r k) = omega arith
Move-Sooner (inl r) (Move.resumes e) = absurd cc
Move-Sooner (inr n) (Move.resumes e) = absurd cc
Move-Sooner x (Move.matches k) = omega arith
Move-Sooner x (Move.differs e k) = omega arith
Move-Sooner k (Move.is_kept o) = omega arith
Move-Sooner k (Move.goes_on o) = omega arith
Move-Sooner x (Move.defers e k) = omega arith
Move-Sooner x (Move.installs e k) = omega arith
Move-Sooner k (Move.returns r) = omega arith
Move-Sooner k Move.reports = omega arith
Move-Sooner k Move.is_over = omega arith

Takes-Sooner :
    (artifact : Artifact) (resume only : Bool) (pc : Pc) (v : Shared) (r : Outcome Pc) (u : Shared)
    → (state_eq v.action.state cancel_requested ≡ true) ⊎ (is_answering pc ≡ false)
    → Takes artifact resume only pc v r u
    → Sooner pc r u
Takes-Sooner artifact resume only pc v (done pc') u k (_, _, _, inl (m, _)) = Move-Sooner k m
Takes-Sooner artifact resume only pc v (done pc') u k (_, _, _, inr (m, _)) = Move-Sooner k m
Takes-Sooner artifact resume only pc v (fail e) u k x = x
Takes-Sooner artifact resume only pc v (crash c) u k x = tt

module _ {Node C E : Type 0} (s : Services Node C E) (artifact : Artifact) where
  pub download_step-Sooner-Runs :
      (v : Shared) (h : v.locked ≡ false) (pc : Pc)
      → ((u : UserData) → Calm (s.software_ready_cb u))
      → (state_eq v.action.state cancel_requested ≡ true) ⊎ (is_answering pc ≡ false)
      → Runs (download_step s artifact pc) v (Sooner pc)
  download_step-Sooner-Runs v h pc q k =
      Runs-weaken v _ (download_step-Takes-Runs s artifact v h pc q)
        (λ r u x. Takes-Sooner artifact s.config.resume_downloads _ pc v r u k x)
