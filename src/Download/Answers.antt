-- ===== src/Download/Answers.antt =====
-- src/hawkbit-client.c: what a step of the download thread makes of a cancelation that was requested.
use rauc_hawkbit_updater.Base.{◌⊎◌, inl, inr, ◌≢◌, ◌<◌, Bool, true, false, ◌≡◌, refl, arith}
use rauc_hawkbit_updater.Exec.{Outcome, done, fail, crash}
use rauc_hawkbit_updater.World.{ActionState, cancel_requested, Artifact, UserData}
use rauc_hawkbit_updater.World.Quiet.{Shared, Calm}
use rauc_hawkbit_updater.World.Runs.{Runs-weaken, Runs}
use rauc_hawkbit_updater.Services.{Services}
use rauc_hawkbit_updater.Cancel.Answers.{is_unanswerable}
use rauc_hawkbit_updater.Download.Table.{requested_ne, is_testing, Move, Takes}
use rauc_hawkbit_updater.Download.Refines.{download_step-Takes-Runs}
use rauc_hawkbit_updater.Download.{is_answering, is_download_only, Pc, download_step}

-- What the threads share is as it was, and the place is of the same kind.
abbrev pub Keeps : Pc → Shared → Pc → Shared → Type 0
Keeps pc v pc' u =
    (u.action ≡ v.action) × (u.signals_sent ≡ v.signals_sent) × (is_answering pc' ≡ is_answering pc)

-- No cancelation was or is requested, and where the thread comes to no test any more, the action is
-- not in progress.
abbrev pub Advances : Pc → Shared → Pc → Shared → Type 0
Advances pc v pc' u =
    (v.action.state ≢ cancel_requested)
    × (is_answering pc ≡ true)
    × (u.action.state ≢ cancel_requested)
    × ((is_answering pc' ≡ true) ⊎ (is_unanswerable u.action.state ≡ false))

-- The condition is signalled, and the action is not in progress.
abbrev pub GivesUp : Pc → Shared → Pc → Shared → Type 0
GivesUp pc v pc' u =
    (is_answering pc ≡ true)
    × (is_answering pc' ≡ false)
    × (is_unanswerable u.action.state ≡ false)
    × (v.signals_sent < u.signals_sent)

abbrev pub Answers : Pc → Shared → Outcome Pc → Shared → Type 0
Answers pc v (done pc') u =
    (u.locked ≡ false)
    × (u.action.id ≡ v.action.id)
    × (Keeps pc v pc' u ⊎ (Advances pc v pc' u ⊎ GivesUp pc v pc' u))
Answers pc v (fail e) u = ⊥
Answers pc v (crash c) u = Unit

testing-answering : (pc : Pc) → is_testing pc ≡ true → is_answering pc ≡ true
testing-answering pc a = ground arith

-- `Advances`, of the states alone.
abbrev GoesOn : Pc → ActionState → Pc → ActionState → Type 0
GoesOn pc st pc' st' =
    (st ≢ cancel_requested)
    × (is_answering pc ≡ true)
    × (st' ≢ cancel_requested)
    × ((is_answering pc' ≡ true) ⊎ (is_unanswerable st' ≡ false))

silent-Move :
    {artifact : Artifact} {resume only : Bool} {pc pc' : Pc} {st st' : ActionState}
    → only ≡ false
    → Move artifact resume only pc st false pc' st'
    → ((st' ≡ st) × (is_answering pc' ≡ is_answering pc)) ⊎ GoesOn pc st pc' st'
silent-Move d (Move.begins n) = inr (requested_ne _ n, refl, requested_ne _ refl, inl refl)
silent-Move d (Move.arrives sum speed) = inl (refl, refl)
silent-Move d (Move.breaks e k) = inl (refl, refl)
silent-Move d (Move.is_cut_off e r k) = inl (refl, refl)
silent-Move d (Move.resumes n) = inl (refl, refl)
silent-Move d (Move.matches k) = inl (refl, refl)
silent-Move d (Move.differs e k) = inl (refl, refl)
silent-Move d (Move.is_kept o) = absurd cc
silent-Move d (Move.goes_on o) = inl (refl, refl)
silent-Move d (Move.defers n k) = inr (requested_ne _ n, refl, requested_ne _ refl, inr refl)
silent-Move d (Move.returns r) = inl (refl, refl)
silent-Move d Move.is_over = inl (refl, refl)

signal-Move :
    {artifact : Artifact} {resume only : Bool} {pc pc' : Pc} {st st' : ActionState}
    → Move artifact resume only pc st true pc' st'
    → GoesOn pc st pc' st'
      ⊎ ((is_answering pc ≡ true) × (is_answering pc' ≡ false) × (is_unanswerable st' ≡ false))
signal-Move (Move.is_canceled a e) = inr (testing-answering _ a, refl, refl)
signal-Move (Move.installs n k) = inl (requested_ne _ n, refl, requested_ne _ refl, inr refl)
signal-Move Move.reports = inr (refl, refl, refl)

Takes-Answers :
    (artifact : Artifact) (resume only : Bool) (pc : Pc) (v : Shared) (r : Outcome Pc) (u : Shared)
    → only ≡ false
    → Takes artifact resume only pc v r u
    → Answers pc v r u
Takes-Answers artifact resume only pc v (done pc') u d (l, i, _, inl (m, n)) = (
  l,
  i,
  elim (silent-Move d m) [
    | inl (k, a) ↦ inl ((λ j. record { id = i j; state = k j }), n, a)
    | inr g ↦ inr (inl g)
  ],
)
Takes-Answers artifact resume only pc v (done pc') u d (l, i, _, inr (m, n)) = (
  l,
  i,
  elim (signal-Move m) [ inl g ↦ inr (inl g) | inr (a, b, k) ↦ inr (inr (a, b, k, omega arith)) ],
)
Takes-Answers artifact resume only pc v (fail e) u d x = x
Takes-Answers artifact resume only pc v (crash c) u d x = tt

module _ {Node C E : Type 0} (s : Services Node C E) (artifact : Artifact) where
  pub download_step-Answers-Runs :
      (v : Shared) (h : v.locked ≡ false) (pc : Pc)
      → is_download_only s artifact ≡ false
      → ((u : UserData) → Calm (s.software_ready_cb u))
      → Runs (download_step s artifact pc) v (Answers pc v)
  download_step-Answers-Runs v h pc d q =
      Runs-weaken v _ (download_step-Takes-Runs s artifact v h pc q)
        (λ r u x. Takes-Answers artifact s.config.resume_downloads _ pc v r u d x)
