-- ===== src/Deployments/Diagram.antt =====
-- include/hawkbit-client.h, src/hawkbit-client.c: the states of the action as a diagram, of the steps that
-- one thread sees the others make.
use rauc_hawkbit_updater.Base.{
  Bool, true, false, ◌≡◌, refl, ◌⊎◌, inl, inr, ◌||◌, if◌then◌else◌, arith, sym, subst,
}
use rauc_hawkbit_updater.World.{
  Artifact, ActionState, state_none, canceled, error, success, processing, downloading, installing,
  cancel_requested, state_eq,
}
use rauc_hawkbit_updater.Download.{Pc, verified, last_chance, report_err}
use rauc_hawkbit_updater.Download.Table.{Move}
use rauc_hawkbit_updater.Deployments.{is_idle}
use rauc_hawkbit_updater.Deployments.Fits.{fits}

infix 40 ◌⟶◌
pub data ◌⟶◌ : ActionState → ActionState → Type 0 where
  stays : {st : ActionState} → st ⟶ st
  -- a new deployment, and one that is given up, put off or unknown
  adopts : {st : ActionState} → is_idle st ≡ true → st ⟶ processing
  forgets : {st : ActionState} → is_idle st ≡ true → st ⟶ state_none
  -- the download thread
  begins : processing ⟶ downloading
  installs : downloading ⟶ installing
  defers : downloading ⟶ state_none
  is_kept : {st : ActionState} → (st ≡ downloading) ⊎ (st ≡ cancel_requested) → st ⟶ success
  fails : {st : ActionState} → (st ≡ downloading) ⊎ (st ≡ cancel_requested) → st ⟶ error
  cancels : cancel_requested ⟶ canceled
  -- `process_cancel`
  requests : {st : ActionState} → (st ≡ processing) ⊎ (st ≡ downloading) → st ⟶ cancel_requested
  -- the end of the installation
  ends : (install_success : Bool) → installing ⟶ (if install_success then success else error)

pub state_of : (st st' : ActionState) → state_eq st st' ≡ true → st ≡ st'
state_of st st' e = ground arith

-- The places of a thread that is at work on a download.
abbrev is_working : Pc → Bool
is_working verified = true
is_working last_chance = true
is_working (report_err e) = true
is_working _ = false

working :
    (pc : Pc) (i w : Bool) (st : ActionState)
    → is_working pc ≡ true
    → fits pc i w st ≡ true
    → (st ≡ downloading) ⊎ (st ≡ cancel_requested)
working pc i true st k f = inr (state_of st cancel_requested (ground arith))
working pc i false st k f = inl (state_of st downloading (ground arith))

untested :
    (pc : Pc) (i w : Bool) (st : ActionState)
    → is_working pc ≡ true
    → fits pc i w st ≡ true
    → state_eq st cancel_requested ≡ false
    → st ≡ downloading
untested pc i w st k f n = state_of st downloading (ground arith)

pub requests-⟶ :
    (st : ActionState)
    → (state_eq st processing || state_eq st downloading) ≡ true
    → st ⟶ cancel_requested
requests-⟶ processing e = requests (inl refl)
requests-⟶ downloading e = requests (inr refl)
requests-⟶ state_none e = absurd cc
requests-⟶ canceled e = absurd cc
requests-⟶ error e = absurd cc
requests-⟶ success e = absurd cc
requests-⟶ installing e = absurd cc
requests-⟶ cancel_requested e = absurd cc

pub completes-⟶ :
    (pc : Pc) (w : Bool) (st : ActionState) (b : Bool)
    → fits pc true w st ≡ true
    → st ⟶ (if b then success else error)
completes-⟶ pc w st b f =
    subst (λ x. x ⟶ (if b then success else error)) (sym (state_of st installing (ground arith)))
      (ends b)

-- Each move of the download thread is one of the diagram.
pub Move-⟶ :
    {artifact : Artifact} {resume only b : Bool} {pc pc' : Pc} {st st' : ActionState} (i w : Bool)
    → Move artifact resume only pc st b pc' st'
    → fits pc i w st ≡ true
    → st ⟶ st'
Move-⟶ i w (Move.begins {st} n) f =
    subst (λ x. x ⟶ downloading) (sym (state_of st processing (ground arith))) begins
Move-⟶ i w (Move.is_canceled {pc} {st} a e) f =
    subst (λ x. x ⟶ canceled) (sym (state_of st cancel_requested e)) cancels
Move-⟶ i w (Move.arrives sum speed) f = stays
Move-⟶ i w (Move.breaks e k) f = stays
Move-⟶ i w (Move.is_cut_off e r k) f = stays
Move-⟶ i w (Move.resumes n) f = stays
Move-⟶ i w (Move.matches k) f = stays
Move-⟶ i w (Move.differs e k) f = stays
Move-⟶ i w (Move.is_kept {st} o) f = is_kept (working verified i w st refl f)
Move-⟶ i w (Move.goes_on o) f = stays
Move-⟶ i w (Move.defers {st} n k) f =
    subst (λ x. x ⟶ state_none) (sym (untested last_chance i w st refl f n)) defers
Move-⟶ i w (Move.installs {st} n k) f =
    subst (λ x. x ⟶ installing) (sym (untested last_chance i w st refl f n)) installs
Move-⟶ i w (Move.returns r) f = stays
Move-⟶ i w (Move.reports {e} {st}) f = fails (working (report_err e) i w st refl f)
Move-⟶ i w Move.is_over f = stays
