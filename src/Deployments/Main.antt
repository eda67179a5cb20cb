-- ===== src/Deployments/Main.antt =====
-- src/hawkbit-client.c: the main thread between two polls keeps the state of the action fitting.
use rauc_hawkbit_updater.Base.{
  String, Bool, true, false, ◌≡◌, refl, ◌⊎◌, inl, inr, some, strcmp0_eq, subst, ap, ◌∙◌, sym, arith,
  ◌&&◌, Bool-cases,
}
use rauc_hawkbit_updater.Exec.{Outcome, done, fail, crash, continue}
use rauc_hawkbit_updater.World.{ActionState, state_none}
use rauc_hawkbit_updater.World.Quiet.{Shared}
use rauc_hawkbit_updater.World.Runs.{
  Runs, Runs-if, Runs-bind, Runs-lock-bind, Runs-gets_state-bind, with_lock,
}
use rauc_hawkbit_updater.Services.{Services}
use rauc_hawkbit_updater.Cancel.{begin_cancel}
use rauc_hawkbit_updater.Cancel.Answers.{state_for}
use rauc_hawkbit_updater.Download.{Pc}
use rauc_hawkbit_updater.System.Asks.{begin_cancel-Runs, go_wait-Runs, finish-Runs}
use rauc_hawkbit_updater.System.{MainPc, go_wait, finish, wait_or_finish, ask_cancel, woken}
use rauc_hawkbit_updater.Deployments.{is_idle}
use rauc_hawkbit_updater.Deployments.Diagram.{◌⟶◌, stays, forgets, requests-⟶}
use rauc_hawkbit_updater.Deployments.Fits.{fits, Fits, begin-fits, woken-fits}

-- What a step of the main thread ends with, from the state `st`.
abbrev pub Ends : Pc → Bool → ActionState → Outcome MainPc → Shared → Type 0
Ends pc i st (done m) u = Fits pc i m u × (st ⟶ u.action.state)
Ends pc i st (fail e) u = ⊥
Ends pc i st (crash c) u = Unit

pub none-fits :
    (pc : Pc) (i : Bool) (st : ActionState)
    → fits pc i false st ≡ true
    → is_idle st ≡ true
    → fits pc i false state_none ≡ true
none-fits pc i st f d = ground arith

state_for-fits :
    (stop_id : String) (pc : Pc) (i : Bool) (v : Shared)
    → fits pc i false v.action.state ≡ true
    → (is_idle v.action.state ≡ true) ⊎ (strcmp0_eq (some stop_id) v.action.id ≡ true)
    → fits pc i false (state_for stop_id v) ≡ true
state_for-fits stop_id pc i v f (inr own) = rw own f
state_for-fits stop_id pc i v f (inl d) =
    elim (Bool-cases (strcmp0_eq (some stop_id) v.action.id)) [
      | inl e ↦ rw e f
      | inr e ↦ rw e (none-fits pc i v.action.state f d)
    ]

state_for-⟶ :
    (stop_id : String) (v : Shared)
    → (is_idle v.action.state ≡ true) ⊎ (strcmp0_eq (some stop_id) v.action.id ≡ true)
    → v.action.state ⟶ state_for stop_id v
state_for-⟶ stop_id v (inr own) = rw own stays
state_for-⟶ stop_id v (inl d) = elim (Bool-cases (strcmp0_eq (some stop_id) v.action.id)) [
  | inl e ↦ rw e stays
  | inr e ↦ rw e (forgets d)
]

module _ {Node C E : Type 0} (s : Services Node C E) where
  finish-Ends :
      (stop_id : String) (pc : Pc) (i : Bool) (st : ActionState) (u : Shared)
      → fits pc i false (state_for stop_id u) ≡ true
      → st ⟶ state_for stop_id u
      → Runs (finish s stop_id) u (Ends pc i st)
  finish-Ends stop_id pc i st u f g =
      finish-Runs s stop_id u
        (λ u' l e n. ((l, ap (λ x. fits pc i false x) e ∙ f, tt), subst (λ x. st ⟶ x) (sym e) g))
        (λ c u'. tt)

  go_wait-Ends :
      (stop_id : String) (pc : Pc) (i : Bool) (st : ActionState) (u : Shared)
      → fits pc i true u.action.state ≡ true
      → strcmp0_eq (some stop_id) u.action.id ≡ true
      → st ⟶ u.action.state
      → Runs (go_wait s stop_id) u (Ends pc i st)
  go_wait-Ends stop_id pc i st u f o g = go_wait-Runs s stop_id u ((refl, f, o), g)

  module _ (pc : Pc) (i : Bool) (v : Shared) (h : v.locked ≡ false) (stop_id : String) where
    abbrev Begun : Outcome Bool → Shared → Type 0
    Begun (done true) u =
        (fits pc i true u.action.state ≡ true)
        × (strcmp0_eq (some stop_id) u.action.id ≡ true)
        × (v.action.state ⟶ u.action.state)
    Begun (done false) u = u ≡ with_lock true v
    Begun (fail e) u = ⊥
    Begun (crash c) u = Unit

    and_left : (a b : Bool) → (a && b) ≡ true → a ≡ true
    and_left a b e = ground arith

    and_right : (a b : Bool) → (a && b) ≡ true → b ≡ true
    and_right a b e = ground arith

    begin_cancel-Begun :
        fits pc i false v.action.state ≡ true
        → Runs (begin_cancel {E = E} stop_id) (with_lock true v) Begun
    begin_cancel-Begun f =
        begin_cancel-Runs stop_id (with_lock true v)
          (λ e. (
            begin-fits pc i v.action.state f (and_right _ _ e),
            and_left _ _ e,
            requests-⟶ v.action.state (and_right _ _ e),
          ))
          (λ e. refl)

    pub ask_cancel-Ends :
        fits pc i false v.action.state ≡ true
        → (is_idle v.action.state ≡ true) ⊎ (strcmp0_eq (some stop_id) v.action.id ≡ true)
        → Runs (ask_cancel s stop_id) v (Ends pc i v.action.state)
    unfolding ask_cancel
    ask_cancel-Ends f k = Runs-lock-bind v _ h (Runs-bind _ _ _ (begin_cancel-Begun f) goes_on)
      where
        goes_on :
            (r : Outcome Bool) (u : Shared)
            → Begun r u
            → Runs (continue r (λ b. wait_or_finish s stop_id b)) u (Ends pc i v.action.state)
        goes_on (done true) u (g, o, x) = go_wait-Ends stop_id pc i v.action.state u g o x
        goes_on (done false) u e =
            subst (λ x. Runs (finish s stop_id) x (Ends pc i v.action.state)) (sym e)
              (finish-Ends stop_id pc i v.action.state (with_lock true v)
                (state_for-fits stop_id pc i v f k) (state_for-⟶ stop_id v k))
        goes_on (fail e) u x = absurd x
        goes_on (crash c) u x = record { at = λ w e. tt }

    pub woken-Ends :
        fits pc i true v.action.state ≡ true
        → strcmp0_eq (some stop_id) v.action.id ≡ true
        → Runs (woken s stop_id) v (Ends pc i v.action.state)
    unfolding woken
    woken-Ends f o = Runs-lock-bind v _ h (
        Runs-gets_state-bind _ _ (
          Runs-if _ _ _ _ (λ e. go_wait-Ends stop_id pc i _ _ f o stays)
            (λ e.
              finish-Ends stop_id pc i _ _
                (state_for-fits stop_id pc i v (woken-fits pc i v.action.state f e) (inr o))
                (state_for-⟶ stop_id v (inr o)))))
