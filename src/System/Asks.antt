-- ===== src/System/Asks.antt =====
-- src/hawkbit-client.c: the rules for the parts of `process_cancel` that the main thread steps through.
use rauc_hawkbit_updater.Base.{
  refl, Bool-cases, inl, inr, ◌⊎◌, Bool, true, false, ◌≡◌, sym, subst, String, some, strcmp0_eq,
  ◌&&◌, ◌||◌,
}
use rauc_hawkbit_updater.Exec.{
  Outcome, done, fail, crash, Crash, pure, attempt, attempted, continue, gets, modify, ◌>>=◌, ◌>>◌,
}
use rauc_hawkbit_updater.World.{
  lock, World, processing, downloading, cancel_requested, state_eq, set_state, unlock,
}
use rauc_hawkbit_updater.World.Quiet.{signals, Shared, shared}
use rauc_hawkbit_updater.World.Runs.{
  Runs, Runs-pure, Runs-if, Runs-set_state-bind, Runs-gets_action-bind, with_lock, with_state,
}
use rauc_hawkbit_updater.Services.{Services}
use rauc_hawkbit_updater.Cancel.{begin_cancel, finish_cancel}
use rauc_hawkbit_updater.Cancel.Answers.{is_unanswerable, state_for, Finished, finish_cancel-Runs}
use rauc_hawkbit_updater.System.{woken, MainPc, polling, waiting, go_wait, finish}

-- Whether the cancelation is for an action that a download thread works on.
abbrev pub is_asked : String → Shared → Bool
is_asked stop_id v =
    strcmp0_eq (some stop_id) v.action.id
    && (state_eq v.action.state processing || state_eq v.action.state downloading)

pub begin_cancel-Runs :
    {E : Type 0} {Q : Outcome Bool → Shared → Type 0} (stop_id : String) (v : Shared)
    → (is_asked stop_id v ≡ true → Q (done true) (with_state cancel_requested v))
    → (is_asked stop_id v ≡ false → Q (done false) v)
    → Runs (begin_cancel {E = E} stop_id) v Q
unfolding begin_cancel
begin_cancel-Runs {E} stop_id v p q = Runs-gets_action-bind _ _ (
    Runs-if _ (is_asked stop_id v) (set_state {E = E} cancel_requested >> pure true) (pure false)
      (λ e. Runs-set_state-bind _ (λ _. pure true) cancel_requested (Runs-pure _ true (p e)))
      (λ e. Runs-pure _ false (q e)))

module _ {Node C E : Type 0} (s : Services Node C E) {Q : Outcome MainPc → Shared → Type 0}
    (stop_id : String) (u : Shared) where
  pub go_wait-Runs :
      Q (done (waiting stop_id u.signals_sent)) (with_lock false u) → Runs (go_wait s stop_id) u Q
  unfolding go_wait gets unlock pure modify ◌>>=◌
  go_wait-Runs k = record {
    at = λ w e.
        subst (λ (x : Shared). Q (done (waiting stop_id x.signals_sent)) (with_lock false x))
          (sym e) k;
  }

  pub finish-Runs :
      ((u' : Shared)
        → u'.locked ≡ false
        → u'.action.state ≡ state_for stop_id u
        → is_unanswerable u'.action.state ≡ false
        → Q (done polling) u')
      → ((c : Crash) (u' : Shared) → Q (crash c) u')
      → Runs (finish s stop_id) u Q
  unfolding finish attempt pure ◌>>=◌
  finish-Runs k x = record {
    at = λ w e.
        let (r, w') = finish_cancel s stop_id w in
        ended r w' ((finish_cancel-Runs s stop_id u).at w e);
  }
    where
      ended :
          (r : Outcome (Unit {0})) (w : World E)
          → Finished stop_id u r (shared w)
          → Q
              (continue (attempted r) (λ _. pure polling) w).0
              (shared (continue (attempted r) (λ _. pure polling) w).1)
      ended (done a) w (l, _, st, _, n) = k (shared w) l st n
      ended (fail e) w (l, _, st, n) = k (shared w) l st n
      ended (crash c) w h = x c (shared w)

-- A wait that is woken while the cancelation is still requested goes on, with nothing changed.
abbrev pub WaitsAgain : {Node C E : Type 0} (s : Services Node C E) → MainPc → World E → Type 0
WaitsAgain s polling w = Unit
WaitsAgain s (waiting stop_id seen) w =
    (state_eq w.action.state cancel_requested ≡ false)
    ⊎ (woken s stop_id w ≡ (done (waiting stop_id (signals w.trace)), w))

module _ {Node C E : Type 0} (s : Services Node C E) where
  woken-again :
      (stop_id : String) (w : World E)
      → w.locked ≡ false
      → state_eq w.action.state cancel_requested ≡ true
      → woken s stop_id w ≡ (done (waiting stop_id (signals w.trace)), w)
  unfolding woken go_wait lock gets unlock modify pure ◌>>=◌
  woken-again stop_id w h e = rw (h, e) refl

  pub waits_again : (m : MainPc) (w : World E) → w.locked ≡ false → WaitsAgain s m w
  waits_again polling w h = tt
  waits_again (waiting stop_id seen) w h =
      elim (Bool-cases (state_eq w.action.state cancel_requested)) [
        | inl e ↦ inr (woken-again stop_id w h e)
        | inr n ↦ inl n
      ]
