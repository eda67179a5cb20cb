-- ===== src/System/Phases.antt =====
-- src/hawkbit-client.c: what holds between two steps of the threads of one deployment.
use rauc_hawkbit_updater.Base.{
  if◌then◌else◌, ◌||◌, ◌&&◌, ℕ, ◌<◌, ◌≤◌, String, Bool, true, false, ◌≡◌, ◌≢◌, refl, sym, ap, ◌∙◌,
  ◌⊎◌, inl, inr, arith,
}
use rauc_hawkbit_updater.Exec.{done}
use rauc_hawkbit_updater.World.{
  error, success, downloading, HawkbitAction, state_eq, ActionState, cancel_requested, processing,
}
use rauc_hawkbit_updater.World.Quiet.{Shared}
use rauc_hawkbit_updater.World.Runs.{with_state, with_lock}
use rauc_hawkbit_updater.Cancel.Answers.{is_unanswerable}
use rauc_hawkbit_updater.Download.{Pc, is_answering}
use rauc_hawkbit_updater.Download.Answers.{GivesUp, Advances, Keeps, Answers}
use rauc_hawkbit_updater.System.{MainPc, polling, waiting}

-- Between two calls of `process_cancel`, no cancelation is requested, and an action in progress has
-- a download thread that still comes to a test. While one waits, it is either still requested and the
-- thread comes to a test, or the condition has been signalled since and the switch answers the state.
abbrev pub Phase : MainPc → Pc → Shared → Type 0
Phase polling pc v =
    (v.action.state ≢ cancel_requested)
    × ((is_answering pc ≡ true) ⊎ (is_unanswerable v.action.state ≡ false))
Phase (waiting stop_id seen) pc v =
    ((v.action.state ≡ cancel_requested) × (is_answering pc ≡ true) × (seen ≤ v.signals_sent))
    ⊎ ((is_unanswerable v.action.state ≡ false)
        × (is_answering pc ≡ false)
        × (seen < v.signals_sent))

abbrev pub Sound : MainPc → Pc → Shared → Type 0
Sound m pc v = (v.locked ≡ false) × Phase m pc v

pub answerable_ne : (st : ActionState) → is_unanswerable st ≡ false → st ≢ cancel_requested
answerable_ne st n e = ground arith

pub requested_of : (st : ActionState) → state_eq st cancel_requested ≡ true → st ≡ cancel_requested
requested_of st e = ground arith

-- An action that `process_cancel` asks to stop is one that the thread still works on.
pub in_progress :
    (st : ActionState) (pc : Pc) (b : Bool)
    → (b && (state_eq st processing || state_eq st downloading)) ≡ true
    → (is_answering pc ≡ true) ⊎ (is_unanswerable st ≡ false)
    → is_answering pc ≡ true
in_progress st pc b e (inl a) = a
in_progress st pc b e (inr n) = absurd (ground arith)

module _ (pc pc' : Pc) (v u : Shared) where
  abbrev Moved : Type 0
  Moved = Keeps pc v pc' u ⊎ (Advances pc v pc' u ⊎ GivesUp pc v pc' u)

  -- A step of the download thread between two calls of `process_cancel`, and while one waits.
  polling-Moved : Phase polling pc v → Moved → Phase polling pc' u
  polling-Moved (n, inl a) (inl (k, _, same)) =
      ((λ e. n (ap (λ (x : HawkbitAction). x.state) (sym k) ∙ e)), inl (same ∙ a))
  polling-Moved (n, inr b) (inl (k, _, same)) = (
    (λ e. n (ap (λ (x : HawkbitAction). x.state) (sym k) ∙ e)),
    inr (ap (λ (x : HawkbitAction). is_unanswerable x.state) k ∙ b),
  )
  polling-Moved p (inr (inl (_, _, n, k))) = (n, k)
  polling-Moved p (inr (inr (_, _, b, _))) = (answerable_ne _ b, inr b)

  waiting-Moved :
      (stop_id : String) (seen : ℕ)
      → Phase (waiting stop_id seen) pc v
      → Moved
      → Phase (waiting stop_id seen) pc' u
  waiting-Moved stop_id seen (inl (e, a, le)) (inl (k, sig, same)) =
      inl (ap (λ (x : HawkbitAction). x.state) k ∙ e, same ∙ a, omega arith)
  waiting-Moved stop_id seen (inr (b, a, lt)) (inl (k, sig, same)) =
      inr (ap (λ (x : HawkbitAction). is_unanswerable x.state) k ∙ b, same ∙ a, omega arith)
  waiting-Moved stop_id seen (inl (e, a, le)) (inr (inl (n, _, _, _))) = absurd (n e)
  waiting-Moved stop_id seen (inl (e, a, le)) (inr (inr (_, gone, b, sig))) =
      inr (b, gone, omega arith)
  waiting-Moved stop_id seen (inr (b, a, lt)) (inr (inl (_, on, _, _))) = cc
  waiting-Moved stop_id seen (inr (b, a, lt)) (inr (inr (on, _, _, _))) = cc

pub Answers-Sound :
    (m : MainPc) (pc pc' : Pc) (v u : Shared)
    → Sound m pc v
    → Answers pc v (done pc') u
    → Sound m pc' u
Answers-Sound polling pc pc' v u (_, p) (l, _, a) = (l, polling-Moved pc pc' v u p a)
Answers-Sound (waiting stop_id seen) pc pc' v u (_, p) (l, _, a) =
    (l, waiting-Moved pc pc' v u stop_id seen p a)

-- A callback of the installation.
pub unlocked-Phase :
    (m : MainPc) (pc : Pc) (v : Shared) → Phase m pc v → Phase m pc (with_lock false v)
unlocked-Phase polling pc v p = p
unlocked-Phase (waiting stop_id seen) pc v p = p

pub completed-Phase :
    (m : MainPc) (pc : Pc) (v : Shared) (st : ActionState)
    → is_answering pc ≡ false
    → is_unanswerable st ≡ false
    → Phase m pc v
    → Phase m pc (with_lock false (with_state st v))
completed-Phase polling pc v st a b p = (answerable_ne st b, inr b)
completed-Phase (waiting stop_id seen) pc v st a b (inl (_, on, _)) = cc
completed-Phase (waiting stop_id seen) pc v st a b (inr (_, _, lt)) = inr (b, a, lt)

pub result_answerable : (b : Bool) → is_unanswerable (if b then success else error) ≡ false
result_answerable true = refl
result_answerable false = refl
