-- ===== src/Cancel/Answers.antt =====
-- src/hawkbit-client.c: how a cancelation ends, for the action and for hawkBit.
use rauc_hawkbit_updater.Base.{
  sym, subst, String, Bool, true, false, ◌≡◌, ◌≢◌, refl, ap, ◌∙◌, inl, inr, some, arith,
  if◌then◌else◌, strcmp0_eq, Bool-cases,
}
use rauc_hawkbit_updater.GError.{GError, Result, ok, err}
use rauc_hawkbit_updater.Exec.{
  gets, modify, Outcome, done, fail, crash, Exec, pure, attempt, attempted, continue, throw,
  of_result, stop, critical, ◌>>=◌, ◌>>◌,
}
use rauc_hawkbit_updater.World.{
  World, ActionState, state_none, canceled, error, success, processing, downloading, installing,
  cancel_requested, unlock, set_state,
}
use rauc_hawkbit_updater.World.Quiet.{shared, Shared, Quiet, quiet_rules, Quiet-pure, Quiet-stop}
use rauc_hawkbit_updater.World.Runs.{
  Runs, Runs-gets_id-bind, Runs-gets_state-bind, with_lock, with_state, Runs-bind,
}
use rauc_hawkbit_updater.Services.{Services}
use rauc_hawkbit_updater.Feedback.Effects.{feedback-Quiet}
use rauc_hawkbit_updater.Cancel.Tells.{answer_for, forgotten, told, finish_cancel-trace}
use rauc_hawkbit_updater.Feedback.{feedback}
use rauc_hawkbit_updater.Cancel.{
  forget_unknown, acknowledge, reject, answer_cancel, cancel_url_for, finish_cancel,
}

-- The state that the answer is about: the action's, or none if the action is not the one to stop.
abbrev pub state_for : String → Shared → ActionState
state_for stop_id v = if strcmp0_eq (some stop_id) v.action.id then v.action.state else state_none

-- The switch has no case for these.
abbrev pub is_unanswerable : ActionState → Bool
is_unanswerable processing = true
is_unanswerable downloading = true
is_unanswerable cancel_requested = true
is_unanswerable _ = false

-- The mutex is released; the action keeps its id and has the state that the answer was about; and the
-- return value is TRUE only if that was no installation.
abbrev pub Finished : String → Shared → Outcome (Unit {0}) → Shared → Type 0
Finished stop_id v (done _) u =
    (u.locked ≡ false)
    × (u.action.id ≡ v.action.id)
    × (u.action.state ≡ state_for stop_id v)
    × (u.action.state ≢ installing)
    × (is_unanswerable u.action.state ≡ false)
Finished stop_id v (fail e) u =
    (u.locked ≡ false)
    × (u.action.id ≡ v.action.id)
    × (u.action.state ≡ state_for stop_id v)
    × (is_unanswerable u.action.state ≡ false)
Finished stop_id v (crash c) u = Unit

-- What the switch makes of a state.
abbrev Allowed : ActionState → Outcome (Result (Unit {0})) → Type 0
Allowed st (done (ok _)) = (st ≢ installing) × (is_unanswerable st ≡ false)
Allowed st (done (err e)) = is_unanswerable st ≡ false
Allowed st (fail e) = ⊥
Allowed st (crash c) = Unit

answered-Allowed :
    (st : ActionState) (r : Outcome (Unit {0}))
    → is_unanswerable st ≡ false
    → st ≢ installing
    → Allowed st (attempted r)
answered-Allowed st (done x) h n = (n, h)
answered-Allowed st (fail e) h n = h
answered-Allowed st (crash c) h n = tt

throw-Allowed :
    {S : Type 0} (r : Outcome (Unit {0})) (x : GError) (t : S)
    → Allowed installing (attempted (continue r (λ _. throw x) t).0)
unfolding throw
throw-Allowed (done a) x t = refl
throw-Allowed (fail e) x t = refl
throw-Allowed (crash c) x t = tt

module _ {Node C E : Type 0} (s : Services Node C E) where
  reject-Quiet : (url stop_id : String) → Quiet (reject s url stop_id)
  unfolding reject
  reject-Quiet url stop_id = search (quiet_rules, feedback-Quiet)

  acknowledge-Quiet : (url stop_id : String) → Quiet (acknowledge s url stop_id)
  unfolding acknowledge
  acknowledge-Quiet url stop_id = feedback-Quiet s url (some stop_id) _ _ _

  attempt-Runs :
      (st : ActionState) (u : Shared) (m : Exec (World E) (Unit {0}))
      → Quiet m
      → ((w : World E) → Allowed st (attempted (m w).0))
      → Runs (attempt m) u (λ r u'. (u' ≡ u) × Allowed st r)
  unfolding attempt
  attempt-Runs st u m q k = record { at = λ w e. (q.at w ∙ e, k w) }

  reject-Allowed :
      (url stop_id : String) (w : World E)
      → Allowed installing (attempted (reject s url stop_id w).0)
  unfolding reject ◌>>=◌
  reject-Allowed url stop_id w =
      throw-Allowed (feedback s url (some stop_id) _ _ _ w).0 _
        (feedback s url (some stop_id) _ _ _ w).1

  -- The answer to hawkBit leaves the shared state alone.
  answer_cancel-Runs :
      (url stop_id : String) (st : ActionState) (u : Shared)
      → Runs (attempt (answer_cancel s url stop_id st)) u (λ r u'. (u' ≡ u) × Allowed st r)
  unfolding answer_cancel stop
  answer_cancel-Runs url stop_id state_none u =
      attempt-Runs state_none u _ (acknowledge-Quiet url stop_id)
        (λ w. answered-Allowed state_none _ refl (ground arith))
  answer_cancel-Runs url stop_id canceled u =
      attempt-Runs canceled u _ (acknowledge-Quiet url stop_id)
        (λ w. answered-Allowed canceled _ refl (ground arith))
  answer_cancel-Runs url stop_id success u =
      attempt-Runs success u _ (Quiet-pure tt) (λ w. answered-Allowed success _ refl (ground arith))
  answer_cancel-Runs url stop_id error u =
      attempt-Runs error u _ (Quiet-pure tt) (λ w. answered-Allowed error _ refl (ground arith))
  answer_cancel-Runs url stop_id installing u =
      attempt-Runs installing u _ (reject-Quiet url stop_id) (reject-Allowed url stop_id)
  answer_cancel-Runs url stop_id processing u =
      attempt-Runs processing u _ (Quiet-stop critical) (λ w. tt)
  answer_cancel-Runs url stop_id downloading u =
      attempt-Runs downloading u _ (Quiet-stop critical) (λ w. tt)
  answer_cancel-Runs url stop_id cancel_requested u =
      attempt-Runs cancel_requested u _ (Quiet-stop critical) (λ w. tt)

  module _ (stop_id : String) (v : Shared) where
    -- Unlock, and return what the answer said.
    leave-Runs :
        (u : Shared) (r : Outcome (Result (Unit {0})))
        → Allowed u.action.state r
        → u.action.id ≡ v.action.id
        → u.action.state ≡ state_for stop_id v
        → Runs (continue r (λ a. (unlock {E = E}) >> of_result a)) u (Finished stop_id v)
    unfolding ◌>>=◌ unlock modify of_result
    leave-Runs u (done (ok x)) (n, h) i st = record {
      at = λ w e.
          subst (Finished stop_id v (done x)) (sym (λ j. with_lock false (e j)))
            (refl, i, st, n, h);
    }
    leave-Runs u (done (err x)) h i st = record {
      at = λ w e.
          subst (Finished stop_id v (fail x)) (sym (λ j. with_lock false (e j))) (refl, i, st, h);
    }
    leave-Runs u (fail e) a i st = absurd a
    leave-Runs u (crash c) a i st = record { at = λ w e. tt }

    forget_unknown-Runs :
        Runs {E = E}
          (forget_unknown stop_id)
          v
          (λ r u. (r ≡ done tt) × (u ≡ with_state (state_for stop_id v) v))
    unfolding forget_unknown set_state pure modify
    forget_unknown-Runs =
        Runs-gets_id-bind v _ (elim (Bool-cases (strcmp0_eq (some stop_id) v.action.id)) [
          | inl e ↦ rw e (record { at = λ w k. (refl, k) })
          | inr e ↦ rw e (record { at = λ w k. (refl, λ i. with_state state_none (k i)) })
        ])

    abbrev answer : Exec (World E) (Unit {0})
    answer = do
      state ← gets (λ (w : World E). w.action.state)
      result ← attempt (answer_cancel s (cancel_url_for s stop_id) stop_id state)
      unlock
      of_result result

    after_forgetting : Runs answer (with_state (state_for stop_id v) v) (Finished stop_id v)
    after_forgetting =
        let u = with_state (state_for stop_id v) v in
        Runs-gets_state-bind u _ (
          Runs-bind u _ _
            (answer_cancel-Runs (cancel_url_for s stop_id) stop_id (state_for stop_id v) u)
            (λ r u' p.
              leave-Runs u' r (subst (λ (x : Shared). Allowed x.action.state r) (sym p.0) p.1)
                (ap (λ (x : Shared). x.action.id) p.0) (ap (λ (x : Shared). x.action.state) p.0)))

    pub finish_cancel-Runs : Runs (finish_cancel s stop_id) v (Finished stop_id v)
    unfolding finish_cancel
    finish_cancel-Runs = Runs-bind v _ _ forget_unknown-Runs (λ r u p.
        subst (λ x. Runs {E = E} (continue x (λ _. answer)) u (Finished stop_id v)) (sym p.0)
          (subst (λ x. Runs {E = E} answer x (Finished stop_id v)) (sym p.1) after_forgetting))

-- What follows the wait of `process_cancel` ends, from every state, with the mutex free and the
-- action's id kept. The state is kept too where the cancelation is for this action; for any other
-- action the state becomes none, whatever was in progress. It returns TRUE only if the state that
-- it ends with is not installing, and it returns at all only where the state is one that the switch
-- answers. hawkBit is told, by one feedback for the action to stop and nothing else, that the
-- action is canceled where that state is none or canceled, and that the cancelation is rejected
-- where it is installing; in every other state nothing is sent.
pub finish_cancel-Finished :
    {Node C E : Type 0} (s : Services Node C E) (stop_id : String) (w : World E)
    → Finished stop_id
        (shared w)
        (finish_cancel s stop_id w).0
        (shared (finish_cancel s stop_id w).1)
      × ((finish_cancel s stop_id w).1.trace
          ≡ told s stop_id (answer_for (forgotten stop_id w).action.state) (forgotten stop_id w))
finish_cancel-Finished s stop_id w =
    ((finish_cancel-Runs s stop_id (shared w)).at w refl, finish_cancel-trace s stop_id w)
