-- ===== src/Cancel/Tells.antt =====
-- src/hawkbit-client.c: what `process_cancel` tells hawkBit after its wait.
use rauc_hawkbit_updater.Base.{
  String, ◌≡◌, refl, Option, none, some, List, if◌then◌else◌, strcmp0_eq, ◌<+>◌, ◌∙◌, inl, inr,
  Bool-cases,
}
use rauc_hawkbit_updater.GError.{GError}
use rauc_hawkbit_updater.Exec.{
  gets, modify, Outcome, done, fail, crash, pure, attempt, attempted, continue, throw, of_result,
  stop, ◌>>=◌, ◌>>◌,
}
use rauc_hawkbit_updater.World.{
  World, ActionState, Event, state_none, canceled, error, success, processing, downloading,
  installing, cancel_requested, unlock, set_state,
}
use rauc_hawkbit_updater.Services.{Services}
use rauc_hawkbit_updater.Http.{build_api_url}
use rauc_hawkbit_updater.Feedback.{feedback}
use rauc_hawkbit_updater.Cancel.{
  forget_unknown, acknowledge, reject, answer_cancel, cancel_url_for, finish_cancel,
}

-- The detail and the execution of the feedback for a state, and whether there is one.
abbrev pub answer_for : ActionState → Option (String × String)
answer_for state_none = some ("Action canceled.", "closed")
answer_for canceled = some ("Action canceled.", "closed")
answer_for installing = some ("Cancelation impossible, installation started already.", "rejected")
answer_for _ = none

-- The same world, with the state that the answer is about.
abbrev pub forgotten : {E : Type 0} → String → World E → World E
forgotten stop_id w =
    if strcmp0_eq (some stop_id) w.action.id
    then w
    else record w { action = record w.action { state = state_none } }

module _ {Node C E : Type 0} (s : Services Node C E) (stop_id : String) where
  -- What goes out for the cancelation: one feedback, or nothing.
  abbrev pub told : Option (String × String) → World E → List Event
  told none w = w.trace
  told (some (detail, execution)) w =
      (feedback s (build_api_url s.config (some ("cancelAction/" <+> stop_id <+> "/feedback")))
        (some stop_id) detail "success" execution w).1.trace

  -- The unlock and the return send nothing.
  left-trace :
      (r : Outcome (Unit {0})) (w : World E)
      → (continue (attempted r) (λ x. (unlock {E = E}) >> of_result x) w).1.trace ≡ w.trace
  unfolding unlock modify of_result ◌>>=◌
  left-trace (done a) w = refl
  left-trace (fail e) w = refl
  left-trace (crash c) w = refl

  throw-trace :
      (r : Outcome (Unit {0})) (x : GError) (w : World E)
      → (continue r (λ _. throw {A = Unit {0}} x) w).1.trace ≡ w.trace
  unfolding throw
  throw-trace (done a) x w = refl
  throw-trace (fail e) x w = refl
  throw-trace (crash c) x w = refl

  answer_cancel-trace :
      (st : ActionState) (w : World E)
      → (answer_cancel s (cancel_url_for s stop_id) stop_id st w).1.trace ≡ told (answer_for st) w
  unfolding answer_cancel acknowledge reject cancel_url_for pure stop ◌>>=◌
  answer_cancel-trace state_none w = refl
  answer_cancel-trace canceled w = refl
  answer_cancel-trace success w = refl
  answer_cancel-trace error w = refl
  answer_cancel-trace processing w = refl
  answer_cancel-trace downloading w = refl
  answer_cancel-trace cancel_requested w = refl
  answer_cancel-trace installing w =
      let (r, w') =
        feedback s (cancel_url_for s stop_id) (some stop_id)
          "Cancelation impossible, installation started already." "success" "rejected" w in
      throw-trace r _ w'

  after_forgetting-trace :
      (w : World E)
      → ((do
        result ← attempt (answer_cancel s (cancel_url_for s stop_id) stop_id w.action.state)
        unlock
        of_result result)
          w).1.trace
        ≡ told (answer_for w.action.state) w
  unfolding attempt ◌>>=◌
  after_forgetting-trace w =
      let (r, w') = answer_cancel s (cancel_url_for s stop_id) stop_id w.action.state w in
      left-trace r w' ∙ answer_cancel-trace w.action.state w

  pub finish_cancel-trace :
      (w : World E)
      → (finish_cancel s stop_id w).1.trace
        ≡ told (answer_for (forgotten stop_id w).action.state) (forgotten stop_id w)
  unfolding finish_cancel forget_unknown gets set_state modify pure ◌>>=◌
  finish_cancel-trace w = elim (Bool-cases (strcmp0_eq (some stop_id) w.action.id)) [
    | inl e ↦ rw e (after_forgetting-trace w)
    | inr e ↦
        rw e (after_forgetting-trace (record w { action = record w.action { state = state_none } }))
  ]
