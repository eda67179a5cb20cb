-- ===== src/Cancel/Sends.antt =====
-- src/hawkbit-client.c: `process_cancel` only sends what is authorized.
use rauc_hawkbit_updater.Base.{String, Bool, true, false, Option, none, some, List, [], ◌∷◌}
use rauc_hawkbit_updater.GError.{GError}
use rauc_hawkbit_updater.Exec.{modify}
use rauc_hawkbit_updater.World.{
  World, ActionState, state_none, canceled, processing, downloading, installing, success, error,
  cancel_requested,
}
use rauc_hawkbit_updater.World.Sends.{
  Sends, Whatever, AllGood, Sends-stop, Sends-pure, Sends-bind, Sends-if, Sends-gets, Sends-unlock,
  Sends-lock, sends_rules,
}
use rauc_hawkbit_updater.Config.{Config}
use rauc_hawkbit_updater.Services.{Services}
use rauc_hawkbit_updater.Rest.Sends.{rest_request-Sends}
use rauc_hawkbit_updater.Feedback.Sends.{sends_feedback_rules}
use rauc_hawkbit_updater.Cancel.{
  cond_wait, wait_loop, begin_cancel, wait_if, request_cancel, forget_unknown, root_of,
  fetch_stop_id, acknowledge, reject, answer_cancel, finish_cancel, process_cancel,
}

-- What the other threads do in the meantime is authorized.
abbrev pub GoodWaits : {E : Type 0} → Config → List (World E → World E) → Type 0
GoodWaits config [] = Unit
GoodWaits {E = E} config (other ∷ others) =
    ((w : World E) → AllGood config w.trace → AllGood config (other w).trace)
    × GoodWaits config others

module _ {E : Type 0} (config : Config) where
  cond_wait-Sends :
      (other : World E → World E)
      → ((w : World E) → AllGood config w.trace → AllGood config (other w).trace)
      → Sends config Whatever (cond_wait other)
  unfolding cond_wait modify
  cond_wait-Sends other g =
      Sends-bind _ _ Sends-unlock
        (λ _. Sends-bind _ _ (record { at = λ w h. (g w h, tt) }) (λ _. Sends-lock))

  wait_loop-Sends :
      (others : List (World E → World E))
      → GoodWaits config others
      → Sends config Whatever (wait_loop others)
  unfolding wait_loop
  wait_loop-Sends [] g = search sends_rules
  wait_loop-Sends (other ∷ others) g = Sends-bind _ _ (Sends-gets _) (λ state.
      Sends-if _ _ _ (Sends-bind _ _ (cond_wait-Sends other g.0) (λ _. wait_loop-Sends others g.1))
        (Sends-pure tt))

  wait_if-Sends :
      (others : List (World E → World E)) (b : Bool)
      → GoodWaits config others
      → Sends config Whatever (wait_if others b)
  unfolding wait_if
  wait_if-Sends others false g = Sends-pure tt
  wait_if-Sends others true g = wait_loop-Sends others g

  begin_cancel-Sends : (stop_id : String) → Sends {E = E} config Whatever (begin_cancel stop_id)
  unfolding begin_cancel
  begin_cancel-Sends stop_id = search sends_rules

  forget_unknown-Sends : (stop_id : String) → Sends {E = E} config Whatever (forget_unknown stop_id)
  unfolding forget_unknown
  forget_unknown-Sends stop_id = search sends_rules

  request_cancel-Sends :
      (others : List (World E → World E)) (stop_id : String)
      → GoodWaits config others
      → Sends config Whatever (request_cancel others stop_id)
  unfolding request_cancel
  request_cancel-Sends others stop_id g =
      Sends-bind _ _ (begin_cancel-Sends stop_id) (λ b. wait_if-Sends others b g)

module _ {Node C E : Type 0} (s : Services Node C E) where
  root_of-Sends : (r : Option Node) → Sends {E = E} s.config Whatever (root_of s r)
  unfolding root_of
  root_of-Sends none = Sends-stop _
  root_of-Sends (some root) = Sends-pure root

  fetch_stop_id-Sends : (root : Node) → Sends s.config Whatever (fetch_stop_id s root)
  unfolding fetch_stop_id
  fetch_stop_id-Sends root = search (sends_rules, rest_request-Sends, root_of-Sends)

  answer_cancel-Sends :
      (url stop_id : String) (state : ActionState)
      → Sends s.config Whatever (answer_cancel s url stop_id state)
  unfolding answer_cancel acknowledge reject
  answer_cancel-Sends url stop_id state_none = search (sends_rules, sends_feedback_rules)
  answer_cancel-Sends url stop_id canceled = search (sends_rules, sends_feedback_rules)
  answer_cancel-Sends url stop_id success = search (sends_rules, sends_feedback_rules)
  answer_cancel-Sends url stop_id error = search (sends_rules, sends_feedback_rules)
  answer_cancel-Sends url stop_id installing = search (sends_rules, sends_feedback_rules)
  answer_cancel-Sends url stop_id processing = Sends-stop _
  answer_cancel-Sends url stop_id downloading = Sends-stop _
  answer_cancel-Sends url stop_id cancel_requested = Sends-stop _

  finish_cancel-Sends : (stop_id : String) → Sends s.config Whatever (finish_cancel s stop_id)
  unfolding finish_cancel
  finish_cancel-Sends stop_id =
      search (sends_rules, answer_cancel-Sends, forget_unknown-Sends) depth 12

  pub process_cancel-Sends :
      (others : List (World E → World E)) (root : Node) (e : Option GError)
      → GoodWaits s.config others
      → Sends s.config Whatever (process_cancel s others root e)
  unfolding process_cancel
  process_cancel-Sends others root (some e) g = Sends-stop _
  process_cancel-Sends others root none g = Sends-bind _ _ (fetch_stop_id-Sends root) (λ stop_id.
      Sends-bind _ _ Sends-lock (λ _.
        Sends-bind _ _ (request_cancel-Sends s.config others stop_id g)
          (λ _. finish_cancel-Sends stop_id)))
