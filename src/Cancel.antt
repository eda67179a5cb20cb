-- ===== src/Cancel.antt =====
-- src/hawkbit-client.c: `process_cancel`. While it waits on the condition, other threads run: each
-- element of `others` is what they do from one g_cond_wait to its return.
pub mod Tells
pub mod Answers
pub mod Waits
pub mod Sends
use rauc_hawkbit_updater.Base.{
  String, Bool, true, false, not, ◌&&◌, ◌||◌, Option, none, some, List, [], ◌∷◌, strcmp0_eq,
  if◌then◌else◌, ◌<+>◌,
}
use rauc_hawkbit_updater.GError.{
  GError, Result, ok, err, set_error, client_error, client_code, cancelation,
}
use rauc_hawkbit_updater.Exec.{
  Exec, pure, stop, throw, of_result, attempt, gets, modify, critical, blocked, ◌>>=◌, ◌>>◌,
}
use rauc_hawkbit_updater.JsonHelper.{json_get_string}
use rauc_hawkbit_updater.World.{
  World, HttpMethod, get_method, ActionState, state_none, canceled, error, success, processing,
  downloading, installing, cancel_requested, state_eq, set_state, lock, unlock,
}
use rauc_hawkbit_updater.Services.{Services}
use rauc_hawkbit_updater.Http.{build_api_url}
use rauc_hawkbit_updater.Rest.{rest_request}
use rauc_hawkbit_updater.Feedback.{feedback}

module _ {E : Type 0} where
  -- g_cond_wait releases the mutex while it waits.
  unfoldable pub cond_wait : (World E → World E) → Exec (World E) (Unit {0})
  cond_wait other = do unlock; modify other; lock

  unfoldable pub wait_loop : List (World E → World E) → Exec (World E) (Unit {0})
  wait_loop [] = do
    state ← gets (λ w. w.action.state)
    if state_eq state cancel_requested then stop blocked else pure tt
  wait_loop (other ∷ others) = do
    state ← gets (λ w. w.action.state)
    if state_eq state cancel_requested then (do cond_wait other; wait_loop others) else pure tt

  -- `if (!g_strcmp0(stop_id, active_action->id) && …)`: ask the download thread to stop; whether to
  -- wait.
  unfoldable pub begin_cancel : String → Exec (World E) Bool
  begin_cancel stop_id = do
    action ← gets (λ w. w.action)
    if strcmp0_eq (some stop_id) action.id
          && (state_eq action.state processing || state_eq action.state downloading)
        then (do set_state cancel_requested; pure true)
        else pure false

  pub wait_if : List (World E → World E) → Bool → Exec (World E) (Unit {0})
  wait_if others false = pure tt
  wait_if others true = wait_loop others

  unfoldable pub request_cancel : List (World E → World E) → String → Exec (World E) (Unit {0})
  unfolding wait_if
  request_cancel others stop_id = do waits ← begin_cancel stop_id; wait_if others waits

  unfoldable pub forget_unknown : String → Exec (World E) (Unit {0})
  forget_unknown stop_id = do
    id ← gets (λ w. w.action.id)
    if strcmp0_eq (some stop_id) id then pure tt else set_state state_none

module _ {Node C E : Type 0} (s : Services Node C E) where
  -- `none` is an answer with no body, of which json_parser_get_root makes a critical message.
  pub root_of : Option Node → Exec (World E) Node
  root_of none = stop critical
  root_of (some root) = pure root

  -- What hawkBit cancels: the `stopId`.
  unfoldable pub fetch_stop_id : Node → Exec (World E) String
  unfolding root_of
  fetch_stop_id req_root = do
    cancel_url ← of_result (json_get_string s.json req_root "$._links.cancelAction.href")
    answer ← rest_request s get_method cancel_url none true
    root ← root_of answer
    of_result (json_get_string s.json root "$.cancelAction.stopId")

  pub acknowledge : String → String → Exec (World E) (Unit {0})
  acknowledge url stop_id = feedback s url (some stop_id) "Action canceled." "success" "closed"

  pub reject : String → String → Exec (World E) (Unit {0})
  reject url stop_id = do
    feedback s url (some stop_id) "Cancelation impossible, installation started already." "success"
        "rejected"
    throw (
        set_error client_error (client_code cancelation)
          "Cancelation impossible, installation started already.")

  -- The `switch`; g_critical ends the process in its default branch.
  unfoldable pub answer_cancel : String → String → ActionState → Exec (World E) (Unit {0})
  unfolding acknowledge reject
  answer_cancel url stop_id state_none = acknowledge url stop_id
  answer_cancel url stop_id canceled = acknowledge url stop_id
  answer_cancel url stop_id success = pure tt
  answer_cancel url stop_id error = pure tt
  answer_cancel url stop_id installing = reject url stop_id
  answer_cancel url stop_id _ = stop critical

  unfoldable pub cancel_url_for : String → String
  cancel_url_for stop_id =
      build_api_url s.config (some ("cancelAction/" <+> stop_id <+> "/feedback"))

  -- What follows the wait, up to the end.
  unfoldable pub finish_cancel : String → Exec (World E) (Unit {0})
  finish_cancel stop_id = do
    forget_unknown stop_id
    state ← gets (λ w. w.action.state)
    result ← attempt (answer_cancel (cancel_url_for stop_id) stop_id state)
    unlock
    of_result result

  -- An `error` that is set already is refused by g_return_val_if_fail.
  unfoldable pub process_cancel :
      List (World E → World E) → Node → Option GError → Exec (World E) (Unit {0})
  process_cancel others req_root (some e) = stop critical
  process_cancel others req_root none = do
    stop_id ← fetch_stop_id req_root
    lock
    request_cancel others stop_id
    finish_cancel stop_id
