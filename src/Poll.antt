-- ===== src/Poll.antt =====
-- src/hawkbit-client.c: the polling of hawkBit, once a second by the main loop.
pub mod Ticks
pub mod Sends
pub mod Frees
use rauc_hawkbit_updater.Base.{
  ℕ, suc, ◌+◌, ◌*◌, String, Bool, true, false, not, ◌&&◌, ◌||◌, Option, none, some, List, [], ◌∷◌,
  if◌then◌else◌, ℤ, pos, negsuc, ltb_ℤ, pos_part, neg_part, difference, is_some,
}
use rauc_hawkbit_updater.GError.{GError, Result, ok, err}
use rauc_hawkbit_updater.Exec.{
  Outcome, done, fail, crash, Exec, pure, stop, attempt, gets, lift, null_pointer, critical, ◌>>=◌,
  ◌>>◌,
}
use rauc_hawkbit_updater.Config.{Config}
use rauc_hawkbit_updater.JsonHelper.{json_get_string, json_contains}
use rauc_hawkbit_updater.World.{
  World, HttpMethod, get_method, ActionState, processing, downloading, cancel_requested, state_eq,
  call, emit, loop_quit, download_joined, lock, unlock,
}
use rauc_hawkbit_updater.Services.{Services, Tm}
use rauc_hawkbit_updater.Http.{build_api_url}
use rauc_hawkbit_updater.Rest.{rest_request}
use rauc_hawkbit_updater.Feedback.{identify}
use rauc_hawkbit_updater.Deployment.{Returned, process_deployment}
use rauc_hawkbit_updater.Cancel.{process_cancel}

-- ClientData_, without the loop; `hawkbit_start_service_sync` leaves `res` unset.
pub record ClientData : Type 0 where
  pub res : Bool
  pub hawkbit_interval_check_sec : ℤ
  pub last_run_sec : ℤ

-- ++x
abbrev pub suc_ℤ : ℤ → ℤ
suc_ℤ (pos n) = pos (n + 1)
suc_ℤ (negsuc ℕ.zero) = pos 0
suc_ℤ (negsuc (suc n)) = negsuc n

-- What the other threads do while `process_cancel` waits, and until the download thread is joined,
-- with what that thread returns.
pub record Others (E : Type 0) : Type 0 where
  pub waits : List (World E → World E)
  pub joins : World E → Bool × World E

-- The client data that `hawkbit_start_service_sync` starts with.
unfoldable pub initial_data : Config → Bool → ClientData
initial_data config garbage = record {
  res = garbage;
  hawkbit_interval_check_sec = config.retry_wait;
  last_run_sec = config.retry_wait;
}

-- Its return value, once the main loop has ended.
unfoldable pub exit_status : ClientData → ℕ
exit_status data' = if data'.res then 0 else 1

module _ {Node C E : Type 0} (s : Services Node C E) where
  unfoldable pub is_busy : ActionState → Bool
  is_busy state =
      state_eq state processing || state_eq state downloading || state_eq state cancel_requested

  abbrev weighted : (ℤ → ℕ) → Tm → ℕ
  weighted part time = part time.tm_sec + part time.tm_min * 60 + part time.tm_hour * 60 * 60

  -- The sum of the fields, any of which may be negative.
  abbrev seconds : Tm → ℤ
  seconds time = difference (weighted pos_part time) (weighted neg_part time)

  -- `struct tm time` is not initialised before strptime writes to it.
  pub read_sleeptime : Result String → Exec (World E) ℤ
  read_sleeptime (err e) = pure s.config.retry_wait
  read_sleeptime (ok text) = do
    garbage ← call s.host.uninitialised
    pure (seconds (s.host.strptime text garbage))

  unfoldable pub json_get_sleeptime : Node → Exec (World E) ℤ
  unfolding read_sleeptime
  json_get_sleeptime root = do
    lock
    state ← gets (λ w. w.action.state)
    unlock
    if is_busy state
        then pure (pos 5)
        else read_sleeptime (json_get_string s.json root "$.config.polling.sleep")

  pub succeeded : {A : Type 0} → Result A → Bool
  succeeded (ok _) = true
  succeeded (err _) = false

  -- Each of the three parts has the result so far, and gives the next one.
  pub poll_identify : Bool → Bool → Exec (World E) Bool
  unfolding succeeded
  poll_identify res false = pure res
  poll_identify res true = do result ← attempt (identify s); pure (succeeded result)

  -- A failure is logged with (*error)->message, and `error` is not cleared.
  unfoldable pub check_logged : Returned → Exec (World E) Returned
  check_logged (false, none) = stop null_pointer
  check_logged r = pure r

  unfoldable pub poll_deployment : Node → Bool → Bool → Exec (World E) Returned
  unfolding check_logged
  poll_deployment root res false = pure (res, none)
  poll_deployment root res true = do
    lock
    result ← process_deployment s root
    unlock
    check_logged result

  pub poll_cancel : List (World E → World E) → Node → Returned → Bool → Exec (World E) Bool
  unfolding succeeded
  poll_cancel waits root (res, e) false = pure res
  poll_cancel waits root (res, e) true = do
    result ← attempt (process_cancel s waits root e)
    pure (succeeded result)

  -- The answer to a poll: the result and the next interval.
  unfoldable pub handle_root : List (World E → World E) → Node → Exec (World E) (Bool × ℤ)
  unfolding poll_identify poll_deployment poll_cancel
  handle_root waits root = do
    asked_config ← lift (json_contains s.json root "$._links.configData")
    identified ← poll_identify true asked_config
    asked_deployment ← lift (json_contains s.json root "$._links.deploymentBase")
    deployed ← poll_deployment root identified asked_deployment
    asked_cancel ← lift (json_contains s.json root "$._links.cancelAction")
    res ← poll_cancel waits root deployed asked_cancel
    interval ← json_get_sleeptime root
    pure (res, interval)

  unfoldable pub handle_answer :
      List (World E → World E) → Result (Option Node) → Exec (World E) (Bool × ℤ)
  handle_answer waits (err e) = pure (false, s.config.retry_wait)
  handle_answer waits (ok none) = stop critical
  handle_answer waits (ok (some root)) = handle_root waits root

  pub join_download : (World E → Bool × World E) → Bool → Bool → Exec (World E) Bool
  join_download joins res false = pure res
  join_download joins res true = do
    emit download_joined
    (λ w. let (r, w') = joins w in (done r, w'))

  -- Label `out`: whether the source stays (G_SOURCE_CONTINUE), and the data, where `old_res` is what
  -- `data->res` was.
  unfoldable pub leave_poll : Others E → Bool → Bool → ℤ → Exec (World E) (Bool × ClientData)
  unfolding join_download
  leave_poll others old_res res interval =
      if s.run_once
      then (do
        running ← gets (λ w. w.thread_download)
        final ← join_download others.joins res running
        emit loop_quit
        pure (
          false,
          record { res = final; hawkbit_interval_check_sec = interval; last_run_sec = pos 0 },
        ))
      else pure (
        true,
        record { res = old_res; hawkbit_interval_check_sec = interval; last_run_sec = pos 0 },
      )

  unfoldable pub poll : Others E → Bool → Exec (World E) (Bool × ClientData)
  poll others old_res = do
    answer ← attempt (rest_request s get_method (build_api_url s.config none) none true)
    (res, interval) ← handle_answer others.waits answer
    leave_poll others old_res res interval

  unfoldable pub hawkbit_pull_cb : Others E → ClientData → Exec (World E) (Bool × ClientData)
  hawkbit_pull_cb others data' =
      if ltb_ℤ (suc_ℤ data'.last_run_sec) data'.hawkbit_interval_check_sec
      then pure (true, record data' { last_run_sec = suc_ℤ data'.last_run_sec })
      else poll others data'.res
