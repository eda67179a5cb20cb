-- ===== src/Poll/Sends.antt =====
-- src/hawkbit-client.c: a poll only sends what is authorized.
use rauc_hawkbit_updater.Base.{String, Bool, true, false, refl, Option, none, some, ℤ}
use rauc_hawkbit_updater.GError.{Result, ok, err}
use rauc_hawkbit_updater.World.{World, UserData, download_joined}
use rauc_hawkbit_updater.World.Sends.{
  Sends, Whatever, AllGood, GoodData, Sends-stop, Sends-pure, Sends-bind, Sends-emit, Sends-unlock,
  Sends-lock, Sends-attempt, sends_rules,
}
use rauc_hawkbit_updater.Services.{Services}
use rauc_hawkbit_updater.Rest.Sends.{rest_request-Sends}
use rauc_hawkbit_updater.Feedback.Sends.{identify-Sends}
use rauc_hawkbit_updater.Deployment.{Returned}
use rauc_hawkbit_updater.Deployment.Sends.{process_deployment-Sends}
use rauc_hawkbit_updater.Cancel.Sends.{GoodWaits, process_cancel-Sends}
use rauc_hawkbit_updater.Poll.{
  ClientData, Others, read_sleeptime, json_get_sleeptime, poll_identify, check_logged,
  poll_deployment, poll_cancel, handle_root, handle_answer, join_download, leave_poll, poll,
  hawkbit_pull_cb,
}

module _ {Node C E : Type 0} (s : Services Node C E) where
  read_sleeptime-Sends : (r : Result String) → Sends s.config Whatever (read_sleeptime s r)
  unfolding read_sleeptime
  read_sleeptime-Sends (err e) = search sends_rules
  read_sleeptime-Sends (ok text) = search sends_rules

  json_get_sleeptime-Sends : (root : Node) → Sends s.config Whatever (json_get_sleeptime s root)
  unfolding json_get_sleeptime
  json_get_sleeptime-Sends root = search (sends_rules, read_sleeptime-Sends)

  poll_identify-Sends : (res b : Bool) → Sends s.config Whatever (poll_identify s res b)
  unfolding poll_identify
  poll_identify-Sends res false = search sends_rules
  poll_identify-Sends res true = search (sends_rules, identify-Sends)

  check_logged-Sends : (r : Returned) → Sends s.config Whatever (check_logged s r)
  unfolding check_logged
  check_logged-Sends (false, none) = Sends-stop _
  check_logged-Sends (false, some e) = Sends-pure _
  check_logged-Sends (true, e) = Sends-pure _

  module _
      (q : (u : UserData) → GoodData s.config u → Sends s.config Whatever (s.software_ready_cb u))
      (others : Others E) (g : GoodWaits s.config others.waits)
      (j : (w : World E)
        → AllGood s.config w.trace
        → AllGood s.config (others.joins w).1.trace) where
    poll_deployment-Sends :
        (root : Node) (res b : Bool) → Sends s.config Whatever (poll_deployment s root res b)
    unfolding poll_deployment
    poll_deployment-Sends root res false = Sends-pure _
    poll_deployment-Sends root res true = Sends-bind _ _ Sends-lock (λ _.
        Sends-bind _ _ (process_deployment-Sends s q root)
          (λ result. Sends-bind _ _ Sends-unlock (λ _. check_logged-Sends result)))

    poll_cancel-Sends :
        (root : Node) (r : Returned) (b : Bool)
        → Sends s.config Whatever (poll_cancel s others.waits root r b)
    unfolding poll_cancel
    poll_cancel-Sends root (res, e) false = Sends-pure _
    poll_cancel-Sends root (res, e) true =
        Sends-bind _ _ (Sends-attempt _ (process_cancel-Sends s others.waits root e g))
          (λ result. Sends-pure _)

    handle_root-Sends : (root : Node) → Sends s.config Whatever (handle_root s others.waits root)
    unfolding handle_root
    handle_root-Sends root =
        search
          (
            sends_rules, poll_identify-Sends, poll_deployment-Sends, poll_cancel-Sends,
            json_get_sleeptime-Sends,
          )
          depth 16

    handle_answer-Sends :
        (r : Result (Option Node)) → Sends s.config Whatever (handle_answer s others.waits r)
    unfolding handle_answer
    handle_answer-Sends (err e) = Sends-pure _
    handle_answer-Sends (ok none) = Sends-stop _
    handle_answer-Sends (ok (some root)) = handle_root-Sends root

    join_download-Sends :
        (res b : Bool) → Sends s.config Whatever (join_download s others.joins res b)
    unfolding join_download
    join_download-Sends res false = Sends-pure _
    join_download-Sends res true =
        Sends-bind _ _ (Sends-emit download_joined refl) (λ _. record { at = λ w h. (j w h, tt) })

    leave_poll-Sends :
        (old res : Bool) (interval : ℤ)
        → Sends s.config Whatever (leave_poll s others old res interval)
    unfolding leave_poll
    leave_poll-Sends old res interval = search (sends_rules, join_download-Sends)

    poll-Sends : (old : Bool) → Sends s.config Whatever (poll s others old)
    unfolding poll
    poll-Sends old = search (sends_rules, rest_request-Sends, handle_answer-Sends, leave_poll-Sends)

    pub hawkbit_pull_cb-Sends :
        (data' : ClientData) → Sends s.config Whatever (hawkbit_pull_cb s others data')
    unfolding hawkbit_pull_cb
    hawkbit_pull_cb-Sends data' = search (sends_rules, poll-Sends)
