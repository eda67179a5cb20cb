-- ===== src/Deployment/Sends.antt =====
-- src/hawkbit-client.c: `process_deployment` only sends what is authorized.
use rauc_hawkbit_updater.Base.{String, Bool, true, false, ◌≡◌, refl, Option, none, some, ℤ}
use rauc_hawkbit_updater.GError.{GError, Result, ok, err}
use rauc_hawkbit_updater.Exec.{done, ◌>>=◌}
use rauc_hawkbit_updater.World.{Artifact, UserData}
use rauc_hawkbit_updater.World.Sends.{
  Sends, Whatever, GoodData, Sends-stop, Sends-pure, Sends-bind, Sends-then, Sends-set_state,
  Sends-unlock, Sends-lock, Sends-emit, Sends-emit-Good, sends_rules,
}
use rauc_hawkbit_updater.Services.{Services}
use rauc_hawkbit_updater.Http.{get_auth_header}
use rauc_hawkbit_updater.Rest.Sends.{rest_request-Sends, Sends-auth_header}
use rauc_hawkbit_updater.Feedback.Sends.{sends_feedback_rules}
use rauc_hawkbit_updater.Artifact.{Parsed, parsed, rejected}
use rauc_hawkbit_updater.Deployment.{
  on_error, on_proc_error, get_available_space, start_installing, streaming_userdata,
  start_streaming_installation, join_previous, start_download, check_space, deploy, deploy_as,
  adopt_deployment, consider_update, consider_download, with_root, fetch_deployment,
  process_deployment,
}

module _ {Node C E : Type 0} (s : Services Node C E)
    (q : (u : UserData)
      → GoodData s.config u
      → Sends s.config Whatever (s.software_ready_cb u)) where
  on_error-Sends : (e : Option GError) → Sends s.config Whatever (on_error s e)
  unfolding on_error
  on_error-Sends e = search (sends_rules, sends_feedback_rules)

  on_proc_error-Sends :
      (id : String) (e : Option GError) → Sends s.config Whatever (on_proc_error s id e)
  unfolding on_proc_error
  on_proc_error-Sends id none = Sends-stop _
  on_proc_error-Sends id (some e) = search (sends_rules, sends_feedback_rules, on_error-Sends)

  get_available_space-Sends :
      (path : Option String) → Sends s.config Whatever (get_available_space s path)
  unfolding get_available_space
  get_available_space-Sends none = Sends-stop _
  get_available_space-Sends (some path) = search sends_rules

  start_installing-Sends :
      (artifact : Artifact) (auth_header : String)
      → get_auth_header s.config ≡ done auth_header
      → Sends s.config Whatever (start_installing s artifact auth_header)
  unfolding start_installing streaming_userdata
  start_installing-Sends artifact auth_header e = Sends-bind _ _ (Sends-set_state _) (λ _.
      Sends-bind _ _ (Sends-emit _ refl) (λ _. Sends-bind _ _ Sends-unlock (λ _.
        Sends-bind _ _ (Sends-emit-Good _ (refl, e)) (λ _.
          Sends-bind _ _ (q _ (refl, e)) (λ _. Sends-bind _ _ Sends-lock (λ _. Sends-pure _))))))

  start_streaming_installation-Sends :
      (artifact : Artifact) → Sends s.config Whatever (start_streaming_installation s artifact)
  unfolding start_streaming_installation
  start_streaming_installation-Sends artifact =
      Sends-then _ _ (Sends-auth_header s)
        (λ auth_header e. search (sends_rules, start_installing-Sends) depth 12)

  join_previous-Sends : (running : Bool) → Sends s.config Whatever (join_previous s running)
  unfolding join_previous
  join_previous-Sends false = search sends_rules
  join_previous-Sends true = search sends_rules

  start_download-Sends : (artifact : Artifact) → Sends s.config Whatever (start_download s artifact)
  unfolding start_download ◌>>=◌
  start_download-Sends artifact = search (sends_rules, join_previous-Sends)

  check_space-Sends :
      (id : String) (artifact : Artifact) (r : Result ℤ)
      → Sends s.config Whatever (check_space s id artifact r)
  unfolding check_space
  check_space-Sends id artifact (err e) = on_proc_error-Sends id _
  check_space-Sends id artifact (ok freespace) =
      search (sends_rules, on_proc_error-Sends, start_download-Sends)

  deploy-Sends : (id : String) (r : Parsed Artifact) → Sends s.config Whatever (deploy s id r)
  unfolding deploy
  deploy-Sends id (rejected e) = on_proc_error-Sends id e
  deploy-Sends id (parsed artifact) = search (
    sends_rules, start_streaming_installation-Sends, get_available_space-Sends, check_space-Sends,
  )

  deploy_as-Sends :
      (root : Node) (m : Option String) (b : Bool) (r : Result String)
      → Sends s.config Whatever (deploy_as s root m b r)
  unfolding deploy_as
  deploy_as-Sends root m b (err e) = on_error-Sends _
  deploy_as-Sends root m b (ok id) = deploy-Sends id _

  adopt_deployment-Sends :
      (root : Node) (m : Option String) (b : Bool) (r : Result String)
      → Sends s.config Whatever (adopt_deployment s root m b r)
  unfolding adopt_deployment
  adopt_deployment-Sends root m b r = search (sends_rules, sends_feedback_rules, deploy_as-Sends)

  consider_update-Sends :
      (root : Node) (m : Option String) (r : Result String)
      → Sends s.config Whatever (consider_update s root m r)
  unfolding consider_update
  consider_update-Sends root m (err e) = on_error-Sends _
  consider_update-Sends root m (ok update) = search (sends_rules, adopt_deployment-Sends)

  consider_download-Sends :
      (root : Node) (r : Result String) → Sends s.config Whatever (consider_download s root r)
  unfolding consider_download
  consider_download-Sends root (err e) = on_error-Sends _
  consider_download-Sends root (ok download) = search (sends_rules, consider_update-Sends)

  with_root-Sends : (r : Result (Option Node)) → Sends s.config Whatever (with_root s r)
  unfolding with_root
  with_root-Sends (err e) = on_error-Sends _
  with_root-Sends (ok none) = Sends-stop _
  with_root-Sends (ok (some root)) = consider_download-Sends root _

  fetch_deployment-Sends : (r : Result String) → Sends s.config Whatever (fetch_deployment s r)
  unfolding fetch_deployment
  fetch_deployment-Sends (err e) = on_error-Sends _
  fetch_deployment-Sends (ok url) = search (sends_rules, rest_request-Sends, with_root-Sends)

  pub process_deployment-Sends : (root : Node) → Sends s.config Whatever (process_deployment s root)
  unfolding process_deployment
  process_deployment-Sends root = search (sends_rules, fetch_deployment-Sends)
