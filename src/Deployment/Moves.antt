-- ===== src/Deployment/Moves.antt =====
-- src/hawkbit-client.c: `process_deployment` is left with the mutex held, as it is entered.
use rauc_hawkbit_updater.Base.{
  Option-cases, inl, inr, String, Bool, true, false, Option, none, some, ℤ,
}
use rauc_hawkbit_updater.GError.{GError, Result, ok, err}
use rauc_hawkbit_updater.Exec.{◌>>=◌}
use rauc_hawkbit_updater.World.{Artifact, UserData}
use rauc_hawkbit_updater.World.Moves.{
  Moves, Moves-stop, Moves-pure, Moves-bind, Moves-then, Moves-set_state, Moves-emit, Moves-unlock,
  Moves-lock, Moves-lift, Moves-Calm, moves_rules,
}
use rauc_hawkbit_updater.World.Quiet.{NoFail, Quiet, quiet_rules}
use rauc_hawkbit_updater.Services.{Services}
use rauc_hawkbit_updater.Http.{get_auth_header}
use rauc_hawkbit_updater.Rest.Effects.{rest_request-Quiet}
use rauc_hawkbit_updater.Feedback.Effects.{
  feedback-Quiet, logged-Calm, process_deployment_cleanup-Calm,
}
use rauc_hawkbit_updater.Artifact.{Parsed, parsed, rejected}
use rauc_hawkbit_updater.Feedback.{logged, feedback, process_deployment_cleanup}
use rauc_hawkbit_updater.Config.{Config}
use rauc_hawkbit_updater.Deployment.{
  on_error, on_proc_error, get_available_space, start_installing, start_streaming_installation,
  join_previous, start_download, check_space, deploy, deploy_as, adopt_deployment, consider_update,
  consider_download, with_root, fetch_deployment, process_deployment,
}

get_auth_header-NoFail : (config : Config) → NoFail (get_auth_header config)
unfolding get_auth_header
get_auth_header-NoFail config = elim (Option-cases config.auth_token) [
  | inl e ↦ elim (Option-cases config.gateway_token) [
    | inl f ↦ rw (e, f) tt
    | inr (token, f) ↦ rw (e, f) tt
  ]
  | inr (token, e) ↦ rw e tt
]

module _ {Node C E : Type 0} (s : Services Node C E)
    (q : (u : UserData) → Moves false false (s.software_ready_cb u)) where
  logged-feedback-Moves :
      (url id detail finished execution : String)
      → Moves true true (logged s (feedback s url (some id) detail finished execution))
  logged-feedback-Moves url id detail finished execution =
      Moves-Calm _ (logged-Calm s _ (feedback-Quiet s url (some id) detail finished execution))

  cleanup-Moves : Moves true true (process_deployment_cleanup s)
  cleanup-Moves = Moves-Calm _ (process_deployment_cleanup-Calm s)

  on_error-Moves : (e : Option GError) → Moves true true (on_error s e)
  unfolding on_error
  on_error-Moves e = search (moves_rules, cleanup-Moves)

  on_proc_error-Moves : (id : String) (e : Option GError) → Moves true true (on_proc_error s id e)
  unfolding on_proc_error
  on_proc_error-Moves id none = Moves-stop _
  on_proc_error-Moves id (some e) = search (moves_rules, logged-feedback-Moves, on_error-Moves)

  space-Quiet : (path : Option String) → Quiet (get_available_space s path)
  unfolding get_available_space
  space-Quiet none = search quiet_rules
  space-Quiet (some path) = search quiet_rules

  start_installing-Moves :
      (artifact : Artifact) (auth_header : String)
      → Moves true true (start_installing s artifact auth_header)
  unfolding start_installing
  start_installing-Moves artifact auth_header = Moves-bind _ _ (Moves-set_state _) (λ _.
      Moves-bind _ _ (Moves-emit _) (λ _. Moves-then _ _ Moves-unlock (λ _.
        Moves-then _ _ (Moves-emit _)
          (λ _. Moves-then _ _ (q _) (λ _. Moves-then _ _ Moves-lock (λ _. Moves-pure _))))))

  start_streaming_installation-Moves :
      (artifact : Artifact) → Moves true true (start_streaming_installation s artifact)
  unfolding start_streaming_installation
  start_streaming_installation-Moves artifact =
      Moves-bind _ _ (Moves-lift _ (get_auth_header-NoFail s.config))
        (λ auth_header. search (moves_rules, start_installing-Moves) depth 12)

  join_previous-Moves : (running : Bool) → Moves true true (join_previous s running)
  unfolding join_previous
  join_previous-Moves false = search moves_rules
  join_previous-Moves true = search moves_rules

  start_download-Moves : (artifact : Artifact) → Moves true true (start_download s artifact)
  unfolding start_download ◌>>=◌
  start_download-Moves artifact = search (moves_rules, join_previous-Moves)

  check_space-Moves :
      (id : String) (artifact : Artifact) (r : Result ℤ)
      → Moves true true (check_space s id artifact r)
  unfolding check_space
  check_space-Moves id artifact (err e) = on_proc_error-Moves id _
  check_space-Moves id artifact (ok freespace) =
      search (moves_rules, on_proc_error-Moves, start_download-Moves)

  deploy-Moves : (id : String) (r : Parsed Artifact) → Moves true true (deploy s id r)
  unfolding deploy
  deploy-Moves id (rejected e) = on_proc_error-Moves id e
  deploy-Moves id (parsed artifact) =
      search (moves_rules, start_streaming_installation-Moves, space-Quiet, check_space-Moves)

  deploy_as-Moves :
      (root : Node) (m : Option String) (b : Bool) (r : Result String)
      → Moves true true (deploy_as s root m b r)
  unfolding deploy_as
  deploy_as-Moves root m b (err e) = on_error-Moves _
  deploy_as-Moves root m b (ok id) = deploy-Moves id _

  adopt_deployment-Moves :
      (root : Node) (m : Option String) (b : Bool) (r : Result String)
      → Moves true true (adopt_deployment s root m b r)
  unfolding adopt_deployment
  adopt_deployment-Moves root m b r = search (moves_rules, cleanup-Moves, deploy_as-Moves)

  consider_update-Moves :
      (root : Node) (m : Option String) (r : Result String)
      → Moves true true (consider_update s root m r)
  unfolding consider_update
  consider_update-Moves root m (err e) = on_error-Moves _
  consider_update-Moves root m (ok update) = search (moves_rules, adopt_deployment-Moves)

  consider_download-Moves :
      (root : Node) (r : Result String) → Moves true true (consider_download s root r)
  unfolding consider_download
  consider_download-Moves root (err e) = on_error-Moves _
  consider_download-Moves root (ok download) = search (moves_rules, consider_update-Moves)

  with_root-Moves : (r : Result (Option Node)) → Moves true true (with_root s r)
  unfolding with_root
  with_root-Moves (err e) = on_error-Moves _
  with_root-Moves (ok none) = Moves-stop _
  with_root-Moves (ok (some root)) = consider_download-Moves root _

  fetch_deployment-Moves : (r : Result String) → Moves true true (fetch_deployment s r)
  unfolding fetch_deployment
  fetch_deployment-Moves (err e) = on_error-Moves _
  fetch_deployment-Moves (ok url) = search (moves_rules, rest_request-Quiet, with_root-Moves)

  pub process_deployment-Moves : (root : Node) → Moves true true (process_deployment s root)
  unfolding process_deployment
  process_deployment-Moves root = search (moves_rules, fetch_deployment-Moves)
