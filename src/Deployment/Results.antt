-- ===== src/Deployment/Results.antt =====
-- src/hawkbit-client.c: in which state `process_deployment` leaves the action.
use rauc_hawkbit_updater.Base.{
  ℕ, suc, Bool-cases, String, Bool, true, false, ◌≡◌, refl, inl, inr, Option, none, some,
  if◌then◌else◌, is_some, leb, ℤ,
}
use rauc_hawkbit_updater.GError.{
  GError, Result, ok, err, error_matches, client_error, client_code, already_in_progress,
}
use rauc_hawkbit_updater.Exec.{Outcome, done, fail, crash, lift}
use rauc_hawkbit_updater.Config.{Config}
use rauc_hawkbit_updater.World.{
  World, Artifact, UserData, ActionState, state_none, canceled, processing, installing,
  state_number,
}
use rauc_hawkbit_updater.World.Quiet.{
  Shared, shared, Quiet, Calm, NoFail, calm_rules, quiet_rules, Quiet-lift,
}
use rauc_hawkbit_updater.World.Runs.{
  Runs, runs_rules, Runs-pure, Runs-stop, Runs-gets_action-bind, Runs-set_state-bind,
}
use rauc_hawkbit_updater.Services.{Services}
use rauc_hawkbit_updater.Http.{get_auth_header}
use rauc_hawkbit_updater.Rest.Effects.{rest_request-Quiet}
use rauc_hawkbit_updater.Feedback.Effects.{feedback_rules, process_deployment_cleanup-Calm}
use rauc_hawkbit_updater.Artifact.{Parsed, parsed, rejected}
use rauc_hawkbit_updater.Deployment.{
  Returned, on_error, on_proc_error, get_available_space, start_streaming_installation,
  start_installing, finish_streaming, start_download, join_previous, check_space, deploy, deploy_as,
  adopt_deployment, consider_update, consider_download, with_root, fetch_deployment,
  process_deployment,
}

-- Nothing is left half-way: no deployment is in progress, or an installation was started from a
-- stream, or a new deployment is.
abbrev pub is_settled : Bool → ActionState → Bool
is_settled stream state_none = true
is_settled stream canceled = stream
is_settled stream installing = stream
is_settled stream processing = true
is_settled stream _ = false

-- How many download threads have been started: one more where a deployment is in progress now.
abbrev pub started_by : ActionState → ℕ → ℕ
started_by processing n = suc n
started_by _ n = n

-- After an error: none in progress, or an installation that was started from a stream.
abbrev pub is_given_up : ActionState → Bool → Bool
is_given_up state_none stream = true
is_given_up installing stream = stream
is_given_up _ stream = false

-- FALSE with the error of a deployment in progress.
abbrev pub refused : Outcome Returned → Bool
refused (done (false, e)) = error_matches e client_error (client_code already_in_progress)
refused _ = false

module _ {Node C E : Type 0} (s : Services Node C E) where
  abbrev pub Deployed : ℕ → Outcome Returned → Shared → Type 0
  Deployed n (done (true, e)) u =
      (u.locked ≡ true)
      × (is_settled s.config.stream_bundle u.action.state ≡ true)
      × (u.threads_started ≡ started_by u.action.state n)
  Deployed n (done (false, e)) u =
      (u.locked ≡ true)
      × (is_some e ≡ true)
      × (is_given_up u.action.state s.config.stream_bundle ≡ true)
      × (u.threads_started ≡ n)
  Deployed n (fail e) u = ⊥
  Deployed n (crash c) u = Unit

  on_error-Runs :
      (v : Shared) (e : GError)
      → v.locked ≡ true
      → Runs (on_error s (some e)) v (Deployed v.threads_started)
  unfolding on_error
  on_error-Runs v e h = search (runs_rules, process_deployment_cleanup-Calm) depth 14

  on_proc_error-Runs :
      (v : Shared) (id : String) (e : Option GError)
      → v.locked ≡ true
      → Runs (on_proc_error s id e) v (Deployed v.threads_started)
  unfolding on_proc_error
  on_proc_error-Runs v id none h = Runs-stop v _ tt
  on_proc_error-Runs v id (some e) h = search (runs_rules, feedback_rules, on_error-Runs) depth 14

  get_auth_header-Calm : (c : Config) → Calm (lift {S = World E} (get_auth_header c))
  unfolding lift get_auth_header
  get_auth_header-Calm c = record {
    quiet = Quiet-lift _;
    no_fail = λ w. authorized c.auth_token c.gateway_token;
  }
    where
      authorized :
          (auth gateway : Option String)
          → NoFail (get_auth_header (record c { auth_token = auth; gateway_token = gateway }))
      authorized none none = tt
      authorized none (some t) = tt
      authorized (some t) gateway = tt

  finish_streaming-Deployed :
      (b : Bool) (v : Shared)
      → v.locked ≡ true
      → v.action.state ≡ installing
      → s.config.stream_bundle ≡ true
      → Deployed v.threads_started (done (finish_streaming s b)) v
  unfolding finish_streaming
  finish_streaming-Deployed true v h k b = (h, rw (k, b) refl, rw k refl)
  finish_streaming-Deployed false v h k b = (h, refl, rw (k, b) refl, refl)

  new-settled : (stream : Bool) (st : ActionState) → st ≡ processing → is_settled stream st ≡ true
  new-settled stream st k = rw k refl

  new-started : (n : ℕ) (st : ActionState) → st ≡ processing → suc n ≡ started_by st n
  new-started n st k = rw k refl

  module _ (q : (u : UserData) → Calm (s.software_ready_cb u)) (v : Shared)
      (h : v.locked ≡ true) where
    start_installing-Runs :
        (a : Artifact) (auth : String)
        → s.config.stream_bundle ≡ true
        → Runs (start_installing s a auth) v (Deployed v.threads_started)
    unfolding start_installing
    start_installing-Runs a auth b = search (runs_rules, q, finish_streaming-Deployed) depth 14

    start_streaming_installation-Runs :
        (a : Artifact)
        → s.config.stream_bundle ≡ true
        → Runs (start_streaming_installation s a) v (Deployed v.threads_started)
    unfolding start_streaming_installation
    start_streaming_installation-Runs a b =
        search (runs_rules, get_auth_header-Calm, start_installing-Runs) depth 14

    join_previous-Calm : (b : Bool) → Calm (join_previous s b)
    unfolding join_previous
    join_previous-Calm false = search calm_rules
    join_previous-Calm true = search calm_rules

    start_download-Runs :
        (a : Artifact)
        → v.action.state ≡ processing
        → Runs (start_download s a) v (Deployed v.threads_started)
    unfolding start_download
    start_download-Runs a k =
        search (runs_rules, join_previous-Calm, new-settled, new-started) depth 14

    get_available_space-Quiet : (path : Option String) → Quiet (get_available_space s path)
    unfolding get_available_space
    get_available_space-Quiet none = search quiet_rules
    get_available_space-Quiet (some path) = search quiet_rules

    check_space-Runs :
        (id : String) (a : Artifact) (r : Result ℤ)
        → v.action.state ≡ processing
        → Runs (check_space s id a r) v (Deployed v.threads_started)
    unfolding check_space
    check_space-Runs id a (err e) k = on_proc_error-Runs v id (some e) h
    check_space-Runs id a (ok n) k = search (runs_rules, start_download-Runs, on_proc_error-Runs)

    deploy-Runs :
        (id : String) (p : Parsed Artifact)
        → v.action.state ≡ processing
        → Runs (deploy s id p) v (Deployed v.threads_started)
    unfolding deploy
    deploy-Runs id (rejected e) k = on_proc_error-Runs v id e h
    deploy-Runs id (parsed a) k =
        search
          (
            runs_rules, start_streaming_installation-Runs, get_available_space-Quiet,
            check_space-Runs,
          )
          depth 14

  module _ (q : (u : UserData) → Calm (s.software_ready_cb u)) (v : Shared) (h : v.locked ≡ true)
      (k : v.action.state ≡ processing) (root : Node) where
    deploy_as-Runs :
        (window : Option String) (do_install : Bool) (r : Result String)
        → Runs (deploy_as s root window do_install r) v (Deployed v.threads_started)
    unfolding deploy_as
    deploy_as-Runs window do_install (err e) = on_error-Runs v e h
    deploy_as-Runs window do_install (ok id) = deploy-Runs q v h id _ k

  module _ (q : (u : UserData) → Calm (s.software_ready_cb u)) (v : Shared) (h : v.locked ≡ true)
      (k : v.action.state ≡ processing) (root : Node) where
    adopt_deployment-Runs :
        (window : Option String) (do_install : Bool) (r : Result String)
        → Runs (adopt_deployment s root window do_install r) v (Deployed v.threads_started)
    unfolding adopt_deployment
    adopt_deployment-Runs window do_install r =
        search (runs_rules, process_deployment_cleanup-Calm, deploy_as-Runs q) depth 14

    consider_update-Runs :
        (window : Option String) (r : Result String)
        → Runs (consider_update s root window r) v (Deployed v.threads_started)
    unfolding consider_update
    consider_update-Runs window (err e) = on_error-Runs v e h
    consider_update-Runs window (ok t) = search (runs_rules, adopt_deployment-Runs) depth 14

    consider_download-Runs :
        (r : Result String) → Runs (consider_download s root r) v (Deployed v.threads_started)
    unfolding consider_download
    consider_download-Runs (err e) = on_error-Runs v e h
    consider_download-Runs (ok t) = search (runs_rules, consider_update-Runs) depth 14

  module _ (q : (u : UserData) → Calm (s.software_ready_cb u)) (v : Shared) (h : v.locked ≡ true)
      (k : v.action.state ≡ processing) where
    with_root-Runs :
        (r : Result (Option Node)) → Runs (with_root s r) v (Deployed v.threads_started)
    unfolding with_root
    with_root-Runs (err e) = on_error-Runs v e h
    with_root-Runs (ok none) = Runs-stop v _ tt
    with_root-Runs (ok (some root)) = consider_download-Runs q v h k root _

    fetch_deployment-Runs :
        (r : Result String) → Runs (fetch_deployment s r) v (Deployed v.threads_started)
    unfolding fetch_deployment
    fetch_deployment-Runs (err e) = on_error-Runs v e h
    fetch_deployment-Runs (ok url) = search (runs_rules, rest_request-Quiet, with_root-Runs)

  module _ (q : (u : UserData) → Calm (s.software_ready_cb u)) (v : Shared) (h : v.locked ≡ true)
      (req_root : Node) where
    pub process_deployment-idle :
        leb 4 (state_number v.action.state) ≡ false
        → Runs (process_deployment s req_root) v (Deployed v.threads_started)
    unfolding process_deployment
    process_deployment-idle n =
        Runs-gets_action-bind v _
          (rw n (Runs-set_state-bind v _ processing (fetch_deployment-Runs q _ h refl _)))

    pub process_deployment-busy :
        leb 4 (state_number v.action.state) ≡ true
        → Runs (process_deployment s req_root) v (λ r u. (u ≡ v) × (refused r ≡ true))
    unfolding process_deployment
    process_deployment-busy n = Runs-gets_action-bind v _ (rw n (Runs-pure v _ (refl, refl)))

-- What `process_deployment` does to the action: the guard, or a new deployment.
abbrev pub Processed :
    {Node C E : Type 0} (s : Services Node C E) → Shared → Outcome Returned → Shared → Type 0
Processed s v r u =
    if leb (state_number processing) (state_number v.action.state)
    then (u ≡ v) × (refused r ≡ true)
    else Deployed s v.threads_started r u

-- With the mutex held, `process_deployment` keeps it, and refuses with everything as it was while
-- an action is in progress. Otherwise it ends with TRUE and nothing left half-way: no deployment, a
-- deployment for which it has started exactly one download thread, or, where bundles are streamed,
-- a canceled deployment or an installation, and in these cases it has started no thread; or with
-- FALSE, an error that is set, no thread started, and no deployment in progress but an installation
-- from a stream. Where it does not end, the process is stopped. The callback that starts the
-- installation just starts it.
pub process_deployment-Processed :
    {Node C E : Type 0} (s : Services Node C E) (req_root : Node) (w : World E)
    → w.locked ≡ true
    → ((u : UserData) → Calm (s.software_ready_cb u))
    → Processed s
        (shared w)
        (process_deployment s req_root w).0
        (shared (process_deployment s req_root w).1)
process_deployment-Processed s req_root w h q =
    elim (Bool-cases (leb 4 (state_number w.action.state))) [
      | inl e ↦ rw e ((process_deployment-busy s q (shared w) h req_root e).at w refl)
      | inr e ↦ rw e ((process_deployment-idle s q (shared w) h req_root e).at w refl)
    ]
