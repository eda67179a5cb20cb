-- ===== src/Samples/Deployments.antt =====
-- Tests of the client over many deployments: it starts, is given a deployment, and downloads it.
use rauc_hawkbit_updater.JsonHelper.{
  json_get_string, json_get_first_matching_element, json_get_array, json_get_int,
}
use rauc_hawkbit_updater.Rest.{rest_request, read_response}
use rauc_hawkbit_updater.Http.{add_curl_header, set_auth_curl_header, get_auth_header}
use rauc_hawkbit_updater.Payload.{collect}
use rauc_hawkbit_updater.Artifact.{read_artifact}
use rauc_hawkbit_updater.Base.{inr, true, false, ◌≡◌, ℕ, refl, none, inl}
use rauc_hawkbit_updater.Exec.{done, ◌>>=◌}
use rauc_hawkbit_updater.World.{World, state_none, lock}
use rauc_hawkbit_updater.World.Quiet.{shared}
use rauc_hawkbit_updater.Deployment.{
  start_download, process_deployment, fetch_deployment, with_root, consider_download,
  consider_update, adopt_deployment, deploy, get_available_space,
}
use rauc_hawkbit_updater.Download.{
  starting, attempting, download_step, download_run, is_download_only,
}
use rauc_hawkbit_updater.Poll.{poll_deployment}
use rauc_hawkbit_updater.System.{polling, waiting, ask_cancel, woken}
use rauc_hawkbit_updater.Deployments.{
  Client, Next, Comes, start, later, poll, ask, download, newest,
}
use rauc_hawkbit_updater.Deployments.Fits.{Fits}
use rauc_hawkbit_updater.Deployments.Diagram.{◌⟶◌}
use rauc_hawkbit_updater.Deployments.Invariant.{Comes-Fits}
use rauc_hawkbit_updater.Deployments.Follows.{Next-⟶}
use rauc_hawkbit_updater.Deployments.Waits.{Comes-Over}
use rauc_hawkbit_updater.System.Asks.{WaitsAgain}
use rauc_hawkbit_updater.System.Wakes.{Over, Signalled}
use rauc_hawkbit_updater.Cancel.{begin_cancel}
use rauc_hawkbit_updater.Deployments.Apart.{Comes-refused, refusal}
use rauc_hawkbit_updater.Samples.{document, world_in, artifact_for}
use rauc_hawkbit_updater.Samples.Threads.{threads, ready-Calm}

-- The poll that is answered with a deployment, and the first step of its download thread.
abbrev after_poll : World ℕ
after_poll = (poll_deployment threads document true true (world_in state_none false)).1

abbrev deployed : Client ℕ
deployed = record {
  world = after_poll;
  artifact = newest (artifact_for true) after_poll.trace;
  pc = starting;
  main = polling;
  installs = false;
}

abbrev downloads : Client ℕ
downloads = record {
  world = (download_step threads deployed.artifact starting after_poll).1;
  artifact = deployed.artifact;
  pc = attempting;
  main = polling;
  installs = false;
}

abbrev asked : Client ℕ
asked = record {
  world = (ask_cancel threads "7" downloads.world).1;
  artifact = deployed.artifact;
  pc = attempting;
  main = waiting "7" 0;
  installs = false;
}

steps_test :
    Comes threads deployed
    × Next threads deployed downloads
    × Next threads downloads asked
    × (is_download_only threads deployed.artifact ≡ false)
unfolding ask_cancel begin_cancel is_download_only poll_deployment process_deployment download_step
    lock ◌>>=◌ fetch_deployment json_get_string json_get_first_matching_element rest_request
    add_curl_header set_auth_curl_header get_auth_header read_response collect with_root
    consider_download consider_update adopt_deployment deploy read_artifact json_get_array
    json_get_int get_available_space start_download
steps_test = (
  later (start (world_in state_none false) (artifact_for true) true refl refl)
      (poll document true {r = (true, none)} refl refl),
  download refl,
  ask "7" refl (inr refl) refl,
  refl,
)

downloads_test : Comes threads downloads
downloads_test = later steps_test.0 steps_test.1

Comes-Fits_example : Fits attempting false polling (shared downloads.world)
Comes-Fits_example = Comes-Fits threads downloads ready-Calm refl downloads_test

Next-⟶_example : deployed.world.action.state ⟶ downloads.world.action.state
Next-⟶_example = Next-⟶ threads deployed downloads ready-Calm refl steps_test.0 steps_test.1

Comes-refused_example :
    poll_deployment threads document true true downloads.world
    ≡ (done (refusal threads downloads.world), downloads.world)
Comes-refused_example =
    Comes-refused threads downloads document true ready-Calm refl downloads_test (inl refl)

asked_test : Comes threads asked
asked_test = later downloads_test steps_test.2

Comes-Over_example :
    (Signalled 0
      (download_run threads deployed.artifact 5 attempting asked.world).0
      (shared (download_run threads deployed.artifact 5 attempting asked.world).1))
    × Over
        ((do pc ← download_run threads deployed.artifact 5 attempting; woken threads "7")
          asked.world).0
    × WaitsAgain threads asked.main asked.world
Comes-Over_example = Comes-Over threads asked "7" 0 steps_test.3 ready-Calm refl asked_test refl
