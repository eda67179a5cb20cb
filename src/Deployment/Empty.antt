-- ===== src/Deployment/Empty.antt =====
-- src/hawkbit-client.c: an artifact of size 0.
use rauc_hawkbit_updater.Base.{String, Bool, ◌≡◌, refl, Option, [], ◌∷◌, pos}
use rauc_hawkbit_updater.GError.{ok}
use rauc_hawkbit_updater.Exec.{crash, null_pointer, stop}
use rauc_hawkbit_updater.JsonHelper.{json_get_string, json_get_int, json_get_array}
use rauc_hawkbit_updater.World.{World}
use rauc_hawkbit_updater.Services.{Services}
use rauc_hawkbit_updater.Artifact.{read_artifact}
use rauc_hawkbit_updater.Artifact.Reads.{read_artifact-zero}
use rauc_hawkbit_updater.Deployment.{deploy, on_proc_error}

-- A deployment whose only artifact has the size 0 in the document stops the process, which reads
-- the message of an error that is not there. The chunk's version and name are there.
pub deploy-zero :
    {Node C E : Type 0} (s : Services Node C E) (root chunk artifact : Node)
    (id feedback_url version name : String) (window : Option String) (do_install : Bool)
    (w : World E)
    → json_get_array s.json root "$.deployment.chunks" ≡ ok (chunk ∷ [])
    → json_get_array s.json chunk "$.artifacts" ≡ ok (artifact ∷ [])
    → json_get_string s.json chunk "$.version" ≡ ok version
    → json_get_string s.json chunk "$.name" ≡ ok name
    → json_get_int s.json artifact "$.size" ≡ ok (pos 0)
    → deploy s id (read_artifact s.json root id feedback_url window do_install) w
      ≡ (crash null_pointer, w)
unfolding deploy on_proc_error stop
deploy-zero s root chunk artifact id feedback_url version name window do_install w h1 h2 h3 h4 h5 =
    rw
      (read_artifact-zero s.json root chunk artifact id feedback_url version name window do_install
        h1 h2 h3 h4 h5)
      refl
