-- ===== src/Deployments/Apart.antt =====
-- src/hawkbit-client.c: there is one deployment at a time.
use rauc_hawkbit_updater.Base.{arith, Bool, true, false, ◌≡◌, refl, ◌⊎◌, inl, inr, leb, some, ◌<+>◌}
use rauc_hawkbit_updater.GError.{set_error, client_error, client_code, already_in_progress}
use rauc_hawkbit_updater.Exec.{done, ◌>>=◌}
use rauc_hawkbit_updater.World.{World, ActionState, UserData, processing, state_number, lock}
use rauc_hawkbit_updater.World.Quiet.{Calm}
use rauc_hawkbit_updater.Services.{Services}
use rauc_hawkbit_updater.Feedback.{or_null}
use rauc_hawkbit_updater.Deployment.{Returned, process_deployment}
use rauc_hawkbit_updater.Download.{Pc}
use rauc_hawkbit_updater.Poll.{poll_deployment, check_logged}
use rauc_hawkbit_updater.Deployments.{Client, Comes}
use rauc_hawkbit_updater.Deployments.Fits.{fits, is_waiting, is_finished}
use rauc_hawkbit_updater.Deployments.Invariant.{Comes-Fits}

busy :
    (pc : Pc) (i w : Bool) (st : ActionState)
    → fits pc i w st ≡ true
    → (is_finished pc ≡ false) ⊎ (i ≡ true)
    → leb (state_number processing) (state_number st) ≡ true
busy pc i w st f (inl n) = ground arith
busy pc i w st f (inr n) = ground arith

module _ {Node C E : Type 0} (s : Services Node C E) where
  -- FALSE and the error of a deployment in progress.
  abbrev pub refusal : World E → Returned
  refusal w = (
    false,
    some (
        set_error client_error (client_code already_in_progress)
          ("Deployment " <+> or_null w.action.id <+> " is already in progress.")),
  )

  pub poll-refused :
      (root : Node) (res : Bool) (w : World E)
      → w.locked ≡ false
      → leb (state_number processing) (state_number w.action.state) ≡ true
      → poll_deployment s root res true w ≡ (done (refusal w), w)
  unfolding poll_deployment process_deployment check_logged lock ◌>>=◌
  poll-refused root res w h b = rw (h, b) refl

-- While a download thread has not returned, or an installation by RAUC is not done, a poll for a
-- deployment is refused with the error of a deployment in progress, and has done nothing at all:
-- nothing is sent, no thread is joined or started, and no part of the state has changed. This holds
-- at any time of any order of the threads, over any number of deployments. Bundles are not
-- streamed, hawkBit cancels another action than the client's only while the client works on none,
-- and the callback that starts the installation just starts it.
pub Comes-refused :
    {Node C E : Type 0} (s : Services Node C E) (t : Client E) (root : Node) (res : Bool)
    → ((u : UserData) → Calm (s.software_ready_cb u))
    → s.config.stream_bundle ≡ false
    → Comes s t
    → (is_finished t.pc ≡ false) ⊎ (t.installs ≡ true)
    → poll_deployment s root res true t.world ≡ (done (refusal s t.world), t.world)
Comes-refused s t root res q n c k =
    let (l, f, _) = Comes-Fits s t q n c in
    poll-refused s root res t.world l
      (busy t.pc t.installs (is_waiting t.main) t.world.action.state f k)
