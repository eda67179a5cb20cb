-- ===== src/Deployments/Polls.antt =====
-- src/hawkbit-client.c: the state in which a poll for a deployment leaves the action, where bundles are
-- not streamed.
use rauc_hawkbit_updater.Base.{
  arith, ℕ, suc, ◌∙◌, Bool, true, false, not, ◌≡◌, refl, ◌⊎◌, inl, inr, ap, Bool-cases, leb, none,
  some,
}
use rauc_hawkbit_updater.Exec.{Crash, Outcome, done, fail, crash, continue, ◌>>◌}
use rauc_hawkbit_updater.World.{ActionState, UserData, state_none, processing, state_number, unlock}
use rauc_hawkbit_updater.World.Quiet.{Shared, Calm}
use rauc_hawkbit_updater.World.Runs.{
  Runs, Runs-pure, Runs-stop, Runs-bind, Runs-weaken, Runs-lock-bind, Runs-unlock-bind, with_lock,
}
use rauc_hawkbit_updater.Services.{Services}
use rauc_hawkbit_updater.Deployment.{Returned, process_deployment}
use rauc_hawkbit_updater.Deployment.Results.{
  is_settled, started_by, is_given_up, Deployed, refused, process_deployment-idle,
  process_deployment-busy,
}
use rauc_hawkbit_updater.Poll.{poll_deployment, check_logged}
use rauc_hawkbit_updater.Deployments.{is_idle}

-- The state is as it was, or none after none in progress, and no thread has been started; or it is a
-- new deployment after none in progress, and one thread has been started.
abbrev pub Follows : ActionState → ℕ → ActionState → ℕ → Type 0
Follows st n st' n' =
    ((st' ≡ st) × (n' ≡ n))
    ⊎ ((is_idle st ≡ true)
        × (((st' ≡ state_none) × (n' ≡ n)) ⊎ ((st' ≡ processing) × (n' ≡ suc n))))

-- With the mutex free again.
abbrev pub Polled : Shared → Outcome Returned → Shared → Type 0
Polled v (done r) u =
    (u.locked ≡ false) × Follows v.action.state v.threads_started u.action.state u.threads_started
Polled v (fail e) u = ⊥
Polled v (crash c) u = Unit

settled :
    (stream : Bool) (st : ActionState)
    → stream ≡ false
    → is_settled stream st ≡ true
    → (st ≡ state_none) ⊎ (st ≡ processing)
settled stream st n k = ground arith

-- As many threads as the state tells.
started :
    (n n' : ℕ) (st : ActionState)
    → n' ≡ started_by st n
    → (st ≡ state_none) ⊎ (st ≡ processing)
    → ((st ≡ state_none) × (n' ≡ n)) ⊎ ((st ≡ processing) × (n' ≡ suc n))
started n n' st k (inl e) = inl (e, k ∙ ap (λ x. started_by x n) e)
started n n' st k (inr e) = inr (e, k ∙ ap (λ x. started_by x n) e)

given_up :
    (stream : Bool) (st : ActionState)
    → stream ≡ false
    → is_given_up st stream ≡ true
    → st ≡ state_none
given_up stream st n k = ground arith

module _ {Node C E : Type 0} (s : Services Node C E) where
  -- After the unlock, the answer is logged.
  check_logged-Runs :
      (u : Shared) (r : Returned) (Q : Outcome Returned → Shared → Type 0)
      → Q (done r) u
      → ((c : Crash) → Q (crash c) u)
      → Runs (check_logged s r) u Q
  unfolding check_logged
  check_logged-Runs u (false, none) Q h k = Runs-stop u _ (k _)
  check_logged-Runs u (false, some e) Q h k = Runs-pure u _ h
  check_logged-Runs u (true, e) Q h k = Runs-pure u _ h

  module _ (v : Shared) where
    -- What holds of `process_deployment`, with the mutex held.
    abbrev Processed : Outcome Returned → Shared → Type 0
    Processed (done r) u = Polled v (done r) (with_lock false u)
    Processed (fail e) u = ⊥
    Processed (crash c) u = Unit

    Deployed-Processed :
        (r : Outcome Returned) (u : Shared)
        → s.config.stream_bundle ≡ false
        → is_idle v.action.state ≡ true
        → Deployed s v.threads_started r u
        → Processed r u
    Deployed-Processed (done (true, e)) u n d (_, k, m) =
        (refl, inr (d, started _ _ _ m (settled _ _ n k)))
    Deployed-Processed (done (false, e)) u n d (_, _, k, m) =
        (refl, inr (d, inl (given_up _ _ n k, m)))
    Deployed-Processed (fail e) u n d x = x
    Deployed-Processed (crash c) u n d x = tt

    refused-Processed :
        (r : Outcome Returned) (u : Shared)
        → (u ≡ with_lock true v) × (refused r ≡ true)
        → Processed r u
    refused-Processed (done r) u (e, _) = (
      refl,
      inl (ap (λ (x : Shared). x.action.state) e, ap (λ (x : Shared). x.threads_started) e),
    )
    refused-Processed (fail e) u (_, k) = absurd cc
    refused-Processed (crash c) u (_, k) = tt

    logs :
        (r : Outcome Returned) (u : Shared)
        → Processed r u
        → Runs (continue r (λ a. (unlock {E = E}) >> check_logged s a)) u (Polled v)
    logs (done r) u p = Runs-unlock-bind u _ (check_logged-Runs _ r _ p (λ c. tt))
    logs (fail e) u x = absurd x
    logs (crash c) u x = record { at = λ w e. tt }

    module _ (q : (u : UserData) → Calm (s.software_ready_cb u))
        (n : s.config.stream_bundle ≡ false) (root : Node) where
      begun-Processed : Runs (process_deployment s root) (with_lock true v) Processed
      begun-Processed =
          elim (Bool-cases (leb (state_number processing) (state_number v.action.state))) [
            | inl e ↦
                Runs-weaken _ _ (process_deployment-busy s q (with_lock true v) refl root e)
                  (λ r u x. refused-Processed r u x)
            | inr e ↦
                Runs-weaken _ _ (process_deployment-idle s q (with_lock true v) refl root e)
                  (λ r u x. Deployed-Processed r u n (ap not e) x)
          ]

      pub poll_deployment-Polled :
          (res : Bool) → v.locked ≡ false → Runs (poll_deployment s root res true) v (Polled v)
      unfolding poll_deployment
      poll_deployment-Polled res h = Runs-lock-bind v _ h (Runs-bind _ _ _ begun-Processed logs)
