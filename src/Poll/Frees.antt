-- ===== src/Poll/Frees.antt =====
-- src/hawkbit-client.c: the mutex over a whole call of `hawkbit_pull_cb`.
use rauc_hawkbit_updater.Base.{
  ap, ◌∙◌, subst, String, Bool, true, false, ◌≡◌, refl, Option, none, some, List, ltb_ℤ, ℤ,
}
use rauc_hawkbit_updater.GError.{GError, Result, ok, err}
use rauc_hawkbit_updater.Exec.{
  Outcome, done, fail, crash, Exec, stop, attempt, attempted, continue, lift, ◌>>=◌, ◌>>◌,
}
use rauc_hawkbit_updater.World.{loop_quit, download_joined, World, UserData, unlock}
use rauc_hawkbit_updater.World.Quiet.{Shared, shared, Calm, calm_rules, NoFail, Calm-attempt}
use rauc_hawkbit_updater.World.Moves.{After, Moves}
use rauc_hawkbit_updater.Deployment.Moves.{process_deployment-Moves}
use rauc_hawkbit_updater.World.Runs.{
  Runs, runs_rules, Runs-pure, Runs-if, Runs-stop, Runs-lock-bind, Runs-bind, Runs-unlock-bind,
  with_lock, Runs-emit-bind, Runs-gets_thread-bind,
}
use rauc_hawkbit_updater.JsonHelper.{json_contains}
use rauc_hawkbit_updater.JsonHelper.Matches.{json_contains-NoFail}
use rauc_hawkbit_updater.Services.{Services}
use rauc_hawkbit_updater.Rest.Effects.{rest_request-Quiet}
use rauc_hawkbit_updater.Feedback.Effects.{identify-Quiet}
use rauc_hawkbit_updater.Deployment.{Returned, process_deployment}
use rauc_hawkbit_updater.Cancel.{process_cancel}
use rauc_hawkbit_updater.Cancel.Waits.{process_cancel-Canceled, Canceled}
use rauc_hawkbit_updater.Poll.{
  ClientData, Others, poll, hawkbit_pull_cb, read_sleeptime, json_get_sleeptime, poll_identify,
  poll_deployment, poll_cancel, check_logged, handle_root, handle_answer, leave_poll, join_download,
  suc_ℤ,
}

-- It returns, without an error, and the mutex is free.
abbrev pub Free : {A : Type 0} → Outcome A → Shared → Type 0
Free = After false

-- The same while the mutex is held.
abbrev Held : {A : Type 0} → Outcome A → Shared → Type 0
Held = After true

module _ {A : Type 0} where
  Free-NoFail : (r : Outcome A) (v u : Shared) → NoFail r → u ≡ v → v.locked ≡ false → Free r u
  Free-NoFail (done a) v u n e h = ap (λ (x : Shared). x.locked) e ∙ h
  Free-NoFail (fail x) v u n e h = n
  Free-NoFail (crash c) v u n e h = tt

module _ {E A : Type 0} where
  pub Free-Calm : (v : Shared) (m : Exec (World E) A) → v.locked ≡ false → Calm m → Runs m v Free
  Free-Calm v m h c = record {
    at = λ w e. Free-NoFail (m w).0 v (shared (m w).1) (c.no_fail w) (c.quiet.at w ∙ e) h;
  }

module _ {E A B : Type 0} where
  pub Free-bind :
      (v : Shared) (m : Exec (World E) A) (f : A → Exec (World E) B)
      → Runs m v Free
      → ((a : A) (u : Shared) → u.locked ≡ false → Runs (f a) u Free)
      → Runs (m >>= f) v Free
  Free-bind v m f p k = Runs-bind v m f p go_on
    where
      go_on : (r : Outcome A) (u : Shared) → Free r u → Runs (continue r f) u Free
      go_on (done a) u h = k a u h
      go_on (fail e) u h = absurd h
      go_on (crash c) u h = record { at = λ w e. tt }

module _ {Node C E : Type 0} (s : Services Node C E) where
  poll_identify-Calm : (res b : Bool) → Calm (poll_identify s res b)
  unfolding poll_identify
  poll_identify-Calm res false = search calm_rules
  poll_identify-Calm res true = search (calm_rules, identify-Quiet)

  read_sleeptime-Calm : (r : Result String) → Calm (read_sleeptime s r)
  unfolding read_sleeptime
  read_sleeptime-Calm (err e) = search calm_rules
  read_sleeptime-Calm (ok t) = search calm_rules

  module _ (v : Shared) (h : v.locked ≡ false) where
    json_get_sleeptime-Free : (root : Node) → Runs (json_get_sleeptime s root) v Free
    unfolding json_get_sleeptime
    json_get_sleeptime-Free root = search (runs_rules, Free-Calm, read_sleeptime-Calm) depth 14

    attempted-Canceled :
        (r : Outcome (Unit {0})) (u : Shared) → Canceled v r u → Free (attempted r) u
    attempted-Canceled (done a) u (l, _, _) = l
    attempted-Canceled (fail e) u (l, _) = l
    attempted-Canceled (crash c) u x = tt

    attempt_cancel-Free :
        (waits : List (World E → World E)) (root : Node) (e : Option GError)
        → Runs (attempt (process_cancel s waits root e)) v Free
    unfolding attempt process_cancel stop
    attempt_cancel-Free waits root (some e) = record { at = λ w k. tt }
    attempt_cancel-Free waits root none = record {
      at = λ w k. attempted-Canceled (process_cancel s waits root none w).0 _ (
          subst
            (λ x.
              Canceled x (process_cancel s waits root none w).0
                (shared (process_cancel s waits root none w).1))
            k (process_cancel-Canceled s waits root w (ap (λ (x : Shared). x.locked) k ∙ h)));
    }

    poll_cancel-Free :
        (waits : List (World E → World E)) (root : Node) (r : Returned) (b : Bool)
        → Runs (poll_cancel s waits root r b) v Free
    unfolding poll_cancel
    poll_cancel-Free waits root (res, e) false = Runs-pure v res h
    poll_cancel-Free waits root (res, e) true =
        Free-bind v _ _ (attempt_cancel-Free waits root e) (λ r u k. Runs-pure u _ k)

  check_logged-Free :
      (v : Shared) (r : Returned) → v.locked ≡ false → Runs (check_logged s r) v Free
  unfolding check_logged
  check_logged-Free v (false, none) h = Runs-stop v _ tt
  check_logged-Free v (false, some e) h = Runs-pure v _ h
  check_logged-Free v (true, e) h = Runs-pure v _ h

  module _ (q : (u : UserData) → Moves false false (s.software_ready_cb u)) where
    process_deployment-Held :
        (v : Shared) (root : Node) → v.locked ≡ true → Runs (process_deployment s root) v Held
    process_deployment-Held v root h = record {
      at = λ w k. (process_deployment-Moves s q root).at w (ap (λ (x : Shared). x.locked) k ∙ h);
    }

    unlock_checked-Free :
        (r : Outcome Returned) (u : Shared)
        → Held r u
        → Runs (continue r (λ a. (unlock {E = E}) >> check_logged s a)) u Free
    unlock_checked-Free (done a) u h =
        Runs-unlock-bind u _ (check_logged-Free (with_lock false u) a refl)
    unlock_checked-Free (fail e) u h = absurd h
    unlock_checked-Free (crash c) u h = record { at = λ w e. tt }

    poll_deployment-Free :
        (v : Shared) (root : Node) (res b : Bool)
        → v.locked ≡ false
        → Runs (poll_deployment s root res b) v Free
    unfolding poll_deployment
    poll_deployment-Free v root res false h = Runs-pure v (res, none) h
    poll_deployment-Free v root res true h =
        Runs-lock-bind v _ h (
          Runs-bind _ _ _ (process_deployment-Held (with_lock true v) root refl)
            unlock_checked-Free)

    contains-Free :
        (v : Shared) (root : Node) (path : String)
        → v.locked ≡ false
        → Runs {E = E} (lift (json_contains s.json root path)) v Free
    unfolding lift
    contains-Free v root path h = record {
      at = λ w e.
          Free-NoFail (json_contains s.json root path) v (shared w)
            (json_contains-NoFail s.json root path) e h;
    }

    handle_root-Free :
        (waits : List (World E → World E)) (root : Node) (v : Shared)
        → v.locked ≡ false
        → Runs (handle_root s waits root) v Free
    unfolding handle_root
    handle_root-Free waits root v h = Free-bind v _ _ (contains-Free v root _ h) (λ a u1 h1.
        Free-bind u1 _ _ (Free-Calm u1 _ h1 (poll_identify-Calm true a)) (λ b u2 h2.
          Free-bind u2 _ _ (contains-Free u2 root _ h2) (λ c u3 h3.
            Free-bind u3 _ _ (poll_deployment-Free u3 root b c h3) (λ d u4 h4.
              Free-bind u4 _ _ (contains-Free u4 root _ h4) (λ e u5 h5.
                Free-bind u5 _ _ (poll_cancel-Free u5 h5 waits root d e) (λ f u6 h6.
                  Free-bind u6 _ _ (json_get_sleeptime-Free u6 h6 root)
                    (λ g u7 h7. Runs-pure u7 (f, g) h7)))))))

    handle_answer-Free :
        (waits : List (World E → World E)) (r : Result (Option Node)) (v : Shared)
        → v.locked ≡ false
        → Runs (handle_answer s waits r) v Free
    unfolding handle_answer
    handle_answer-Free waits (err e) v h = Runs-pure v _ h
    handle_answer-Free waits (ok none) v h = Runs-stop v _ tt
    handle_answer-Free waits (ok (some root)) v h = handle_root-Free waits root v h

    module _ (others : Others E)
        (j : (w : World E) → w.locked ≡ false → (others.joins w).1.locked ≡ false) where
      joins-Free :
          (v : Shared)
          → v.locked ≡ false
          → Runs (λ w. let (r, w') = others.joins w in (done r, w')) v Free
      joins-Free v h = record { at = λ w e. j w (ap (λ (x : Shared). x.locked) e ∙ h) }

      join_download-Free :
          (v : Shared) (res b : Bool)
          → v.locked ≡ false
          → Runs (join_download s others.joins res b) v Free
      unfolding join_download
      join_download-Free v res false h = Runs-pure v res h
      join_download-Free v res true h = Runs-emit-bind v _ download_joined refl (joins-Free v h)

      leave_poll-Free :
          (v : Shared) (old res : Bool) (interval : ℤ)
          → v.locked ≡ false
          → Runs (leave_poll s others old res interval) v Free
      unfolding leave_poll
      leave_poll-Free v old res interval h =
          Runs-if v s.run_once _ _
            (λ _. Runs-gets_thread-bind v _ (
              Free-bind v _ _ (join_download-Free v res v.thread_download h)
                (λ a u k. Runs-emit-bind u _ loop_quit refl (Runs-pure u _ k))))
            (λ _. Runs-pure v _ h)

      poll-Free : (v : Shared) (old : Bool) → v.locked ≡ false → Runs (poll s others old) v Free
      unfolding poll
      poll-Free v old h =
          Free-bind v _ _ (Free-Calm v _ h (Calm-attempt _ (rest_request-Quiet s _ _ _ _)))
            (λ r u k.
              Free-bind u _ _ (handle_answer-Free others.waits r u k)
                (λ x u' k'. leave_poll-Free u' old x.0 x.1 k'))

-- A call of the callback, poll or not, begins and ends with the mutex free, whatever hawkBit
-- answers and whatever other threads do while `process_cancel` waits; and no error leaves it.
-- Otherwise the process is stopped, or a wait does not end. The download thread gives the mutex
-- back before it is joined, and so does the callback that starts the installation, which can wait
-- for it, before it returns.
pub hawkbit_pull_cb-Free :
    {Node C E : Type 0} (s : Services Node C E) (others : Others E) (data' : ClientData)
    (w : World E)
    → w.locked ≡ false
    → ((v : World E) → v.locked ≡ false → (others.joins v).1.locked ≡ false)
    → ((u : UserData) (v : World E)
        → v.locked ≡ false
        → Free (s.software_ready_cb u v).0 (shared (s.software_ready_cb u v).1))
    → Free (hawkbit_pull_cb s others data' w).0 (shared (hawkbit_pull_cb s others data' w).1)
unfolding hawkbit_pull_cb
hawkbit_pull_cb-Free s others data' w h j q =
    (Runs-if (shared w) (ltb_ℤ (suc_ℤ data'.last_run_sec) data'.hawkbit_interval_check_sec) _ _
        (λ _. Runs-pure (shared w) _ h)
        (λ _. poll-Free s (λ u. record { at = q u }) others j (shared w) data'.res h)).at
      w refl
