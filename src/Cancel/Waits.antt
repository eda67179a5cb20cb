-- ===== src/Cancel/Waits.antt =====
-- src/hawkbit-client.c: `process_cancel` as a whole, whatever other threads do while it waits.
use rauc_hawkbit_updater.Base.{
  true, false, Bool, String, Bool, true, false, ◌≡◌, ◌≢◌, refl, ◌⊎◌, inl, inr, Option, none, some,
  List, [], ◌∷◌, if◌then◌else◌,
}
use rauc_hawkbit_updater.Exec.{
  Outcome, done, fail, crash, Exec, pure, stop, continue, ◌>>=◌, ◌>>◌, blocked, self_deadlock,
}
use rauc_hawkbit_updater.World.{World, set_state, cancel_requested, installing, lock}
use rauc_hawkbit_updater.World.Quiet.{Shared, shared, Quiet, quiet_rules, NoFail}
use rauc_hawkbit_updater.World.Runs.{Runs, Runs-lock-bind, Runs-bind, Runs-quiet-bind, Runs-weaken}
use rauc_hawkbit_updater.Services.{Services}
use rauc_hawkbit_updater.Rest.Effects.{rest_request-Quiet}
use rauc_hawkbit_updater.Cancel.{
  begin_cancel, wait_if, request_cancel, cond_wait, wait_loop, finish_cancel, process_cancel,
  fetch_stop_id, root_of,
}
use rauc_hawkbit_updater.Cancel.Answers.{Finished, finish_cancel-Runs, is_unanswerable}

-- TRUE: the action is neither in progress nor asked to stop, and is no installation. FALSE: nothing
-- happened, or it is not in progress and not asked to stop.
abbrev pub Canceled : Shared → Outcome (Unit {0}) → Shared → Type 0
Canceled v (done _) u =
    (u.locked ≡ false) × (u.action.state ≢ installing) × (is_unanswerable u.action.state ≡ false)
Canceled v (fail e) u = (u.locked ≡ false) × ((u ≡ v) ⊎ (is_unanswerable u.action.state ≡ false))
Canceled v (crash c) u = Unit

Canceled-Finished :
    (stop_id : String) (v v' : Shared) (r : Outcome (Unit {0})) (u : Shared)
    → Finished stop_id v' r u
    → Canceled v r u
Canceled-Finished stop_id v v' (done _) u (l, _, _, n, a) = (l, n, a)
Canceled-Finished stop_id v v' (fail e) u (l, _, _, a) = (l, inr a)
Canceled-Finished stop_id v v' (crash c) u f = tt

module _ {E A : Type 0} where
  if-NoFail :
      (b : Bool) (m n : Exec (World E) A) (w : World E)
      → NoFail (m w).0
      → NoFail (n w).0
      → NoFail ((if b then m else n) w).0
  if-NoFail true m n w p q = p
  if-NoFail false m n w p q = q

module _ {E A B : Type 0} where
  continue-NoFail :
      (r : Outcome A) (f : A → Exec (World E) B) (w : World E)
      → NoFail r
      → ((a : A) → NoFail (f a w).0)
      → NoFail (continue r f w).0
  continue-NoFail (done a) f w h k = k a
  continue-NoFail (fail e) f w h k = absurd h
  continue-NoFail (crash c) f w h k = tt

module _ {E : Type 0} where
  lock-NoFail : (w : World E) → NoFail (lock w).0
  unfolding lock
  lock-NoFail w = locked_or_not w.locked
    where
      locked_or_not :
          (b : Bool)
          → NoFail (if b then stop self_deadlock w else (done tt, record w { locked = true })).0
      locked_or_not true = tt
      locked_or_not false = tt

  cond_wait-NoFail : (other : World E → World E) (w : World E) → NoFail (cond_wait other w).0
  unfolding cond_wait lock ◌>>=◌
  cond_wait-NoFail other w = lock-NoFail (other (record w { locked = false }))

  wait_loop-NoFail :
      (others : List (World E → World E)) (w : World E) → NoFail (wait_loop others w).0
  unfolding wait_loop ◌>>=◌
  wait_loop-NoFail [] w = if-NoFail _ (stop blocked) (pure tt) w tt tt
  wait_loop-NoFail (other ∷ others) w =
      if-NoFail _ (cond_wait other >> wait_loop others) (pure tt) w
        (continue-NoFail (cond_wait other w).0 (λ _. wait_loop others) (cond_wait other w).1
          (cond_wait-NoFail other w) (λ _. wait_loop-NoFail others (cond_wait other w).1))
        tt

  begin_cancel-NoFail : (stop_id : String) (w : World E) → NoFail (begin_cancel stop_id w).0
  unfolding begin_cancel set_state pure ◌>>=◌
  begin_cancel-NoFail stop_id w =
      if-NoFail _ (set_state cancel_requested >> pure true) (pure false) w tt tt

  wait_if-NoFail :
      (others : List (World E → World E)) (b : Bool) (w : World E) → NoFail (wait_if others b w).0
  unfolding wait_if pure
  wait_if-NoFail others false w = tt
  wait_if-NoFail others true w = wait_loop-NoFail others w

  request_cancel-NoFail :
      (others : List (World E → World E)) (stop_id : String) (w : World E)
      → NoFail (request_cancel others stop_id w).0
  unfolding request_cancel ◌>>=◌
  request_cancel-NoFail others stop_id w =
      let (r, w') = begin_cancel stop_id w in
      continue-NoFail r (wait_if others) w' (begin_cancel-NoFail stop_id w)
        (λ b. wait_if-NoFail others b w')

module _ {Node C E : Type 0} (s : Services Node C E) where
  root_of-Quiet : (root : Option Node) → Quiet (root_of s root)
  unfolding root_of
  root_of-Quiet none = search quiet_rules
  root_of-Quiet (some root) = search quiet_rules

  fetch_stop_id-Quiet : (root : Node) → Quiet (fetch_stop_id s root)
  unfolding fetch_stop_id
  fetch_stop_id-Quiet root = search (quiet_rules, rest_request-Quiet, root_of-Quiet)

  finish_cancel-Canceled :
      (stop_id : String) (v u : Shared) → Runs (finish_cancel s stop_id) u (Canceled v)
  finish_cancel-Canceled stop_id v u =
      Runs-weaken u _ (finish_cancel-Runs s stop_id u) (Canceled-Finished stop_id v u)

  -- An action that does not fail, before one that gives the result.
  after-NoFail :
      (m n : Exec (World E) (Unit {0})) (v u : Shared)
      → ((w : World E) → NoFail (m w).0)
      → ((u' : Shared) → Runs n u' (Canceled v))
      → Runs (m >> n) u (Canceled v)
  after-NoFail m n v u k l = Runs-bind u m _ never_fails resumed
    where
      never_fails : Runs m u (λ r _. NoFail r)
      never_fails = record { at = λ w e. k w }

      resumed :
          (r : Outcome (Unit {0})) (u' : Shared)
          → NoFail r
          → Runs (continue r (λ _. n)) u' (Canceled v)
      resumed (done a) u' h = l u'
      resumed (fail e) u' h = absurd h
      resumed (crash c) u' h = record { at = λ w e. tt }

  process_cancel-Runs :
      (others : List (World E → World E)) (req_root : Node) (v : Shared)
      → v.locked ≡ false
      → Runs (process_cancel s others req_root none) v (Canceled v)
  unfolding process_cancel
  process_cancel-Runs others req_root v h =
      Runs-quiet-bind v _ _ (fetch_stop_id-Quiet req_root)
        (λ stop_id. Runs-lock-bind v _ h (
          after-NoFail _ _ v _ (request_cancel-NoFail others stop_id)
            (finish_cancel-Canceled stop_id v)))
        (λ e. (h, inl refl)) (λ c. tt)

pub process_cancel-Canceled :
    {Node C E : Type 0} (s : Services Node C E) (others : List (World E → World E))
    (req_root : Node) (w : World E)
    → w.locked ≡ false
    → Canceled
        (shared w)
        (process_cancel s others req_root none w).0
        (shared (process_cancel s others req_root none w).1)
process_cancel-Canceled s others req_root w h =
    (process_cancel-Runs s others req_root (shared w) h).at w refl
