-- ===== src/Service/Once.antt =====
-- src/hawkbit-client.c: the service that is started with --run-once.
use rauc_hawkbit_updater.Base.{
  none, Bool, true, false, not, ◌≡◌, refl, ap, ◌∙◌, List, [], ◌∷◌, ℤ, Option,
}
use rauc_hawkbit_updater.Exec.{attempt, Outcome, done, fail, crash, Exec, pure, continue, ◌>>=◌}
use rauc_hawkbit_updater.World.{get_method, World}
use rauc_hawkbit_updater.Services.{Services}
use rauc_hawkbit_updater.Poll.{
  ClientData, Others, poll, leave_poll, handle_answer, initial_data, hawkbit_pull_cb,
}
use rauc_hawkbit_updater.Poll.Ticks.{initial_data-poll}
use rauc_hawkbit_updater.Http.{build_api_url}
use rauc_hawkbit_updater.Rest.{rest_request}
use rauc_hawkbit_updater.SdHelper.{Systemd, SdSource}
use rauc_hawkbit_updater.Service.{LoopEvent, second, main_loop, dispatch_event}

-- The callback has told the loop to quit.
abbrev Quits : Outcome (Bool × ClientData) → Type 0
Quits (done (stays, d)) = stays ≡ false
Quits (fail e) = Unit
Quits (crash c) = Unit

record Stops {E : Type 0} (m : Exec (World E) (Bool × ClientData)) : Type 0 where
  at : (w : World E) → Quits (m w).0

module _ {E A : Type 0} where
  Quits-continue :
      (r : Outcome A) (f : A → Exec (World E) (Bool × ClientData)) (w : World E)
      → ((a : A) → Stops (f a))
      → Quits (continue r f w).0
  Quits-continue (done a) f w k = (k a).at w
  Quits-continue (fail e) f w k = tt
  Quits-continue (crash c) f w k = tt

  Stops-bind :
      (m : Exec (World E) A) (f : A → Exec (World E) (Bool × ClientData))
      → ((a : A) → Stops (f a))
      → Stops (m >>= f)
  unfolding ◌>>=◌
  Stops-bind m f k = record { at = λ w. Quits-continue (m w).0 f (m w).1 k }

continue-pure :
    {E A B D : Type 0} (r : Outcome A) (w : World E) (g : A → B) (f : B → Exec (World E) D)
    → (do y ← continue r (λ x. pure (g x)); f y) w ≡ continue r (λ x. f (g x)) w
unfolding pure ◌>>=◌
continue-pure (done a) w g f = refl
continue-pure (fail e) w g f = refl
continue-pure (crash c) w g f = refl

module _ {Node C E : Type 0} (s : Services Node C E) (others : Others E)
    (h : s.run_once ≡ true) where
  leave_poll-Stops : (old res : Bool) (interval : ℤ) → Stops (leave_poll s others old res interval)
  unfolding leave_poll pure
  leave_poll-Stops old res interval = rw h (
      Stops-bind _ _
        (λ running. Stops-bind _ _ (λ final. Stops-bind _ _ (λ _. record { at = λ w. refl }))))

  poll-Stops : (old : Bool) → Stops (poll s others old)
  unfolding poll
  poll-Stops old = Stops-bind _ _ (λ answer. Stops-bind _ _ (λ x. leave_poll-Stops old x.0 x.1))

  -- What `data->res` was is not read.
  leave_poll-fresh :
      (old res : Bool) (interval : ℤ)
      → leave_poll s others old res interval ≡ leave_poll s others false res interval
  unfolding leave_poll
  leave_poll-fresh old res interval = rw h refl

  poll-fresh : (old : Bool) → poll s others old ≡ poll s others false
  unfolding poll
  poll-fresh old =
      ap
        (λ (f : Bool → ℤ → Exec (World E) (Bool × ClientData)). do
          answer ← attempt (rest_request s get_method (build_api_url s.config none) none true)
          (res, interval) ← handle_answer s others.waits answer
          f res interval)
        (λ i res interval. leave_poll-fresh old res interval i)

  module _ (sd : Systemd E) (source : Option SdSource) where
    main_loop-quit :
        (events : List LoopEvent) (d : ClientData) (b : Bool) (w : World E)
        → b ≡ false
        → main_loop sd s others source events
            (record { client_data = d; quit = not b; attached = true })
            w
          ≡ (done d, w)
    unfolding main_loop pure
    main_loop-quit [] d b w e = rw e refl
    main_loop-quit (x ∷ events) d b w e = rw e refl

    after_poll :
        (r : Outcome (Bool × ClientData)) (events : List LoopEvent) (w : World E)
        → Quits r
        → continue r
            (λ x.
              main_loop sd s others source events
                (record { client_data = x.1; quit = not x.0; attached = true }))
            w
          ≡ continue r (λ x. pure x.1) w
    unfolding pure
    after_poll (done (b, d)) events w q = main_loop-quit events d b w q
    after_poll (fail e) events w q = refl
    after_poll (crash c) events w q = refl

    main_loop-second :
        (events : List LoopEvent) (d : ClientData) (w : World E)
        → main_loop sd s others source
            (second ∷ events)
            (record { client_data = d; quit = false; attached = true })
            w
          ≡ (do
            (stays, next) ← hawkbit_pull_cb s others d
            main_loop sd s others source events
                (record { client_data = next; quit = not stays; attached = true }))
              w
    unfolding main_loop dispatch_event pure ◌>>=◌
    main_loop-second events d w =
        continue-pure (hawkbit_pull_cb s others d w).0 (hawkbit_pull_cb s others d w).1 _
          (main_loop sd s others source events)

-- The service with --run-once, whatever the configuration's intervals are: the main loop, from the
-- first second on, is one poll, and ends with the result of that poll, whatever would be dispatched
-- after it and whatever the result's variable held before. If the poll stops the process, so does
-- the service.
pub main_loop-once :
    {Node C E : Type 0} (sd : Systemd E) (s : Services Node C E) (others : Others E)
    (source : Option SdSource) (events : List LoopEvent) (garbage : Bool) (w : World E)
    → s.run_once ≡ true
    → main_loop sd s others source
        (second ∷ events)
        (record { client_data = initial_data s.config garbage; quit = false; attached = true })
        w
      ≡ (do (_, d) ← poll s others false; pure d) w
unfolding ◌>>=◌
main_loop-once {E = E} sd s others source events garbage w h =
    main_loop-second s others h sd source events (initial_data s.config garbage) w
    ∙ ap
        (λ (f : Exec (World E) (Bool × ClientData)).
          (do
            (stays, next) ← f
            main_loop sd s others source events
                (record { client_data = next; quit = not stays; attached = true }))
            w)
        (initial_data-poll s others garbage ∙ poll-fresh s others h garbage)
    ∙ after_poll s others h sd source (poll s others false w).0 events (poll s others false w).1
        ((poll-Stops s others h false).at w)
