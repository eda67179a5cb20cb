-- ===== src/Service/Frees.antt =====
-- src/hawkbit-client.c: the mutex over the whole life of the service.
use rauc_hawkbit_updater.Base.{
  Bool, true, false, ◌≡◌, refl, ap, ◌∙◌, List, [], ◌∷◌, Option, none, some, ℤ, pos, ltb_ℤ,
  if◌then◌else◌,
}
use rauc_hawkbit_updater.Exec.{◌>>=◌}
use rauc_hawkbit_updater.World.{World, UserData, call, loop_quit}
use rauc_hawkbit_updater.World.Quiet.{
  Shared, shared, Calm, Calm-call, Calm-pure, Calm-bind, Calm-emit,
}
use rauc_hawkbit_updater.World.Moves.{Moves}
use rauc_hawkbit_updater.World.Runs.{Runs, Runs-pure, Runs-stop, Runs-if}
use rauc_hawkbit_updater.Services.{Services}
use rauc_hawkbit_updater.Poll.{ClientData, Others, hawkbit_pull_cb}
use rauc_hawkbit_updater.Poll.Frees.{Free, Free-Calm, Free-bind, hawkbit_pull_cb-Free}
use rauc_hawkbit_updater.SdHelper.{
  Systemd, SdSource, sd_source_dispatch, sd_source_on_exit, sd_source_new, new_source,
  sd_source_attach,
}
use rauc_hawkbit_updater.Installer.{Bus}
use rauc_hawkbit_updater.Callbacks.{client}
use rauc_hawkbit_updater.Callbacks.Ready.{on_new_software_ready_cb-Moves}
use rauc_hawkbit_updater.Service.{
  action_new, LoopEvent, second, systemd_ready, systemd_exit, MainLoop, dispatch_systemd,
  dispatch_event, main_loop, destroy, finish_service, serve, attach_systemd, watch,
  hawkbit_start_service_sync,
}

module _ {E : Type 0} (sd : Systemd E) where
  sd_source_dispatch-Free :
      (v : Shared) (source : Option SdSource)
      → v.locked ≡ false
      → Runs (sd_source_dispatch sd source) v Free
  unfolding sd_source_dispatch
  sd_source_dispatch-Free v none h = Runs-stop v _ tt
  sd_source_dispatch-Free v (some source) h =
      Free-Calm v _ h (Calm-bind _ _ (Calm-call _) (λ _. Calm-pure _))

  sd_source_on_exit-Free :
      (v : Shared) (source : Option SdSource)
      → v.locked ≡ false
      → Runs (sd_source_on_exit sd source) v Free
  unfolding sd_source_on_exit
  sd_source_on_exit-Free v none h = Runs-stop v _ tt
  sd_source_on_exit-Free v (some source) h =
      Free-Calm v _ h (Calm-bind _ _ (Calm-emit loop_quit refl) (λ _. Calm-pure _))

  new_source-Calm : (created : Bool) → Calm (new_source sd created)
  unfolding new_source
  new_source-Calm false = Calm-pure _
  new_source-Calm true = Calm-bind _ _ (Calm-call _) (λ _. Calm-pure _)

  sd_source_new-Calm : Calm (sd_source_new sd)
  unfolding sd_source_new
  sd_source_new-Calm = Calm-bind _ _ (Calm-call _) new_source-Calm

module _ {Node C E : Type 0} (sd : Systemd E) (s : Services Node C E) (others : Others E)
    (j : (w : World E) → w.locked ≡ false → (others.joins w).1.locked ≡ false)
    (q : (u : UserData) → Moves false false (s.software_ready_cb u)) where
  tick-Free :
      (v : Shared) (data' : ClientData)
      → v.locked ≡ false
      → Runs (hawkbit_pull_cb s others data') v Free
  tick-Free v data' h = record {
    at = λ w e.
        hawkbit_pull_cb-Free s others data' w (ap (λ (x : Shared). x.locked) e ∙ h) j
          (λ u. (q u).at);
  }

  dispatch_event-Free :
      (v : Shared) (source : Option SdSource) (event : LoopEvent) (loop : MainLoop)
      → v.locked ≡ false
      → Runs (dispatch_event sd s others source event loop) v Free
  unfolding dispatch_event dispatch_systemd
  dispatch_event-Free v source second loop h =
      Free-bind v _ _ (tick-Free v loop.client_data h) (λ _ u k. Runs-pure u _ k)
  dispatch_event-Free v source systemd_ready loop h =
      Runs-if v loop.attached _ _
        (λ _. Free-bind v _ _ (sd_source_dispatch-Free sd v source h) (λ _ u k. Runs-pure u _ k))
        (λ _. Runs-pure v _ h)
  dispatch_event-Free v source systemd_exit loop h =
      Free-bind v _ _ (sd_source_on_exit-Free sd v source h) (λ _ u k. Runs-pure u _ k)

  main_loop-Free :
      (v : Shared) (source : Option SdSource) (events : List LoopEvent) (loop : MainLoop)
      → v.locked ≡ false
      → Runs (main_loop sd s others source events loop) v Free
  unfolding main_loop
  main_loop-Free v source [] loop h =
      Runs-if v loop.quit _ _ (λ _. Runs-pure v _ h) (λ _. Runs-stop v _ tt)
  main_loop-Free v source (event ∷ events) loop h =
      Runs-if v loop.quit _ _ (λ _. Runs-pure v _ h)
        (λ _.
          Free-bind v _ _ (dispatch_event-Free v source event loop h)
            (λ next u k. main_loop-Free u source events next k))

  call-Free : {A : Type 0} (v : Shared) (f : E → A × E) → v.locked ≡ false → Runs (call f) v Free
  call-Free v f h = Free-Calm v _ h (Calm-call f)

  destroy-Free :
      (v : Shared) (source : Option SdSource)
      → v.locked ≡ false
      → Runs (destroy sd s others source) v Free
  unfolding destroy
  destroy-Free v none h = Runs-stop v _ tt
  destroy-Free v (some source) h = Runs-pure v tt h

  finish_service-Free :
      (v : Shared) (source : Option SdSource) (res : ℤ)
      → v.locked ≡ false
      → Runs (finish_service sd s others source res) v Free
  unfolding finish_service
  finish_service-Free v source res h =
      Free-bind v _ _ (destroy-Free v source h)
        (λ _ u k. Free-bind u _ _ (call-Free u _ k) (λ _ u' k'. Runs-pure u' _ k'))

  serve-Free :
      (v : Shared) (source : Option SdSource) (garbage : Bool) (events : List LoopEvent)
      → v.locked ≡ false
      → Runs (serve sd s others source garbage events) v Free
  unfolding serve
  serve-Free v source garbage events h = Free-bind v _ _ (call-Free v _ h) (λ _ u1 k1.
      Free-bind u1 _ _ (main_loop-Free u1 source events _ k1) (λ end u2 k2.
        Free-bind u2 _ _ (call-Free u2 _ k2) (λ _ u3 k3. finish_service-Free u3 source _ k3)))

  attach_systemd-Free :
      (v : Shared) (garbage : Bool) (events : List LoopEvent) (source : Option SdSource)
      → v.locked ≡ false
      → Runs (attach_systemd sd s others garbage events source) v Free
  unfolding attach_systemd sd_source_attach
  attach_systemd-Free v garbage events none h = finish_service-Free v none _ h
  attach_systemd-Free v garbage events (some source) h =
      Free-bind v _ _ (call-Free v _ h) (λ res u k.
        Runs-if u (ltb_ℤ res (pos 0)) _ _ (λ _. finish_service-Free u (some source) res k)
          (λ _. serve-Free u (some source) garbage events k))

  watch-Free :
      (v : Shared) (garbage : Bool) (events : List LoopEvent)
      → v.locked ≡ false
      → Runs (watch sd s others garbage events) v Free
  unfolding watch
  watch-Free v garbage events h = Free-bind v _ _ (call-Free v _ h) (λ res u k.
      Runs-if u (ltb_ℤ res (pos 0)) _ _ (λ _. finish_service-Free u none res k)
        (λ _.
          Free-bind u _ _ (Free-Calm u _ k (sd_source_new-Calm sd))
            (λ source u' k'. attach_systemd-Free u' garbage events source k')))

  from_default-Free :
      (v : Shared) (garbage : Bool) (events : List LoopEvent) (res : ℤ)
      → v.locked ≡ false
      → Runs
          (if ltb_ℤ res (pos 0)
            then finish_service sd s others none res
            else watch sd s others garbage events)
          v
          Free
  from_default-Free v garbage events res h =
      Runs-if v (ltb_ℤ res (pos 0)) _ _ (λ _. finish_service-Free v none res h)
        (λ _. watch-Free v garbage events h)

-- The service, with --run-once and without, with the callback that main() gives it and under
-- systemd, for as long as the main loop is run and whatever it dispatches: it never ends with an
-- error set, and where it returns, the mutex is free. Otherwise the process is stopped, or a wait
-- does not end. A download thread that is joined leaves the mutex free.
pub hawkbit_start_service_sync-Free :
    {Node C E : Type 0} (sd : Systemd E) (bus : Bus E) (s : Services Node C E) (others : Others E)
    (garbage : Bool) (events : List LoopEvent) (w : World E)
    → ((v : World E) → v.locked ≡ false → (others.joins v).1.locked ≡ false)
    → Free
        (hawkbit_start_service_sync sd (client bus s) others garbage events w).0
        (shared (hawkbit_start_service_sync sd (client bus s) others garbage events w).1)
unfolding hawkbit_start_service_sync ◌>>=◌
hawkbit_start_service_sync-Free sd bus s others garbage events w j =
    let started = record w { locked = false; action = action_new } in
    (Free-bind (shared started) _ _
        (call-Free sd (client bus s) others j (on_new_software_ready_cb-Moves bus s)
          (shared started) _ refl)
        (λ res u k.
          from_default-Free sd (client bus s) others j (on_new_software_ready_cb-Moves bus s) u
            garbage events res k)).at
      started refl
