-- ===== src/Service/Sends.antt =====
-- src/hawkbit-client.c, src/rauc-hawkbit-updater.c, src/rauc-installer.c: everything that the service
-- and its threads send is authorized.
use rauc_hawkbit_updater.Base.{Bool, true, false, List, [], ◌∷◌, Option, none, some, ℤ}
use rauc_hawkbit_updater.Exec.{modify}
use rauc_hawkbit_updater.World.{World, UserData}
use rauc_hawkbit_updater.World.Sends.{
  Sends, Whatever, AllGood, GoodData, Sends-stop, Sends-pure, Sends-bind, Sends-if, sends_rules,
}
use rauc_hawkbit_updater.Services.{Services}
use rauc_hawkbit_updater.Cancel.Sends.{GoodWaits}
use rauc_hawkbit_updater.Poll.{Others}
use rauc_hawkbit_updater.Poll.Sends.{hawkbit_pull_cb-Sends}
use rauc_hawkbit_updater.SdHelper.{
  Systemd, SdSource, sd_source_dispatch, sd_source_on_exit, sd_source_new, new_source,
  sd_source_attach,
}
use rauc_hawkbit_updater.Service.{
  action_new, LoopEvent, second, systemd_ready, systemd_exit, MainLoop, dispatch_systemd,
  dispatch_event, main_loop, destroy, finish_service, serve, attach_systemd, watch,
  hawkbit_start_service_sync,
}

module _ {Node C E : Type 0} (sd : Systemd E) (s : Services Node C E) where
  sd_source_dispatch-Sends :
      (source : Option SdSource) → Sends s.config Whatever (sd_source_dispatch sd source)
  unfolding sd_source_dispatch
  sd_source_dispatch-Sends none = Sends-stop _
  sd_source_dispatch-Sends (some source) = search sends_rules

  sd_source_on_exit-Sends :
      (source : Option SdSource) → Sends s.config Whatever (sd_source_on_exit sd source)
  unfolding sd_source_on_exit
  sd_source_on_exit-Sends none = Sends-stop _
  sd_source_on_exit-Sends (some source) = search sends_rules

  new_source-Sends : (created : Bool) → Sends s.config Whatever (new_source sd created)
  unfolding new_source
  new_source-Sends false = search sends_rules
  new_source-Sends true = search sends_rules

  sd_source_new-Sends : Sends s.config Whatever (sd_source_new sd)
  unfolding sd_source_new
  sd_source_new-Sends = search (sends_rules, new_source-Sends)

  module _
      (q : (u : UserData) → GoodData s.config u → Sends s.config Whatever (s.software_ready_cb u))
      (others : Others E) (g : GoodWaits s.config others.waits)
      (j : (w : World E)
        → AllGood s.config w.trace
        → AllGood s.config (others.joins w).1.trace) where
    dispatch_event-Sends :
        (source : Option SdSource) (event : LoopEvent) (loop : MainLoop)
        → Sends s.config Whatever (dispatch_event sd s others source event loop)
    unfolding dispatch_event dispatch_systemd
    dispatch_event-Sends source second loop =
        Sends-bind _ _ (hawkbit_pull_cb-Sends s q others g j loop.client_data) (λ x. Sends-pure _)
    dispatch_event-Sends source systemd_ready loop = search (sends_rules, sd_source_dispatch-Sends)
    dispatch_event-Sends source systemd_exit loop = search (sends_rules, sd_source_on_exit-Sends)

    main_loop-Sends :
        (source : Option SdSource) (events : List LoopEvent) (loop : MainLoop)
        → Sends s.config Whatever (main_loop sd s others source events loop)
    unfolding main_loop
    main_loop-Sends source [] loop = search sends_rules
    main_loop-Sends source (event ∷ events) loop =
        Sends-if loop.quit _ _ (Sends-pure _)
          (Sends-bind _ _ (dispatch_event-Sends source event loop) (main_loop-Sends source events))

    destroy-Sends :
        (source : Option SdSource) → Sends s.config Whatever (destroy sd s others source)
    unfolding destroy
    destroy-Sends none = Sends-stop _
    destroy-Sends (some source) = Sends-pure tt

    finish_service-Sends :
        (source : Option SdSource) (res : ℤ)
        → Sends s.config Whatever (finish_service sd s others source res)
    unfolding finish_service
    finish_service-Sends source res = search (sends_rules, destroy-Sends)

    serve-Sends :
        (source : Option SdSource) (garbage : Bool) (events : List LoopEvent)
        → Sends s.config Whatever (serve sd s others source garbage events)
    unfolding serve
    serve-Sends source garbage events =
        search (sends_rules, main_loop-Sends, finish_service-Sends) depth 12

    attach_systemd-Sends :
        (garbage : Bool) (events : List LoopEvent) (source : Option SdSource)
        → Sends s.config Whatever (attach_systemd sd s others garbage events source)
    unfolding attach_systemd sd_source_attach
    attach_systemd-Sends garbage events none = finish_service-Sends none _
    attach_systemd-Sends garbage events (some source) =
        search (sends_rules, finish_service-Sends, serve-Sends)

    watch-Sends :
        (garbage : Bool) (events : List LoopEvent)
        → Sends s.config Whatever (watch sd s others garbage events)
    unfolding watch
    watch-Sends garbage events =
        search (sends_rules, finish_service-Sends, sd_source_new-Sends, attach_systemd-Sends) depth
          12

    begin-Sends :
        Sends {E = E} s.config Whatever
          (modify (λ w. record w { locked = false; action = action_new }))
    unfolding modify
    begin-Sends = record { at = λ w h. (h, tt) }

    pub hawkbit_start_service_sync-Sends :
        (garbage : Bool) (events : List LoopEvent)
        → Sends s.config Whatever (hawkbit_start_service_sync sd s others garbage events)
    unfolding hawkbit_start_service_sync
    hawkbit_start_service_sync-Sends garbage events =
        search (sends_rules, begin-Sends, finish_service-Sends, watch-Sends) depth 12
