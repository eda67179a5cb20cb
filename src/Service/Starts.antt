-- ===== src/Service/Starts.antt =====
-- src/hawkbit-client.c: the start of the service under systemd, and its failures.
use rauc_hawkbit_updater.Base.{
  Bool, true, false, ◌≡◌, refl, ◌⊎◌, inl, inr, List, none, ℤ, pos, ltb_ℤ,
}
use rauc_hawkbit_updater.Exec.{crash, critical, ◌>>=◌}
use rauc_hawkbit_updater.World.{World, lock}
use rauc_hawkbit_updater.Services.{Services}
use rauc_hawkbit_updater.Poll.{Others}
use rauc_hawkbit_updater.SdHelper.{Systemd, sd_source_new}
use rauc_hawkbit_updater.Service.{
  LoopEvent, finish_service, destroy, watch, hawkbit_start_service_sync,
}

-- The steps of the start before there is a source.
abbrev pub Unavailable : {E : Type 0} → Systemd E → E → Type 0
Unavailable sd e =
    let (res, e1) = sd.default_event e in
    let (res', e2) = sd.set_watchdog true e1 in
    (ltb_ℤ res (pos 0) ≡ true)
    ⊎ (ltb_ℤ res (pos 0) ≡ false) × (ltb_ℤ res' (pos 0) ≡ true)
    ⊎ (ltb_ℤ res (pos 0) ≡ false) × (ltb_ℤ res' (pos 0) ≡ false) × ((sd.source_new e2).0 ≡ false)

module _ {Node C E : Type 0} (sd : Systemd E) (s : Services Node C E) (others : Others E)
    (garbage : Bool) (events : List LoopEvent) where
  finish_service-crash :
      (res : ℤ) (w : World E) → (finish_service sd s others none res w).0 ≡ crash critical
  unfolding finish_service destroy ◌>>=◌
  finish_service-crash res w = refl

  watch_failed :
      (w : World E)
      → ltb_ℤ (sd.set_watchdog true w.env).0 (pos 0) ≡ true
      → (watch sd s others garbage events w).0 ≡ crash critical
  unfolding watch lock finish_service destroy ◌>>=◌
  watch_failed w h = rw h refl

  source_failed :
      (w : World E)
      → ltb_ℤ (sd.set_watchdog true w.env).0 (pos 0) ≡ false
      → (sd.source_new (sd.set_watchdog true w.env).1).0 ≡ false
      → (watch sd s others garbage events w).0 ≡ crash critical
  unfolding watch lock finish_service destroy sd_source_new ◌>>=◌
  source_failed w h k = rw (h, k) refl

  -- Where sd_event_default, sd_event_set_watchdog or g_source_new fails, the service does not
  -- return their error: label `finish` destroys a source that is NULL, and that stops the process.
  pub hawkbit_start_service_sync-critical :
      (w : World E)
      → Unavailable sd w.env
      → (hawkbit_start_service_sync sd s others garbage events w).0 ≡ crash critical
  unfolding hawkbit_start_service_sync lock finish_service destroy ◌>>=◌
  hawkbit_start_service_sync-critical w (inl h) = rw h refl
  hawkbit_start_service_sync-critical w (inr (inl (h, k))) = rw h (watch_failed _ k)
  hawkbit_start_service_sync-critical w (inr (inr (h, k, n))) = rw h (source_failed _ k n)
