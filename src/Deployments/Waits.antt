-- ===== src/Deployments/Waits.antt =====
-- src/hawkbit-client.c: a wait of `process_cancel`, over many deployments. What is proved of the threads of
-- one deployment (System) holds of each deployment.
use rauc_hawkbit_updater.Base.{
  ◌∙◌, Bool, true, false, ◌≡◌, refl, sym, ◌⊎◌, inl, inr, subst, ap, if◌then◌else◌, ℕ, String,
  Bool-cases,
}
use rauc_hawkbit_updater.Exec.{done}
use rauc_hawkbit_updater.World.{World, UserData}
use rauc_hawkbit_updater.World.Quiet.{shared, Calm}
use rauc_hawkbit_updater.Poll.{poll_deployment}
use rauc_hawkbit_updater.Deployment.{Returned}
use rauc_hawkbit_updater.Services.{Services}
use rauc_hawkbit_updater.Download.{starting, is_answering, is_download_only, download_run}
use rauc_hawkbit_updater.System.{ask_cancel, MainPc, polling, waiting, System, Step, Reach, woken}
use rauc_hawkbit_updater.System.Asks.{WaitsAgain}
use rauc_hawkbit_updater.System.Wakes.{Over, Signalled, wait-Over}
use rauc_hawkbit_updater.Deployments.{
  newest, Client, Next, Comes, poll, ask, wake, download, progress, complete, outside, start, later,
  is_idle, begun,
}
use rauc_hawkbit_updater.Deployments.Fits.{Fits, is_waiting, is_finished, idle-finished}
use rauc_hawkbit_updater.Deployments.Apart.{poll-refused}
use rauc_hawkbit_updater.Exec.{◌>>=◌}
use rauc_hawkbit_updater.Deployments.Rests.{
  Rests, rests-idle, installs-over, begun-processing, idle-still, moved-finished, not_ready,
  busy_of, ask_cancel-Over,
}
use rauc_hawkbit_updater.Deployments.Invariant.{moved, polled, Comes-Fits}

-- The threads of the latest deployment.
abbrev pub system : {E : Type 0} → Client E → System E
system t = record { world = t.world; pc = t.pc; main = t.main }

module _ {Node C E : Type 0} (s : Services Node C E)
    (q : (u : UserData) → Calm (s.software_ready_cb u)) (n : s.config.stream_bundle ≡ false) where
  abbrev Within : Client E → Type 0
  Within t = Reach s t.artifact (system t) ⊎ Rests t

  module _ (t : Client E) (c : Comes s t) where
    fit : Fits t.pc t.installs t.main (shared t.world)
    fit = Comes-Fits s t q n c

    over : t.installs ≡ true → is_answering t.pc ≡ false
    over k = installs-over t.pc t.installs (is_waiting t.main) t.world.action.state fit.1 k

    asks-Over :
        (stop_id : String) {m : MainPc} {w : World E}
        → Rests t
        → ask_cancel s stop_id t.world ≡ (done m, w)
        → m ≡ polling
    asks-Over stop_id (_, _, _, d) e =
        subst (λ x. Over x.0) e
          ((ask_cancel-Over s stop_id (shared t.world) fit.0 d).at t.world refl)

    -- A poll that starts no thread.
    polls-still :
        (root : Node) (res : Bool) {r : Returned} {w : World E}
        → t.main ≡ polling
        → poll_deployment s root res true t.world ≡ (done r, w)
        → begun t.world.trace w.trace ≡ false
        → Within t
        → Within (record {
          world = w;
          artifact = t.artifact;
          pc = t.pc;
          main = t.main;
          installs = t.installs;
        })
    polls-still root res k e b i = elim (Bool-cases (is_idle t.world.action.state)) [
      | inl d ↦
          let (p, j) =
            idle-finished t.pc t.installs (is_waiting t.main) t.world.action.state fit.1 d in
          inr (k, p, j, idle-still _ _ _ _ d (polled s q n t fit root res e).1 b)
      | inr d ↦
          subst
            (λ x. Within (record {
              world = x;
              artifact = t.artifact;
              pc = t.pc;
              main = t.main;
              installs = t.installs;
            }))
            (ap (λ x. x.1)
              (sym (poll-refused s root res t.world fit.0 (busy_of t.world.action.state d)) ∙ e))
            i
    ]

    -- A poll, by whether it starts a thread.
    polls :
        (root : Node) (res : Bool) {r : Returned} {w : World E} (b : Bool)
        → t.main ≡ polling
        → poll_deployment s root res true t.world ≡ (done r, w)
        → begun t.world.trace w.trace ≡ b
        → Within t
        → Within (record {
          world = w;
          artifact = if b then newest t.artifact w.trace else t.artifact;
          pc = if b then starting else t.pc;
          main = t.main;
          installs = t.installs;
        })
    polls root res {r} {w} true k e b i = inl (
        subst
          (λ m. Reach s (newest t.artifact w.trace) (record { world = w; pc = starting; main = m }))
          (sym k)
          (Reach.start w (polled s q n t fit root res e).0 (
            begun-processing t.world.action.state w.action.state _ _
              (polled s q n t fit root res e).1 b)))
    polls root res false k e b i = polls-still root res k e b i

  -- Nothing is in progress where the thread has returned and there is no installation.
  rests :
      {u : Client E}
      → Comes s u
      → u.main ≡ polling
      → is_finished u.pc ≡ true
      → u.installs ≡ false
      → Rests u
  rests {u} d k p i = (
    k,
    p,
    i,
    rests-idle u.pc u.installs (is_waiting u.main) u.world.action.state (Comes-Fits s u q n d).1 p
        i,
  )

  Next-Within : {t u : Client E} → Next s t u → Comes s t → Within t → Within u
  Next-Within {t} (poll root res {r} {w} k e) c i = polls t c root res _ k e refl i
  Next-Within {t} (ask stop_id k o e) c (inl x) = inl (Reach.later x (Step.ask stop_id k e))
  Next-Within {t} (ask stop_id k o e) c (inr x) =
      inr (rests (later c (ask stop_id k o e)) (asks-Over t c stop_id x e) x.1 x.2)
  Next-Within {t} (wake stop_id seen k e) c (inl x) =
      inl (Reach.later x (Step.wake stop_id seen k e))
  Next-Within {t} (wake stop_id seen k e) c (inr (j, _, _, _)) = absurd cc
  Next-Within {t} (download {pc} {w} e) c (inl x) = inl (Reach.later x (Step.download e))
  Next-Within {t} (download {pc} {w} e) c (inr (k, p, i, d)) = inr (
      rests (later c (download e)) k
        (moved-finished _ _ _ t.pc pc (shared t.world) (shared w)
          (moved s q n t (Comes-Fits s t q n c) e) p)
        (not_ready t.pc t.installs p i))
  Next-Within {t} (progress msg k e) c (inl x) =
      inl (Reach.later x (Step.progress msg (over t c k) e))
  Next-Within {t} (progress msg k e) c (inr (_, _, i, _)) = absurd cc
  Next-Within {t} (complete b k e) c (inl x) = inl (Reach.later x (Step.complete b (over t c k) e))
  Next-Within {t} (complete b k e) c (inr (_, _, i, _)) = absurd cc
  Next-Within {t} (outside env) c (inl x) = inl (Reach.later x (Step.outside env))
  Next-Within {t} (outside env) c (inr x) = inr x

  Comes-Within : {t : Client E} → Comes s t → Within t
  Comes-Within (start w artifact r h k) = inr (refl, refl, refl, rw k refl)
  Comes-Within (later c st) = Next-Within st c (Comes-Within c)

  Comes-Reach :
      (t : Client E) (stop_id : String) (seen : ℕ)
      → Comes s t
      → t.main ≡ waiting stop_id seen
      → Reach s t.artifact (system t)
  Comes-Reach t stop_id seen c k = elim (Comes-Within c) [
    | inl x ↦ x
    | inr (j, _, _, _) ↦ absurd cc
  ]

-- Over any number of deployments, whenever `process_cancel` waits, its wait comes to an end: the
-- download thread returns within five of its steps, whether downloads are resumed or not, having
-- signalled the condition since the wait began, and `process_cancel`, which that wakes, ends too
-- and does not wait again; or the process is stopped. Should it be woken while the cancelation is
-- still requested, it goes on waiting, with nothing changed. The artifact is not for download only,
-- bundles are not streamed, hawkBit cancels another action than the client's only while the client
-- works on none, and the callback that starts the installation just starts it.
pub Comes-Over :
    {Node C E : Type 0} (s : Services Node C E) (t : Client E) (stop_id : String) (seen : ℕ)
    → is_download_only s t.artifact ≡ false
    → ((u : UserData) → Calm (s.software_ready_cb u))
    → s.config.stream_bundle ≡ false
    → Comes s t
    → t.main ≡ waiting stop_id seen
    → (Signalled seen
        (download_run s t.artifact 5 t.pc t.world).0
        (shared (download_run s t.artifact 5 t.pc t.world).1))
      × Over ((do pc ← download_run s t.artifact 5 t.pc; woken s stop_id) t.world).0
      × WaitsAgain s t.main t.world
Comes-Over s t stop_id seen d q n c k =
    wait-Over s t.artifact (system t) stop_id seen d q (Comes-Reach s q n t stop_id seen c k) k
