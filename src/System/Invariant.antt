-- ===== src/System/Invariant.antt =====
-- src/hawkbit-client.c: no cancelation is lost, whatever order the threads run in.
use rauc_hawkbit_updater.Base.{ℕ, String, Bool, true, false, ◌≡◌, refl, sym, subst, inl, inr, arith}
use rauc_hawkbit_updater.Exec.{Outcome, done, fail, crash, Exec, continue}
use rauc_hawkbit_updater.World.{World, Artifact, UserData, cancel_requested}
use rauc_hawkbit_updater.World.Quiet.{Shared, shared, Calm}
use rauc_hawkbit_updater.World.Runs.{
  with_lock, Runs-if, Runs-gets_state-bind, Runs-bind, Runs-lock-bind, Runs,
}
use rauc_hawkbit_updater.Services.{Services}
use rauc_hawkbit_updater.Feedback.Completes.{Leaves, install_complete_cb-Leaves}
use rauc_hawkbit_updater.Feedback.{hawkbit_progress, install_complete_cb}
use rauc_hawkbit_updater.Cancel.{begin_cancel}
use rauc_hawkbit_updater.Download.{Pc, is_download_only, is_answering}
use rauc_hawkbit_updater.Download.Answers.{Answers, download_step-Answers-Runs}
use rauc_hawkbit_updater.System.Asks.{
  WaitsAgain, waits_again, begin_cancel-Runs, go_wait-Runs, finish-Runs,
}
use rauc_hawkbit_updater.System.{
  wait_or_finish, woken, ask_cancel, finish, go_wait, MainPc, polling, waiting, System, Step, Reach,
  start, later, download, ask, wake, progress, complete, outside,
}
use rauc_hawkbit_updater.System.Phases.{
  Phase, Sound, answerable_ne, requested_of, in_progress, Answers-Sound, unlocked-Phase,
  completed-Phase, result_answerable,
}

-- What a step of the main thread ends with.
abbrev Ends : Pc → Outcome MainPc → Shared → Type 0
Ends pc (done m) u = Sound m pc u
Ends pc (fail e) u = ⊥
Ends pc (crash c) u = Unit

module _ {Node C E : Type 0} (s : Services Node C E) where
  finish-Ends : (stop_id : String) (pc : Pc) (u : Shared) → Runs (finish s stop_id) u (Ends pc)
  finish-Ends stop_id pc u =
      finish-Runs s stop_id u (λ u' l st n. (l, (answerable_ne _ n, inr n))) (λ c u'. tt)

  go_wait-Ends :
      (stop_id : String) (pc : Pc) (u : Shared)
      → u.action.state ≡ cancel_requested
      → is_answering pc ≡ true
      → Runs (go_wait s stop_id) u (Ends pc)
  go_wait-Ends stop_id pc u e a = go_wait-Runs s stop_id u (refl, inl (e, a, omega arith))

  -- The test that begins a cancelation.
  abbrev Begun : Pc → Shared → Outcome Bool → Shared → Type 0
  Begun pc v (done true) u = (u.action.state ≡ cancel_requested) × (is_answering pc ≡ true)
  Begun pc v (done false) u = Unit
  Begun pc v (fail e) u = ⊥
  Begun pc v (crash c) u = Unit

  module _ (pc : Pc) (v : Shared) (p : Phase polling pc v) where
    begin_cancel-Begun :
        (stop_id : String) → Runs (begin_cancel {E = E} stop_id) (with_lock true v) (Begun pc v)
    begin_cancel-Begun stop_id =
        begin_cancel-Runs stop_id (with_lock true v)
          (λ e. (refl, in_progress v.action.state pc _ e p.1)) (λ e. tt)

    ask_cancel-Runs :
        (stop_id : String) → v.locked ≡ false → Runs (ask_cancel s stop_id) v (Ends pc)
    unfolding ask_cancel
    ask_cancel-Runs stop_id h =
        Runs-lock-bind v _ h (Runs-bind _ _ _ (begin_cancel-Begun stop_id) goes_on)
      where
        goes_on :
            (r : Outcome Bool) (u : Shared)
            → Begun pc v r u
            → Runs (continue r (λ b. wait_or_finish s stop_id b)) u (Ends pc)
        goes_on (done true) u (e, a) = go_wait-Ends stop_id pc u e a
        goes_on (done false) u _ = finish-Ends stop_id pc u
        goes_on (fail e) u x = absurd x
        goes_on (crash c) u x = record { at = λ w e. tt }

  module _ (stop_id : String) (seen : ℕ) (pc : Pc) (v : Shared) where
    woken-Runs : Sound (waiting stop_id seen) pc v → Runs (woken s stop_id) v (Ends pc)
    unfolding woken
    woken-Runs (h, p) = Runs-lock-bind v _ h (
        Runs-gets_state-bind _ _ (
          Runs-if _ _ _ _
            (λ e.
              go_wait-Ends stop_id pc _ (requested_of _ e) (still_answering p (requested_of _ e)))
            (λ e. finish-Ends stop_id pc _)))
      where
        still_answering :
            Phase (waiting stop_id seen) pc v
            → v.action.state ≡ cancel_requested
            → is_answering pc ≡ true
        still_answering (inl (_, a, _)) e = a
        still_answering (inr (b, _, _)) e = absurd (answerable_ne _ b e)

  module _ (artifact : Artifact) (d : is_download_only s artifact ≡ false)
      (q : (u : UserData) → Calm (s.software_ready_cb u)) where
    abbrev IsSound : System E → Type 0
    IsSound t = Sound t.main t.pc (shared t.world)

    main_step :
        (t : System E) {m : MainPc} {w : World E} (f : Exec (World E) MainPc)
        → Runs f (shared t.world) (Ends t.pc)
        → f t.world ≡ (done m, w)
        → IsSound (record { world = w; pc = t.pc; main = m })
    main_step t f r e = subst (λ x. Ends t.pc x.0 (shared x.1)) e (r.at t.world refl)

    callback_step :
        (t : System E) {w : World E} (f : Exec (World E) (Unit {0})) (v : Shared)
        → Leaves v (f t.world).0 (shared (f t.world).1)
        → f t.world ≡ (done tt, w)
        → shared w ≡ v
    callback_step t f v l e = subst (λ x. Leaves v x.0 (shared x.1)) e l

    Step-IsSound : {t u : System E} → Step s artifact t u → IsSound t → IsSound u
    Step-IsSound {t} (download {pc} {w} e) i =
        Answers-Sound t.main t.pc pc (shared t.world) (shared w) i (
          subst (λ x. Answers t.pc (shared t.world) x.0 (shared x.1)) e
            ((download_step-Answers-Runs s artifact (shared t.world) i.0 t.pc d q).at t.world refl))
    Step-IsSound {t} (ask stop_id k e) (l, p) =
        main_step t (ask_cancel s stop_id)
          (ask_cancel-Runs t.pc (shared t.world) (subst (λ m. Phase m t.pc (shared t.world)) k p)
            stop_id l)
          e
    Step-IsSound {t} (wake stop_id seen k e) i =
        main_step t (woken s stop_id)
          (woken-Runs stop_id seen t.pc (shared t.world)
            (subst (λ m. Sound m t.pc (shared t.world)) k i))
          e
    Step-IsSound {t} (progress msg a e) (l, p) =
        subst (Sound t.main t.pc)
          (sym (
            callback_step t (hawkbit_progress s msg) _
              (install_complete_cb-Leaves s true msg t.world l).1 e))
          (refl, unlocked-Phase t.main t.pc (shared t.world) p)
    Step-IsSound {t} (complete b a e) (l, p) =
        subst (Sound t.main t.pc)
          (sym (
            callback_step t (install_complete_cb s b) _
              (install_complete_cb-Leaves s b "" t.world l).0 e))
          (refl, completed-Phase t.main t.pc (shared t.world) _ a (result_answerable b) p)
    Step-IsSound (outside env) i = i

    Reach-IsSound : {t : System E} → Reach s artifact t → IsSound t
    Reach-IsSound (start w h k) = (h, ((λ e. ground arith), inl refl))
    Reach-IsSound (later r st) = Step-IsSound st (Reach-IsSound r)

pub Reach-Sound :
    {Node C E : Type 0} (s : Services Node C E) (artifact : Artifact) (t : System E)
    → is_download_only s artifact ≡ false
    → ((u : UserData) → Calm (s.software_ready_cb u))
    → Reach s artifact t
    → Sound t.main t.pc (shared t.world) × WaitsAgain s t.main t.world
Reach-Sound s artifact t d q r =
    let i = Reach-IsSound s artifact d q r in (i, waits_again s t.main t.world i.0)
