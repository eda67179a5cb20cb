-- ===== src/System/Wakes.antt =====
-- src/hawkbit-client.c: a cancelation that is waited for comes to an end.
use rauc_hawkbit_updater.Base.{
  true, ◌⊎◌, ℕ, zero, suc, ◌<◌, ◌≤◌, ◌-◌, String, false, ◌≡◌, ◌≢◌, refl, subst, inl, inr, arith,
}
use rauc_hawkbit_updater.Exec.{Outcome, done, fail, crash, continue, ◌>>=◌}
use rauc_hawkbit_updater.World.{state_eq, cancel_requested, Artifact, UserData}
use rauc_hawkbit_updater.World.Quiet.{Shared, shared, Calm}
use rauc_hawkbit_updater.World.Runs.{
  Runs-if, Runs-gets_state-bind, Runs-lock-bind, Runs, Runs-pure, Runs-bind,
}
use rauc_hawkbit_updater.Services.{Services}
use rauc_hawkbit_updater.Download.{Pc, is_download_only, is_answering, download_step, download_run}
use rauc_hawkbit_updater.Download.Answers.{Answers, download_step-Answers-Runs}
use rauc_hawkbit_updater.Download.Stops.{Sooner, tests_left, download_step-Sooner-Runs}
use rauc_hawkbit_updater.System.Asks.{WaitsAgain, finish-Runs}
use rauc_hawkbit_updater.System.{finish, MainPc, polling, waiting, System, Reach, woken}
use rauc_hawkbit_updater.System.Phases.{requested_of, answerable_ne, Phase, Sound, Answers-Sound}
use rauc_hawkbit_updater.System.Invariant.{Reach-Sound}

-- The call is over.
abbrev pub Over : Outcome MainPc → Type 0
Over (done m) = m ≡ polling
Over (fail e) = ⊥
Over (crash c) = Unit

-- A step keeps the invariant, and is one of those that are left.
abbrev Both : MainPc → Pc → Outcome Pc → Shared → Type 0
Both m pc (done pc') u = Sound m pc' u × (tests_left pc' ≤ tests_left pc - 1)
Both m pc (fail e) u = ⊥
Both m pc (crash c) u = Unit

-- The thread has returned.
abbrev Left : MainPc → Outcome Pc → Shared → Type 0
Left m (done pc) u = Sound m pc u × (is_answering pc ≡ false)
Left m (fail e) u = ⊥
Left m (crash c) u = Unit

-- The condition was signalled after the wait began.
abbrev pub Signalled : ℕ → Outcome Pc → Shared → Type 0
Signalled seen (done pc) u = seen < u.signals_sent
Signalled seen (fail e) u = ⊥
Signalled seen (crash c) u = Unit

Left-Signalled :
    (stop_id : String) (seen : ℕ) (r : Outcome Pc) (u : Shared)
    → Left (waiting stop_id seen) r u
    → Signalled seen r u
Left-Signalled stop_id seen (done pc) u ((_, inl (_, on, _)), a) = cc
Left-Signalled stop_id seen (done pc) u ((_, inr (_, _, lt)), a) = lt
Left-Signalled stop_id seen (fail e) u x = x
Left-Signalled stop_id seen (crash c) u x = tt

at_most_five : (pc : Pc) → tests_left pc ≤ 5
at_most_five pc = ground arith

returned : (pc : Pc) → tests_left pc ≤ 0 → is_answering pc ≡ false
returned pc h = ground arith

module _ {Node C E : Type 0} (s : Services Node C E) (artifact : Artifact)
    (d : is_download_only s artifact ≡ false) (q : (u : UserData) → Calm (s.software_ready_cb u))
    (stop_id : String) (seen : ℕ) where
  abbrev m : MainPc
  m = waiting stop_id seen

  both :
      (pc : Pc) (v : Shared) (r : Outcome Pc) (u : Shared)
      → Sound m pc v
      → Answers pc v r u
      → Sooner pc r u
      → Both m pc r u
  both pc v (done pc') u i a b = (Answers-Sound m pc pc' v u i a, b)
  both pc v (fail e) u i a b = b
  both pc v (crash c) u i a b = tt

  stops :
      (pc : Pc) (v : Shared)
      → Phase m pc v
      → (state_eq v.action.state cancel_requested ≡ true) ⊎ (is_answering pc ≡ false)
  stops pc v (inl (e, _, _)) = inl (rw e refl)
  stops pc v (inr (_, a, _)) = inr a

  download_step-Both :
      (pc : Pc) (v : Shared) → Sound m pc v → Runs (download_step s artifact pc) v (Both m pc)
  download_step-Both pc v i = record {
    at = λ w e.
        both pc v (download_step s artifact pc w).0 (shared (download_step s artifact pc w).1) i
          ((download_step-Answers-Runs s artifact v i.0 pc d q).at w e)
          ((download_step-Sooner-Runs s artifact v i.0 pc q (stops pc v i.1)).at w e);
  }

  go_on :
      (pc : Pc) (fuel : ℕ) (r : Outcome Pc) (u : Shared)
      → tests_left pc ≤ suc fuel
      → Both m pc r u
      → ((pc' : Pc)
          → Sound m pc' u
          → tests_left pc' ≤ fuel
          → Runs (download_run s artifact fuel pc') u (Left m))
      → Runs (continue r (λ pc'. download_run s artifact fuel pc')) u (Left m)
  go_on pc fuel (done pc') u k (i, l) f = f pc' i (omega arith)
  go_on pc fuel (fail e) u k x f = absurd x
  go_on pc fuel (crash c) u k x f = record { at = λ w e. tt }

  download_run-Left :
      (fuel : ℕ) (pc : Pc) (v : Shared)
      → Sound m pc v
      → tests_left pc ≤ fuel
      → Runs (download_run s artifact fuel pc) v (Left m)
  unfolding download_run
  download_run-Left zero pc v i k = Runs-pure v pc (i, returned pc k)
  download_run-Left (suc fuel) pc v i k =
      Runs-bind v _ _ (download_step-Both pc v i)
        (λ r u x. go_on pc fuel r u k x (λ pc' j l. download_run-Left fuel pc' u j l))

module _ {Node C E : Type 0} (s : Services Node C E) (stop_id : String) where
  pub finish-Over : (u : Shared) → Runs (finish s stop_id) u (λ r _. Over r)
  finish-Over u = finish-Runs s stop_id u (λ u' l st n. refl) (λ c u'. tt)

  -- The signal came after the wait began, and the `while` ends.
  woken-Over :
      (seen : ℕ) (pc : Pc) (v : Shared)
      → Sound (waiting stop_id seen) pc v
      → is_answering pc ≡ false
      → Runs (woken s stop_id) v (λ r _. Over r)
  unfolding woken
  woken-Over seen pc v (h, p) a = Runs-lock-bind v _ h (
      Runs-gets_state-bind _ _
        (Runs-if _ _ _ _ (λ e. absurd (answered p (requested_of _ e))) (λ _. finish-Over _)))
    where
      answered : Phase (waiting stop_id seen) pc v → v.action.state ≢ cancel_requested
      answered (inl (_, on, _)) = cc
      answered (inr (b, _, _)) = answerable_ne _ b

  after_run :
      (seen : ℕ) (r : Outcome Pc) (u : Shared)
      → Left (waiting stop_id seen) r u
      → Runs (continue r (λ _. woken s stop_id)) u (λ r' _. Over r')
  after_run seen (done pc) u (i, a) = woken-Over seen pc u i a
  after_run seen (fail e) u x = absurd x
  after_run seen (crash c) u x = record { at = λ w e. tt }

-- A cancelation that is waited for comes to an end: from every state in which `process_cancel`
-- waits, the download thread returns within five of its steps, whether downloads are resumed or
-- not, having signalled the condition, and `process_cancel`, which that wakes, ends too and does
-- not wait again; or the process is stopped. Should it be woken while the cancelation is still
-- requested, it goes on waiting, with nothing changed. The artifact is not for download only, and
-- the callback that starts the installation just starts it.
pub wait-Over :
    {Node C E : Type 0} (s : Services Node C E) (artifact : Artifact) (t : System E)
    (stop_id : String) (seen : ℕ)
    → is_download_only s artifact ≡ false
    → ((u : UserData) → Calm (s.software_ready_cb u))
    → Reach s artifact t
    → t.main ≡ waiting stop_id seen
    → (Signalled seen
        (download_run s artifact 5 t.pc t.world).0
        (shared (download_run s artifact 5 t.pc t.world).1))
      × Over ((do pc ← download_run s artifact 5 t.pc; woken s stop_id) t.world).0
      × WaitsAgain s t.main t.world
wait-Over s artifact t stop_id seen d q r k =
    let run =
      download_run-Left s artifact d q stop_id seen 5 t.pc (shared t.world)
        (subst (λ m. Sound m t.pc (shared t.world)) k (Reach-Sound s artifact t d q r).0)
        (at_most_five t.pc) in
    (
      Left-Signalled stop_id seen _ _ (run.at t.world refl),
      (Runs-bind (shared t.world) _ _ run (after_run s stop_id seen)).at t.world refl,
      (Reach-Sound s artifact t d q r).1,
    )
