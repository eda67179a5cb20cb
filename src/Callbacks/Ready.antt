-- ===== src/Callbacks/Ready.antt =====
-- src/rauc-hawkbit-updater.c, src/hawkbit-client.c: the service with the callback that main() gives it.
use rauc_hawkbit_updater.Base.{
  ap, ◌∙◌, List, [], ◌∷◌, String, Bool, true, false, ◌≡◌, refl, subst, sym,
}
use rauc_hawkbit_updater.Exec.{Outcome, done, fail, crash, gets, modify}
use rauc_hawkbit_updater.World.{World, UserData, install_joined}
use rauc_hawkbit_updater.World.Quiet.{shared, Shared, Calm, Calm-emit, Calm-pure, Calm-bind}
use rauc_hawkbit_updater.World.Runs.{with_lock}
use rauc_hawkbit_updater.World.Moves.{After, Moves, Moves-pure, Moves-bind, moves_rules}
use rauc_hawkbit_updater.Feedback.Completes.{Leaves, install_complete_cb-Leaves}
use rauc_hawkbit_updater.Installer.Moves.{rauc_install-Moves}
use rauc_hawkbit_updater.Services.{Services}
use rauc_hawkbit_updater.Feedback.{hawkbit_progress, install_complete_cb}
use rauc_hawkbit_updater.Installer.{InstallContext, Bus, Notify, rauc_install, join_install}
use rauc_hawkbit_updater.Callbacks.{
  on_rauc_install_complete_cb, pop_messages, on_rauc_install_progress_cb, notify_with,
  on_new_software_ready_cb,
}

module _ {E : Type 0} where
  Calm-gets : (f : World E → Bool) → Calm (gets f)
  unfolding gets
  Calm-gets f = record { quiet = record { at = λ w. refl }; no_fail = λ w. tt }

  Calm-thread : Calm (modify {S = World E} (λ w. record w { thread_install = true }))
  unfolding modify
  Calm-thread = record { quiet = record { at = λ w. refl }; no_fail = λ w. tt }

module _ {E : Type 0} (notify : Notify E) (bus : Bus E) where
  join_install-Calm : (running : Bool) → Calm (join_install notify bus running)
  unfolding join_install
  join_install-Calm false = Calm-pure tt
  join_install-Calm true = Calm-emit install_joined refl

  rauc_install-Calm :
      (userdata : UserData)
      → Calm (rauc_install notify bus userdata.file userdata.auth_header userdata.ssl_verify false)
  unfolding rauc_install
  rauc_install-Calm userdata = Calm-bind _ _ (Calm-gets _) (λ running.
      Calm-bind _ _ (join_install-Calm running) (λ _.
        Calm-bind _ _ Calm-thread (λ _. Calm-bind _ _ (Calm-emit _ refl) (λ _. Calm-pure true))))

Leaves-After :
    (r : Outcome (Unit {0})) (v u : Shared) → v.locked ≡ false → Leaves v r u → After false r u
Leaves-After (done a) v u h e = ap (λ (x : Shared). x.locked) e ∙ h
Leaves-After (fail x) v u h n = n
Leaves-After (crash c) v u h n = tt

module _ {Node C E : Type 0} (bus : Bus E) (s : Services Node C E) where
  pub on_new_software_ready_cb-Calm :
      s.run_once ≡ false → (u : UserData) → Calm (on_new_software_ready_cb bus s u)
  unfolding on_new_software_ready_cb
  on_new_software_ready_cb-Calm h u =
      subst
        (λ wait. Calm (
          rauc_install (notify_with (hawkbit_progress s) (install_complete_cb s)) bus u.file
            u.auth_header u.ssl_verify wait))
        (sym h) (rauc_install-Calm _ bus u)

  -- With --run-once it waits for the installation, and hears of its progress and its end.
  hawkbit_progress-Moves : (msg : String) → Moves false false (hawkbit_progress s msg)
  hawkbit_progress-Moves msg = record {
    at = λ w h.
        Leaves-After _ (with_lock false (shared w)) _ refl
          (install_complete_cb-Leaves s true msg w h).1;
  }

  pop_messages-Moves :
      (messages : List String) → Moves false false (pop_messages (hawkbit_progress s) messages)
  unfolding pop_messages
  pop_messages-Moves [] = Moves-pure tt
  pop_messages-Moves (m ∷ messages) =
      Moves-bind _ _ (hawkbit_progress-Moves m) (λ _. pop_messages-Moves messages)

  progress-Moves :
      (context : InstallContext)
      → Moves false false (on_rauc_install_progress_cb (hawkbit_progress s) context)
  unfolding on_rauc_install_progress_cb
  progress-Moves context = search (moves_rules, pop_messages-Moves)

  complete-Moves :
      (context : InstallContext)
      → Moves false false (on_rauc_install_complete_cb (install_complete_cb s) context)
  unfolding on_rauc_install_complete_cb
  complete-Moves context = record {
    at = λ w h. Leaves-After _ _ _ refl (install_complete_cb-Leaves s _ "" w h).0;
  }

  pub on_new_software_ready_cb-Moves :
      (u : UserData) → Moves false false (on_new_software_ready_cb bus s u)
  unfolding on_new_software_ready_cb
  on_new_software_ready_cb-Moves u =
      rauc_install-Moves (notify_with (hawkbit_progress s) (install_complete_cb s)) bus
        progress-Moves complete-Moves u.file u.auth_header u.ssl_verify s.run_once
