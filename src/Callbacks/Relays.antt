-- ===== src/Callbacks/Relays.antt =====
-- src/rauc-installer.c, src/rauc-hawkbit-updater.c: what hawkBit hears of an installation.
use rauc_hawkbit_updater.Base.{
  is_zero_ℤ, sym, inl, inr, Option-cases, Bool-cases, Option-cases, if◌then◌else◌, String, Bool,
  true, false, ◌≡◌, refl, ap, ◌∙◌, Option, none, some, List, [], ◌∷◌, ◌++◌, ℤ, pos, ltb_ℤ,
}
use rauc_hawkbit_updater.Exec.{Outcome, done, fail, crash, Exec, pure, stop, blocked, ◌>>=◌, ◌>>◌}
use rauc_hawkbit_updater.World.{World}
use rauc_hawkbit_updater.Installer.{
  InstallContext, Changed, BusSignal, properties_changed, completed, status_message, queued,
  run_loop, dispatch, on_installer_status, on_installer_completed,
}
use rauc_hawkbit_updater.Callbacks.{pop_messages, on_rauc_install_progress_cb, notify_with}

-- What the signals say: the messages up to the one that decides, in order, and the result.
abbrev pub heard : BusSignal → List String
heard (properties_changed true changed) = []
heard (properties_changed false changed) = queued (status_message changed)
heard (completed result) = []

-- The service is gone, or RAUC is done.
abbrev pub verdict : BusSignal → Option ℤ
verdict (properties_changed true changed) = some (pos 2)
verdict (properties_changed false changed) = none
verdict (completed result) = if ltb_ℤ result (pos 0) then none else some result

abbrev pub read_signals : List BusSignal → List String × Option ℤ
read_signals [] = ([], none)
read_signals (signal ∷ signals) =
    let (messages, result) = read_signals signals in
    elim (verdict signal) [ some r ↦ ([], some r) | none ↦ (heard signal ++ messages, result) ]

module _ {E : Type 0} (progress : String → Exec (World E) (Unit {0}))
    (complete : Bool → Exec (World E) (Unit {0})) where
  abbrev pub conclude : InstallContext → Option ℤ → Exec (World E) InstallContext
  conclude context none = stop blocked
  conclude context (some result) =
      pure (record context { status_messages = []; status_result = result; quit = true })

  -- The messages are passed on, and the result is kept.
  abbrev pub relay : InstallContext → List String × Option ℤ → Exec (World E) InstallContext
  relay context (messages, result) = do pop_messages progress messages; conclude context result

  run_loop-quit :
      (signals : List BusSignal) (context : InstallContext) (w : World E)
      → context.quit ≡ true
      → run_loop (notify_with progress complete) signals context w ≡ (done context, w)
  unfolding run_loop pure
  run_loop-quit [] context w h = rw h refl
  run_loop-quit (x ∷ signals) context w h = rw h refl

  abbrev loop : List BusSignal → InstallContext → Exec (World E) InstallContext
  loop = run_loop (notify_with progress complete)

  run_loop-signal :
      (x : BusSignal) (signals : List BusSignal) (context : InstallContext) (w : World E)
      → context.quit ≡ false
      → loop (x ∷ signals) context w
        ≡ (do context' ← dispatch (notify_with progress complete) x context; loop signals context')
            w
  unfolding run_loop
  run_loop-signal x signals context w h =
      ap
        (λ b.
          (if b then pure context else (do
            context' ← dispatch (notify_with progress complete) x context
            loop signals context'))
            w)
        h

  -- The callback, in the middle of the loop.
  popped :
      (r : Outcome (Unit {0})) (v w : World E) (d : InstallContext)
      (f : InstallContext → Exec (World E) InstallContext)
      → (do context' ← (do (do (λ (_ : World E). (r, v)); pure tt); pure d); f context') w
        ≡ (do (λ (_ : World E). (r, v)); f d) w
  unfolding pure ◌>>=◌
  popped (done a) v w d f = refl
  popped (fail e) v w d f = refl
  popped (crash c) v w d f = refl

  conclude-same :
      (context : InstallContext) (messages : List String) (n : ℤ) (r : Option ℤ)
      → conclude (record context { status_messages = messages; status_result = n }) r
        ≡ conclude context r
  conclude-same context messages n none = refl
  conclude-same context messages n (some result) = refl

  relay-same :
      (context : InstallContext) (messages : List String) (n : ℤ) (ms : List String) (r : Option ℤ)
      → relay (record context { status_messages = messages; status_result = n }) (ms, r)
        ≡ relay context (ms, r)
  relay-same context messages n ms r =
      ap (λ (f : Exec (World E) InstallContext). pop_messages progress ms >> f)
        (conclude-same context messages n r)

  -- One message, in the middle of the relay.
  relay_first :
      (r : Outcome (Unit {0})) (v w : World E) (ms : List String) (result : Option ℤ)
      (context : InstallContext) (f : Exec (World E) InstallContext)
      → ((w' : World E) → f w' ≡ relay context (ms, result) w')
      → (do (λ (_ : World E). (r, v)); f) w
        ≡ (do (do (λ (_ : World E). (r, v)); pop_messages progress ms); conclude context result) w
  unfolding ◌>>=◌
  relay_first (done a) v w ms result context f h = h v
  relay_first (fail e) v w ms result context f h = refl
  relay_first (crash c) v w ms result context f h = refl

  -- What the two handlers come to, with an empty queue.
  status_silent :
      (changed : Changed) (context : InstallContext)
      → context.status_messages ≡ []
      → status_message changed ≡ none
      → on_installer_status (notify_with progress complete) false changed context
        ≡ pure (record context { status_messages = [] })
  unfolding on_installer_status
  status_silent changed context k e = rw (k, e) refl

  status_heard :
      (changed : Changed) (context : InstallContext) (m : String)
      → context.status_messages ≡ []
      → status_message changed ≡ some m
      → on_installer_status (notify_with progress complete) false changed context
        ≡ on_rauc_install_progress_cb progress (record context { status_messages = m ∷ [] })
  unfolding on_installer_status
  status_heard changed context m k e = rw (k, e) refl

  completed_negative :
      (result : ℤ) (context : InstallContext)
      → ltb_ℤ result (pos 0) ≡ true
      → on_installer_completed (notify_with progress complete) result context
        ≡ pure (record context { status_result = result })
  unfolding on_installer_completed
  completed_negative result context e =
      ap
        (λ b.
          if b
          then pure (record context { status_result = result })
          else pure (record context { status_result = result; quit = true }))
        e

  completed_final :
      (result : ℤ) (context : InstallContext)
      → ltb_ℤ result (pos 0) ≡ false
      → on_installer_completed (notify_with progress complete) result context
        ≡ pure (record context { status_result = result; quit = true })
  unfolding on_installer_completed
  completed_final result context e =
      ap
        (λ b.
          if b
          then pure (record context { status_result = result })
          else pure (record context { status_result = result; quit = true }))
        e

  abbrev read_with : Bool → ℤ → List BusSignal → List String × Option ℤ
  read_with b result signals =
      let (messages, r) = read_signals signals in
      elim (if b then none else some result) [ some n ↦ ([], some n) | none ↦ (messages, r) ]

  -- The main loop alone, with the context that it leaves.
  pub run_loop-relay :
      (signals : List BusSignal) (context : InstallContext) (w : World E)
      → context.quit ≡ false
      → context.status_messages ≡ []
      → run_loop (notify_with progress complete) signals context w
        ≡ relay context (read_signals signals) w
  unfolding run_loop dispatch on_installer_status on_installer_completed pop_messages
      on_rauc_install_progress_cb pure ◌>>=◌
  run_loop-relay [] context w h k = rw h refl
  run_loop-relay (properties_changed true changed ∷ signals) context w h k =
      run_loop-signal (properties_changed true changed) signals context w h
      ∙ run_loop-quit signals (record context { status_result = pos 2; quit = true }) w refl
      ∙ ap
          (λ l.
            (done (record context { status_messages = l; status_result = pos 2; quit = true }), w))
          k
  run_loop-relay (properties_changed false changed ∷ signals) context w h k =
      run_loop-signal (properties_changed false changed) signals context w h
      ∙ elim (Option-cases (status_message changed)) [
        | inl e ↦
            ap (λ (f : Exec (World E) InstallContext). (f >>= loop signals) w)
              (status_silent changed context k e)
            ∙ run_loop-relay signals (record context { status_messages = [] }) w h refl
            ∙ ap (λ (f : Exec (World E) InstallContext). f w)
                (relay-same context [] context.status_result (read_signals signals).0
                  (read_signals signals).1)
            ∙ ap (λ l. relay context (l ++ (read_signals signals).0, (read_signals signals).1) w)
                (ap queued (sym e))
        | inr (m, e) ↦
            ap (λ (f : Exec (World E) InstallContext). (f >>= loop signals) w)
              (status_heard changed context m k e)
            ∙ popped (progress m w).0 (progress m w).1 w (record context { status_messages = [] })
                (loop signals)
            ∙ relay_first (progress m w).0 (progress m w).1 w (read_signals signals).0
                (read_signals signals).1 context
                (loop signals (record context { status_messages = [] }))
                (λ w'.
                  run_loop-relay signals (record context { status_messages = [] }) w' h refl
                  ∙ ap (λ (f : Exec (World E) InstallContext). f w')
                      (relay-same context [] context.status_result (read_signals signals).0
                        (read_signals signals).1))
            ∙ ap (λ l. relay context (l ++ (read_signals signals).0, (read_signals signals).1) w)
                (ap queued (sym e))
      ]
  run_loop-relay (completed result ∷ signals) context w h k =
      run_loop-signal (completed result) signals context w h
      ∙ elim (Bool-cases (ltb_ℤ result (pos 0))) [
        | inl e ↦
            ap (λ (f : Exec (World E) InstallContext). (f >>= loop signals) w)
              (completed_negative result context e)
            ∙ run_loop-relay signals (record context { status_result = result }) w h k
            ∙ ap (λ (f : Exec (World E) InstallContext). f w)
                (relay-same context context.status_messages result (read_signals signals).0
                  (read_signals signals).1)
            ∙ ap (λ b. relay context (read_with b result signals) w) (sym e)
        | inr e ↦
            ap (λ (f : Exec (World E) InstallContext). (f >>= loop signals) w)
              (completed_final result context e)
            ∙ run_loop-quit signals (record context { status_result = result; quit = true }) w refl
            ∙ ap
                (λ l. (
                  done
                      (record context { status_messages = l; status_result = result; quit = true }),
                  w,
                ))
                k
            ∙ ap (λ b. relay context (read_with b result signals) w) (sym e)
      ]

  -- What hawkBit is told in the end.
  abbrev pub tell : Option ℤ → Exec (World E) (Unit {0})
  tell none = stop blocked
  tell (some result) = complete (is_zero_ℤ result)
