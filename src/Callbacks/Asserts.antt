-- ===== src/Callbacks/Asserts.antt =====
-- src/rauc-installer.c: the assertions of `install_context_free`.
use rauc_hawkbit_updater.Base.{
  String, Bool, true, false, ◌≡◌, refl, sym, subst, Option, none, some, List, [], ◌∷◌, ℤ, pos,
  ltb_ℤ, if◌then◌else◌,
}
use rauc_hawkbit_updater.GError.{Result, ok, err}
use rauc_hawkbit_updater.Exec.{Exec, pure}
use rauc_hawkbit_updater.World.{World}
use rauc_hawkbit_updater.World.Asserts.{
  Assured-modify, Assured-if, Assured-call, Assured-gets, Assured-emit, Assured-blocked,
  Assured-bind, Assured, Any, Holds, Assured-pure,
}
use rauc_hawkbit_updater.Installer.{
  join_install, InstallContext, BusSignal, properties_changed, completed, Bus, run_loop,
  install_context_free, await_result, install_bundle, contact, install_loop_thread, new_context,
  wait_for, rauc_install,
}
use rauc_hawkbit_updater.Callbacks.{pop_messages, on_rauc_install_complete_cb, notify_with}
use rauc_hawkbit_updater.Callbacks.Relays.{verdict, read_signals, conclude, run_loop-relay}

-- What `install_context_free` asserts.
abbrev pub Freeable : InstallContext → Type 0
Freeable context = (context.status_messages ≡ []) × (ltb_ℤ context.status_result (pos 0) ≡ false)

abbrev NonNegative : Option ℤ → Type 0
NonNegative none = Unit
NonNegative (some n) = ltb_ℤ n (pos 0) ≡ false

final-NonNegative :
    (b : Bool) (n : ℤ) → ltb_ℤ n (pos 0) ≡ b → NonNegative (if b then none else some n)
final-NonNegative true n h = tt
final-NonNegative false n h = h

verdict-NonNegative : (x : BusSignal) → NonNegative (verdict x)
verdict-NonNegative (properties_changed true changed) = refl
verdict-NonNegative (properties_changed false changed) = tt
verdict-NonNegative (completed result) = final-NonNegative (ltb_ℤ result (pos 0)) result refl

abbrev first : Option ℤ → List String × Option ℤ → List String × Option ℤ
first v rest = elim v [ some n ↦ ([], some n) | none ↦ rest ]

first-NonNegative :
    (v : Option ℤ) (messages : List String) (r : Option ℤ)
    → NonNegative v
    → NonNegative r
    → NonNegative (first v (messages, r)).1
first-NonNegative none messages r h k = k
first-NonNegative (some n) messages r h k = h

read_signals-NonNegative : (signals : List BusSignal) → NonNegative (read_signals signals).1
read_signals-NonNegative [] = tt
read_signals-NonNegative (x ∷ signals) =
    first-NonNegative (verdict x) _ (read_signals signals).1 (verdict-NonNegative x)
      (read_signals-NonNegative signals)

module _ {E : Type 0} (progress : String → Exec (World E) (Unit {0}))
    (complete : Bool → Exec (World E) (Unit {0})) (bus : Bus E)
    (p : (msg : String) → Assured Any (progress msg))
    (c : (success : Bool) → Assured Any (complete success)) where
  pop_messages-Assured : (messages : List String) → Assured Any (pop_messages progress messages)
  unfolding pop_messages
  pop_messages-Assured [] = Assured-pure tt tt
  pop_messages-Assured (m ∷ messages) =
      Assured-bind _ _ (p m) (λ _ _. pop_messages-Assured messages)

  conclude-Assured :
      (context : InstallContext) (r : Option ℤ)
      → NonNegative r
      → Assured Freeable (conclude progress complete context r)
  conclude-Assured context none h = Assured-blocked
  conclude-Assured context (some n) h = Assured-pure _ (refl, h)

  run_loop-Assured :
      (signals : List BusSignal) (context : InstallContext)
      → context.quit ≡ false
      → context.status_messages ≡ []
      → Assured Freeable (run_loop (notify_with progress complete) signals context)
  run_loop-Assured signals context h k = record {
    at = λ w.
        subst (λ x. Holds Freeable x.0)
          (sym (run_loop-relay progress complete signals context w h k))
          ((Assured-bind _ _ (pop_messages-Assured (read_signals signals).0) (λ _ _.
              conclude-Assured context (read_signals signals).1
                (read_signals-NonNegative signals))).at
            w);
  }

  install_context_free-Assured :
      (context : InstallContext)
      → Freeable context
      → Assured Any (install_context_free (notify_with progress complete) context)
  unfolding install_context_free
  install_context_free-Assured context (h, k) = rw (h, k) (Assured-pure tt tt)

  free_if-Assured :
      (keep : Bool) (context : InstallContext)
      → Freeable context
      → Assured Any
          (if keep then pure tt else install_context_free (notify_with progress complete) context)
  free_if-Assured true context h = Assured-pure tt tt
  free_if-Assured false context h = install_context_free-Assured context h

  module _ (bundle : String) (auth_header : Option String) (ssl_verify keep : Bool) where
    abbrev fresh : InstallContext
    fresh = new_context bundle auth_header ssl_verify keep

    fresh-Freeable : Freeable fresh
    unfolding new_context
    fresh-Freeable = (refl, refl)

    await_result-Assured :
        (answer : Result (Unit {0}))
        → Assured Freeable (await_result (notify_with progress complete) bus fresh answer)
    unfolding await_result new_context
    await_result-Assured (err e) = Assured-pure _ fresh-Freeable
    await_result-Assured (ok _) =
        Assured-bind _ _ (Assured-call bus.signals)
          (λ signals _. run_loop-Assured signals fresh refl refl)

    install_bundle-Assured :
        Assured Freeable (install_bundle (notify_with progress complete) bus fresh)
    unfolding install_bundle await_result new_context
    install_bundle-Assured = Assured-bind _ _ (Assured-call bus.connect_properties_changed) (λ b _.
        Assured-if b _ _ (Assured-pure _ fresh-Freeable) (
          Assured-bind _ _ (Assured-call bus.connect_completed) (λ e _.
            Assured-if e _ _ (Assured-pure _ fresh-Freeable) (
              Assured-bind _ _ (Assured-emit _) (λ _ _.
                Assured-bind _ _ (Assured-call _) (λ answer _. await_result-Assured answer))))))

    contact-Assured :
        (proxy : Result (Unit {0}))
        → Assured Freeable (contact (notify_with progress complete) bus fresh proxy)
    unfolding contact
    contact-Assured (err e) = Assured-pure _ fresh-Freeable
    contact-Assured (ok _) = install_bundle-Assured

    thread-Assured :
        Assured Freeable (install_loop_thread (notify_with progress complete) bus fresh)
    unfolding install_loop_thread on_rauc_install_complete_cb
    thread-Assured = Assured-bind _ _ (Assured-call bus.new_proxy) (λ proxy _.
        Assured-bind _ _ (contact-Assured proxy) (λ context' h. Assured-bind _ _ (c _) (λ _ _.
          Assured-bind _ _ (free_if-Assured context'.keep_install_context context' h)
            (λ _ _. Assured-pure context' h))))

  module _ (bundle : String) (auth_header : Option String) (ssl_verify : Bool) where
    wait_for-Assured :
        (keep : Bool)
        → Assured Any (
            wait_for (notify_with progress complete) bus (fresh bundle auth_header ssl_verify keep))
    unfolding wait_for
    wait_for-Assured keep =
        Assured-bind _ _ (thread-Assured bundle auth_header ssl_verify keep) (λ context' h.
          Assured-bind _ _ (install_context_free-Assured context' h) (λ _ _. Assured-pure _ tt))

    join_install-Assured :
        (running : Bool) → Assured Any (join_install (notify_with progress complete) bus running)
    unfolding join_install
    join_install-Assured false = Assured-pure tt tt
    join_install-Assured true = Assured-emit _

    -- Where the two callbacks fail no assertion of their own, `rauc_install` fails none, with and
    -- without waiting, and the thread of an installation that is not waited for fails none either:
    -- the context that it ends with has an empty queue and a result that is not negative, so the
    -- two assertions of `install_context_free` hold whatever RAUC answers and signals.
    pub rauc_install-Assured :
        (wait : Bool)
        → Assured Any
            (rauc_install (notify_with progress complete) bus bundle auth_header ssl_verify wait)
          × Assured Freeable (
              install_loop_thread
                (notify_with progress complete)
                bus
                (new_context bundle auth_header ssl_verify false))
    unfolding rauc_install
    rauc_install-Assured wait = (
      Assured-bind _ _ (Assured-gets _) (λ running _.
          Assured-bind _ _ (join_install-Assured running) (λ _ _.
            Assured-bind _ _ (Assured-modify _)
              (λ _ _. Assured-bind _ _ (Assured-emit _) (λ _ _. waits wait)))),
      thread-Assured bundle auth_header ssl_verify false,
    )
      where
        waits :
            (b : Bool)
            → Assured Any (
                if b
                then wait_for
                    (notify_with progress complete)
                    bus
                    (new_context bundle auth_header ssl_verify wait)
                else pure true)
        waits true = wait_for-Assured wait
        waits false = Assured-pure true tt
