-- ===== src/World/Quiet.antt =====
-- What the threads share, and the actions that leave it alone because they only talk to the outside.
use rauc_hawkbit_updater.Base.{
  ◌||◌, arith, ℕ, suc, Bool, true, false, ◌≡◌, refl, ◌∙◌, List, [], ◌∷◌, if◌then◌else◌,
}
use rauc_hawkbit_updater.GError.{GError, Result, ok, err}
use rauc_hawkbit_updater.Exec.{
  Outcome, done, fail, crash, Crash, Exec, pure, stop, throw, of_result, attempt, attempted, lift,
  continue, modify, ◌>>=◌,
}
use rauc_hawkbit_updater.World.{
  download_started, World, HawkbitAction, Event, signalled, call, emit,
}

abbrev pub is_signal : Event → Bool
is_signal signalled = true
is_signal _ = false

abbrev pub is_start : Event → Bool
is_start (download_started artifact) = true
is_start _ = false

-- How often the condition has been signalled.
abbrev pub signals : List Event → ℕ
signals [] = 0
signals (v ∷ trace) = if is_signal v then suc (signals trace) else signals trace

-- How many download threads have been started.
abbrev pub starts : List Event → ℕ
starts [] = 0
starts (v ∷ trace) = if is_start v then suc (starts trace) else starts trace

-- An event that other threads see, or that starts one.
abbrev pub is_shared : Event → Bool
is_shared v = is_signal v || is_start v

or_left : (a b : Bool) → (a || b) ≡ false → a ≡ false
or_left a b e = ground arith

or_right : (a b : Bool) → (a || b) ≡ false → b ≡ false
or_right a b e = ground arith

pub unshared : (v : Event) → is_shared v ≡ false → (is_signal v ≡ false) × (is_start v ≡ false)
unshared v h = (or_left (is_signal v) (is_start v) h, or_right (is_signal v) (is_start v) h)

pub record Shared : Type 0 where
  pub locked : Bool
  pub action : HawkbitAction
  pub thread_download : Bool
  pub signals_sent : ℕ
  pub threads_started : ℕ

abbrev pub shared : {E : Type 0} → World E → Shared
shared w = record {
  locked = w.locked;
  action = w.action;
  thread_download = w.thread_download;
  signals_sent = signals w.trace;
  threads_started = starts w.trace;
}

pub record Quiet {E A : Type 0} (m : Exec (World E) A) : Type 0 where
  pub at : (w : World E) → shared (m w).1 ≡ shared w

module _ {E : Type 0} where
  pub Quiet-emit : (v : Event) → is_shared v ≡ false → Quiet (emit {E = E} v)
  unfolding emit modify
  Quiet-emit v h = record { at = λ w. rw ((unshared v h).0, (unshared v h).1) refl }

module _ {E A : Type 0} where
  pub Quiet-pure : (a : A) → Quiet (pure {S = World E} a)
  unfolding pure
  Quiet-pure a = record { at = λ w. refl }

  pub Quiet-stop : (c : Crash) → Quiet (stop {S = World E} {A = A} c)
  unfolding stop
  Quiet-stop c = record { at = λ w. refl }

  pub Quiet-throw : (e : GError) → Quiet (throw {S = World E} {A = A} e)
  unfolding throw
  Quiet-throw e = record { at = λ w. refl }

  pub Quiet-of_result : (r : Result A) → Quiet (of_result {S = World E} r)
  unfolding of_result
  Quiet-of_result (ok a) = record { at = λ w. refl }
  Quiet-of_result (err e) = record { at = λ w. refl }

  pub Quiet-lift : (r : Outcome A) → Quiet (lift {S = World E} r)
  unfolding lift
  Quiet-lift r = record { at = λ w. refl }

  pub Quiet-call : (f : E → A × E) → Quiet (call f)
  unfolding call
  Quiet-call f = record { at = λ w. refl }

  pub Quiet-attempt : (m : Exec (World E) A) → Quiet m → Quiet (attempt m)
  unfolding attempt
  Quiet-attempt m q = record { at = q.at }

  pub Quiet-if :
      (b : Bool) (m n : Exec (World E) A) → Quiet m → Quiet n → Quiet (if b then m else n)
  Quiet-if true m n p q = p
  Quiet-if false m n p q = q

module _ {E A B : Type 0} where
  Quiet-continue :
      (r : Outcome A) (f : A → Exec (World E) B) → ((a : A) → Quiet (f a)) → Quiet (continue r f)
  Quiet-continue (done a) f q = record { at = (q a).at }
  Quiet-continue (fail e) f q = record { at = λ w. refl }
  Quiet-continue (crash c) f q = record { at = λ w. refl }

  pub Quiet-bind :
      (m : Exec (World E) A) (f : A → Exec (World E) B)
      → Quiet m
      → ((a : A) → Quiet (f a))
      → Quiet (m >>= f)
  unfolding ◌>>=◌
  Quiet-bind m f p q = record {
    at = λ w. let (r, w') = m w in (Quiet-continue r f q).at w' ∙ p.at w;
  }

-- Quiet actions that never end with an error.
abbrev pub NoFail : {A : Type 0} → Outcome A → Type 0
NoFail (fail e) = ⊥
NoFail _ = Unit

NoFail-attempted : {A : Type 0} (r : Outcome A) → NoFail (attempted r)
NoFail-attempted (done a) = tt
NoFail-attempted (fail e) = tt
NoFail-attempted (crash c) = tt

pub record Calm {E A : Type 0} (m : Exec (World E) A) : Type 0 where
  pub quiet : Quiet m
  pub no_fail : (w : World E) → NoFail (m w).0

module _ {E : Type 0} where
  pub Calm-emit : (v : Event) → is_shared v ≡ false → Calm (emit {E = E} v)
  unfolding emit modify
  Calm-emit v h = record { quiet = Quiet-emit v h; no_fail = λ w. tt }

module _ {E A : Type 0} where
  pub Calm-pure : (a : A) → Calm (pure {S = World E} a)
  unfolding pure
  Calm-pure a = record { quiet = Quiet-pure a; no_fail = λ w. tt }

  pub Calm-call : (f : E → A × E) → Calm (call f)
  unfolding call
  Calm-call f = record { quiet = Quiet-call f; no_fail = λ w. tt }

  pub Calm-attempt : (m : Exec (World E) A) → Quiet m → Calm (attempt m)
  unfolding attempt
  Calm-attempt m q = record { quiet = Quiet-attempt m q; no_fail = λ w. NoFail-attempted (m w).0 }

module _ {E A B : Type 0} where
  NoFail-continue :
      (r : Outcome A) (f : A → Exec (World E) B) (w : World E)
      → NoFail r
      → ((a : A) → Calm (f a))
      → NoFail (continue r f w).0
  NoFail-continue (done a) f w h k = (k a).no_fail w
  NoFail-continue (fail e) f w h k = absurd h
  NoFail-continue (crash c) f w h k = tt

  pub Calm-bind :
      (m : Exec (World E) A) (f : A → Exec (World E) B)
      → Calm m
      → ((a : A) → Calm (f a))
      → Calm (m >>= f)
  unfolding ◌>>=◌
  Calm-bind m f p k = record {
    quiet = Quiet-bind m f p.quiet (λ a. (k a).quiet);
    no_fail = λ w. let (r, w') = m w in NoFail-continue r f w' (p.no_fail w) k;
  }

pub ruleset calm_rules = (Calm-emit, Calm-pure, Calm-call, Calm-attempt, Calm-bind)

pub ruleset quiet_rules = (
  Quiet-emit, Quiet-pure, Quiet-stop, Quiet-throw, Quiet-of_result, Quiet-lift, Quiet-call,
  Quiet-attempt, Quiet-if, Quiet-bind,
)
