-- ===== src/World/Runs.antt =====
-- Rules for what an action makes of the shared state: `Runs m v Q` is that from every state that
-- shows `v` to the threads, `m` ends with an outcome and a shared state of which `Q` holds.
use rauc_hawkbit_updater.Base.{
  suc, String, Bool, true, false, ◌≡◌, refl, sym, ◌∙◌, subst, Option, ◌∷◌, if◌then◌else◌,
}
use rauc_hawkbit_updater.GError.{GError, Result, ok, err}
use rauc_hawkbit_updater.Exec.{
  Outcome, done, fail, crash, Crash, Exec, pure, stop, throw, attempt, attempted, continue, gets,
  modify, ◌>>=◌,
}
use rauc_hawkbit_updater.World.{
  Artifact, download_started, World, HawkbitAction, ActionState, Event, signalled, call, emit,
  set_state, set_id, lock, unlock,
}
use rauc_hawkbit_updater.World.Quiet.{Shared, shared, is_shared, unshared, Quiet, NoFail, Calm}

pub record Runs {E A : Type 0} (m : Exec (World E) A) (v : Shared) (Q : Outcome A → Shared → Type 0)
    : Type 0 where
  pub at : (w : World E) → shared w ≡ v → Q (m w).0 (shared (m w).1)

abbrev pub with_lock : Bool → Shared → Shared
with_lock b v = record v { locked = b }

abbrev pub with_state : ActionState → Shared → Shared
with_state st v = record v { action = record v.action { state = st } }

abbrev pub with_id : Option String → Shared → Shared
with_id i v = record v { action = record v.action { id = i } }

abbrev pub with_thread : Shared → Shared
with_thread v = record v { thread_download = true }

abbrev pub with_signal : Shared → Shared
with_signal v = record v { signals_sent = suc v.signals_sent }

abbrev pub with_start : Shared → Shared
with_start v = record v { threads_started = suc v.threads_started }

module _ {E A : Type 0} {Q : Outcome A → Shared → Type 0} (v : Shared) where
  pub Runs-pure : (a : A) → Q (done a) v → Runs (pure {S = World E} a) v Q
  unfolding pure
  Runs-pure a q = record { at = λ w e. subst (Q (done a)) (sym e) q }

  pub Runs-throw : (x : GError) → Q (fail x) v → Runs (throw {S = World E} x) v Q
  unfolding throw
  Runs-throw x q = record { at = λ w e. subst (Q (fail x)) (sym e) q }

  pub Runs-stop : (c : Crash) → Q (crash c) v → Runs (stop {S = World E} c) v Q
  unfolding stop
  Runs-stop c q = record { at = λ w e. subst (Q (crash c)) (sym e) q }

  pub Runs-if :
      (b : Bool) (m n : Exec (World E) A)
      → (b ≡ true → Runs m v Q)
      → (b ≡ false → Runs n v Q)
      → Runs (if b then m else n) v Q
  Runs-if true m n p q = p refl
  Runs-if false m n p q = q refl

  pub Runs-quiet : (m : Exec (World E) A) → Quiet m → ((r : Outcome A) → Q r v) → Runs m v Q
  Runs-quiet m k q = record { at = λ w e. subst (Q (m w).0) (sym (k.at w ∙ e)) (q (m w).0) }

pub Runs-weaken :
    {E A : Type 0} {P Q : Outcome A → Shared → Type 0} (v : Shared) (m : Exec (World E) A)
    → Runs m v P
    → ((r : Outcome A) (u : Shared) → P r u → Q r u)
    → Runs m v Q
Runs-weaken v m p k = record { at = λ w e. k _ _ (p.at w e) }

module _ {E A B : Type 0} {Q : Outcome B → Shared → Type 0} (v : Shared) where
  -- The general rule: a part with a postcondition of its own.
  pub Runs-bind :
      {P : Outcome A → Shared → Type 0} (m : Exec (World E) A) (f : A → Exec (World E) B)
      → Runs m v P
      → ((r : Outcome A) (u : Shared) → P r u → Runs (continue r f) u Q)
      → Runs (m >>= f) v Q
  unfolding ◌>>=◌
  Runs-bind m f p k = record {
    at = λ w e. let (r, w') = m w in (k r (shared w') (p.at w e)).at w' refl;
  }

  Runs-continue :
      (r : Outcome A) (f : A → Exec (World E) B)
      → ((a : A) → Runs (f a) v Q)
      → ((x : GError) → Q (fail x) v)
      → ((c : Crash) → Q (crash c) v)
      → Runs (continue r f) v Q
  Runs-continue (done a) f k x c = k a
  Runs-continue (fail e) f k x c = record { at = λ w p. subst (Q (fail e)) (sym p) (x e) }
  Runs-continue (crash d) f k x c = record { at = λ w p. subst (Q (crash d)) (sym p) (c d) }

  Runs-calm-continue :
      (r : Outcome A) (f : A → Exec (World E) B)
      → NoFail r
      → ((a : A) → Runs (f a) v Q)
      → ((c : Crash) → Q (crash c) v)
      → Runs (continue r f) v Q
  Runs-calm-continue (done a) f h k c = k a
  Runs-calm-continue (fail e) f h k c = absurd h
  Runs-calm-continue (crash d) f h k c = record { at = λ w p. subst (Q (crash d)) (sym p) (c d) }

  pub Runs-quiet-bind :
      (m : Exec (World E) A) (f : A → Exec (World E) B)
      → Quiet m
      → ((a : A) → Runs (f a) v Q)
      → ((x : GError) → Q (fail x) v)
      → ((c : Crash) → Q (crash c) v)
      → Runs (m >>= f) v Q
  unfolding ◌>>=◌
  Runs-quiet-bind m f q k x c = record {
    at = λ w e. let (r, w') = m w in (Runs-continue r f k x c).at w' (q.at w ∙ e);
  }

  pub Runs-calm-bind :
      (m : Exec (World E) A) (f : A → Exec (World E) B)
      → Calm m
      → ((a : A) → Runs (f a) v Q)
      → ((c : Crash) → Q (crash c) v)
      → Runs (m >>= f) v Q
  unfolding ◌>>=◌
  Runs-calm-bind m f q k c = record {
    at = λ w e.
        let (r, w') = m w in (Runs-calm-continue r f (q.no_fail w) k c).at w' (q.quiet.at w ∙ e);
  }

  pub Runs-call-bind :
      (g : E → A × E) (f : A → Exec (World E) B)
      → ((a : A) → Runs (f a) v Q)
      → Runs (call g >>= f) v Q
  unfolding call ◌>>=◌
  Runs-call-bind g f k = record {
    at = λ w e. (k (g w.env).0).at (record w { env = (g w.env).1 }) e;
  }

  pub Runs-gets-bind :
      (g : Shared → A) (f : A → Exec (World E) B)
      → Runs (f (g v)) v Q
      → Runs (gets (λ w. g (shared w)) >>= f) v Q
  unfolding ◌>>=◌
  Runs-gets-bind g f k = record {
    at = λ w e. subst (λ a. Q (f a w).0 (shared (f a w).1)) (λ i. g (sym e i)) (k.at w e);
  }

  Runs-attempted :
      (r : Outcome A) (f : Result A → Exec (World E) B)
      → ((a : Result A) → Runs (f a) v Q)
      → ((c : Crash) → Q (crash c) v)
      → Runs (continue (attempted r) f) v Q
  Runs-attempted (done a) f k c = k (ok a)
  Runs-attempted (fail e) f k c = k (err e)
  Runs-attempted (crash d) f k c = record { at = λ w p. subst (Q (crash d)) (sym p) (c d) }

  pub Runs-attempt-bind :
      (m : Exec (World E) A) (f : Result A → Exec (World E) B)
      → Quiet m
      → ((r : Result A) → Runs (f r) v Q)
      → ((c : Crash) → Q (crash c) v)
      → Runs (attempt m >>= f) v Q
  unfolding ◌>>=◌
  Runs-attempt-bind m f q k c = record {
    at = λ w e. let (r, w') = m w in (Runs-attempted r f k c).at w' (q.at w ∙ e);
  }

module _ {E B : Type 0} {Q : Outcome B → Shared → Type 0} (v : Shared)
    (f : Unit {0} → Exec (World E) B) where
  pub Runs-emit-bind : (x : Event) → is_shared x ≡ false → Runs (f tt) v Q → Runs (emit x >>= f) v Q
  unfolding emit modify ◌>>=◌
  Runs-emit-bind x h k = record {
    at = λ w e. k.at (record w { trace = x ∷ w.trace }) (rw ((unshared x h).0, (unshared x h).1) e);
  }

  pub Runs-signal-bind : Runs (f tt) (with_signal v) Q → Runs (emit signalled >>= f) v Q
  unfolding emit modify ◌>>=◌
  Runs-signal-bind k = record {
    at = λ w e. k.at (record w { trace = signalled ∷ w.trace }) (λ i. with_signal (e i));
  }

  pub Runs-start-bind :
      (artifact : Artifact)
      → Runs (f tt) (with_start v) Q
      → Runs (emit (download_started artifact) >>= f) v Q
  unfolding emit modify ◌>>=◌
  Runs-start-bind artifact k = record {
    at = λ w e.
        k.at (record w { trace = download_started artifact ∷ w.trace }) (λ i. with_start (e i));
  }

  pub Runs-set_state-bind :
      (st : ActionState) → Runs (f tt) (with_state st v) Q → Runs (set_state st >>= f) v Q
  unfolding set_state modify ◌>>=◌
  Runs-set_state-bind st k = record { at = λ w e. k.at _ (λ i. with_state st (e i)) }

  pub Runs-set_id-bind :
      (i : Option String) → Runs (f tt) (with_id i v) Q → Runs (set_id i >>= f) v Q
  unfolding set_id modify ◌>>=◌
  Runs-set_id-bind j k = record { at = λ w e. k.at _ (λ i. with_id j (e i)) }

  pub Runs-thread-bind :
      Runs (f tt) (with_thread v) Q
      → Runs (modify (λ (w : World E). record w { thread_download = true }) >>= f) v Q
  unfolding modify ◌>>=◌
  Runs-thread-bind k = record { at = λ w e. k.at _ (λ i. with_thread (e i)) }

  pub Runs-unlock-bind : Runs (f tt) (with_lock false v) Q → Runs (unlock >>= f) v Q
  unfolding unlock modify ◌>>=◌
  Runs-unlock-bind k = record { at = λ w e. k.at _ (λ i. with_lock false (e i)) }

  pub Runs-lock-bind : v.locked ≡ false → Runs (f tt) (with_lock true v) Q → Runs (lock >>= f) v Q
  unfolding lock ◌>>=◌
  Runs-lock-bind h k = record {
    at = λ w e. rw ((λ i. (e i).locked) ∙ h) (k.at _ (λ i. with_lock true (e i)));
  }

module _ {E A B : Type 0} {Q : Outcome B → Shared → Type 0} (v : Shared) where
  pub Runs-if-bind :
      (b : Bool) (m n : Exec (World E) A) (f : A → Exec (World E) B)
      → (b ≡ true → Runs (m >>= f) v Q)
      → (b ≡ false → Runs (n >>= f) v Q)
      → Runs ((if b then m else n) >>= f) v Q
  Runs-if-bind true m n f p q = p refl
  Runs-if-bind false m n f p q = q refl

  pub Runs-pure-bind : (a : A) (f : A → Exec (World E) B) → Runs (f a) v Q → Runs (pure a >>= f) v Q
  unfolding ◌>>=◌
  Runs-pure-bind a f k = record { at = k.at }

-- What the program reads of the shared state.
module _ {E B : Type 0} {Q : Outcome B → Shared → Type 0} (v : Shared) where
  pub Runs-gets_state-bind :
      (f : ActionState → Exec (World E) B)
      → Runs (f v.action.state) v Q
      → Runs (gets (λ w. w.action.state) >>= f) v Q
  Runs-gets_state-bind f k = Runs-gets-bind v (λ u. u.action.state) f k

  pub Runs-gets_id-bind :
      (f : Option String → Exec (World E) B)
      → Runs (f v.action.id) v Q
      → Runs (gets (λ w. w.action.id) >>= f) v Q
  Runs-gets_id-bind f k = Runs-gets-bind v (λ u. u.action.id) f k

  pub Runs-gets_action-bind :
      (f : HawkbitAction → Exec (World E) B)
      → Runs (f v.action) v Q
      → Runs (gets (λ w. w.action) >>= f) v Q
  Runs-gets_action-bind f k = Runs-gets-bind v (λ u. u.action) f k

  pub Runs-gets_thread-bind :
      (f : Bool → Exec (World E) B)
      → Runs (f v.thread_download) v Q
      → Runs (gets (λ w. w.thread_download) >>= f) v Q
  Runs-gets_thread-bind f k = Runs-gets-bind v (λ u. u.thread_download) f k

pub ruleset runs_rules = (
  Runs-pure, Runs-throw, Runs-stop, Runs-if, Runs-if-bind, Runs-pure-bind, Runs-call-bind,
  Runs-attempt-bind, Runs-emit-bind, Runs-signal-bind, Runs-set_state-bind, Runs-set_id-bind,
  Runs-unlock-bind, Runs-lock-bind, Runs-gets_state-bind, Runs-gets_id-bind, Runs-gets_action-bind,
  Runs-gets_thread-bind, Runs-calm-bind, Runs-thread-bind, Runs-start-bind,
)
