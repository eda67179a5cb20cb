-- ===== src/World/Moves.antt =====
-- Rules for the mutex alone: `Moves b c m` is that `m`, begun with the mutex held or free as `b` says,
-- returns with it as `c` says, and without an error; or the process is stopped, or a wait does not end.
use rauc_hawkbit_updater.Base.{String, Bool, true, false, ◌≡◌, refl, ap, ◌∙◌, Option, if◌then◌else◌}
use rauc_hawkbit_updater.Exec.{
  Outcome, done, fail, crash, Crash, Exec, pure, stop, attempt, lift, continue, modify, gets, ◌>>=◌,
}
use rauc_hawkbit_updater.World.{
  World, ActionState, Event, call, emit, set_state, set_id, lock, unlock,
}
use rauc_hawkbit_updater.World.Quiet.{Shared, shared, Quiet, Calm, Calm-attempt, NoFail}

abbrev pub After : {A : Type 0} → Bool → Outcome A → Shared → Type 0
After c (done a) u = u.locked ≡ c
After c (fail e) u = ⊥
After c (crash x) u = Unit

pub record Moves {E A : Type 0} (b c : Bool) (m : Exec (World E) A) : Type 0 where
  pub at : (w : World E) → w.locked ≡ b → After c (m w).0 (shared (m w).1)

After-NoFail :
    {A : Type 0} (b : Bool) (r : Outcome A) (u : Shared) → NoFail r → u.locked ≡ b → After b r u
After-NoFail b (done a) u n h = h
After-NoFail b (fail e) u n h = n
After-NoFail b (crash c) u n h = tt

module _ {E : Type 0} {b : Bool} where
  pub Moves-emit : (v : Event) → Moves {E = E} b b (emit v)
  unfolding emit modify
  Moves-emit v = record { at = λ w h. h }

  pub Moves-set_state : (st : ActionState) → Moves {E = E} b b (set_state st)
  unfolding set_state modify
  Moves-set_state st = record { at = λ w h. h }

  pub Moves-set_id : (i : Option String) → Moves {E = E} b b (set_id i)
  unfolding set_id modify
  Moves-set_id i = record { at = λ w h. h }

module _ {E : Type 0} where
  pub Moves-unlock : Moves {E = E} true false unlock
  unfolding unlock modify
  Moves-unlock = record { at = λ w h. refl }

  pub Moves-lock : Moves {E = E} false true lock
  unfolding lock
  Moves-lock = record { at = λ w h. rw h refl }

module _ {E A : Type 0} {b : Bool} where
  pub Moves-Calm : (m : Exec (World E) A) → Calm m → Moves b b m
  Moves-Calm m c = record {
    at = λ w h.
        After-NoFail b (m w).0 (shared (m w).1) (c.no_fail w)
          (ap (λ (x : Shared). x.locked) (c.quiet.at w) ∙ h);
  }

  pub Moves-pure : (a : A) → Moves {E = E} b b (pure a)
  unfolding pure
  Moves-pure a = record { at = λ w h. h }

  pub Moves-call : (f : E → A × E) → Moves b b (call f)
  unfolding call
  Moves-call f = record { at = λ w h. h }

  pub Moves-gets : (f : World E → A) → Moves {E = E} b b (gets f)
  unfolding gets
  Moves-gets f = record { at = λ w h. h }

  pub Moves-lift : (r : Outcome A) → NoFail r → Moves {E = E} b b (lift r)
  unfolding lift
  Moves-lift r n = record { at = λ w h. After-NoFail b r (shared w) n h }

module _ {E A : Type 0} {b c : Bool} where
  pub Moves-stop : (x : Crash) → Moves {E = E} {A = A} b c (stop x)
  unfolding stop
  Moves-stop x = record { at = λ w h. tt }

  pub Moves-if :
      (test : Bool) (m n : Exec (World E) A)
      → Moves b c m
      → Moves b c n
      → Moves b c (if test then m else n)
  Moves-if true m n p q = p
  Moves-if false m n p q = q

module _ {E A B : Type 0} {c d : Bool} where
  After-continue :
      (r : Outcome A) (f : A → Exec (World E) B) (w : World E)
      → After c r (shared w)
      → ((a : A) → Moves c d (f a))
      → After d (continue r f w).0 (shared (continue r f w).1)
  After-continue (done a) f w h q = (q a).at w h
  After-continue (fail e) f w h q = h
  After-continue (crash x) f w h q = tt

  pub Moves-then :
      {b : Bool} (m : Exec (World E) A) (f : A → Exec (World E) B)
      → Moves b c m
      → ((a : A) → Moves c d (f a))
      → Moves b d (m >>= f)
  unfolding ◌>>=◌
  Moves-then m f p q = record { at = λ w h. After-continue (m w).0 f (m w).1 (p.at w h) q }

module _ {E A B : Type 0} {b : Bool} where
  -- With the mutex as it was in between.
  pub Moves-bind :
      (m : Exec (World E) A) (f : A → Exec (World E) B)
      → Moves b b m
      → ((a : A) → Moves b b (f a))
      → Moves b b (m >>= f)
  Moves-bind m f p q = Moves-then m f p q

module _ {E A : Type 0} {b : Bool} where
  pub Moves-attempt : (m : Exec (World E) A) → Quiet m → Moves b b (attempt m)
  Moves-attempt m q = Moves-Calm (attempt m) (Calm-attempt m q)

pub ruleset moves_rules = (
  Moves-emit, Moves-set_state, Moves-set_id, Moves-pure, Moves-call, Moves-gets, Moves-stop,
  Moves-if, Moves-bind, Moves-attempt,
)
