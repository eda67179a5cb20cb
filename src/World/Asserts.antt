-- ===== src/World/Asserts.antt =====
-- Rules for actions that fail no assertion.
use rauc_hawkbit_updater.Base.{not, Bool, true, false, if◌then◌else◌}
use rauc_hawkbit_updater.Exec.{
  Outcome, done, fail, crash, critical, assertion, null_pointer, self_deadlock, blocked, Exec, pure,
  stop, gets, modify, continue, ◌>>=◌,
}
use rauc_hawkbit_updater.World.{World, Event, call, emit}

-- No assertion fails, and what is returned has `R`.
abbrev pub Holds : {A : Type 0} → (A → Type 0) → Outcome A → Type 0
Holds R (done a) = R a
Holds R (fail e) = Unit
Holds R (crash critical) = Unit
Holds R (crash assertion) = ⊥
Holds R (crash null_pointer) = Unit
Holds R (crash self_deadlock) = Unit
Holds R (crash blocked) = Unit

pub record Assured {E A : Type 0} (R : A → Type 0) (m : Exec (World E) A) : Type 0 where
  pub at : (w : World E) → Holds R (m w).0

abbrev pub Any : {A : Type 0} → A → Type 0
Any a = Unit

module _ {E A : Type 0} {R : A → Type 0} where
  pub Assured-pure : (a : A) → R a → Assured {E = E} R (pure a)
  unfolding pure
  Assured-pure a r = record { at = λ w. r }

  pub Assured-blocked : Assured {E = E} R (stop blocked)
  unfolding stop
  Assured-blocked = record { at = λ w. tt }

  pub Assured-if :
      (b : Bool) (m n : Exec (World E) A)
      → Assured R n
      → Assured R m
      → Assured R (if not b then n else m)
  Assured-if true m n h k = k
  Assured-if false m n h k = h

module _ {E A B : Type 0} {R : A → Type 0} {S : B → Type 0} where
  Holds-continue :
      (r : Outcome A) (w : World E) (f : A → Exec (World E) B)
      → Holds R r
      → ((a : A) → R a → Assured S (f a))
      → Holds S (continue r f w).0
  Holds-continue (done a) w f h k = (k a h).at w
  Holds-continue (fail e) w f h k = tt
  Holds-continue (crash critical) w f h k = tt
  Holds-continue (crash assertion) w f h k = absurd h
  Holds-continue (crash null_pointer) w f h k = tt
  Holds-continue (crash self_deadlock) w f h k = tt
  Holds-continue (crash blocked) w f h k = tt

  pub Assured-bind :
      (m : Exec (World E) A) (f : A → Exec (World E) B)
      → Assured R m
      → ((a : A) → R a → Assured S (f a))
      → Assured S (m >>= f)
  unfolding ◌>>=◌
  Assured-bind m f p k = record { at = λ w. Holds-continue (m w).0 (m w).1 f (p.at w) k }

module _ {E : Type 0} where
  pub Assured-call : {A : Type 0} (f : E → A × E) → Assured Any (call f)
  unfolding call
  Assured-call f = record { at = λ w. tt }

  pub Assured-emit : (v : Event) → Assured {E = E} Any (emit v)
  unfolding emit modify
  Assured-emit v = record { at = λ w. tt }

  pub Assured-modify : (f : World E → World E) → Assured Any (modify f)
  unfolding modify
  Assured-modify f = record { at = λ w. tt }

  pub Assured-gets : {A : Type 0} (f : World E → A) → Assured Any (gets f)
  unfolding gets
  Assured-gets f = record { at = λ w. tt }
