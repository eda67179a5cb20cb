-- ===== src/World/Sends.antt =====
-- What goes out to hawkBit and to RAUC: the rules for actions that only send what the configuration
-- authorizes.
use rauc_hawkbit_updater.Base.{
  not, String, Bool, true, false, ◌≡◌, refl, Option, none, some, List, [], ◌∷◌, ◌++◌, if◌then◌else◌,
}
use rauc_hawkbit_updater.GError.{GError, Result, ok, err}
use rauc_hawkbit_updater.Exec.{
  Outcome, done, fail, crash, Crash, Exec, pure, stop, throw, of_result, attempt, attempted, lift,
  continue, modify, gets, ◌>>=◌,
}
use rauc_hawkbit_updater.Config.{Config}
use rauc_hawkbit_updater.World.{
  World, UserData, ActionState, Event, requested, transferred, software_ready, install_started,
  bundle_installed, slept, removed, signalled, download_joined, download_started, install_joined,
  synced, rebooted, loop_quit, call, emit, set_state, set_id, lock, unlock,
}
use rauc_hawkbit_updater.Http.{get_auth_header}

-- The authorization header of the configuration is among the headers.
abbrev pub Authorized : Config → List String → Type 0
Authorized config headers =
    (token : String) × (get_auth_header config ≡ done token)
    × (before : List String) × (after : List String) × (headers ≡ before ++ token ∷ after)

-- The header of the configuration, or none for a bundle that was downloaded.
abbrev pub Header : Config → String → Option String → Type 0
Header config file none = config.bundle_download_location ≡ some file
Header config file (some token) = get_auth_header config ≡ done token

abbrev pub GoodData : Config → UserData → Type 0
GoodData config u = (u.ssl_verify ≡ config.ssl_verify) × Header config u.file u.auth_header

-- What RAUC is told of the transfer: the header with the setting for certificates, or neither.
abbrev pub GoodCall : Config → String → Option String → Option Bool → Type 0
GoodCall config bundle none no_verify = Header config bundle none × (no_verify ≡ none)
GoodCall config bundle (some token) no_verify =
    Header config bundle (some token) × (no_verify ≡ some (not config.ssl_verify))

-- What leaves the process is authorized, and checks certificates as the configuration says.
abbrev pub Good : Config → Event → Type 0
Good config (requested r) = (r.verify ≡ config.ssl_verify) × Authorized config r.headers
Good config (transferred t) = (t.verify ≡ config.ssl_verify) × Authorized config t.headers
Good config (software_ready u) = GoodData config u
Good config (install_started u) = GoodData config u
Good config (bundle_installed bundle headers no_verify) = GoodCall config bundle headers no_verify
Good config _ = Unit

abbrev pub AllGood : Config → List Event → Type 0
AllGood config [] = Unit
AllGood config (v ∷ trace) = Good config v × AllGood config trace

abbrev pub is_outgoing : Event → Bool
is_outgoing (requested r) = true
is_outgoing (transferred t) = true
is_outgoing (software_ready u) = true
is_outgoing (install_started u) = true
is_outgoing (bundle_installed bundle headers no_verify) = true
is_outgoing _ = false

abbrev pub Then : {A : Type 0} → (A → Type 0) → Outcome A → Type 0
Then R (done a) = R a
Then R (fail e) = Unit
Then R (crash c) = Unit

abbrev pub Whatever : {A : Type 0} → A → Type 0
Whatever a = Unit

pub record Sends {E A : Type 0} (config : Config) (R : A → Type 0) (m : Exec (World E) A)
    : Type 0 where
  pub at : (w : World E) → AllGood config w.trace → AllGood config (m w).1.trace × Then R (m w).0

Then-Whatever : {A : Type 0} (r : Outcome A) → Then Whatever r
Then-Whatever (done a) = tt
Then-Whatever (fail e) = tt
Then-Whatever (crash c) = tt

Then-imply :
    {A : Type 0} {P R : A → Type 0} (r : Outcome A) → Then P r → ((a : A) → P a → R a) → Then R r
Then-imply (done a) p f = f a p
Then-imply (fail e) p f = tt
Then-imply (crash c) p f = tt

Good-inner : (config : Config) (v : Event) → is_outgoing v ≡ false → Good config v
Good-inner config (requested r) h = cc
Good-inner config (transferred t) h = cc
Good-inner config (software_ready u) h = cc
Good-inner config (install_started u) h = cc
Good-inner config (bundle_installed bundle headers no_verify) h = cc
Good-inner config (slept n) h = tt
Good-inner config (removed path) h = tt
Good-inner config signalled h = tt
Good-inner config download_joined h = tt
Good-inner config (download_started artifact) h = tt
Good-inner config install_joined h = tt
Good-inner config synced h = tt
Good-inner config rebooted h = tt
Good-inner config loop_quit h = tt

lock_at :
    {E : Type 0} (config : Config) (b : Bool) (w : World E)
    → w.locked ≡ b
    → AllGood config w.trace
    → AllGood config (lock w).1.trace × Then Whatever (lock w).0
unfolding lock
lock_at config true w e h = rw e (h, tt)
lock_at config false w e h = rw e (h, tt)

module _ {E : Type 0} {config : Config} where
  pub Sends-emit-Good : (v : Event) → Good config v → Sends {E = E} config Whatever (emit v)
  unfolding emit modify
  Sends-emit-Good v g = record { at = λ w h. ((g, h), tt) }

  pub Sends-emit : (v : Event) → is_outgoing v ≡ false → Sends {E = E} config Whatever (emit v)
  Sends-emit v h = Sends-emit-Good v (Good-inner config v h)

  pub Sends-set_state : (st : ActionState) → Sends {E = E} config Whatever (set_state st)
  unfolding set_state modify
  Sends-set_state st = record { at = λ w h. (h, tt) }

  pub Sends-set_id : (i : Option String) → Sends {E = E} config Whatever (set_id i)
  unfolding set_id modify
  Sends-set_id i = record { at = λ w h. (h, tt) }

  pub Sends-unlock : Sends {E = E} config Whatever unlock
  unfolding unlock modify
  Sends-unlock = record { at = λ w h. (h, tt) }

  pub Sends-lock : Sends {E = E} config Whatever lock
  Sends-lock = record { at = λ w h. lock_at config w.locked w refl h }

module _ {E A : Type 0} {config : Config} where
  pub Sends-pure : (a : A) → Sends {E = E} config Whatever (pure a)
  unfolding pure
  Sends-pure a = record { at = λ w h. (h, tt) }

  pub Sends-return : {R : A → Type 0} (a : A) → R a → Sends {E = E} config R (pure a)
  unfolding pure
  Sends-return a r = record { at = λ w h. (h, r) }

  pub Sends-stop : {R : A → Type 0} (c : Crash) → Sends {E = E} config R (stop c)
  unfolding stop
  Sends-stop c = record { at = λ w h. (h, tt) }

  pub Sends-throw : {R : A → Type 0} (e : GError) → Sends {E = E} config R (throw e)
  unfolding throw
  Sends-throw e = record { at = λ w h. (h, tt) }

  pub Sends-of_result : (r : Result A) → Sends {E = E} config Whatever (of_result r)
  unfolding of_result
  Sends-of_result (ok a) = record { at = λ w h. (h, tt) }
  Sends-of_result (err e) = record { at = λ w h. (h, tt) }

  pub Sends-lift : (r : Outcome A) → Sends {E = E} config Whatever (lift r)
  unfolding lift
  Sends-lift r = record { at = λ w h. (h, Then-Whatever r) }

  pub Sends-call : (f : E → A × E) → Sends config Whatever (call f)
  unfolding call
  Sends-call f = record { at = λ w h. (h, tt) }

  pub Sends-gets : (f : World E → A) → Sends config Whatever (gets f)
  unfolding gets
  Sends-gets f = record { at = λ w h. (h, tt) }

  pub Sends-if :
      {R : A → Type 0} (b : Bool) (m n : Exec (World E) A)
      → Sends config R m
      → Sends config R n
      → Sends config R (if b then m else n)
  Sends-if true m n p q = p
  Sends-if false m n p q = q

module _ {E A : Type 0} {config : Config} where
  pub Sends-attempt :
      (m : Exec (World E) A) → Sends config Whatever m → Sends config Whatever (attempt m)
  unfolding attempt
  Sends-attempt m p = record { at = λ w h. ((p.at w h).0, Then-Whatever (attempted (m w).0)) }

  pub Sends-imply :
      {P R : A → Type 0} (m : Exec (World E) A)
      → Sends config P m
      → ((a : A) → P a → R a)
      → Sends config R m
  Sends-imply m p f = record { at = λ w h. ((p.at w h).0, Then-imply (m w).0 (p.at w h).1 f) }

module _ {E A B : Type 0} {config : Config} {S : B → Type 0} where
  Sends-continue :
      {R : A → Type 0} (r : Outcome A) (f : A → Exec (World E) B) (w : World E)
      → AllGood config w.trace
      → Then R r
      → ((a : A) → R a → Sends config S (f a))
      → AllGood config (continue r f w).1.trace × Then S (continue r f w).0
  Sends-continue (done a) f w h k q = (q a k).at w h
  Sends-continue (fail e) f w h k q = (h, tt)
  Sends-continue (crash c) f w h k q = (h, tt)

  pub Sends-then :
      {R : A → Type 0} (m : Exec (World E) A) (f : A → Exec (World E) B)
      → Sends config R m
      → ((a : A) → R a → Sends config S (f a))
      → Sends config S (m >>= f)
  unfolding ◌>>=◌
  Sends-then m f p q = record {
    at = λ w h. Sends-continue (m w).0 f (m w).1 (p.at w h).0 (p.at w h).1 q;
  }

  pub Sends-bind :
      (m : Exec (World E) A) (f : A → Exec (World E) B)
      → Sends config Whatever m
      → ((a : A) → Sends config S (f a))
      → Sends config S (m >>= f)
  Sends-bind m f p q = Sends-then m f p (λ a _. q a)

pub ruleset sends_rules = (
  Sends-emit, Sends-set_state, Sends-set_id, Sends-unlock, Sends-lock, Sends-pure, Sends-stop,
  Sends-throw, Sends-of_result, Sends-lift, Sends-call, Sends-gets, Sends-if, Sends-attempt,
  Sends-bind,
)
