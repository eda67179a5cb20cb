-- ===== src/Poll/Ticks.antt =====
-- src/hawkbit-client.c: when the callback that the main loop calls once a second polls hawkBit.
use rauc_hawkbit_updater.Base.{
  refl, ℤ, ℕ, zero, suc, ◌+◌, ◌<◌, ◌≤◌, Bool, true, false, ◌≡◌, subst, ap, ◌∙◌, refl, pos, negsuc,
  ℤ, ltb_ℤ, if◌then◌else◌, arith,
}
use native.Mathlib.Nat.{zero-add}
use rauc_hawkbit_updater.Exec.{Outcome, fail, crash, done, continue, Exec, pure, ◌>>=◌}
use rauc_hawkbit_updater.World.{World}
use rauc_hawkbit_updater.Services.{Services}
use rauc_hawkbit_updater.Poll.{
  leave_poll, ClientData, Others, poll, hawkbit_pull_cb, initial_data, suc_ℤ,
}

module _ {Node C E : Type 0} (s : Services Node C E) (others : Others E) where
  -- The main loop for some seconds.
  abbrev pub ticks : ℕ → ClientData → Exec (World E) (Bool × ClientData)
  ticks zero data' = pure (true, data')
  ticks (suc k) data' = do (_, next) ← hawkbit_pull_cb s others data'; ticks k next

  abbrev pub waiting : Bool → ℕ → ℕ → ClientData
  waiting res interval since = record {
    res = res;
    hawkbit_interval_check_sec = pos interval;
    last_run_sec = pos since;
  }

  before : (a b : ℕ) → a < b → ltb_ℤ (pos a) (pos b) ≡ true
  before a b h = ground arith

  due : (a b : ℕ) → b ≤ a → ltb_ℤ (pos a) (pos b) ≡ false
  due a b h = ground arith

  tick-waiting :
      (interval since : ℕ) (res : Bool) (w : World E)
      → since + 1 < interval
      → hawkbit_pull_cb s others (waiting res interval since) w
        ≡ (done (true, waiting res interval (since + 1)), w)
  unfolding hawkbit_pull_cb pure
  tick-waiting interval since res w h =
      ap (λ b. (if b then pure (true, waiting res interval (since + 1)) else poll s others res) w)
        (before (since + 1) interval h)

  ticks-waiting :
      (k interval since : ℕ) (res : Bool) (w : World E)
      → since + k < interval
      → ticks k (waiting res interval since) w ≡ (done (true, waiting res interval (since + k)), w)
  unfolding ◌>>=◌
  ticks-waiting zero interval since res w h =
      ap (λ n. (done (true, waiting res interval n), w)) (omega arith)
  ticks-waiting (suc k) interval since res w h =
      ap (λ r. continue r.0 (λ x. ticks k x.1) r.1)
        (tick-waiting interval since res w (omega arith))
      ∙ ticks-waiting k interval (since + 1) res w (omega arith)
      ∙ ap (λ n. (done (true, waiting res interval n), w)) (omega arith)

  tick-due :
      (interval since : ℕ) (res : Bool)
      → interval ≤ since + 1
      → hawkbit_pull_cb s others (waiting res interval since) ≡ poll s others res
  unfolding hawkbit_pull_cb
  tick-due interval since res h =
      ap (λ b. if b then pure (true, waiting res interval (since + 1)) else poll s others res)
        (due (since + 1) interval h)

  passed : (i : ℤ) → ltb_ℤ (suc_ℤ i) i ≡ false
  passed (pos n) = due (n + 1) n (omega arith)
  passed (negsuc zero) = refl
  passed (negsuc (suc n)) = ground arith

  pub initial_data-poll :
      (garbage : Bool)
      → hawkbit_pull_cb s others (initial_data s.config garbage) ≡ poll s others garbage
  unfolding initial_data hawkbit_pull_cb
  initial_data-poll garbage =
      let i = s.config.retry_wait in
      ap
        (λ b.
          if b
          then pure (true, record (initial_data s.config garbage) { last_run_sec = suc_ℤ i })
          else poll s others garbage)
        (passed i)

-- What a call leaves of `last_run_sec`, where it returns.
abbrev Reset : Outcome (Bool × ClientData) → Type 0
Reset (done (stays, data')) = data'.last_run_sec ≡ pos 0
Reset (fail e) = Unit
Reset (crash c) = Unit

record Resets {E : Type 0} (m : Exec (World E) (Bool × ClientData)) : Type 0 where
  at : (w : World E) → Reset (m w).0

module _ {E A : Type 0} where
  Reset-continue :
      (r : Outcome A) (f : A → Exec (World E) (Bool × ClientData)) (w : World E)
      → ((a : A) → Resets (f a))
      → Reset (continue r f w).0
  Reset-continue (done a) f w k = (k a).at w
  Reset-continue (fail e) f w k = tt
  Reset-continue (crash c) f w k = tt

  Resets-bind :
      (m : Exec (World E) A) (f : A → Exec (World E) (Bool × ClientData))
      → ((a : A) → Resets (f a))
      → Resets (m >>= f)
  unfolding ◌>>=◌
  Resets-bind m f k = record { at = λ w. Reset-continue (m w).0 f (m w).1 k }

module _ {Node C E : Type 0} (s : Services Node C E) (others : Others E) where
  once-Resets :
      (b : Bool) (m : Exec (World E) (Bool × ClientData)) (old : Bool) (interval : ℤ)
      → Resets m
      → Resets (
          if b
          then m
          else pure (
            true,
            record { res = old; hawkbit_interval_check_sec = interval; last_run_sec = pos 0 },
          ))
  unfolding pure
  once-Resets true m old interval k = k
  once-Resets false m old interval k = record { at = λ w. refl }

  leave_poll-Resets :
      (old res : Bool) (interval : ℤ) → Resets (leave_poll s others old res interval)
  unfolding leave_poll pure
  leave_poll-Resets old res interval = once-Resets s.run_once _ old interval (
      Resets-bind _ _
        (λ running. Resets-bind _ _ (λ final. Resets-bind _ _ (λ _. record { at = λ w. refl }))))

  poll-Resets : (old : Bool) → Resets (poll s others old)
  unfolding poll
  poll-Resets old = Resets-bind _ _ (λ answer. Resets-bind _ _ (λ x. leave_poll-Resets old x.0 x.1))

-- The first call of the callback is a poll, whatever the configuration is. After a poll that
-- returns with an interval of n + 1 seconds, with the data that this poll leaves, the callback does
-- nothing for n calls, to the outside and to the action, and the call after them is a poll.
pub ticks-poll :
    {Node C E : Type 0} (s : Services Node C E) (others : Others E) (garbage old stays : Bool)
    (n : ℕ) (data' : ClientData) (w w' : World E)
    → poll s others old w ≡ (done (stays, data'), w')
    → data'.hawkbit_interval_check_sec ≡ pos (suc n)
    → (hawkbit_pull_cb s others (initial_data s.config garbage) ≡ poll s others garbage)
      × (ticks s others n data' w' ≡ (done (true, waiting s others data'.res (suc n) n), w'))
      × (hawkbit_pull_cb s others (waiting s others data'.res (suc n) n) ≡ poll s others data'.res)
ticks-poll s others garbage old stays n data' w w' e h = (
  initial_data-poll s others garbage,
  ap (λ d. ticks s others n d w') left
      ∙ subst
          (λ k.
            ticks s others n (waiting s others data'.res (suc n) 0) w'
            ≡ (done (true, waiting s others data'.res (suc n) k), w'))
          (zero-add n) (ticks-waiting s others n (suc n) 0 data'.res w' (omega arith)),
  tick-due s others (suc n) n data'.res (omega arith),
)
  where
    left : data' ≡ waiting s others data'.res (suc n) 0
    left = λ i. record {
      res = data'.res;
      hawkbit_interval_check_sec = h i;
      last_run_sec = subst (λ x. Reset x.0) e ((poll-Resets s others old).at w) i;
    }
