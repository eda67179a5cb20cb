-- ===== src/Rest/Retries.antt =====
-- src/hawkbit-client.c: how often `rest_request_retriable` sends a request, and why it ends.
use rauc_hawkbit_updater.Base.{
  ◌||◌, ℕ, zero, suc, ◌≤◌, String, Bool, true, false, ◌≡◌, refl, ap, ◌⊎◌, inl, inr, Option, some,
  List, ◌∷◌, arith, Bool-cases,
}
use rauc_hawkbit_updater.GError.{GError, error_matches, http_error}
use rauc_hawkbit_updater.Exec.{Outcome, done, fail, crash, Exec, ◌>>=◌}
use rauc_hawkbit_updater.World.{World, HttpMethod, BuilderCall, slept, emit}
use rauc_hawkbit_updater.Services.{Services}
use rauc_hawkbit_updater.Rest.{
  max_retries_on_api_error, is_retriable, after_error, after_request, retry_loop, rest_request,
  rest_request_retriable,
}

-- A response 409 (Conflict) or 429 (Too Many Requests).
abbrev pub asks_again : GError → Bool
asks_again e = error_matches (some e) http_error 409 || error_matches (some e) http_error 429

-- The answers of a request that is made again and again, a second apart.
module _ {Node C E : Type 0} (s : Services Node C E) (request : Exec (World E) (Option Node)) where
  -- The state in which the next attempt is made.
  abbrev pub next_attempt : World E → World E
  next_attempt w = let w' = (request w).1 in record w' { trace = slept 1000000 ∷ w'.trace }

  -- `Attempts n w r`: `n` attempts are answered by 409 or 429, and the one after them, which ends
  -- as `r` says, is the last.
  pub data Attempts : ℕ → World E → Outcome (Option Node) × World E → Type 0 where
    last : {w : World E} → Attempts 0 w (request w)
    again :
        {n : ℕ} {w : World E} {r : Outcome (Option Node) × World E} {e : GError}
        → (request w).0 ≡ fail e
        → asks_again e ≡ true
        → Attempts n (next_attempt w) r
        → Attempts (suc n) w r

  -- Whether the client would try again.
  abbrev pub wants_retry : Outcome (Option Node) → Bool
  wants_retry (fail e) = asks_again e
  wants_retry _ = false

  -- A round that is the last, and one that is not.
  retry_loop-last :
      (left : ℕ) (w : World E)
      → wants_retry (request w).0 ≡ false
      → retry_loop s request (suc left) w ≡ request w
  unfolding retry_loop is_retriable after_request after_error ◌>>=◌
  retry_loop-last left w h = last_of (request w) h refl
    where
      last_of :
          (r : Outcome (Option Node) × World E)
          → wants_retry r.0 ≡ false
          → request w ≡ r
          → retry_loop s request (suc left) w ≡ r
      last_of (done a, w') h e = rw (e, retry_loop) refl
      last_of (fail x, w') h e = rw (e, retry_loop) (rw h refl)
      last_of (crash c, w') h e = rw (e, retry_loop) refl

  retry_loop-again :
      (left : ℕ) (w : World E) (x : GError)
      → (request w).0 ≡ fail x
      → asks_again x ≡ true
      → retry_loop s request (suc left) w ≡ retry_loop s request left (next_attempt w)
  unfolding retry_loop is_retriable after_request after_error emit ◌>>=◌
  retry_loop-again left w x e h = rw (e, retry_loop) (rw h refl)

  retriable_error :
      (r : Outcome (Option Node))
      → (wants_retry r ≡ false) ⊎ ((x : GError) × (r ≡ fail x) × (asks_again x ≡ true))
  retriable_error (done a) = inl refl
  retriable_error (crash c) = inl refl
  retriable_error (fail x) = elim (Bool-cases (asks_again x)) [
    | inl yes_again ↦ inr (x, refl, yes_again)
    | inr no_more ↦ inl no_more
  ]

  -- At most one attempt more than the retries that are left is made; each but the last was answered
  -- by 409 or 429, and the last was not, or no retry was left.
  pub retry_loop-Attempts :
      (left : ℕ) (w : World E)
      → (n : ℕ) × (n ≤ left)
        × Attempts n w (retry_loop s request left w)
        × ((n ≡ left) ⊎ (wants_retry (retry_loop s request left w).0 ≡ false))
  retry_loop-Attempts zero w = unfold retry_loop in (0, omega arith, last, inl refl)
  retry_loop-Attempts (suc left) w = elim (retriable_error (request w).0) [
    | inl h ↦ rw (retry_loop-last left w h) (0, omega arith, last, inr h)
    | inr (x, e, h) ↦
        let (n, fits, made, why) = retry_loop-Attempts left (next_attempt w) in
        rw (retry_loop-again left w x e h) (suc n, omega arith, again e h made, why_more n left why)
  ]
    where
      why_more : {P : Type 0} (n m : ℕ) → (n ≡ m) ⊎ P → (suc n ≡ suc m) ⊎ P
      why_more n m (inl e) = inl (ap suc e)
      why_more n m (inr p) = inr p

-- A request of the API is sent at most 11 times, a second apart: every attempt but the last was
-- answered by 409 (Conflict) or 429 (Too Many Requests), and the last one, whose end is the end of
-- the call, was not, unless it was the eleventh.
pub rest_request_retriable-Attempts :
    {Node C E : Type 0} (s : Services Node C E) (method : HttpMethod) (url : String)
    (body : Option (List BuilderCall)) (wanted : Bool) (w : World E)
    → (n : ℕ) × (n ≤ 10)
      × Attempts s
          (rest_request s method url body wanted)
          n
          w
          (rest_request_retriable s method url body wanted w)
      × ((n ≡ 10)
          ⊎ (wants_retry s
                (rest_request s method url body wanted)
                (rest_request_retriable s method url body wanted w).0
              ≡ false))
unfolding rest_request_retriable
rest_request_retriable-Attempts s method url body wanted w =
    retry_loop-Attempts s (rest_request s method url body wanted) max_retries_on_api_error w
