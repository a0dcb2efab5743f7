-- ===== src/Tts/Request/Retries.antt =====
-- The attempts, the waits and the outcome of `retryTTSRequest` (frontend/src/lib/tts-request.ts).
use z_reader.Prelude.{
  ℕ, zero, suc, ◌+◌, ◌≤◌, ◌<◌, ◌≡◌, ◌≢◌, ◌⊎◌, inl, inr, refl, Bool, true, false, not, ◌||◌, List,
  [], ◌∷◌, ltb, leb, length, All, arith, Bool-cases,
}
use z_reader.Tts.Request.{
  ThrownError, classify_tts_error, is_retryable, retry_after_of, delay_of, Attempt, returns, throws,
  Outcome, failed, exhausted, Environment, retry_loop, retry_tts_request,
}

delay-ge : (attempt : ℕ) (e : ThrownError) → attempt ≤ 2 → 500 ≤ delay_of attempt e
delay-ge zero e h = omega arith
delay-ge (suc zero) e h = omega arith
delay-ge (suc (suc zero)) e h = omega arith
delay-ge (suc (suc (suc n))) e h = absurd (omega arith)

Attempt-cases {ℓ} :
    {A : Type ℓ} (x : Attempt A)
    → ((a : A) × (b : Bool) × (x ≡ returns a b))
      ⊎ ((e : ThrownError) × (b : Bool) × (x ≡ throws e b))
Attempt-cases (returns a b) = inl (a, b, refl)
Attempt-cases (throws e b) = inr (e, b, refl)

module _ {ℓ} {A : Type ℓ} (env : Environment A) where
  -- What can be said of a run of the loop that begins at an attempt.
  record Run (attempt : ℕ) (delays : List ℕ) (r : Outcome A × List ℕ) : Type ℓ where
    ends : r.0 ≢ exhausted
    waits : length r.1 + attempt ≤ length delays + 2
    bounded : All (λ d. (500 ≤ d) × (d ≤ 60000)) r.1

  loop-Run :
      (fuel attempt : ℕ) (b : Bool) (delays : List ℕ)
      → 3 ≤ fuel + attempt
      → attempt ≤ 2
      → All (λ d. (500 ≤ d) × (d ≤ 60000)) delays
      → Run attempt delays (retry_loop env fuel attempt b delays)
  unfolding retry_loop
  loop-Run zero attempt b delays f a h = absurd (omega arith)
  loop-Run (suc fuel) attempt true delays f a h = record {
    ends = ground arith;
    waits = omega arith;
    bounded = h;
  }
  loop-Run (suc fuel) attempt false delays f a h = elim (Attempt-cases (env.attempt attempt)) [
    | inl (x, true, e) ↦
        rw (e, retry_loop) (record { ends = ground arith; waits = omega arith; bounded = h })
    | inl (x, false, e) ↦
        rw (e, retry_loop) (record { ends = ground arith; waits = omega arith; bounded = h })
    | inr (x, true, e) ↦
        rw (e, retry_loop) (record { ends = ground arith; waits = omega arith; bounded = h })
    | inr (x, false, e) ↦
        elim (Bool-cases (
          not (is_retryable (classify_tts_error x))
          || (leb 2 attempt || ltb 60000 (delay_of attempt x)))) [
            | inl stop ↦
                rw (e, stop, retry_loop)
                  (record { ends = ground arith; waits = omega arith; bounded = h })
            | inr again ↦ elim (Bool-cases (env.aborts_wait attempt)) [
              | inl cut ↦
                  rw (e, again, cut, retry_loop)
                    (record { ends = ground arith; waits = omega arith; bounded = h })
              | inr waited ↦
                  let more : attempt < 2 = ground (arith, again) in
                  let short : delay_of attempt x ≤ 60000 = ground (arith, again) in
                  let r =
                    loop-Run fuel (attempt + 1) false (delay_of attempt x ∷ delays)
                      (omega (arith, f)) (omega (arith, more)) ((delay-ge attempt x a, short), h) in
                  rw (e, again, waited, retry_loop)
                    (record { ends = r.ends; waits = omega (arith, r.waits); bounded = r.bounded })
            ]
          ]
  ]

  -- The loop always ends by itself: after at most three attempts, with a wait of half a second to a
  -- minute between two, there is a result, an abort or an error.
  pub retry_tts_request_bounds :
      (is_aborted : Bool)
      → ((retry_tts_request env is_aborted).0 ≢ exhausted)
        × (length (retry_tts_request env is_aborted).1 ≤ 2)
        × All (λ d. (500 ≤ d) × (d ≤ 60000)) (retry_tts_request env is_aborted).1
  unfolding retry_tts_request
  retry_tts_request_bounds b =
      let r = loop-Run 3 0 b [] (omega arith) (omega arith) tt in
      (r.ends, omega (arith, r.waits), r.bounded)

  loop_fails :
      (fuel : ℕ) (e : ThrownError)
      → env.attempt 0 ≡ throws e false
      → (not (is_retryable (classify_tts_error e)) || (leb 2 0 || ltb 60000 (delay_of 0 e))) ≡ true
      → retry_loop env (suc fuel) 0 false [] ≡ (failed e, [])
  unfolding retry_loop
  loop_fails fuel e h stop = rw (h, stop, retry_loop)

  -- An error that no retry can mend comes back after the first attempt, with no wait.
  pub retry_tts_request_permanent :
      (e : ThrownError)
      → env.attempt 0 ≡ throws e false
      → is_retryable (classify_tts_error e) ≡ false
      → retry_tts_request env false ≡ (failed e, [])
  unfolding retry_tts_request
  retry_tts_request_permanent e h p = loop_fails 2 e h (ground (arith, p))

  -- The wait is never shorter than the provider's `Retry-After`: with one over a minute the error
  -- comes back at once, whatever its kind.
  pub retry_tts_request_patient :
      (e : ThrownError)
      → env.attempt 0 ≡ throws e false
      → 60000 < retry_after_of e
      → retry_tts_request env false ≡ (failed e, [])
  unfolding retry_tts_request
  retry_tts_request_patient e h long =
      let over : ltb 60000 (delay_of 0 e) ≡ true = ground (arith, long) in
      loop_fails 2 e h (ground (arith, over))
