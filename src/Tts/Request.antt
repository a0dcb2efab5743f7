-- ===== src/Tts/Request.antt =====
-- frontend/src/lib/tts-request.ts: the kind of an error and the retries of a request. Errors and
-- the aborts of the signal are arguments. A `Retry-After` value is in milliseconds.
pub mod Retries
use z_reader.Prelude.{
  ℕ, zero, suc, ◌+◌, ◌*◌, ◌^◌, max, String, str_eq, Bool, true, false, not, ◌&&◌, ◌||◌, Option,
  none, some, List, [], ◌∷◌, if◌then◌else◌, ltb, leb, ◌==◌,
}

pub data TtsErrorKind : Type 0 where
  cancelled timeout network rate_limit invalid_ssml unauthorized permission transient permanent :
      TtsErrorKind

-- A `TTSRequestError`
pub record TtsRequestError : Type 0 where
  pub status : ℕ
  pub code : Option String
  pub retry_after_ms : ℕ

-- What was thrown: its `name`, and the fields if it is a `TTSRequestError`.
pub record ThrownError : Type 0 where
  pub name : String
  pub request : Option TtsRequestError

abbrev pub is_code : Option String → String → Bool
is_code none c = false
is_code (some d) c = str_eq d c

abbrev pub one_of : ℕ → List ℕ → Bool
one_of n [] = false
one_of n (x ∷ xs) = (n == x) || one_of n xs

unfoldable pub classify_request_error : TtsRequestError → TtsErrorKind
classify_request_error e =
    if one_of e.status (401 ∷ 403 ∷ [])
    then unauthorized
    else if is_code e.code "invalid_ssml" && one_of e.status (400 ∷ 422 ∷ [])
    then invalid_ssml
    else if e.status == 429
    then rate_limit
    else if one_of e.status (408 ∷ 504 ∷ [])
    then timeout
    else if one_of e.status (500 ∷ 502 ∷ 503 ∷ [])
    then transient
    else permanent

unfoldable pub classify_tts_error : ThrownError → TtsErrorKind
unfolding classify_request_error
classify_tts_error e =
    if str_eq e.name "AbortError"
    then cancelled
    else if str_eq e.name "TimeoutError"
    then timeout
    else if str_eq e.name "NotAllowedError"
    then permission
    else elim e.request [
      | some r ↦ classify_request_error r
      | none ↦ if str_eq e.name "TypeError" then network else permanent
    ]

abbrev pub is_retryable : TtsErrorKind → Bool
is_retryable timeout = true
is_retryable network = true
is_retryable rate_limit = true
is_retryable transient = true
is_retryable _ = false

abbrev pub retry_after_of : ThrownError → ℕ
retry_after_of e = elim e.request [ none ↦ 0 | some r ↦ r.retry_after_ms ]

abbrev pub delay_of : ℕ → ThrownError → ℕ
delay_of attempt e = max (500 * 2 ^ attempt) (retry_after_of e)

-- One call of `request`: its result, and whether the signal was aborted meanwhile.
pub data Attempt {ℓ} (A : Type ℓ) : Type ℓ where
  returns : A → Bool → Attempt A
  throws : ThrownError → Bool → Attempt A

pub data Outcome {ℓ} (A : Type ℓ) : Type ℓ where
  result : A → Outcome A
  aborted : Outcome A
  failed : ThrownError → Outcome A
  -- the fuel of the model has run out
  exhausted : Outcome A

-- What the environment does: the attempts, and whether the signal is aborted during the wait after
-- each.
pub record Environment {ℓ} (A : Type ℓ) : Type ℓ where
  pub attempt : ℕ → Attempt A
  pub aborts_wait : ℕ → Bool

-- The `for` loop from this attempt on, with the delays that were waited.
module _ {ℓ} {A : Type ℓ} (env : Environment A) where
  unfoldable pub retry_loop : ℕ → ℕ → Bool → List ℕ → Outcome A × List ℕ
  retry_loop zero attempt is_aborted delays = (exhausted, delays)
  retry_loop (suc fuel) attempt is_aborted delays = elim is_aborted [
    | true ↦ (aborted, delays)
    | false ↦ elim (env.attempt attempt) [
      | returns a true ↦ (aborted, delays)
      | returns a false ↦ (result a, delays)
      | throws e true ↦ (aborted, delays)
      | throws e false ↦
          elim (not (is_retryable (classify_tts_error e))
            || (leb 2 attempt || ltb 60000 (delay_of attempt e))) [
              | true ↦ (failed e, delays)
              | false ↦ elim (env.aborts_wait attempt) [
                | true ↦ (aborted, delays)
                | false ↦ retry_loop fuel (attempt + 1) false (delay_of attempt e ∷ delays)
              ]
            ]
    ]
  ]

  -- Three attempts at most.
  unfoldable pub retry_tts_request : Bool → Outcome A × List ℕ
  unfolding retry_loop
  retry_tts_request is_aborted = retry_loop 3 0 is_aborted []
