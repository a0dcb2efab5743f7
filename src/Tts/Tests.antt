-- ===== src/Tts/Tests.antt =====
-- The read-aloud parts on concrete calls.
use z_reader.Tts.Session.{
  Session, write_interval, write_pending, save_tts_session, load_tts_session, saves, start, next,
}
use z_reader.Tts.Session.Kept.{save-load_tts_session, pending_is_scheduled}
use z_reader.Prelude.{
  zero, suc, false, ℕ, ◌+◌, ◌≤◌, ◌≡◌, ◌≢◌, ◌↔◌, inr, refl, String, str_eq, true, none, some, List,
  [], ◌∷◌, length, All, arith,
}
use z_reader.JsMap
use z_reader.Tts.AudioFocus
use z_reader.Tts.Batch
use z_reader.Tts.Lru
use z_reader.Tts.Lru.{Entry, LruCache, release_all, released}
use z_reader.Tts.Lru.Contents.{keep_last}
use z_reader.Tts.Lru.History.{Call, gets, sets, run, notes, run-window}
use z_reader.Tts.Lru.Releases.{count, set_conserves}
use z_reader.Tts.Request.{ThrownError, throws, Environment, retry_tts_request, exhausted}
use z_reader.Tts.Request.Retries.{retry_tts_request_bounds}
use z_reader.Tts.Diagnostics.{Detail, text, finite, record_tts_diagnostic, ring_size}
use z_reader.Tts.Diagnostics.Privacy.{IsPublic, record_tts_diagnostic_safe}
use z_reader.Tts.SpeechQueue.{Speech, raw_segments, rebuild_tts_speech_queue}
use z_reader.Tts.SpeechQueue.Rebuild.{
  Numbered, IsDistinct, spoken, rebuild_bounds, rebuild_complete,
}
use z_reader.Tts.Preload.{Preloads, initial, preload, cancel_preload}
use z_reader.Tts.Preload.Bounds.{IsValid, start, next, preloads, cancels, preloads_stay_bounded}

abbrev calls : List (Call ℕ)
calls = sets "a" 1 (some 10) ∷ sets "b" 2 none ∷ gets "a" ∷ sets "c" 3 none ∷ []

run-window_example : (run (Lru.new 2) calls).cache ≡ keep_last 2 (notes 2 [] calls)
run-window_example = run-window 2 calls

abbrev full_cache : LruCache ℕ
full_cache = record { cache = ("a", record { value = 1; release = some 10 }) ∷ []; max_size = 1 }

set_conserves_example :
    count 10 (release_all (Lru.set "b" 2 none full_cache).0.cache)
      + count 10 (Lru.set "b" 2 none full_cache).1
    ≡ count 10 (release_all full_cache.cache)
      + count 10 (released {V = ℕ} (some (record { value = 2; release = none })))
unfolding JsMap.get
set_conserves_example = set_conserves 10 "b" 2 none full_cache (refl, tt)

abbrev answer : ℕ → ℕ → ThrownError
answer status wait = record {
  name = "TTSRequestError";
  request = some (record { status = status; code = none; retry_after_ms = wait });
}

-- An environment where every attempt fails in the same way.
abbrev failing : ThrownError → Environment ℕ
failing e = record { attempt = λ n. throws e false; aborts_wait = λ n. false }

retry_tts_request_bounds_example :
    ((retry_tts_request (failing (answer 503 0)) false).0 ≢ exhausted)
    × (length (retry_tts_request (failing (answer 503 0)) false).1 ≤ 2)
    × All (λ d. (500 ≤ d) × (d ≤ 60000)) (retry_tts_request (failing (answer 503 0)) false).1
retry_tts_request_bounds_example = retry_tts_request_bounds (failing (answer 503 0)) false

abbrev leaky : Detail
leaky = ("name", text "a sentence of the book") ∷ ("attempt", finite false 1) ∷ []

record_tts_diagnostic_safe_example :
    (length (record_tts_diagnostic true (λ e. true) 5 "request-retry" leaky []) ≤ ring_size)
    × All
        (λ e. All IsPublic e.detail)
        (record_tts_diagnostic true (λ e. true) 5 "request-retry" leaky [])
record_tts_diagnostic_safe_example =
    record_tts_diagnostic_safe true (λ e. true) 5 "request-retry" leaky [] (omega arith) tt

abbrev speech : Speech
speech = record {
  text_of = λ s. s;
  is_skippable = λ s. str_eq s "...";
  build_ssml = λ s. s;
  segment_id = λ s n. s;
  now = 0;
}

abbrev sentences : List String
sentences = "one" ∷ "..." ∷ "two" ∷ []

rebuild_bounds_example :
    Numbered 0 (rebuild_tts_speech_queue speech (some "zero") sentences)
    × IsDistinct (rebuild_tts_speech_queue speech (some "zero") sentences)
    × (length (rebuild_tts_speech_queue speech (some "zero") sentences) ≤ 7)
rebuild_bounds_example = rebuild_bounds speech (some "zero") sentences

rebuild_complete_example :
    spoken "two" (rebuild_tts_speech_queue speech (some "zero") sentences) ≡ true
unfolding raw_segments
rebuild_complete_example =
    rebuild_complete speech (some "zero") sentences "two" (inr (2, omega arith, refl)) refl

abbrev two_asked : Preloads
two_asked =
    preload (λ s. 10) (λ s. false) "b" none (preload (λ s. 10) (λ s. false) "a" none initial)

preloads_stay_bounded_example : IsValid (cancel_preload "a" two_asked)
preloads_stay_bounded_example = preloads_stay_bounded (
    next
      (next (next start (preloads (λ s. 10) (λ s. false) "a" none))
        (preloads (λ s. 10) (λ s. false) "b" none))
      (cancels "a"))

abbrev focus : AudioFocus.Focus
focus = record { active_lease = some (record { number = 3; owner = 1 }); next_lease = 4 }

abbrev old_lease : AudioFocus.Lease
old_lease = record { number = 3; owner = 1 }

claim_holds_example :
    ((AudioFocus.release old_lease (AudioFocus.claim_tts_audio_focus 2 focus).0).active_lease
      ≡ some (AudioFocus.claim_tts_audio_focus 2 focus).1)
    × ((other : ℕ)
        → ((AudioFocus.claim_tts_audio_focus 2 focus).2 ≡ some other) ↔ (
            (k : AudioFocus.Lease) × (focus.active_lease ≡ some k)
            × (k.owner ≡ other)
            × (other ≢ 2)))
unfolding AudioFocus.release AudioFocus.claim_tts_audio_focus
claim_holds_example =
    AudioFocus.claim_holds 2 focus
      (AudioFocus.released old_lease (λ e. ground (arith, e)) AudioFocus.now) refl

abbrev run_ends : List ℕ
run_ends = 3 ∷ 8 ∷ 8 ∷ []

run_ends-IsAscending : Batch.IsAscending run_ends
run_ends-IsAscending zero zero a b h e f = ground (arith, e, f)
run_ends-IsAscending zero (suc zero) a b h e f = ground (arith, e, f)
run_ends-IsAscending zero (suc (suc zero)) a b h e f = ground (arith, e, f)
run_ends-IsAscending zero (suc (suc (suc j))) a b h e f = ground (arith, e, f)
run_ends-IsAscending (suc zero) zero a b h e f = absurd (omega (arith, h))
run_ends-IsAscending (suc zero) (suc zero) a b h e f = ground (arith, e, f)
run_ends-IsAscending (suc zero) (suc (suc zero)) a b h e f = ground (arith, e, f)
run_ends-IsAscending (suc zero) (suc (suc (suc j))) a b h e f = ground (arith, e, f)
run_ends-IsAscending (suc (suc zero)) zero a b h e f = absurd (omega (arith, h))
run_ends-IsAscending (suc (suc zero)) (suc zero) a b h e f = absurd (omega (arith, h))
run_ends-IsAscending (suc (suc zero)) (suc (suc zero)) a b h e f = ground (arith, e, f)
run_ends-IsAscending (suc (suc zero)) (suc (suc (suc j))) a b h e f = ground (arith, e, f)
run_ends-IsAscending (suc (suc (suc i))) j a b h e f = ground (arith, e, f)

-- A book whose place is saved, written and read.
abbrev silent_device : Session
silent_device = record { pending = none; timer = none; last_write = some 1000; storage = [] }

save-load_tts_session_example :
    (load_tts_session 9000 (some "b") (
      write_pending 3000 true
        (save_tts_session false 2000 true (some "b") (some "p1") none 3 silent_device))).1
    ≡ some (record { cfi = "p1"; mark = none; timestamp = 2000; settings = 3 })
save-load_tts_session_example =
    save-load_tts_session false 2000 3000 9000 "b" "p1" none 3 silent_device refl refl (omega arith)

abbrev written_device : Session
written_device =
    save_tts_session false 1000 true (some "b") (some "p1") none 3
      (record { pending = none; timer = none; last_write = none; storage = [] })

pending_is_scheduled_example :
    (w : ℕ) × ((save_tts_session false 2000 true
        (some "b")
        (some "p2")
        none
        3
        written_device).last_write
      ≡ some w)
    × ((save_tts_session false 2000 true (some "b") (some "p2") none 3 written_device).timer
        ≡ some (w + write_interval))
unfolding save_tts_session
pending_is_scheduled_example =
    pending_is_scheduled
      (next (next (start []) (saves false 1000 true (some "b") (some "p1") none 3))
        (saves false 2000 true (some "b") (some "p2") none 3))
      refl
