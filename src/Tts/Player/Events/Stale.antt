-- ===== src/Tts/Player/Events/Stale.antt =====
-- What a superseded call of the player does (frontend/src/lib/tts.ts), and what `resume`
-- does after a `pause` and after a `stop`.
use z_reader.Prelude.{ℕ, ◌+◌, ◌≡◌, ◌≢◌, refl, Bool, true, false, Option, none, some, ◌==◌, arith}
use z_reader.Tts.Player.{
  playing, Player, Speech, resumes, waits, finished, threw, has_current_audio, is_paused_element,
  pause, stop, begin_resume, after_resume,
}
use z_reader.Tts.Player.Speak.{
  fail, with_blob, after_prefetch, after_fetch, after_play, forget_controller,
}

fail_stale : (r : ℕ) (s : Player) → (s.playback_request_id == r) ≡ false → fail r s ≡ (s, threw)
unfolding fail
fail_stale r s late = rw (late, fail) refl

prefetch_stale :
    (p : Speech) (ok : Bool) (s : Player)
    → (s.playback_request_id == p.request_id) ≡ false
    → after_prefetch p ok s ≡ (s, threw)
unfolding after_prefetch
prefetch_stale p false s late = fail_stale p.request_id s late
prefetch_stale p true s late = rw (late, after_prefetch) refl

fetch_stale :
    (p : Speech) (c : ℕ) (answer : Option ℕ) (s : Player)
    → (s.playback_request_id == p.request_id) ≡ false
    → after_fetch p c answer s
      ≡ (record s { abort_controller = forget_controller c s.abort_controller }, threw)
unfolding after_fetch with_blob
fetch_stale p c none s late = fail_stale p.request_id _ late
fetch_stale p c (some b) s late = rw (late, after_fetch, with_blob) refl

play_stale :
    (r : ℕ) (ok : Bool) (s : Player)
    → (s.playback_request_id == r) ≡ false
    → after_play r ok s ≡ (s, threw)
unfolding after_play
play_stale r false s late = fail_stale r s late
play_stale r true s late = rw (late, after_play) refl

resume_stale :
    (r : ℕ) (ok : Bool) (s : Player)
    → (s.playback_request_id == r) ≡ false
    → after_resume r ok s ≡ (s, threw)
unfolding after_resume
resume_stale r false s late = refl
resume_stale r true s late = rw (late, after_resume) refl

-- A call whose request is not the last one ends with an error, whatever its answer is, and changes
-- nothing but that its own controller is forgotten: not the state, the audio, the marks or the cache.
pub superseded_calls :
    (p : Speech) (c : ℕ) (answer : Option ℕ) (ok : Bool) (s : Player)
    → s.playback_request_id ≢ p.request_id
    → (after_prefetch p ok s ≡ (s, threw))
      × (after_fetch p c answer s
          ≡ (record s { abort_controller = forget_controller c s.abort_controller }, threw))
      × (after_play p.request_id ok s ≡ (s, threw))
      × (after_resume p.request_id ok s ≡ (s, threw))
superseded_calls p c answer ok s stale =
    let late : (s.playback_request_id == p.request_id) ≡ false = ground (arith, stale) in
    (
      prefetch_stale p ok s late,
      fetch_stale p c answer s late,
      play_stale p.request_id ok s late,
      resume_stale p.request_id ok s late,
    )

-- After a `pause` of an audio that can go on, `resume` starts the same audio, and once `audio.play()`
-- has started the state is `playing`; after a `stop`, `resume` ends with an error.
pub pause_resume :
    (s : Player)
    → has_current_audio s ≡ true
    → let (t, wait) = begin_resume (pause s) in
      let (u, end) = after_resume (s.playback_request_id + 2) true t in
      (wait ≡ waits (resumes (s.playback_request_id + 2)))
      × (end ≡ finished)
      × (u.state ≡ playing)
      × (u.audio_url ≡ s.audio_url)
      × (is_paused_element u.audio ≡ false)
      × ((begin_resume (stop s)).1 ≡ threw)
unfolding pause stop begin_resume after_resume has_current_audio
pause_resume s there =
    let e : has_current_audio (pause s) ≡ true = ground (arith, there) in ground (arith, there, e)
