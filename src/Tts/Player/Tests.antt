-- ===== src/Tts/Player/Tests.antt =====
-- The player's theorems at concrete calls: a text without marks is spoken, its audio comes, and plays.
use z_reader.Prelude.{or_else, ◌+◌, ◌≡◌, refl, true, false, some, [], ◌∷◌, arith}
use z_reader.Tts.Preload
use z_reader.Tts.Lru
use z_reader.JsMap
use z_reader.Tts.Player.{
  Speech, fetches, resumes, waits, finished, threw, playing, has_current_audio, is_paused_element,
  begin_resume, after_resume, pause, stop,
}
use z_reader.Tts.Player.Marks.{find_mark, progress_of, is_before, first_hit, find_mark-first_hit}
use z_reader.Tts.Player.Speak.{
  begin_speak, after_fetch, after_play, after_prefetch, forget_controller, default_marks,
}
use z_reader.Tts.Player.Events.{
  System, initial, then_on, Reach, start, next, speaks, fetched, played,
}
use z_reader.Tts.Player.Events.Sources.{IsSound, player_sources}
use z_reader.Tts.Player.Events.Held.{HoldsFocus}
use z_reader.Tts.Player.Events.Holds.{playing_has_focus}
use z_reader.Tts.Player.Speak.Plays.{IsPlaying, answer_with, start_audio, at_hand, speak_plays}
use z_reader.Tts.Player.Events.Stale.{superseded_calls, pause_resume}

abbrev hello : Speech
hello = record {
  request_id = 1;
  ssml = "hello";
  marks = record { name = "0"; weight = 5 } ∷ [];
  is_continuous = false;
}

abbrev spoken : System
spoken = then_on (begin_speak (λ text. 5) "hello" [] 5 false 0 initial) []

abbrev loaded : System
loaded = then_on (after_fetch hello 1 (some 7) spoken.player) []

abbrev playing_hello : System
playing_hello = then_on (after_play 1 true loaded.player) []

-- The text is spoken; nothing is cached, so its request waits for an answer.
spoken_lem : spoken.pending ≡ fetches hello 1 ∷ []
unfolding begin_speak initial Lru.get JsMap.get Preload.take_preloaded
spoken_lem = refl

hello_plays : Reach playing_hello
unfolding begin_speak initial after_fetch Lru.get JsMap.get Preload.take_preloaded
hello_plays =
    next
      (next (next start (speaks (λ text. 5) "hello" [] 5 false 0))
        (fetched [] hello 1 [] (some 7) refl))
      (played [] 1 [] true refl)

player_sources_example : IsSound playing_hello.player
player_sources_example = player_sources hello_plays

playing_has_focus_example :
    (playing_hello.player.wants_playback ≡ true)
    × HoldsFocus playing_hello.player.release_audio_focus playing_hello.player.focus
unfolding begin_speak initial after_fetch after_play Lru.get JsMap.get Preload.take_preloaded
playing_has_focus_example = playing_has_focus hello_plays refl

superseded_calls_example :
    (after_prefetch hello true (pause spoken.player) ≡ (pause spoken.player, threw))
    × (after_fetch hello 1 (some 7) (pause spoken.player) ≡ (
      record (pause spoken.player) {
        abort_controller = forget_controller 1 (pause spoken.player).abort_controller;
      },
      threw,
    ))
    × (after_play 1 true (pause spoken.player) ≡ (pause spoken.player, threw))
    × (after_resume 1 true (pause spoken.player) ≡ (pause spoken.player, threw))
unfolding begin_speak initial pause Lru.get JsMap.get Preload.take_preloaded
superseded_calls_example =
    superseded_calls hello 1 (some 7) true (pause spoken.player) (ground arith)

-- Another text is spoken while the first one plays.
speak_plays_example :
    IsPlaying "world" (default_marks 6 []) (or_else (at_hand "world" playing_hello.player) 9) (
      start_audio
        (answer_with 9 (begin_speak (λ text. 5) "world" [] 6 true 40 playing_hello.player)))
unfolding begin_speak initial after_fetch after_play Lru.get JsMap.get Preload.take_preloaded
speak_plays_example =
    speak_plays (λ text. 5) "world" [] 6 true 40 9 playing_hello.player (omega arith) refl

pause_resume_example :
    let (t, wait) = begin_resume (pause playing_hello.player) in
    let (u, end) = after_resume (playing_hello.player.playback_request_id + 2) true t in
    (wait ≡ waits (resumes (playing_hello.player.playback_request_id + 2)))
    × (end ≡ finished)
    × (u.state ≡ playing)
    × (u.audio_url ≡ playing_hello.player.audio_url)
    × (is_paused_element u.audio ≡ false)
    × ((begin_resume (stop playing_hello.player)).1 ≡ threw)
unfolding begin_speak initial after_fetch after_play has_current_audio Lru.get JsMap.get
    Preload.take_preloaded
pause_resume_example = pause_resume playing_hello.player refl

find_mark-first_hit_example :
    find_mark (progress_of 1 4) (record { name = "0"; weight = 5 } ∷ [])
    ≡ first_hit (is_before (progress_of 1 4) (record { name = "0"; weight = 5 } ∷ [])) 0 0
find_mark-first_hit_example = find_mark-first_hit 1 4 (record { name = "0"; weight = 5 }) []
