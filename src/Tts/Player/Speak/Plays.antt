-- ===== src/Tts/Player/Speak/Plays.antt =====
-- A `speak` (frontend/src/lib/tts.ts) from its call to the start of the audio.
use z_reader.Prelude.{
  ℕ, ◌+◌, ◌≤◌, ◌≡◌, inl, inr, refl, sym, ◌∙◌, String, eq_iff, Bool, true, false, not, ◌&&◌, Option,
  none, some, List, ◌==◌, ltb, or_else, is_some, arith, Option-cases,
}
use z_reader.JsMap
use z_reader.Tts.Lru
use z_reader.Tts.Preload.{PreloadedAudio, take_preloaded, max_backend_ssml_bytes}
use z_reader.Tts.Player.{
  playing, Element, Mark, Player, Speech, fetches, plays, Progress, waits, finished,
  has_current_audio, is_paused_element,
}
use z_reader.Tts.Player.Speak.{
  play_audio, prepare, with_blob, take_audio, begin_fetch, find_audio, look_up, find_cached,
  after_fetch, after_play, begin_request, begin_speak, either, blob_of, default_marks,
}

-- The answer to the request of a `speak`, if it sent one.
abbrev pub answer_with : ℕ → Player × Progress → Player × Progress
answer_with blob (s, waits (fetches p c)) = after_fetch p c (some blob) s
answer_with blob r = r

-- The start of `audio.play()`, if it was called.
abbrev pub start_audio : Player × Progress → Player × Progress
start_audio (s, waits (plays r)) = after_play r true s
start_audio r = r

-- The data of the object URL that the element has.
abbrev pub data_playing : Player → Option Element → Option ℕ
data_playing s none = none
data_playing s (some e) = elim e.src [ none ↦ none | some u ↦ s.data_of_url u ]

-- The data of a cached audio or, if there is none, that of a prefetched one.
abbrev first_of : Option ℕ → Option PreloadedAudio → Option ℕ
first_of (some blob) preloaded = some blob
first_of none (some preloaded) = some preloaded.blob
first_of none none = none

either-first_of :
    (cached : Option ℕ) (preloaded : Option PreloadedAudio)
    → either cached (blob_of preloaded) ≡ first_of cached preloaded
either-first_of (some blob) preloaded = refl
either-first_of none (some preloaded) = refl
either-first_of none none = refl

-- What is at hand for a text: the data in the cache, or else the prefetched one.
abbrev pub at_hand : String → Player → Option ℕ
at_hand ssml s =
    first_of (Lru.get ssml s.audio_cache).1 (take_preloaded ssml s.preloads.preloaded_queue).1

-- The player plays this text with this data and these marks.
pub record IsPlaying (ssml : String) (marks : List Mark) (blob : ℕ) (r : Player × Progress)
    : Type 0 where
  ended : r.1 ≡ finished
  state : r.0.state ≡ playing
  text : r.0.current_ssml ≡ ssml
  current : has_current_audio r.0 ≡ true
  unpaused : is_paused_element r.0.audio ≡ false
  data_ : data_playing r.0 r.0.audio ≡ some blob
  own_marks : r.0.marks ≡ marks

-- From the audio data on, while the request is the last one.
with_blob-IsPlaying :
    (p : Speech) (blob : ℕ) (s : Player)
    → (s.playback_request_id == p.request_id) ≡ true
    → s.current_ssml ≡ p.ssml
    → IsPlaying p.ssml p.marks blob (start_audio (with_blob p blob s))
unfolding with_blob play_audio prepare after_play has_current_audio
with_blob-IsPlaying p blob s now text =
    rw (now, with_blob, after_play)
      (record {
        ended = ground (arith, now);
        state = ground (arith, now);
        text = ground (arith, now, text);
        current = ground (arith, now, eq_iff s.current_ssml s.current_ssml);
        unpaused = ground (arith, now);
        data_ = ground (arith, now);
        own_marks = ground (arith, now);
      })

answer_with-with_blob :
    (p : Speech) (b answer : ℕ) (s : Player)
    → (s.playback_request_id == p.request_id) ≡ true
    → answer_with answer (with_blob p b s) ≡ with_blob p b s
unfolding with_blob play_audio
answer_with-with_blob p b answer s now = rw (now, with_blob) refl

after_fetch-IsPlaying :
    (p : Speech) (c blob : ℕ) (s : Player)
    → (s.playback_request_id == p.request_id) ≡ true
    → s.current_ssml ≡ p.ssml
    → IsPlaying p.ssml p.marks blob (start_audio (after_fetch p c (some blob) s))
unfolding after_fetch
after_fetch-IsPlaying p c blob s now text = with_blob-IsPlaying p blob _ now text

find_audio-IsPlaying :
    (p : Speech) (cached : Option ℕ) (answer : ℕ) (s : Player)
    → (s.playback_request_id == p.request_id) ≡ true
    → s.current_ssml ≡ p.ssml
    → IsPlaying p.ssml p.marks
        (or_else (first_of cached (take_preloaded p.ssml s.preloads.preloaded_queue).1) answer)
        (start_audio (answer_with answer (find_audio p cached s)))
unfolding find_audio take_audio begin_fetch
find_audio-IsPlaying p cached answer s now text =
    let preloaded = (take_preloaded p.ssml s.preloads.preloaded_queue).1 in
    let same : first_of cached preloaded ≡ either cached (blob_of preloaded) =
      sym (either-first_of cached preloaded) in
    elim (Option-cases (either cached (blob_of preloaded))) [
      | inl missing ↦
          let none_left : first_of cached preloaded ≡ none = same ∙ missing in
          rw (missing, none_left, find_audio)
            (after_fetch-IsPlaying p s.next_controller answer
              (begin_fetch p.is_continuous (take_audio p s)) now text)
      | inr (b, found) ↦
          let first : first_of cached preloaded ≡ some b = same ∙ found in
          let t = record (take_audio p s) { consecutive_preload_misses = 0 } in
          rw (found, first, find_audio, answer_with-with_blob p b answer t now)
            (with_blob-IsPlaying p b t now text)
    ]

-- A `speak` of a text that is not too large and is not being prefetched, with no other call meanwhile,
-- plays this text, whatever the player did before: once the answer to its request is there, if it
-- needed one, and `audio.play()` has started, the state is `playing`, the element is not paused, its
-- data is what the audio cache had for the text, or else the prefetched audio of the text, or else the
-- answer, and the marks are its own, or the one for the whole text if it has none.
pub speak_plays :
    (bytes : String → ℕ) (ssml : String) (marks : List Mark) (weight : ℕ) (continuous : Bool)
    (now answer : ℕ) (s : Player)
    → bytes ssml ≤ max_backend_ssml_bytes
    → JsMap.has ssml s.preloads.preload_promises ≡ false
    → IsPlaying ssml
        (default_marks weight marks)
        (or_else (at_hand ssml s) answer)
        (start_audio (answer_with answer (begin_speak bytes ssml marks weight continuous now s)))
unfolding begin_speak find_cached look_up begin_request
speak_plays bytes ssml marks weight continuous now answer s small free =
    let fits : ltb max_backend_ssml_bytes (bytes ssml) ≡ false = ground (arith, small) in
    let p : Speech = record {
      request_id = s.playback_request_id + 1;
      ssml = ssml;
      marks = default_marks weight marks;
      is_continuous = continuous;
    } in
    let (t, cached) = look_up ssml (begin_request ssml now s) in
    let alone : (not (is_some (Lru.get ssml s.audio_cache).1)
          && JsMap.has ssml s.preloads.preload_promises)
        ≡ false =
      ground (arith, free) in
    rw (fits, begin_speak, find_cached, alone)
      (find_audio-IsPlaying p cached answer t (ground arith) refl)
