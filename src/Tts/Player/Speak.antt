-- ===== src/Tts/Player/Speak.antt =====
-- `speak` and `playAudio` of `BackendTTS` (frontend/src/lib/tts.ts), from wait to wait. The size of a
-- text in bytes and the clock are arguments; so is what each wait gives. Callbacks that report metrics
-- are left out.
pub mod Keeps
pub mod Plays
use z_reader.Prelude.{
  ℕ, ◌+◌, String, str_eq, Bool, true, false, not, ◌&&◌, ◌||◌, Option, none, some, List, [], ◌∷◌,
  ◌++◌, if◌then◌else◌, ltb, ◌==◌, is_some,
}
use z_reader.JsMap
use z_reader.Tts.Lru
use z_reader.Tts.Preload.{PreloadedAudio, take_preloaded, max_backend_ssml_bytes}
use z_reader.Tts.AudioFocus.{claim_tts_audio_focus}
use z_reader.Tts.Player.{
  TtsState, playing, paused, Element, Mark, Player, Speech, Pending, awaits_prefetch, fetches,
  plays, Progress, waits, finished, threw, is_set, pause_element, abort_of, revoke_of, is_speech,
}

-- The `catch` block.
unfoldable pub fail : ℕ → Player → Player × Progress
fail r s =
    if s.playback_request_id == r
    then (record s { replacing_source = false; state = paused }, threw)
    else (s, threw)

-- `getOrCreateAudio`, `audio.src = audioUrl` and `audio.play()`.
abbrev pub load_element : ℕ → Element
load_element url = record { src = some url; is_paused = false; ended = false; error = false }

-- `playAudio` up to its wait.
unfoldable pub play_audio : ℕ → ℕ → Player → Player × Progress
play_audio r blob s =
    let url = s.next_url in
    (
      record s {
        live_urls = revoke_of s.audio_url (s.live_urls ++ url ∷ []);
        data_of_url = λ u. if u == url then some blob else s.data_of_url u;
        next_url = url + 1;
        audio_url = some url;
        audio_ssml = s.current_ssml;
        audio_speech_id = some s.speech_id;
        current_mark_index = none;
        handlers = some url;
        audio = some (load_element url);
      },
      waits (plays r),
    )

-- `playAudio` from its wait on, with the `catch` of `speak`.
unfoldable pub after_play : ℕ → Bool → Player → Player × Progress
unfolding fail
after_play r succeeded s =
    if not succeeded then fail r s else if not (s.playback_request_id == r) then fail r s else (
      record s {
        replacing_source = false;
        state = playing;
        session_played = s.session_played || is_set s.session_started_at;
        last_ended_at = none;
      },
      finished,
    )

-- The assignments before `playAudio`.
unfoldable pub prepare : Speech → ℕ → Player → Player
prepare p blob s = record s {
  marks = p.marks;
  audio_cache = (Lru.set p.ssml blob none s.audio_cache).0;
}

-- `speak` from the audio data on.
unfoldable pub with_blob : Speech → ℕ → Player → Player × Progress
unfolding fail play_audio prepare
with_blob p blob s =
    if not (s.playback_request_id == p.request_id)
    then fail p.request_id s
    else play_audio p.request_id blob (prepare p blob s)

abbrev pub blob_of : Option PreloadedAudio → Option ℕ
blob_of none = none
blob_of (some p) = some p.blob

-- `cached?.blob ?? preloaded?.blob`
abbrev pub either : Option ℕ → Option ℕ → Option ℕ
either none b = b
either (some a) b = some a

-- The prefetched audio of the text leaves the queue.
unfoldable pub take_audio : Speech → Player → Player
take_audio p s = record s {
  preloads = record s.preloads {
    preloaded_queue = (take_preloaded p.ssml s.preloads.preloaded_queue).0;
  };
}

-- `fetchAudioBlob` up to its wait, with a new controller; a request still at work was aborted before.
unfoldable pub begin_fetch : Bool → Player → Player
begin_fetch is_continuous s = record s {
  consecutive_preload_misses =
      if is_continuous then s.consecutive_preload_misses + 1 else s.consecutive_preload_misses;
  abort_controller = some s.next_controller;
  next_controller = s.next_controller + 1;
}

-- `speak` from the search of the prefetched audio on.
unfoldable pub find_audio : Speech → Option ℕ → Player → Player × Progress
unfolding with_blob take_audio begin_fetch
find_audio p cached s =
    let preloaded = (take_preloaded p.ssml s.preloads.preloaded_queue).1 in
    elim (either cached (blob_of preloaded)) [
      | some blob ↦ with_blob p blob (record (take_audio p s) { consecutive_preload_misses = 0 })
      | none ↦ (begin_fetch p.is_continuous (take_audio p s), waits (fetches p s.next_controller))
    ]

-- `speak` from the end of the prefetch on; a wait that was aborted rejects.
unfoldable pub after_prefetch : Speech → Bool → Player → Player × Progress
unfolding find_audio fail
after_prefetch p resolved s =
    if not resolved
    then fail p.request_id s
    else if not (s.playback_request_id == p.request_id)
    then fail p.request_id s
    else find_audio p none s

-- The `finally` of `fetchAudioBlob`.
abbrev pub forget_controller : ℕ → Option ℕ → Option ℕ
forget_controller c none = none
forget_controller c (some d) = if d == c then none else some d

-- `speak` from the answer to its request on, `none` if it failed.
unfoldable pub after_fetch : Speech → ℕ → Option ℕ → Player → Player × Progress
unfolding with_blob fail
after_fetch p c answer s =
    let s' = record s { abort_controller = forget_controller c s.abort_controller } in
    elim answer [ none ↦ fail p.request_id s' | some blob ↦ with_blob p blob s' ]

abbrev pub default_marks : ℕ → List Mark → List Mark
default_marks weight [] = (record { name = "0"; weight = weight }) ∷ []
default_marks weight (m ∷ ms) = m ∷ ms

-- The assignments at the head of `speak`.
unfoldable pub begin_request : String → ℕ → Player → Player
unfolding claim_tts_audio_focus
begin_request ssml now s =
    let (f, lease, lost) = claim_tts_audio_focus 0 s.focus in
    record s {
      focus = f;
      release_audio_focus = some lease;
      playback_request_id = s.playback_request_id + 1;
      aborted = abort_of s.abort_controller (abort_of s.playback_wait_controller s.aborted);
      playback_wait_controller = some s.next_controller;
      next_controller = s.next_controller + 1;
      session_started_at = elim s.session_started_at [ none ↦ some now | some t ↦ some t ];
      speech_id = s.speech_id + 1;
      wants_playback = true;
      current_ssml = ssml;
      preload_triggered = false;
      replacing_source = true;
      audio = pause_element s.audio;
    }

-- The text is looked up in the audio cache, which makes it the last used.
unfoldable pub look_up : String → Player → Player × Option ℕ
look_up ssml s =
    let (cache, cached) = Lru.get ssml s.audio_cache in (record s { audio_cache = cache }, cached)

-- `speak` from the search in the cache on.
unfoldable pub find_cached : Speech → Player → Player × Progress
unfolding look_up find_audio
find_cached p s =
    let (s', cached) = look_up p.ssml s in
    if not (is_some cached) && JsMap.has p.ssml s'.preloads.preload_promises
    then (s', waits (awaits_prefetch p))
    else find_audio p cached s'

-- `speak` up to its first wait. `weight` is that of the mark for the whole text.
unfoldable pub begin_speak :
    (String → ℕ) → String → List Mark → ℕ → Bool → ℕ → Player → Player × Progress
unfolding begin_request find_cached
begin_speak bytes ssml marks weight is_continuous now s =
    if ltb max_backend_ssml_bytes (bytes ssml)
    then (s, threw)
    else find_cached
        (record {
          request_id = s.playback_request_id + 1;
          ssml = ssml;
          marks = default_marks weight marks;
          is_continuous = is_continuous;
        })
        (begin_request ssml now s)
