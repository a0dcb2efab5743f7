-- ===== src/Tts/Player.antt =====
-- The player of `BackendTTS` in frontend/src/lib/tts.ts: `speak`, `playAudio`, `pause`, `resume`,
-- `stop` and the handlers of the audio element. Controllers, object URLs and audio data are named by
-- numbers. An async method is cut at its waits; what goes on after a wait is a `Pending`. The audio
-- cache is that of `Lru`, the prefetched audio that of `Preload`, and the audio focus that of
-- `AudioFocus`, where the player is owner 0.
pub mod Marks
pub mod Speak
pub mod Handlers
pub mod Events
mod Tests
use z_reader.Prelude.{
  ℕ, suc, ◌+◌, String, str_eq, Bool, true, false, not, ◌&&◌, ◌||◌, Option, none, some, List, [],
  ◌∷◌, ◌++◌, if◌then◌else◌, ◌==◌, filter,
}
use z_reader.Tts.Lru.{LruCache}
use z_reader.Tts.Preload.{Preloads}
use z_reader.Tts.AudioFocus.{Focus, Lease, claim_tts_audio_focus, release}

pub data TtsState : Type 0 where
  stopped playing paused : TtsState

abbrev pub is_playing : TtsState → Bool
is_playing playing = true
is_playing _ = false

-- What the code reads of the `HTMLAudioElement`.
pub record Element : Type 0 where
  pub src : Option ℕ
  pub is_paused : Bool
  pub ended : Bool
  pub error : Bool

-- A mark with its weight, `mark.weight ?? mark.text.length`, in thousandths.
pub record Mark : Type 0 where
  pub name : String
  pub weight : ℕ

-- The fields of the class that the player uses, the focus that it shares with others, and the object
-- URLs that exist. `handlers` is the URL that the installed handlers closed over; `data_of_url` gives
-- the audio data that an object URL was made of; `on_end` counts the
-- calls of the callback. A mark index or speech id of -1 is `none`.
pub record Player : Type 0 where
  pub audio : Option Element
  pub audio_url : Option ℕ
  pub handlers : Option ℕ
  pub state : TtsState
  pub current_ssml : String
  pub audio_ssml : String
  pub speech_id : ℕ
  pub audio_speech_id : Option ℕ
  pub abort_controller : Option ℕ
  pub playback_wait_controller : Option ℕ
  pub aborted : List ℕ
  pub next_controller : ℕ
  pub playback_request_id : ℕ
  pub replacing_source : Bool
  pub wants_playback : Bool
  pub preload_triggered : Bool
  pub consecutive_preload_misses : ℕ
  pub session_started_at : Option ℕ
  pub session_played : Bool
  pub last_ended_at : Option ℕ
  pub marks : List Mark
  pub current_mark_index : Option ℕ
  pub audio_cache : LruCache ℕ
  pub preloads : Preloads
  pub release_audio_focus : Option Lease
  pub focus : Focus
  pub live_urls : List ℕ
  pub data_of_url : ℕ → Option ℕ
  pub next_url : ℕ
  pub on_end : ℕ
  pub on_preload_trigger : ℕ

abbrev pub is_url : ℕ → Option ℕ → Bool
is_url u none = false
is_url u (some v) = v == u

-- `this.audio?.pause()`
abbrev pub pause_element : Option Element → Option Element
pause_element none = none
pause_element (some e) = some (record e { is_paused = true })

-- `audio.play()`, which starts at once and reports later
abbrev pub play_element : Option Element → Option Element
play_element none = none
play_element (some e) = some (record e { is_paused = false })

-- `controller?.abort()`
abbrev pub abort_of : Option ℕ → List ℕ → List ℕ
abort_of none cs = cs
abort_of (some c) cs = c ∷ cs

-- `this.releaseAudioFocus?.()`
abbrev pub release_of : Option Lease → Focus → Focus
release_of none f = f
release_of (some l) f = release l f

-- `URL.revokeObjectURL`, if there is a URL
abbrev pub revoke_of : Option ℕ → List ℕ → List ℕ
revoke_of none us = us
revoke_of (some u) us = filter (λ v. not (v == u)) us

abbrev pub is_speech : ℕ → Option ℕ → Bool
is_speech n none = false
is_speech n (some m) = m == n

abbrev pub plays_source : Option Element → Bool
plays_source none = false
plays_source (some e) = elim e.src [ none ↦ false | some u ↦ not e.ended && not e.error ]

abbrev pub is_paused_element : Option Element → Bool
is_paused_element none = false
is_paused_element (some e) = e.is_paused

abbrev pub is_ended_element : Option Element → Bool
is_ended_element none = false
is_ended_element (some e) = e.ended

abbrev pub is_set : Option ℕ → Bool
is_set none = false
is_set (some u) = true

unfoldable pub has_current_audio : Player → Bool
has_current_audio s =
    is_set s.audio_url
    && (is_speech s.speech_id s.audio_speech_id
        && (str_eq s.audio_ssml s.current_ssml && plays_source s.audio))

unfoldable pub has_ended : Player → Bool
has_ended s = is_speech s.speech_id s.audio_speech_id && is_ended_element s.audio

unfoldable pub needs_resume : Player → Bool
unfolding has_current_audio
needs_resume s = has_current_audio s && is_paused_element s.audio

unfoldable pub begin_session : ℕ → Player → Player
begin_session now s = record s {
  session_started_at = some now;
  session_played = false;
  last_ended_at = none;
}

unfoldable pub pause : Player → Player
unfolding release
pause s = record s {
  focus = release_of s.release_audio_focus s.focus;
  release_audio_focus = none;
  wants_playback = false;
  aborted = abort_of s.abort_controller (abort_of s.playback_wait_controller s.aborted);
  playback_request_id = s.playback_request_id + 1;
  abort_controller = none;
  replacing_source = false;
  state = paused;
  audio = pause_element s.audio;
}

-- `audio.pause(); audio.removeAttribute('src'); audio.load()`
abbrev pub unload_element : Option Element → Option Element
unload_element none = none
unload_element (some e) =
    some (record { src = none; is_paused = true; ended = false; error = false })

-- The handlers are removed only if there is an element.
abbrev pub remove_handlers : Option Element → Option ℕ → Option ℕ
remove_handlers none h = h
remove_handlers (some e) h = none

unfoldable pub stop : Player → Player
unfolding release
stop s = record s {
  focus = release_of s.release_audio_focus s.focus;
  release_audio_focus = none;
  wants_playback = false;
  aborted = abort_of s.abort_controller (abort_of s.playback_wait_controller s.aborted);
  playback_wait_controller = none;
  playback_request_id = s.playback_request_id + 1;
  abort_controller = none;
  replacing_source = false;
  state = stopped;
  handlers = remove_handlers s.audio s.handlers;
  audio = unload_element s.audio;
  live_urls = revoke_of s.audio_url s.live_urls;
  audio_url = none;
  preload_triggered = false;
  current_mark_index = none;
  marks = [];
  current_ssml = "";
  audio_ssml = "";
  audio_speech_id = none;
  session_started_at = none;
  session_played = false;
  last_ended_at = none;
}

-- What waits for an answer: a `speak` for a prefetch of its text, for its own request (with its
-- controller) or for `audio.play()`, or a `resume` for `audio.play()`.
pub record Speech : Type 0 where
  pub request_id : ℕ
  pub ssml : String
  pub marks : List Mark
  pub is_continuous : Bool

pub data Pending : Type 0 where
  awaits_prefetch : Speech → Pending
  fetches : Speech → ℕ → Pending
  plays : ℕ → Pending
  resumes : ℕ → Pending

abbrev pub request_of : Pending → ℕ
request_of (awaits_prefetch p) = p.request_id
request_of (fetches p c) = p.request_id
request_of (plays r) = r
request_of (resumes r) = r

-- What an async method did up to its next wait.
pub data Progress : Type 0 where
  waits : Pending → Progress
  finished : Progress
  threw : Progress

-- `resume` up to its wait.
unfoldable pub begin_resume : Player → Player × Progress
unfolding has_current_audio claim_tts_audio_focus
begin_resume s =
    if not (has_current_audio s)
    then (s, threw)
    else let (f, lease, lost) = claim_tts_audio_focus 0 s.focus in
      let s' = record s {
        focus = f;
        release_audio_focus = some lease;
        wants_playback = true;
        playback_request_id = s.playback_request_id + 1;
      } in
      if is_paused_element s.audio
      then (record s' { audio = play_element s.audio }, waits (resumes (s.playback_request_id + 1)))
      else (record s' { state = playing }, finished)

-- `resume` from its wait on, with whether `audio.play()` succeeded.
unfoldable pub after_resume : ℕ → Bool → Player → Player × Progress
after_resume r succeeded s =
    if not succeeded
    then (s, threw)
    else if not (s.playback_request_id == r) || not s.wants_playback
    then (s, threw)
    else (record s { state = playing }, finished)
