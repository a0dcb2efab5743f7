-- ===== src/Tts/Player/Events.antt =====
-- What can happen to the player of `BackendTTS` (frontend/src/lib/tts.ts) and in which order: calls of
-- its methods, answers that it waits for, handlers that fire, what the browser does to the audio
-- element, and other owners of the audio focus.
pub mod Sources
pub mod Requests
pub mod Held
pub mod Holds
pub mod Stale
use z_reader.Prelude.{
  ℕ, ◌≡◌, ◌≢◌, String, Bool, true, false, Option, none, some, List, [], ◌∷◌, ◌++◌, if◌then◌else◌,
  ◌==◌,
}
use z_reader.Tts.Lru.{LruCache}
use z_reader.Tts.Preload
use z_reader.Tts.AudioFocus.{Focus, Lease, claim_tts_audio_focus, release, is_lease}
use z_reader.Tts.Player.{
  TtsState, stopped, Element, Mark, Player, Speech, Pending, awaits_prefetch, fetches, plays,
  resumes, Progress, waits, finished, threw, begin_session, pause, stop, begin_resume, after_resume,
}
use z_reader.Tts.Player.Speak.{begin_speak, after_prefetch, after_fetch, after_play}
use z_reader.Tts.Player.Handlers.{on_play, on_ended, on_error, on_pause, on_time_update}

pub record System : Type 0 where
  pub player : Player
  pub pending : List Pending

unfoldable pub initial : Player
unfolding Preload.initial
initial = record {
  audio = none;
  audio_url = none;
  handlers = none;
  state = stopped;
  current_ssml = "";
  audio_ssml = "";
  speech_id = 0;
  audio_speech_id = none;
  abort_controller = none;
  playback_wait_controller = none;
  aborted = [];
  next_controller = 0;
  playback_request_id = 0;
  replacing_source = false;
  wants_playback = false;
  preload_triggered = false;
  consecutive_preload_misses = 0;
  session_started_at = none;
  session_played = false;
  last_ended_at = none;
  marks = [];
  current_mark_index = some 0;
  audio_cache = record { cache = []; max_size = 10 };
  preloads = Preload.initial;
  release_audio_focus = none;
  focus = record { active_lease = none; next_lease = 0 };
  live_urls = [];
  data_of_url = λ u. none;
  next_url = 0;
  on_end = 0;
  on_preload_trigger = 0;
}

abbrev pub pending_of : Progress → List Pending → List Pending
pending_of (waits p) ps = ps ++ p ∷ []
pending_of finished ps = ps
pending_of threw ps = ps

abbrev pub then_on : Player × Progress → List Pending → System
then_on r ps = record { player = r.0; pending = pending_of r.1 ps }

-- Another owner claims the focus; if the player had it, its `onLoss` runs, which is `pause`.
abbrev pub is_own : Option ℕ → Bool
is_own none = false
is_own (some o) = o == 0

unfoldable pub lose_focus : ℕ → Player → Player
unfolding claim_tts_audio_focus pause
lose_focus owner s =
    let (f, lease, lost) = claim_tts_audio_focus owner s.focus in
    let s' = record s { focus = f } in if is_own lost then pause s' else s'

abbrev pub is_mine : Lease → Option Lease → Bool
is_mine l none = false
is_mine l (some m) = m.number == l.number

pub data Event (s : System) : System → Type 0 where
  speaks :
      (bytes : String → ℕ) (ssml : String) (marks : List Mark) (weight : ℕ) (continuous : Bool)
      (now : ℕ)
      → Event s (then_on (begin_speak bytes ssml marks weight continuous now s.player) s.pending)
  prefetched :
      (before : List Pending) (p : Speech) (after : List Pending) (resolved : Bool)
      → s.pending ≡ before ++ awaits_prefetch p ∷ after
      → Event s (then_on (after_prefetch p resolved s.player) (before ++ after))
  fetched :
      (before : List Pending) (p : Speech) (c : ℕ) (after : List Pending) (answer : Option ℕ)
      → s.pending ≡ before ++ fetches p c ∷ after
      → Event s (then_on (after_fetch p c answer s.player) (before ++ after))
  played :
      (before : List Pending) (r : ℕ) (after : List Pending) (succeeded : Bool)
      → s.pending ≡ before ++ plays r ∷ after
      → Event s (then_on (after_play r succeeded s.player) (before ++ after))
  calls_resume : Event s (then_on (begin_resume s.player) s.pending)
  resumed :
      (before : List Pending) (r : ℕ) (after : List Pending) (succeeded : Bool)
      → s.pending ≡ before ++ resumes r ∷ after
      → Event s (then_on (after_resume r succeeded s.player) (before ++ after))
  pauses : Event s (record s { player = pause s.player })
  stops : Event s (record s { player = stop s.player })
  begins_session : (now : ℕ) → Event s (record s { player = begin_session now s.player })
  fires_play :
      (u time duration : ℕ)
      → s.player.handlers ≡ some u
      → Event s (record s { player = on_play u time duration s.player })
  fires_ended :
      (u now : ℕ)
      → s.player.handlers ≡ some u
      → Event s (record s { player = on_ended u now s.player })
  fires_error :
      (u : ℕ) → s.player.handlers ≡ some u → Event s (record s { player = on_error u s.player })
  fires_pause :
      (u : ℕ) → s.player.handlers ≡ some u → Event s (record s { player = on_pause u s.player })
  fires_time_update :
      (u average time duration : ℕ)
      → s.player.handlers ≡ some u
      → Event s (record s { player = on_time_update u average time duration s.player })
  browser :
      (e e' : Element)
      → s.player.audio ≡ some e
      → e'.src ≡ e.src
      → Event s (record s { player = record s.player { audio = some e' } })
  caches :
      (cache : LruCache ℕ) (preloads : Preload.Preloads)
      → Event s (record s { player = record s.player { audio_cache = cache; preloads = preloads } })
  others_claim : (owner : ℕ) → owner ≢ 0 → Event s (record s { player = lose_focus owner s.player })
  others_release :
      (l : Lease)
      → is_mine l s.player.release_audio_focus ≡ false
      → Event s (record s { player = record s.player { focus = release l s.player.focus } })

pub data Reach : System → Type 0 where
  start : Reach (record { player = initial; pending = [] })
  next : {s t : System} → Reach s → Event s t → Reach t
