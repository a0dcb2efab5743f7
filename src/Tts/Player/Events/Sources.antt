-- ===== src/Tts/Player/Events/Sources.antt =====
-- The object URLs of the player: the one that the audio element plays, and those that exist.
use z_reader.Prelude.{
  ℕ, ◌<◌, ◌≡◌, inl, inr, refl, String, Bool, Option, none, some, List, [], ◌∷◌, ltb, arith,
  Bool-cases, Option-cases,
}
use z_reader.Tts.Player.{
  Element, Mark, Player, begin_session, pause, stop, begin_resume, after_resume,
}
use z_reader.Tts.Player.Marks.{update_current_mark}
use z_reader.Tts.Player.Speak.{
  fail, play_audio, begin_request, begin_speak, after_play, prepare, take_audio, begin_fetch,
  look_up,
}
use z_reader.Tts.Preload.{max_backend_ssml_bytes}
use z_reader.Tts.Player.Speak.Keeps.{
  IsClosed, find_cached-keeps, after_prefetch-keeps, after_fetch-keeps,
}
use z_reader.Tts.Player.Handlers.{on_play, on_ended, on_error, on_pause, on_time_update}
use z_reader.Tts.Player.Events.{
  System, initial, lose_focus, Event, Reach, start, next, speaks, prefetched, fetched, played,
  calls_resume, resumed, pauses, stops, begins_session, fires_play, fires_ended, fires_error,
  fires_pause, fires_time_update, browser, caches, others_claim, others_release,
}

abbrev pub src_of : Option Element → Option ℕ
src_of none = none
src_of (some e) = e.src

abbrev pub to_list : Option ℕ → List ℕ
to_list none = []
to_list (some u) = u ∷ []

abbrev pub IsBelow : ℕ → Option ℕ → Type 0
IsBelow n none = Unit
IsBelow n (some u) = u < n

-- The URL in use is the only one that exists, the element plays it, and the handlers are those of it.
pub record IsSound (s : Player) : Type 0 where
  pub live : s.live_urls ≡ to_list s.audio_url
  pub source : src_of s.audio ≡ s.audio_url
  pub fresh : IsBelow s.next_url s.audio_url
  pub installed : s.handlers ≡ s.audio_url

-- Two players with the same URLs, for what an operation leaves alone.
abbrev SameUrls : Player → Player → Type 0
SameUrls s t =
    (t.live_urls ≡ s.live_urls)
    × (src_of t.audio ≡ src_of s.audio)
    × (t.audio_url ≡ s.audio_url)
    × (t.next_url ≡ s.next_url)
    × (t.handlers ≡ s.handlers)

SameUrls-IsSound : (s t : Player) → SameUrls s t → IsSound s → IsSound t
SameUrls-IsSound s t e v = record {
  live = ground (arith, v.live);
  source = ground (arith, v.source);
  fresh = ground (arith, v.fresh);
  installed = ground (arith, v.installed);
}

play_audio-IsSound : (r blob : ℕ) (s : Player) → IsSound s → IsSound (play_audio r blob s).0
unfolding play_audio
play_audio-IsSound r blob s v = elim (Option-cases s.audio_url) [
  | inl idle ↦ record {
    live = ground (arith, v.live, idle);
    source = refl;
    fresh = omega arith;
    installed = refl;
  }
  | inr (u, used) ↦
      let before : u < s.next_url = rw used at v.fresh in
      record {
        live = ground (arith, v.live, used);
        source = refl;
        fresh = omega arith;
        installed = refl;
      }
]

stop-IsSound : (s : Player) → IsSound s → IsSound (stop s)
unfolding stop
stop-IsSound s v = elim (Option-cases s.audio) [
  | inl none_yet ↦ record {
    live = ground (arith, v.live, v.source, none_yet);
    source = ground (arith, none_yet);
    fresh = tt;
    installed = ground (arith, none_yet, v.installed, v.source);
  }
  | inr (e, made) ↦ record {
    live = ground (arith, v.live, v.source);
    source = ground (arith, made);
    fresh = tt;
    installed = ground (arith, made);
  }
]

pause-SameUrls : (s : Player) → SameUrls s (pause s)
unfolding pause
pause-SameUrls s = ground arith

begin_request-SameUrls :
    (ssml : String) (now : ℕ) (s : Player) → SameUrls s (begin_request ssml now s)
unfolding begin_request
begin_request-SameUrls ssml now s = ground arith

fail-IsSound : (r : ℕ) (s : Player) → IsSound s → IsSound (fail r s).0
unfolding fail
fail-IsSound r s v = SameUrls-IsSound s (fail r s).0 (ground arith) v

speak-IsClosed : IsClosed IsSound
unfolding prepare take_audio begin_fetch look_up
speak-IsClosed = record {
  fails = fail-IsSound;
  plays_audio = play_audio-IsSound;
  prepares = λ p blob s v. SameUrls-IsSound s _ (refl, refl, refl, refl, refl) v;
  takes = λ p s v. SameUrls-IsSound s _ (refl, refl, refl, refl, refl) v;
  begins_fetch = λ c s v. SameUrls-IsSound s _ (refl, refl, refl, refl, refl) v;
  looks_up = λ ssml s v. SameUrls-IsSound s _ (refl, refl, refl, refl, refl) v;
  hits = λ s v. SameUrls-IsSound s _ (refl, refl, refl, refl, refl) v;
  forgets = λ c s v. SameUrls-IsSound s _ (refl, refl, refl, refl, refl) v;
}

begin_speak-IsSound :
    (bytes : String → ℕ) (ssml : String) (marks : List Mark) (weight : ℕ) (continuous : Bool)
    (now : ℕ) (s : Player)
    → IsSound s
    → IsSound (begin_speak bytes ssml marks weight continuous now s).0
unfolding begin_speak
begin_speak-IsSound bytes ssml marks weight continuous now s v =
    let u = SameUrls-IsSound s (begin_request ssml now s) (begin_request-SameUrls ssml now s) v in
    elim (Bool-cases (ltb max_backend_ssml_bytes (bytes ssml))) [
      | inl large ↦ rw (large, begin_speak) v
      | inr fits ↦
          rw (fits, begin_speak)
            (find_cached-keeps IsSound speak-IsClosed _ (begin_request ssml now s) u)
    ]

after_play-SameUrls : (r : ℕ) (ok : Bool) (s : Player) → SameUrls s (after_play r ok s).0
unfolding after_play
after_play-SameUrls r ok s = ground arith

begin_resume-SameUrls : (s : Player) → SameUrls s (begin_resume s).0
unfolding begin_resume
begin_resume-SameUrls s = ground arith

after_resume-SameUrls : (r : ℕ) (ok : Bool) (s : Player) → SameUrls s (after_resume r ok s).0
unfolding after_resume
after_resume-SameUrls r ok s = ground arith

lose_focus-SameUrls : (owner : ℕ) (s : Player) → SameUrls s (lose_focus owner s)
unfolding lose_focus
lose_focus-SameUrls owner s = ground arith

handlers-SameUrls :
    (u a t d : ℕ) (s : Player)
    → SameUrls s (on_play u t d s)
      × SameUrls s (on_ended u t s)
      × SameUrls s (on_error u s)
      × SameUrls s (on_pause u s)
      × SameUrls s (on_time_update u a t d s)
unfolding on_play on_ended on_error on_pause on_time_update update_current_mark
handlers-SameUrls u a t d s = (ground arith, ground arith, ground arith, ground arith, ground arith)

Event-IsSound : {s t : System} → Event s t → IsSound s.player → IsSound t.player
Event-IsSound {s = s} (speaks bytes ssml marks weight continuous now) v =
    begin_speak-IsSound bytes ssml marks weight continuous now s.player v
Event-IsSound {s = s} (prefetched before p after resolved place) v =
    after_prefetch-keeps IsSound speak-IsClosed p resolved s.player v
Event-IsSound {s = s} (fetched before p c after answer place) v =
    after_fetch-keeps IsSound speak-IsClosed p c answer s.player v
Event-IsSound {s = s} (played before r after ok place) v =
    SameUrls-IsSound s.player _ (after_play-SameUrls r ok s.player) v
Event-IsSound {s = s} calls_resume v =
    SameUrls-IsSound s.player _ (begin_resume-SameUrls s.player) v
Event-IsSound {s = s} (resumed before r after ok place) v =
    SameUrls-IsSound s.player _ (after_resume-SameUrls r ok s.player) v
Event-IsSound {s = s} pauses v = SameUrls-IsSound s.player _ (pause-SameUrls s.player) v
Event-IsSound {s = s} stops v = stop-IsSound s.player v
Event-IsSound {s = s} (begins_session now) v =
    SameUrls-IsSound s.player _ (unfold begin_session in (refl, refl, refl, refl, refl)) v
Event-IsSound {s = s} (fires_play u t d on) v =
    SameUrls-IsSound s.player _ (handlers-SameUrls u 0 t d s.player).0 v
Event-IsSound {s = s} (fires_ended u now on) v =
    SameUrls-IsSound s.player _ (handlers-SameUrls u 0 now 0 s.player).1 v
Event-IsSound {s = s} (fires_error u on) v =
    SameUrls-IsSound s.player _ (handlers-SameUrls u 0 0 0 s.player).2 v
Event-IsSound {s = s} (fires_pause u on) v =
    SameUrls-IsSound s.player _ (handlers-SameUrls u 0 0 0 s.player).3 v
Event-IsSound {s = s} (fires_time_update u a t d on) v =
    SameUrls-IsSound s.player _ (handlers-SameUrls u a t d s.player).4 v
Event-IsSound {s = s} (browser e e' there same) v =
    SameUrls-IsSound s.player _ (refl, ground (arith, there), refl, refl, refl) v
Event-IsSound {s = s} (caches cache preloads) v =
    SameUrls-IsSound s.player _ (refl, refl, refl, refl, refl) v
Event-IsSound {s = s} (others_claim owner other) v =
    SameUrls-IsSound s.player _ (lose_focus-SameUrls owner s.player) v
Event-IsSound {s = s} (others_release l other) v =
    SameUrls-IsSound s.player _ (refl, refl, refl, refl, refl) v

-- Whatever calls, answers, handlers and changes of focus follow each other: the object URL of the
-- current audio is the only one that exists, none leaks and none that the audio element plays is
-- revoked, and the installed handlers are those of that audio.
pub player_sources : {s : System} → Reach s → IsSound s.player
unfolding initial
player_sources start = record { live = refl; source = refl; fresh = tt; installed = refl }
player_sources (next before e) = Event-IsSound e (player_sources before)
