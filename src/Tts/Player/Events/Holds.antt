-- ===== src/Tts/Player/Events/Holds.antt =====
-- The player and the audio focus (frontend/src/lib/tts.ts and tts-audio-focus.ts) together.
use z_reader.Prelude.{
  All-middle, ℕ, ◌+◌, ◌≡◌, ◌≢◌, inl, inr, refl, sym, ◌∙◌, String, Bool, true, some, List, ◌∷◌, ◌++◌,
  ltb, arith, All-append, Bool-cases,
}
use z_reader.Tts.Preload.{max_backend_ssml_bytes}
use z_reader.Tts.AudioFocus.{claim_tts_audio_focus, loser}
use z_reader.Tts.Player.{
  Mark, Player, Speech, Pending, awaits_prefetch, fetches, plays, resumes, request_of, Progress,
  is_playing, begin_session, pause, stop, begin_resume, after_resume, has_current_audio,
  is_paused_element,
}
use z_reader.Tts.Player.Speak.{
  find_cached, begin_request, begin_speak, after_prefetch, after_fetch, after_play, default_marks,
}
use z_reader.Tts.Player.Speak.Keeps.{find_cached-keeps, after_prefetch-keeps, after_fetch-keeps}
use z_reader.Tts.Player.Handlers.{on_play, on_ended, on_error, on_pause, on_time_update}
use z_reader.Tts.Player.Events.{
  System, initial, lose_focus, is_own, then_on, Event, Reach, start, next, speaks, prefetched,
  fetched, played, calls_resume, resumed, pauses, stops, begins_session, fires_play, fires_ended,
  fires_error, fires_pause, fires_time_update, browser, caches, others_claim, others_release,
}
use z_reader.Tts.Player.Events.Requests.{
  AllAllowed, SameRequest, IsFor, AllAllowed-same, AllAllowed-bump, AllAllowed-then,
  find_cached-IsFor, after_prefetch-IsFor, after_fetch-IsFor, SameRequest-IsClosed,
}
use z_reader.Tts.Player.Events.Held.{
  HoldsFocus, IsHeld, IsHeld-IsClosed, IsQuieter, after_play-IsHeld, after_play-SameRequest,
  after_resume-IsHeld, after_resume-SameRequest, begin_request-IsHeld, silent-IsHeld, kept_unwanted,
  release_others, handlers-IsQuieter,
}

pub record IsValid (s : System) : Type 0 where
  pub player : IsHeld s.player
  pub allowed : AllAllowed s.player s.pending

IsQuieter-IsValid :
    (s : System) (t : Player) → IsQuieter s.player t → IsValid s → IsValid (record s { player = t })
IsQuieter-IsValid s t q v = record {
  player = record {
    wanted = λ h. q.1 ∙ elim (q.0 h) [ inl was ↦ v.player.wanted was | inr w ↦ w ];
    held = λ h. ground (arith, q, v.player.held (sym q.1 ∙ h));
  };
  allowed = AllAllowed-same s.player t s.pending (q.2, q.1) v.allowed;
}

-- A method goes on after a wait of the request `r`, which leaves the list.
continue-IsValid :
    (s : System) (r : ℕ) (g : Player × Progress) (before : List Pending) (p : Pending)
    (after : List Pending)
    → s.pending ≡ before ++ p ∷ after
    → request_of p ≡ r
    → SameRequest s.player.playback_request_id s.player.wants_playback g.0
    → IsFor r g.1
    → IsHeld g.0
    → IsValid s
    → IsValid (then_on g (before ++ after))
continue-IsValid s r g before p after place own same for held v =
    let all : AllAllowed s.player (before ++ p ∷ after) = rw place at v.allowed in
    let (here, rest) = All-middle _ before p after all in
    record {
      player = held;
      allowed =
          AllAllowed-then g.0 r g.1 (before ++ after) (ground (arith, here, own, same)) for
            (AllAllowed-same s.player g.0 (before ++ after) same rest);
    }

-- The last request goes on only while playback is wanted.
last_wants :
    (s : System) (before : List Pending) (p : Pending) (after : List Pending)
    → s.pending ≡ before ++ p ∷ after
    → IsValid s
    → s.player.playback_request_id ≡ request_of p
    → s.player.wants_playback ≡ true
last_wants s before p after place v last =
    let all : AllAllowed s.player (before ++ p ∷ after) = rw place at v.allowed in
    (All-middle _ before p after all).0.1 (sym last)

begin_speak-IsValid :
    (bytes : String → ℕ) (ssml : String) (marks : List Mark) (weight : ℕ) (continuous : Bool)
    (now : ℕ) (s : System)
    → IsValid s
    → IsValid (then_on (begin_speak bytes ssml marks weight continuous now s.player) s.pending)
unfolding begin_speak begin_request
begin_speak-IsValid bytes ssml marks weight continuous now s v =
    elim (Bool-cases (ltb max_backend_ssml_bytes (bytes ssml))) [
      | inl large ↦ rw (large, begin_speak) v
      | inr fits ↦
          let s' = begin_request ssml now s.player in
          let p : Speech = record {
            request_id = s.player.playback_request_id + 1;
            ssml = ssml;
            marks = default_marks weight marks;
            is_continuous = continuous;
          } in
          let same =
            find_cached-keeps (SameRequest (s.player.playback_request_id + 1) true)
              (SameRequest-IsClosed (s.player.playback_request_id + 1) true) p s' (refl, refl) in
          rw (fits, begin_speak)
            (record {
              player =
                  find_cached-keeps IsHeld IsHeld-IsClosed p s'
                    (begin_request-IsHeld ssml now s.player);
              allowed =
                  AllAllowed-then (find_cached p s').0 (s.player.playback_request_id + 1)
                    (find_cached p s').1 s.pending (ground (arith, same)) (find_cached-IsFor p s')
                    (AllAllowed-bump s.player (find_cached p s').0 s.pending same.0 v.allowed);
            })
    ]

-- What the request id and the wish are after a new request.
abbrev requested : Player → Player
requested s = record s { playback_request_id = s.playback_request_id + 1; wants_playback = true }

begin_resume-IsValid :
    (s : System) → IsValid s → IsValid (then_on (begin_resume s.player) s.pending)
unfolding begin_resume
begin_resume-IsValid s v = elim (Bool-cases (has_current_audio s.player)) [
  | inr missing ↦ rw (missing, begin_resume) v
  | inl there ↦ elim (Bool-cases (is_paused_element s.player.audio)) [
    | inl silent ↦
        rw (there, silent, begin_resume)
          (record {
            player = record { wanted = λ h. refl; held = λ h. (refl, refl) };
            allowed =
                All-append _ s.pending _
                  (AllAllowed-bump s.player (requested s.player) s.pending refl v.allowed)
                  ((omega arith, λ e. refl), tt);
          })
    | inr sounding ↦
        rw (there, sounding, begin_resume)
          (record {
            player = record { wanted = λ h. refl; held = λ h. (refl, refl) };
            allowed = AllAllowed-bump s.player (requested s.player) s.pending refl v.allowed;
          })
  ]
]

pause-IsValid :
    (s : System) → AllAllowed s.player s.pending → IsValid (record s { player = pause s.player })
unfolding pause
pause-IsValid s a = record {
  player = silent-IsHeld (pause s.player) refl refl;
  allowed = AllAllowed-bump s.player (pause s.player) s.pending refl a;
}

stop-IsValid : (s : System) → IsValid s → IsValid (record s { player = stop s.player })
unfolding stop
stop-IsValid s v = record {
  player = silent-IsHeld (stop s.player) refl refl;
  allowed = AllAllowed-bump s.player (stop s.player) s.pending refl v.allowed;
}

lose_focus-IsValid :
    (owner : ℕ) (s : System)
    → owner ≢ 0
    → IsValid s
    → IsValid (record s { player = lose_focus owner s.player })
unfolding lose_focus
lose_focus-IsValid owner s other v =
    elim (Bool-cases (is_own (loser s.player.focus.active_lease owner))) [
      | inl lost ↦
          rw (lost, lose_focus)
            (pause-IsValid
              (record s {
                player = record s.player { focus = (claim_tts_audio_focus owner s.player.focus).0 };
              })
              v.allowed)
      | inr kept ↦
          rw (kept, lose_focus)
            (record {
              player = record {
                wanted = v.player.wanted;
                held = λ w.
                    let idle = kept_unwanted owner s.player other v.player kept in
                    absurd (ground (arith, idle, w));
              };
              allowed = v.allowed;
            })
    ]

Event-IsValid : {s t : System} → Event s t → IsValid s → IsValid t
Event-IsValid {s = s} (speaks bytes ssml marks weight continuous now) v =
    begin_speak-IsValid bytes ssml marks weight continuous now s v
Event-IsValid {s = s} (prefetched before p after ok place) v =
    continue-IsValid s p.request_id (after_prefetch p ok s.player) before (awaits_prefetch p) after
      place refl
      (after_prefetch-keeps (SameRequest s.player.playback_request_id s.player.wants_playback)
        (SameRequest-IsClosed s.player.playback_request_id s.player.wants_playback) p ok s.player
        (refl, refl))
      (after_prefetch-IsFor p ok s.player)
      (after_prefetch-keeps IsHeld IsHeld-IsClosed p ok s.player v.player) v
Event-IsValid {s = s} (fetched before p c after answer place) v =
    continue-IsValid s p.request_id (after_fetch p c answer s.player) before (fetches p c) after
      place refl
      (after_fetch-keeps (SameRequest s.player.playback_request_id s.player.wants_playback)
        (SameRequest-IsClosed s.player.playback_request_id s.player.wants_playback) p c answer
        s.player (refl, refl))
      (after_fetch-IsFor p c answer s.player)
      (after_fetch-keeps IsHeld IsHeld-IsClosed p c answer s.player v.player) v
Event-IsValid {s = s} (played before r after ok place) v =
    continue-IsValid s r (after_play r ok s.player) before (plays r) after place refl
      (after_play-SameRequest r ok s.player).0 (after_play-SameRequest r ok s.player).1
      (after_play-IsHeld r ok s.player (last_wants s before (plays r) after place v) v.player) v
Event-IsValid {s = s} calls_resume v = begin_resume-IsValid s v
Event-IsValid {s = s} (resumed before r after ok place) v =
    continue-IsValid s r (after_resume r ok s.player) before (resumes r) after place refl
      (after_resume-SameRequest r ok s.player).0 (after_resume-SameRequest r ok s.player).1
      (after_resume-IsHeld r ok s.player v.player) v
Event-IsValid {s = s} pauses v = pause-IsValid s v.allowed
Event-IsValid {s = s} stops v = stop-IsValid s v
Event-IsValid {s = s} (begins_session now) v =
    IsQuieter-IsValid s _ (unfold begin_session in (inl, refl, refl, refl, refl)) v
Event-IsValid {s = s} (fires_play u t d on) v =
    IsQuieter-IsValid s (on_play u t d s.player) (handlers-IsQuieter u 0 t d s.player).0 v
Event-IsValid {s = s} (fires_ended u now on) v =
    IsQuieter-IsValid s (on_ended u now s.player) (handlers-IsQuieter u 0 now 0 s.player).1 v
Event-IsValid {s = s} (fires_error u on) v =
    IsQuieter-IsValid s (on_error u s.player) (handlers-IsQuieter u 0 0 0 s.player).2 v
Event-IsValid {s = s} (fires_pause u on) v =
    IsQuieter-IsValid s (on_pause u s.player) (handlers-IsQuieter u 0 0 0 s.player).3 v
Event-IsValid {s = s} (fires_time_update u a t d on) v =
    IsQuieter-IsValid s (on_time_update u a t d s.player) (handlers-IsQuieter u a t d s.player).4 v
Event-IsValid {s = s} (browser e e' there same) v =
    IsQuieter-IsValid s (record s.player { audio = some e' }) (inl, refl, refl, refl, refl) v
Event-IsValid {s = s} (caches cache preloads) v =
    IsQuieter-IsValid s (record s.player { audio_cache = cache; preloads = preloads })
      (inl, refl, refl, refl, refl) v
Event-IsValid {s = s} (others_claim owner other) v = lose_focus-IsValid owner s other v
Event-IsValid {s = s} (others_release l other) v = record {
  player = record {
    wanted = v.player.wanted;
    held =
        λ w. release_others l s.player.release_audio_focus s.player.focus other (v.player.held w);
  };
  allowed = v.allowed;
}

Reach-IsValid : {s : System} → Reach s → IsValid s
unfolding initial
Reach-IsValid start = record { player = silent-IsHeld initial refl refl; allowed = tt }
Reach-IsValid (next before e) = Event-IsValid e (Reach-IsValid before)

-- Whatever calls, answers, handlers and changes of focus follow each other: while the player says that
-- it plays, playback is wanted and the player has the audio focus. So when another owner takes the
-- focus, or after a pause, no late answer brings back the state `playing`.
pub playing_has_focus :
    {s : System}
    → Reach s
    → is_playing s.player.state ≡ true
    → (s.player.wants_playback ≡ true) × HoldsFocus s.player.release_audio_focus s.player.focus
playing_has_focus r h = let v = (Reach-IsValid r).player in (v.wanted h, v.held (v.wanted h))
