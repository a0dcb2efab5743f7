-- ===== src/Tts/Player/Events/Held.antt =====
-- What the steps of the player (frontend/src/lib/tts.ts) do to its wish to play, its state and its
-- lease of the audio focus.
use z_reader.Prelude.{
  ℕ, ◌≡◌, ◌≢◌, inl, inr, ◌⊎◌, refl, String, Bool, true, false, not, ◌||◌, Option, none, some, ◌==◌,
  arith, Bool-cases, Option-cases,
}
use z_reader.Tts.AudioFocus.{Focus, Lease, release, loser}
use z_reader.Tts.Player.{Player, is_playing, after_resume}
use z_reader.Tts.Player.Marks.{update_current_mark}
use z_reader.Tts.Player.Speak.{
  fail, play_audio, prepare, take_audio, begin_fetch, look_up, begin_request, after_play,
}
use z_reader.Tts.Player.Speak.Keeps.{IsClosed}
use z_reader.Tts.Player.Handlers.{on_play, on_ended, on_error, on_pause, on_time_update}
use z_reader.Tts.Player.Events.{is_own, is_mine}
use z_reader.Tts.Player.Events.Requests.{SameRequest, IsFor}

-- The lease whose release the player keeps is the active one, and the player's own.
abbrev pub HoldsFocus : Option Lease → Focus → Type 0
HoldsFocus none f = ⊥
HoldsFocus (some l) f = (f.active_lease ≡ some l) × (l.owner ≡ 0)

pub record IsHeld (s : Player) : Type 0 where
  pub wanted : is_playing s.state ≡ true → s.wants_playback ≡ true
  pub held : s.wants_playback ≡ true → HoldsFocus s.release_audio_focus s.focus

fail-IsHeld : (r : ℕ) (s : Player) → IsHeld s → IsHeld (fail r s).0
unfolding fail
fail-IsHeld r s v = elim (Bool-cases (s.playback_request_id == r)) [
  | inl current ↦
      rw (current, fail) (record { wanted = λ h. absurd (ground (arith, h)); held = v.held })
  | inr stale ↦ rw (stale, fail) v
]

pub IsHeld-IsClosed : IsClosed IsHeld
unfolding prepare take_audio begin_fetch look_up play_audio
IsHeld-IsClosed = record {
  fails = fail-IsHeld;
  plays_audio = λ r blob s v. record { wanted = v.wanted; held = v.held };
  prepares = λ p blob s v. record { wanted = v.wanted; held = v.held };
  takes = λ p s v. record { wanted = v.wanted; held = v.held };
  begins_fetch = λ c s v. record { wanted = v.wanted; held = v.held };
  looks_up = λ ssml s v. record { wanted = v.wanted; held = v.held };
  hits = λ s v. record { wanted = v.wanted; held = v.held };
  forgets = λ c s v. record { wanted = v.wanted; held = v.held };
}

-- An operation that says `playing` only if it was so or playback is wanted, and leaves the requests and
-- the focus alone.
abbrev pub IsQuieter : Player → Player → Type 0
IsQuieter s t =
    (is_playing t.state ≡ true → (is_playing s.state ≡ true) ⊎ (s.wants_playback ≡ true))
    × (t.wants_playback ≡ s.wants_playback)
    × (t.playback_request_id ≡ s.playback_request_id)
    × (t.release_audio_focus ≡ s.release_audio_focus)
    × (t.focus ≡ s.focus)

pub after_play-IsHeld :
    (r : ℕ) (ok : Bool) (s : Player)
    → (s.playback_request_id ≡ r → s.wants_playback ≡ true)
    → IsHeld s
    → IsHeld (after_play r ok s).0
unfolding after_play
after_play-IsHeld r false s w v = fail-IsHeld r s v
after_play-IsHeld r true s w v = elim (Bool-cases (s.playback_request_id == r)) [
  | inr stale ↦ rw (stale, after_play) v
  | inl last ↦
      rw (last, after_play) (record { wanted = λ h. w (ground (arith, last)); held = v.held })
]

pub after_play-SameRequest :
    (r : ℕ) (ok : Bool) (s : Player)
    → SameRequest s.playback_request_id s.wants_playback (after_play r ok s).0
      × IsFor r (after_play r ok s).1
unfolding after_play fail
after_play-SameRequest r ok s = ground arith

pub after_resume-IsHeld :
    (r : ℕ) (ok : Bool) (s : Player) → IsHeld s → IsHeld (after_resume r ok s).0
unfolding after_resume
after_resume-IsHeld r false s v = v
after_resume-IsHeld r true s v =
    elim (Bool-cases (not (s.playback_request_id == r) || not s.wants_playback)) [
      | inl stale ↦ rw (stale, after_resume) v
      | inr on ↦ rw (on, after_resume) (record { wanted = λ h. ground (arith, on); held = v.held })
    ]

pub after_resume-SameRequest :
    (r : ℕ) (ok : Bool) (s : Player)
    → SameRequest s.playback_request_id s.wants_playback (after_resume r ok s).0
      × IsFor r (after_resume r ok s).1
unfolding after_resume
after_resume-SameRequest r ok s = ground arith

pub begin_request-IsHeld :
    (ssml : String) (now : ℕ) (s : Player) → IsHeld (begin_request ssml now s)
unfolding begin_request
begin_request-IsHeld ssml now s = record { wanted = λ h. refl; held = λ h. (refl, refl) }

-- A state in which playback is not wanted and the state is not `playing`.
pub silent-IsHeld : (s : Player) → s.wants_playback ≡ false → is_playing s.state ≡ false → IsHeld s
silent-IsHeld s w p = record {
  wanted = λ h. absurd (ground (arith, p));
  held = λ h. absurd (ground (arith, w));
}

-- The player has the focus, so another owner takes it from the player.
pub kept_unwanted :
    (owner : ℕ) (s : Player)
    → owner ≢ 0
    → IsHeld s
    → is_own (loser s.focus.active_lease owner) ≡ false
    → s.wants_playback ≡ false
kept_unwanted owner s other v kept = elim (Bool-cases s.wants_playback) [
  | inr idle ↦ idle
  | inl wanted ↦ elim (Option-cases s.release_audio_focus) [
    | inl nothing ↦ absurd (rw nothing at (v.held wanted))
    | inr (l, mine) ↦
        let (active, own) : (s.focus.active_lease ≡ some l) × (l.owner ≡ 0) =
          rw mine at (v.held wanted) in
        absurd (other (ground (arith, active, own, kept)))
  ]
]

-- The release of a lease that is not the player's leaves the player's lease.
pub release_others :
    (l : Lease) (mine : Option Lease) (f : Focus)
    → is_mine l mine ≡ false
    → HoldsFocus mine f
    → HoldsFocus mine (release l f)
unfolding release
release_others l none f other h = absurd h
release_others l (some m) f other h = (ground (arith, h, other), h.1)

pub handlers-IsQuieter :
    (u a t d : ℕ) (s : Player)
    → IsQuieter s (on_play u t d s)
      × IsQuieter s (on_ended u t s)
      × IsQuieter s (on_error u s)
      × IsQuieter s (on_pause u s)
      × IsQuieter s (on_time_update u a t d s)
unfolding on_play on_ended on_error on_pause on_time_update update_current_mark
handlers-IsQuieter u a t d s =
    (ground arith, ground arith, ground arith, ground arith, ground arith)
