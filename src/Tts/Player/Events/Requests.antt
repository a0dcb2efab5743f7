-- ===== src/Tts/Player/Events/Requests.antt =====
-- The request ids of what waits in the player (frontend/src/lib/tts.ts): which are stale, and whose
-- waits a method leaves.
use z_reader.Prelude.{
  ℕ, ◌+◌, ◌≤◌, ◌≡◌, inl, inr, refl, Bool, true, false, not, ◌&&◌, Option, none, some, List, [], ◌∷◌,
  ◌==◌, arith, All, All-append, All-map, Bool-cases, Option-cases, is_some,
}
use z_reader.Tts.Preload.{take_preloaded}
use z_reader.JsMap
use z_reader.Tts.Player.{Player, Speech, Pending, request_of, Progress, waits, finished, threw}
use z_reader.Tts.Player.Speak.{
  fail, play_audio, prepare, with_blob, take_audio, begin_fetch, find_audio, look_up, find_cached,
  after_prefetch, after_fetch, either, blob_of,
}
use z_reader.Tts.Player.Speak.Keeps.{IsClosed}
use z_reader.Tts.Player.Events.{pending_of}

-- A request that may still decide the state is the last one, and playback is wanted.
abbrev pub IsAllowed : ℕ → Bool → ℕ → Type 0
IsAllowed id wants r = (r ≤ id) × (r ≡ id → wants ≡ true)

abbrev pub AllAllowed : Player → List Pending → Type 0
AllAllowed s ps = All (λ p. IsAllowed s.playback_request_id s.wants_playback (request_of p)) ps

abbrev pub SameRequest : ℕ → Bool → Player → Type 0
SameRequest n w s = (s.playback_request_id ≡ n) × (s.wants_playback ≡ w)

pub AllAllowed-same :
    (s t : Player) (ps : List Pending)
    → SameRequest s.playback_request_id s.wants_playback t
    → AllAllowed s ps
    → AllAllowed t ps
AllAllowed-same s t ps e a = All-map _ _ ps (λ p h. ground (arith, e, h)) a

-- A new request makes the earlier ones stale.
pub AllAllowed-bump :
    (s t : Player) (ps : List Pending)
    → t.playback_request_id ≡ s.playback_request_id + 1
    → AllAllowed s ps
    → AllAllowed t ps
AllAllowed-bump s t ps e a =
    All-map _ _ ps (λ p h. (omega (arith, e, h.0), λ q. absurd (omega (arith, e, h.0, q)))) a

-- What a method waits for belongs to its own request.
abbrev pub IsFor : ℕ → Progress → Type 0
IsFor r (waits p) = request_of p ≡ r
IsFor r finished = Unit
IsFor r threw = Unit

pub AllAllowed-then :
    (s : Player) (r : ℕ) (g : Progress) (ps : List Pending)
    → IsAllowed s.playback_request_id s.wants_playback r
    → IsFor r g
    → AllAllowed s ps
    → AllAllowed s (pending_of g ps)
AllAllowed-then s r (waits p) ps ok for a = All-append _ ps (p ∷ []) a (ground (arith, for, ok), tt)
AllAllowed-then s r finished ps ok for a = a
AllAllowed-then s r threw ps ok for a = a

with_blob-IsFor : (p : Speech) (blob : ℕ) (s : Player) → IsFor p.request_id (with_blob p blob s).1
unfolding with_blob fail play_audio
with_blob-IsFor p blob s = ground arith

find_audio-IsFor :
    (p : Speech) (cached : Option ℕ) (s : Player) → IsFor p.request_id (find_audio p cached s).1
unfolding find_audio
find_audio-IsFor p cached s =
    elim (Option-cases
      (either cached (blob_of (take_preloaded p.ssml s.preloads.preloaded_queue).1))) [
        | inl missing ↦ rw (missing, find_audio) refl
        | inr (b, found) ↦ rw (found, find_audio) (with_blob-IsFor p b _)
      ]

pub find_cached-IsFor : (p : Speech) (s : Player) → IsFor p.request_id (find_cached p s).1
unfolding find_cached
find_cached-IsFor p s =
    elim (Bool-cases (
      not (is_some (look_up p.ssml s).1)
      && JsMap.has p.ssml (look_up p.ssml s).0.preloads.preload_promises)) [
        | inl waiting ↦ rw (waiting, find_cached) refl
        | inr on ↦
            rw (on, find_cached) (find_audio-IsFor p (look_up p.ssml s).1 (look_up p.ssml s).0)
      ]

pub after_prefetch-IsFor :
    (p : Speech) (ok : Bool) (s : Player) → IsFor p.request_id (after_prefetch p ok s).1
unfolding after_prefetch fail
after_prefetch-IsFor p false s = ground arith
after_prefetch-IsFor p true s = elim (Bool-cases (s.playback_request_id == p.request_id)) [
  | inr stale ↦ rw (stale, after_prefetch) tt
  | inl current ↦ rw (current, after_prefetch) (find_audio-IsFor p none s)
]

pub after_fetch-IsFor :
    (p : Speech) (c : ℕ) (answer : Option ℕ) (s : Player)
    → IsFor p.request_id (after_fetch p c answer s).1
unfolding after_fetch fail
after_fetch-IsFor p c none s = ground arith
after_fetch-IsFor p c (some b) s = with_blob-IsFor p b _

pub SameRequest-IsClosed : (n : ℕ) (w : Bool) → IsClosed (SameRequest n w)
unfolding prepare take_audio begin_fetch look_up fail play_audio
SameRequest-IsClosed n w = record {
  fails = λ r s v. ground (arith, v);
  plays_audio = λ r blob s v. v;
  prepares = λ p blob s v. v;
  takes = λ p s v. v;
  begins_fetch = λ c s v. v;
  looks_up = λ ssml s v. v;
  hits = λ s v. v;
  forgets = λ c s v. v;
}
