-- ===== src/Tts/Player/Speak/Keeps.antt =====
-- What the steps of `speak` (frontend/src/lib/tts.ts) keep, the chain from wait to wait keeps.
use z_reader.Prelude.{
  ℕ, inl, inr, String, Bool, true, false, not, ◌&&◌, Option, none, some, ◌==◌, is_some, Bool-cases,
  Option-cases,
}
use z_reader.JsMap
use z_reader.Tts.Preload.{take_preloaded}
use z_reader.Tts.Player.{Player, Speech}
use z_reader.Tts.Player.Speak.{
  fail, play_audio, prepare, with_blob, take_audio, begin_fetch, find_audio, look_up, find_cached,
  after_prefetch, after_fetch, either, blob_of, forget_controller,
}

pub record IsClosed (P : Player → Type 0) : Type 0 where
  pub fails : (r : ℕ) (s : Player) → P s → P (fail r s).0
  pub plays_audio : (r blob : ℕ) (s : Player) → P s → P (play_audio r blob s).0
  pub prepares : (p : Speech) (blob : ℕ) (s : Player) → P s → P (prepare p blob s)
  pub takes : (p : Speech) (s : Player) → P s → P (take_audio p s)
  pub begins_fetch : (c : Bool) (s : Player) → P s → P (begin_fetch c s)
  pub looks_up : (ssml : String) (s : Player) → P s → P (look_up ssml s).0
  pub hits : (s : Player) → P s → P (record s { consecutive_preload_misses = 0 })
  pub forgets : (c : Option ℕ) (s : Player) → P s → P (record s { abort_controller = c })

module _ (P : Player → Type 0) (c : IsClosed P) where
  with_blob-keeps : (p : Speech) (blob : ℕ) (s : Player) → P s → P (with_blob p blob s).0
  unfolding with_blob
  with_blob-keeps p blob s v = elim (Bool-cases (s.playback_request_id == p.request_id)) [
    | inr stale ↦ rw (stale, with_blob) v
    | inl current ↦
        rw (current, with_blob)
          (c.plays_audio p.request_id blob (prepare p blob s) (c.prepares p blob s v))
  ]

  find_audio-keeps :
      (p : Speech) (cached : Option ℕ) (s : Player) → P s → P (find_audio p cached s).0
  unfolding find_audio
  find_audio-keeps p cached s v =
      elim (Option-cases
        (either cached (blob_of (take_preloaded p.ssml s.preloads.preloaded_queue).1))) [
          | inl missing ↦
              rw (missing, find_audio)
                (c.begins_fetch p.is_continuous (take_audio p s) (c.takes p s v))
          | inr (b, found) ↦
              rw (found, find_audio)
                (with_blob-keeps p b _ (c.hits (take_audio p s) (c.takes p s v)))
        ]

  pub find_cached-keeps : (p : Speech) (s : Player) → P s → P (find_cached p s).0
  unfolding find_cached
  find_cached-keeps p s v =
      let u = c.looks_up p.ssml s v in
      elim (Bool-cases (
        not (is_some (look_up p.ssml s).1)
        && JsMap.has p.ssml (look_up p.ssml s).0.preloads.preload_promises)) [
          | inl waiting ↦ rw (waiting, find_cached) u
          | inr on ↦
              rw (on, find_cached) (find_audio-keeps p (look_up p.ssml s).1 (look_up p.ssml s).0 u)
        ]

  pub after_prefetch-keeps :
      (p : Speech) (resolved : Bool) (s : Player) → P s → P (after_prefetch p resolved s).0
  unfolding after_prefetch
  after_prefetch-keeps p false s v = c.fails p.request_id s v
  after_prefetch-keeps p true s v = elim (Bool-cases (s.playback_request_id == p.request_id)) [
    | inr stale ↦ rw (stale, after_prefetch) v
    | inl current ↦ rw (current, after_prefetch) (find_audio-keeps p none s v)
  ]

  pub after_fetch-keeps :
      (p : Speech) (k : ℕ) (answer : Option ℕ) (s : Player) → P s → P (after_fetch p k answer s).0
  unfolding after_fetch
  after_fetch-keeps p k none s v =
      c.fails p.request_id _ (c.forgets (forget_controller k s.abort_controller) s v)
  after_fetch-keeps p k (some blob) s v =
      with_blob-keeps p blob _ (c.forgets (forget_controller k s.abort_controller) s v)
