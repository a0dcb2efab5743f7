-- ===== src/Tts/Player/Handlers.antt =====
-- The handlers that `playAudio` of `BackendTTS` (frontend/src/lib/tts.ts) installs. Each closed over
-- the URL of its source, the first argument here.
use z_reader.Prelude.{
  ℕ, ◌+◌, ◌-◌, ◌*◌, ◌≤◌, ◌<◌, ◌≡◌, ◌⊎◌, arith, max, min, Bool, true, false, not, ◌&&◌, ◌||◌, some,
  if◌then◌else◌, ltb, leb, ◌==◌,
}
use z_reader.Tts.Player.{
  playing, paused, is_playing, Player, is_url, pause_element, is_ended_element, is_paused_element,
}
use z_reader.Tts.Player.Marks.{update_current_mark}

unfoldable pub on_play : ℕ → ℕ → ℕ → Player → Player
unfolding update_current_mark
on_play u time duration s =
    if not (is_url u s.audio_url)
    then s
    else if not s.wants_playback
    then record s { audio = pause_element s.audio }
    else update_current_mark time duration (record s { replacing_source = false; state = playing })

unfoldable pub on_ended : ℕ → ℕ → Player → Player
on_ended u now s =
    if not (is_url u s.audio_url) || not (is_ended_element s.audio) then s else record s {
      last_ended_at = some now;
      preload_triggered = false;
      on_end = if is_playing s.state then s.on_end + 1 else s.on_end;
    }

unfoldable pub on_error : ℕ → Player → Player
on_error u s =
    if not (is_url u s.audio_url) then s else record s { replacing_source = false; state = paused }

unfoldable pub on_pause : ℕ → Player → Player
on_pause u s =
    if not (is_url u s.audio_url)
      || (s.replacing_source || (not (is_paused_element s.audio) || is_ended_element s.audio))
    then s
    else if is_playing s.state
    then record s { state = paused }
    else s

-- `AdaptivePreloadConfig`: the threshold in hundredths of the duration, the rest in milliseconds.
pub record AdaptivePreloadConfig : Type 0 where
  pub progress_threshold : ℕ
  pub remaining : ℕ

-- `getAdaptivePreloadConfig`, with the average latency in milliseconds.
unfoldable pub get_adaptive_preload_config : ℕ → ℕ → ℕ → AdaptivePreloadConfig
get_adaptive_preload_config average_latency misses duration =
    let by_latency : AdaptivePreloadConfig =
      if ltb 5000 average_latency
      then record { progress_threshold = 12; remaining = 20000 }
      else if ltb 2500 average_latency
      then record { progress_threshold = 20; remaining = 15000 }
      else if ltb 0 average_latency && (ltb average_latency 1000 && (misses == 0))
      then record { progress_threshold = 42; remaining = 8000 }
      else record { progress_threshold = 28; remaining = 12000 } in
    let by_misses : AdaptivePreloadConfig =
      if leb 2 misses
      then record {
        progress_threshold = min by_latency.progress_threshold 16;
        remaining = max by_latency.remaining 18000;
      }
      else by_latency in
    if ltb 0 duration && leb duration 18000
    then record { progress_threshold = 5; remaining = max 1000 (duration - 1000) }
    else by_misses

unfoldable pub is_due : AdaptivePreloadConfig → ℕ → ℕ → Bool
is_due config time duration =
    ltb 0 duration
    && (leb (duration * config.progress_threshold) (100 * time)
        || leb duration (time + config.remaining))

unfoldable pub on_time_update : ℕ → ℕ → ℕ → ℕ → Player → Player
unfolding update_current_mark is_due get_adaptive_preload_config
on_time_update u average_latency time duration s =
    if not (is_url u s.audio_url)
    then s
    else let s' = update_current_mark time duration s in
      let config =
        get_adaptive_preload_config average_latency s.consecutive_preload_misses duration in
      if not s.preload_triggered && is_due config time duration
      then record s' { preload_triggered = true; on_preload_trigger = s.on_preload_trigger + 1 }
      else s'

-- For a known duration and a time within it: a preload is due at the end at the latest, and for a
-- text of more than eighteen seconds it is due only after 12 percent of it, or with at most twenty
-- seconds left.
pub is_due_bounds :
    (average misses time duration : ℕ)
    → 0 < duration
    → time ≤ duration
    → (is_due (get_adaptive_preload_config average misses duration) duration duration ≡ true)
      × (18000 < duration
          → is_due (get_adaptive_preload_config average misses duration) time duration ≡ true
          → (duration * 12 ≤ 100 * time) ⊎ (duration ≤ time + 20000))
unfolding is_due get_adaptive_preload_config
is_due_bounds average misses time duration pos h = (ground arith, λ long due. ground arith)
