-- ===== src/Tts/SpeechQueue.antt =====
-- frontend/src/lib/tts-queue.ts: the queue of segments to read aloud. `getTextFromSSML`,
-- `isSkippableTTSText`, `createTTSQueueSegmentId` and the SSML builder that the caller passes are
-- arguments.
pub mod Rebuild
use z_reader.Prelude.{
  ℕ, zero, suc, ◌+◌, String, str_eq, Bool, true, false, not, ◌&&◌, ◌||◌, Option, none, some, List,
  [], ◌∷◌, ◌++◌, map, if◌then◌else◌, length, filter, take, any,
}

pub data SegmentState : Type 0 where
  idle queued loading ready playing failed skipped : SegmentState

pub data Source : Type 0 where
  current lookahead : Source

-- `TTSQueueSegment`
pub record Segment : Type 0 where
  pub id : String
  pub index : ℕ
  pub source : Source
  pub ssml : String
  pub enhanced_ssml : String
  pub fallback_ssml : String
  pub text : String
  pub state : SegmentState
  pub created_at : ℕ

-- The functions that the queue calls, and the clock.
pub record Speech : Type 0 where
  pub text_of : String → String
  pub is_skippable : String → Bool
  pub build_ssml : String → String
  pub segment_id : String → ℕ → String
  pub now : ℕ

abbrev pub state_of : Source → SegmentState
state_of current = idle
state_of lookahead = queued

abbrev pub lookahead_count : ℕ
lookahead_count = 6

-- The segments before the loop.
unfoldable pub raw_segments : Option String → List String → List (String × Source)
raw_segments cur ahead =
    let rest = map (λ s. (s, lookahead)) (take lookahead_count ahead) in
    elim cur [ none ↦ rest | some ssml ↦ if str_eq ssml "" then rest else (ssml, current) ∷ rest ]

module _ (f : Speech) where
  unfoldable pub is_speakable_ssml : Option String → Bool
  is_speakable_ssml none = false
  is_speakable_ssml (some ssml) =
      if str_eq ssml ""
      then false
      else not (str_eq (f.text_of ssml) "") && not (f.is_skippable (f.text_of ssml))

  unfoldable pub create_tts_queue_segment : String → ℕ → Source → Option Segment
  create_tts_queue_segment ssml index source =
      if str_eq (f.text_of ssml) "" || f.is_skippable (f.text_of ssml)
      then none
      else some (record {
        id = f.segment_id (f.build_ssml ssml) index;
        index = index;
        source = source;
        ssml = ssml;
        enhanced_ssml = f.build_ssml ssml;
        fallback_ssml = f.build_ssml (f.text_of ssml);
        text = f.text_of ssml;
        state = state_of source;
        created_at = f.now;
      })

  -- One round of the loop, on the texts that were seen and the queue.
  unfoldable pub add_segment :
      String × Source → List String × List Segment → List String × List Segment
  unfolding create_tts_queue_segment
  add_segment raw (seen, queue) = elim (create_tts_queue_segment raw.0 (length queue) raw.1) [
    | none ↦ (seen, queue)
    | some s ↦
        if any (λ t. str_eq t s.enhanced_ssml) seen
        then (seen, queue)
        else (s.enhanced_ssml ∷ seen, queue ++ s ∷ [])
  ]

  unfoldable pub add_segments :
      List (String × Source) → List String × List Segment → List String × List Segment
  unfolding add_segment
  add_segments [] r = r
  add_segments (raw ∷ raws) r = add_segments raws (add_segment raw r)

  unfoldable pub rebuild_tts_speech_queue : Option String → List String → List Segment
  unfolding add_segments raw_segments
  rebuild_tts_speech_queue cur ahead = (add_segments (raw_segments cur ahead) ([], [])).1

unfoldable pub update_tts_queue_segment_state : List Segment → String → SegmentState → List Segment
update_tts_queue_segment_state queue id next =
    map (λ (s : Segment). if str_eq s.id id then record s { state = next } else s) queue

abbrev pub is_relevant : SegmentState → Bool
is_relevant failed = false
is_relevant skipped = false
is_relevant _ = true

unfoldable pub get_relevant_queue_ssmls : List Segment → List String
get_relevant_queue_ssmls queue =
    map (λ (s : Segment). s.enhanced_ssml) (filter (λ s. is_relevant s.state) queue)

abbrev pub is_ready : SegmentState → Bool
is_ready ready = true
is_ready _ = false

unfoldable pub count_ready_queue_segments : List Segment → ℕ
count_ready_queue_segments queue = length (filter (λ (s : Segment). is_ready s.state) queue)
