-- ===== src/Tts/Buffer.antt =====
-- `TTSSpeechBuffer` of frontend/src/lib/tts-batch.ts: the sentences read ahead, cut into slices that a
-- request can carry. What the DOM and the regular expressions tell of a sentence are fields of
-- `Sentence`. Places in a text count code points; an offset counts UTF-16 units. Times are
-- milliseconds at the base rate; `speed` is `speechSpeed(rate)` in hundredths, so that a time `t` takes
-- `t * 100 / speed`. Marks and words are left out.
pub mod Slices
pub mod Reading
pub mod Adjacent
mod Tests
use z_reader.Prelude.{
  ℕ, zero, suc, ◌+◌, ◌-◌, ◌*◌, min, max, Bool, true, false, not, ◌&&◌, ◌||◌, Option, none, some,
  List, [], ◌∷◌, ◌++◌, if◌then◌else◌, ltb, leb, length, map, drop,
}
use z_reader.Tts.Batch.{first_ending_after}

-- An element with a pronunciation of its own; `override` is the longest of the times that its
-- attributes give.
pub record Atomic : Type 0 where
  pub start : ℕ
  pub end_ : ℕ
  pub override : ℕ

-- `lengths` are the UTF-16 lengths of the code points, `estimate` is `estimateTTSDuration` of the text
-- between two offsets, `bytes` is `conservativeBytes` of the slice between two offsets (at a speed and a
-- budget) and `whole_bytes` that of the sentence as it came.
pub record Sentence : Type 0 where
  pub lengths : List ℕ
  pub estimate : ℕ → ℕ → ℕ
  pub bytes : ℕ → ℕ → ℕ → ℕ → ℕ
  pub whole_bytes : ℕ
  pub atomics : List Atomic
  pub ssml_bytes : ℕ
  pub is_skippable : Bool
  pub has_pronunciation : Bool

pub record Settings : Type 0 where
  pub speed : ℕ
  pub voice_bytes : ℕ

-- `start` and `end_` are the places of the slice; `raw_bytes` is filled in at once.
pub record BufferedSentence : Type 0 where
  pub sentence : Sentence
  pub source_index : ℕ
  pub start : ℕ
  pub end_ : ℕ
  pub raw_bytes : ℕ
  pub duration_at_base_rate : ℕ

pub record PendingSentence : Type 0 where
  pub sentence : Sentence
  pub position : ℕ
  pub source_index : ℕ

-- What a wait for the next sentence ends with; `disposes` if `dispose` was called meanwhile.
pub data Answer : Type 0 where
  gives : Sentence → Answer
  fails disposes : Answer

-- `source` is what the iterator has left.
pub record SpeechBuffer : Type 0 where
  pub source : List Answer
  pub sentences : List BufferedSentence
  pub base_index : ℕ
  pub source_index : ℕ
  pub pending : Option PendingSentence
  pub is_done : Bool
  pub is_disposed : Bool

abbrev pub max_chunk_bytes : ℕ
max_chunk_bytes = 30720

abbrev pub envelope_bytes : ℕ
envelope_bytes = 1024

abbrev pub max_slice_millis : ℕ
max_slice_millis = 6000

abbrev pub sentence_pause_millis : ℕ
sentence_pause_millis = 240

-- Whether a time at the base rate takes at most `budget` at a speed.
abbrev pub fits_in : ℕ → ℕ → ℕ → Bool
fits_in speed budget time = leb (time * 100) (budget * speed)

unfoldable pub new : List Answer → SpeechBuffer
new source = record {
  source = source;
  sentences = [];
  base_index = 0;
  source_index = 0;
  pending = none;
  is_done = false;
  is_disposed = false;
}

unfoldable pub dispose : SpeechBuffer → SpeechBuffer
dispose b = record b { source = []; sentences = []; pending = none; is_disposed = true }

-- `offsets[n]`
unfoldable pub offset_at : List ℕ → ℕ → ℕ
offset_at lengths zero = 0
offset_at [] (suc n) = 0
offset_at (l ∷ ls) (suc n) = l + offset_at ls n

abbrev pub is_intact : ℕ → Settings → Sentence → Bool
is_intact target settings s =
    fits_in settings.speed (min max_slice_millis target)
      (s.estimate 0 (offset_at s.lengths (length s.lengths)))
    && (leb s.ssml_bytes 512 && not s.has_pronunciation)

unfoldable pub begin_sentence : ℕ → Settings → Sentence → SpeechBuffer → SpeechBuffer
unfolding offset_at
begin_sentence target settings s b =
    if is_intact target settings s
    then record b {
      source_index = b.source_index + 1;
      sentences =
          b.sentences
          ++ record {
            sentence = s;
            source_index = b.source_index;
            start = 0;
            end_ = length s.lengths;
            raw_bytes = s.whole_bytes;
            duration_at_base_rate = s.estimate 0 (offset_at s.lengths (length s.lengths));
          }
            ∷ [];
    }
    else record b {
      source_index = b.source_index + 1;
      pending = some (record { sentence = s; position = 0; source_index = b.source_index });
    }
