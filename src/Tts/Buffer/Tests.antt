-- ===== src/Tts/Buffer/Tests.antt =====
-- The buffer's theorems at a source of a short sentence, an empty line and a long sentence of a hundred
-- code points, which is read in slices of twenty-four.
use z_reader.Prelude.{
  ℕ, zero, suc, ◌-◌, ◌*◌, ◌≢◌, refl, Bool, true, false, none, List, [], ◌∷◌, arith,
}
use z_reader.Tts.Buffer.{Sentence, Settings, BufferedSentence, SpeechBuffer, gives}
use z_reader.Tts.Buffer.Reading.{unfinished, read_chunk}
use z_reader.Tts.Buffer.Reading.Invariant.{IsValid, read_chunk-IsValid}
use z_reader.Tts.Buffer.Reading.Chunks.{IsChunk, read_chunk-IsChunk}
use z_reader.Tts.Buffer.Reading.Finishes.{read_chunk_finishes}
use z_reader.Tts.Buffer.Adjacent.{previous_index}
use z_reader.Tts.Buffer.Adjacent.Previous.{IsPrevious, previous_index-IsPrevious}

abbrev units : ℕ → List ℕ
units zero = []
units (suc n) = 1 ∷ units n

-- A quarter of a second and ten bytes for each code point.
abbrev sentence : ℕ → ℕ → Bool → Sentence
sentence n ssml skips = record {
  lengths = units n;
  estimate = λ a b. 250 * (b - a);
  bytes = λ speed budget a b. 10 * (b - a);
  whole_bytes = 10 * n;
  atomics = [];
  ssml_bytes = ssml;
  is_skippable = skips;
  has_pronunciation = false;
}

abbrev settings : Settings
settings = record { speed = 100; voice_bytes = 20 }

abbrev book : SpeechBuffer
book = record {
  source =
      gives (sentence 4 100 false)
      ∷ gives (sentence 0 10 true)
      ∷ gives (sentence 100 900 false)
      ∷ [];
  sentences = [];
  base_index = 0;
  source_index = 0;
  pending = none;
  is_done = false;
  is_disposed = false;
}

book-IsValid : IsValid book
book-IsValid = record {
  joined = tt;
  room = tt;
  texts = (λ e. omega arith, (λ e. absurd (ground (arith, e)), (λ e. omega arith, tt)));
}

abbrev size : List BufferedSentence → ℕ
size es = 2000

read_chunk-IsValid_example : IsValid (read_chunk 120 size 0 12000 settings book).0
read_chunk-IsValid_example = read_chunk-IsValid 120 size 0 12000 settings book book-IsValid

read_chunk_finishes_example : (read_chunk 120 size 0 12000 settings book).1 ≢ unfinished
read_chunk_finishes_example =
    read_chunk_finishes 120 size 0 12000 settings book (omega arith) book-IsValid

-- A chunk of the short sentence alone.
abbrev first_entry : BufferedSentence
first_entry = record {
  sentence = sentence 4 100 false;
  source_index = 0;
  start = 0;
  end_ = 4;
  raw_bytes = 40;
  duration_at_base_rate = 1000;
}

abbrev brief : SpeechBuffer
brief = record book {
  sentences = first_entry ∷ record first_entry { source_index = 1 } ∷ [];
  source = [];
  source_index = 2;
  is_done = true;
}

read_chunk-IsChunk_example :
    IsChunk size 0 1000 settings
      (record { entries = first_entry ∷ []; start_index = 0; end_index = 0; estimated = 100000 })
      (read_chunk 9 size 0 1000 settings brief).0
unfolding read_chunk
read_chunk-IsChunk_example =
    read_chunk-IsChunk 9 size 0 1000 settings brief
      (record { entries = first_entry ∷ []; start_index = 0; end_index = 0; estimated = 100000 })
      refl

previous_index-IsPrevious_example : IsPrevious 1 1 brief 0
unfolding previous_index
previous_index-IsPrevious_example = previous_index-IsPrevious 1 1 brief 0 refl
