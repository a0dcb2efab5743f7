-- ===== src/Tts/Buffer/Reading.antt =====
-- `ensure`, `readChunk` and `adjacentSentenceIndex` of `TTSSpeechBuffer` (frontend/src/lib/tts-batch.ts).
-- The loops run on fuel; a result `unfinished` says that it did not do. `chunk` and
-- `adjacentSentenceIndex` run one after the other, so that each is a function of the buffer.
pub mod Keeps
pub mod Invariant
pub mod Limits
pub mod Covers
pub mod Work
pub mod Chunks
pub mod Finishes
use z_reader.Prelude.{
  ℕ, zero, suc, ◌+◌, ◌-◌, ◌*◌, min, max, Bool, true, false, not, ◌&&◌, ◌||◌, Option, none, some,
  List, [], ◌∷◌, ◌++◌, if◌then◌else◌, ltb, leb, ◌==◌, length, get_elem?, drop,
}
use z_reader.Tts.Buffer.{
  Sentence, Settings, BufferedSentence, PendingSentence, Answer, gives, fails, disposes,
  SpeechBuffer, max_chunk_bytes, envelope_bytes, max_slice_millis, sentence_pause_millis, dispose,
  begin_sentence,
}
use z_reader.Tts.Buffer.Slices.{append_next}

pub data Outcome {ℓ} (A : Type ℓ) : Type ℓ where
  returns : A → Outcome A
  throws unfinished : Outcome A

-- The value of `ensure` when its loop is over.
abbrev pub is_there : ℕ → SpeechBuffer → Bool
is_there index b =
    not b.is_disposed && (leb b.base_index index && ltb index (b.base_index + length b.sentences))

-- The condition of the `while` loop.
abbrev pub reads_on : ℕ → SpeechBuffer → Bool
reads_on index b =
    not b.is_disposed && (not b.is_done && leb (b.base_index + length b.sentences) index)

-- A sentence that says nothing is skipped.
abbrev pub take_sentence : ℕ → Settings → Sentence → SpeechBuffer → SpeechBuffer
take_sentence target settings s b = if s.is_skippable then b else begin_sentence target settings s b

-- How one turn of the `while` loop of `ensure` ends.
pub data Step : Type 0 where
  continues : Step
  ends : Outcome Bool → Step

abbrev pub appended : SpeechBuffer → Option SpeechBuffer → SpeechBuffer × Step
appended b none = (b, ends throws)
appended b (some b') = (b', continues)

-- The turn, by what is pending and what the iterator has left.
unfoldable pub step_from :
    ℕ → Settings → SpeechBuffer → Option PendingSentence → List Answer → SpeechBuffer × Step
unfolding append_next begin_sentence dispose
step_from target settings b (some p) source = appended b (append_next target settings p b)
step_from target settings b none [] = (record b { is_done = true }, continues)
step_from target settings b none (gives s ∷ source) =
    (take_sentence target settings s (record b { source = source }), continues)
step_from target settings b none (fails ∷ source) = (record b { source = source }, ends throws)
step_from target settings b none (disposes ∷ source) = (dispose b, ends (returns false))

unfoldable pub ensure : ℕ → ℕ → ℕ → Settings → SpeechBuffer → SpeechBuffer × Outcome Bool
unfolding step_from
ensure zero index target settings b = (b, unfinished)
ensure (suc fuel) index target settings b = elim (reads_on index b) [
  | false ↦ (b, returns (is_there index b))
  | true ↦
      let r = step_from target settings b b.pending b.source in
      elim r.1 [ continues ↦ ensure fuel index target settings r.0 | ends outcome ↦ (r.0, outcome) ]
]

-- What `readChunk` has collected: the entries, the time (times the speed, in hundredths) and the bytes.
pub record Batch : Type 0 where
  pub entries : List BufferedSentence
  pub time : ℕ
  pub bytes : ℕ

abbrev pub last_source : List BufferedSentence → Option ℕ
last_source [] = none
last_source (x ∷ []) = some x.source_index
last_source (x ∷ y ∷ ys) = last_source (y ∷ ys)

-- `batch.length > 0 && batch.at(-1)!.sourceIndex !== entry.sourceIndex`
abbrev pub adds_pause : List BufferedSentence → BufferedSentence → Bool
adds_pause batch e = elim (last_source batch) [ none ↦ false | some i ↦ not (i == e.source_index) ]

abbrev pub is_empty : List BufferedSentence → Bool
is_empty [] = true
is_empty (x ∷ xs) = false

-- What an entry adds to the time.
abbrev pub time_of : Settings → Bool → BufferedSentence → ℕ
time_of settings pauses e =
    e.duration_at_base_rate * 100 + (if pauses then sentence_pause_millis * settings.speed else 0)

-- What an entry adds to the bytes.
abbrev pub bytes_of : Bool → BufferedSentence → ℕ
bytes_of pauses e = e.raw_bytes + (if pauses then 21 else 0)

-- One turn of the loop of `readChunk`: whether it adds the entry, stops before it, or throws.
pub data Turn : Type 0 where
  adds : Batch → Turn
  stops throws_too_large : Turn

unfoldable pub turn : ℕ → Settings → BufferedSentence → Batch → Turn
turn target settings e batch =
    let pauses = adds_pause batch.entries e in
    if not (is_empty batch.entries)
      && ltb (target * settings.speed) (batch.time + time_of settings pauses e)
    then stops
    else if ltb max_chunk_bytes (batch.bytes + bytes_of pauses e)
    then if is_empty batch.entries then throws_too_large else stops
    else adds (record {
      entries = batch.entries ++ e ∷ [];
      time = batch.time + time_of settings pauses e;
      bytes = batch.bytes + bytes_of pauses e;
    })

-- The `for` loop of `readChunk`, from the entry at `index` on.
unfoldable pub collect : ℕ → ℕ → ℕ → Settings → Batch → SpeechBuffer → SpeechBuffer × Outcome Batch
unfolding ensure turn
collect zero index target settings batch b = (b, unfinished)
collect (suc fuel) index target settings batch b =
    let (b', found) = ensure (suc fuel) index target settings b in
    elim found [
      | unfinished ↦ (b', unfinished)
      | throws ↦ (b', throws)
      | returns there ↦ elim there [
        | false ↦ (b', returns batch)
        | true ↦ elim (get_elem? b'.sentences (index - b'.base_index)) [
          | none ↦ (b', throws)
          | some e ↦ elim (turn target settings e batch) [
            | stops ↦ (b', returns batch)
            | throws_too_large ↦ (b', throws)
            | adds more ↦ elim (leb (target * settings.speed) more.time) [
              | true ↦ (b', returns more)
              | false ↦ collect fuel (suc index) target settings more b'
            ]
          ]
        ]
      ]
    ]

-- `TTSAudioChunk`, with the entries that it speaks in place of its text and marks.
pub record TtsAudioChunk : Type 0 where
  pub entries : List BufferedSentence
  pub start_index : ℕ
  pub end_index : ℕ
  pub estimated : ℕ

-- `splice(0, keepFrom - baseIndex)`
unfoldable pub expire : ℕ → SpeechBuffer → SpeechBuffer
expire start_index b =
    let keep_from = max b.base_index (start_index - 256) in
    record b { sentences = drop (keep_from - b.base_index) b.sentences; base_index = keep_from }

abbrev pub first_batch : Settings → Batch
first_batch settings = record {
  entries = [];
  time = 0;
  bytes = envelope_bytes + settings.voice_bytes * 6;
}

-- The end of `readChunk`; `size` is the size of the text for a request that says some entries.
unfoldable pub finish_chunk :
    (List BufferedSentence → ℕ) → ℕ → Batch → SpeechBuffer → Outcome (Option TtsAudioChunk)
finish_chunk size start_index batch b =
    if b.is_disposed || is_empty batch.entries
    then returns none
    else if ltb max_chunk_bytes (size batch.entries)
    then throws
    else returns (
        some (record {
          entries = batch.entries;
          start_index = start_index;
          end_index = start_index + length batch.entries - 1;
          estimated = batch.time;
        }))

unfoldable pub read_chunk :
    ℕ
    → (List BufferedSentence → ℕ)
    → ℕ
    → ℕ
    → Settings
    → SpeechBuffer
    → SpeechBuffer × Outcome (Option TtsAudioChunk)
unfolding ensure expire collect finish_chunk
read_chunk fuel size start_index target settings b =
    if target == 0
    then (b, returns none)
    else let (b', found) = ensure fuel start_index target settings b in
      elim found [
        | unfinished ↦ (b', unfinished)
        | throws ↦ (b', throws)
        | returns there ↦ elim there [
          | false ↦ (b', returns none)
          | true ↦
              let (b'', collected) =
                collect fuel start_index target settings (first_batch settings)
                  (expire start_index b') in
              elim collected [
                | unfinished ↦ (b'', unfinished)
                | throws ↦ (b'', throws)
                | returns batch ↦ (b'', finish_chunk size start_index batch b'')
              ]
        ]
      ]
