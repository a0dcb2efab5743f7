-- ===== src/Tts/Buffer/Reading/Chunks.antt =====
-- What `readChunk` (frontend/src/lib/tts-batch.ts) returns.
use mathlib.Core.Path.{subst}
use z_reader.Prelude.{
  ℕ, ◌+◌, ◌*◌, ◌-◌, ◌≤◌, ◌<◌, ◌≡◌, ◌⊎◌, refl, sym, inl, inr, true, false, ◌||◌, Option, none, some,
  List, [], ◌∷◌, ◌++◌, ltb, ◌==◌, length, length-drop, take, drop, take-append-drop, length-take,
  max, Bool-cases, arith,
}
use z_reader.Tts.Buffer.{Settings, BufferedSentence, SpeechBuffer, max_chunk_bytes, envelope_bytes}
use z_reader.Tts.Buffer.Reading.{
  returns, step_from, is_there, ensure, Batch, collect, first_batch, expire, read_chunk,
  TtsAudioChunk, finish_chunk, is_empty,
}
use z_reader.Tts.Buffer.Reading.Keeps.{Returned, Outcome-cases, ensure_lem, collect-Returned}
use z_reader.Tts.Buffer.Reading.Limits.{Fits, turn-Fits, total_bytes, total_time}
use z_reader.Tts.Buffer.Reading.Covers.{step-Grows, Covers, Covers-Grows, Covers-adds}

-- The state of the loop of `collect`: the limits and the place.
abbrev Collects : ℕ → ℕ → Settings → ℕ → Batch → SpeechBuffer → Type 0
Collects start target settings i m b = Fits target settings m × Covers start i m b

collect-Collects :
    (start target : ℕ) (settings : Settings) (fuel i : ℕ) (m : Batch) (b : SpeechBuffer)
    → Collects start target settings i m b
    → Returned
        (λ n. (j : ℕ) × Collects start target settings j n (collect fuel i target settings m b).0)
        (collect fuel i target settings m b).1
collect-Collects start target settings fuel i m b c =
    collect-Returned (Collects start target settings) target settings
      (λ i m b c. (
        c.0,
        Covers-Grows start i m b (step_from target settings b b.pending b.source).0
            (step-Grows target settings b b.pending b.source) c.1,
      ))
      (λ i m n b e inside here t c. (
        turn-Fits target settings e m n t c.0,
        Covers-adds start target settings i m n b e inside here t c.1,
      ))
      fuel i m b c

-- At the start of the loop.
first-Collects :
    (start target : ℕ) (settings : Settings) (b : SpeechBuffer)
    → is_there start b ≡ true
    → Collects start target settings start (first_batch settings) (expire start b)
unfolding expire
first-Collects start target settings b inside =
    let low : b.base_index ≤ start = ground (arith, inside) in
    let high : start < b.base_index + length b.sentences = ground (arith, inside) in
    let keep = max b.base_index (start - 256) in
    let es = drop (keep - b.base_index) b.sentences in
    let count = length-drop (keep - b.base_index) b.sentences in
    (
      record {
        size = inl refl;
        duration = inl (omega arith);
        bytes = omega arith;
        time = omega arith;
      },
      (
        omega arith,
        inr (
          take (start - keep) es,
          (
            drop (start - keep) es,
            (
              sym (take-append-drop (start - keep) es),
              omega (arith, length-take (start - keep) es, count, low, high),
            ),
          ),
        ),
      ),
    )

-- What `readChunk` promises of a chunk and the buffer that it leaves.
pub record IsChunk (size : List BufferedSentence → ℕ) (start target : ℕ) (settings : Settings)
    (c : TtsAudioChunk) (b : SpeechBuffer) : Type 0 where
  pub from : c.start_index ≡ start
  pub nonempty : 0 < length c.entries
  pub to : c.end_index + 1 ≡ start + length c.entries
  pub bytes : envelope_bytes + settings.voice_bytes * 6 + total_bytes c.entries ≤ max_chunk_bytes
  pub request : size c.entries ≤ max_chunk_bytes
  pub duration : (length c.entries ≡ 1) ⊎ (c.estimated ≤ target * settings.speed)
  pub estimate : total_time c.entries ≤ c.estimated
  pub before : List BufferedSentence
  pub after : List BufferedSentence
  pub consecutive : b.sentences ≡ before ++ (c.entries ++ after)
  pub position : length before + b.base_index ≡ start

abbrev GivesChunk :
    (List BufferedSentence → ℕ) → ℕ → ℕ → Settings → SpeechBuffer → Option TtsAudioChunk → Type 0
GivesChunk size start target settings b none = Unit
GivesChunk size start target settings b (some c) = IsChunk size start target settings c b

abbrev chunk_of : ℕ → Batch → TtsAudioChunk
chunk_of start m = record {
  entries = m.entries;
  start_index = start;
  end_index = start + length m.entries - 1;
  estimated = m.time;
}

filled : (es : List BufferedSentence) → is_empty es ≡ false → 0 < length es
filled [] h = absurd (ground arith)
filled (e ∷ es) h = omega arith

unfilled : (es : List BufferedSentence) → es ≡ [] → is_empty es ≡ true
unfilled es h = rw h refl

batch-IsChunk :
    (size : List BufferedSentence → ℕ) (start target : ℕ) (settings : Settings) (j : ℕ) (m : Batch)
    (b : SpeechBuffer)
    → b.is_disposed ≡ false
    → is_empty m.entries ≡ false
    → ltb max_chunk_bytes (size m.entries) ≡ false
    → Collects start target settings j m b
    → IsChunk size start target settings (chunk_of start m) b
batch-IsChunk size start target settings j m b open_ some_ small (f, (at, inl gone)) =
    absurd (ground (arith, open_, gone))
batch-IsChunk size start target settings j m b open_ some_ small
      (f, (at, inr (before, (after, (split_, count))))) =
    let more = filled m.entries some_ in
    let within : m.bytes ≤ max_chunk_bytes = elim f.size [
      | inl empty ↦ absurd (ground (arith, unfilled m.entries empty, some_))
      | inr le ↦ le
    ] in
    record {
      from = refl;
      nonempty = more;
      to = omega (arith, more);
      bytes = omega (arith, f.bytes, within);
      request = ground (arith, small);
      duration = elim f.duration [ inl one ↦ inl (omega (arith, one, more)) | inr le ↦ inr le ];
      estimate = f.time;
      before = before;
      after = after;
      consecutive = split_;
      position = count;
    }

finish_chunk_lem :
    (size : List BufferedSentence → ℕ) (start target : ℕ) (settings : Settings) (j : ℕ) (m : Batch)
    (b : SpeechBuffer)
    → Collects start target settings j m b
    → Returned (GivesChunk size start target settings b) (finish_chunk size start m b)
unfolding finish_chunk
finish_chunk_lem size start target settings j m b c =
    elim (Bool-cases (b.is_disposed || is_empty m.entries)) [
      | inl nothing ↦ rw (nothing, finish_chunk) tt
      | inr some_ ↦ elim (Bool-cases (ltb max_chunk_bytes (size m.entries))) [
        | inl large ↦ rw (some_, large, finish_chunk) tt
        | inr small ↦
            rw (some_, small, finish_chunk)
              (batch-IsChunk size start target settings j m b (ground (arith, some_))
                (ground (arith, some_)) small c)
      ]
    ]

read_chunk_returns :
    (fuel : ℕ) (size : List BufferedSentence → ℕ) (start target : ℕ) (settings : Settings)
    (b : SpeechBuffer)
    → Returned
        (GivesChunk size start target settings (read_chunk fuel size start target settings b).0)
        (read_chunk fuel size start target settings b).1
unfolding read_chunk
read_chunk_returns fuel size start target settings b = elim (Bool-cases (target == 0)) [
  | inl nothing ↦ rw (nothing, read_chunk) tt
  | inr some_ ↦
      let b' = (ensure fuel start target settings b).0 in
      let holds = ensure_lem fuel start target settings b in
      elim (Outcome-cases (ensure fuel start target settings b).1) [
        | inr (inl e) ↦ rw (some_, e, read_chunk) tt
        | inr (inr e) ↦ rw (some_, e, read_chunk) tt
        | inl (there, e) ↦ elim (Bool-cases there) [
          | inr missing ↦ rw (some_, e, missing, read_chunk) tt
          | inl found ↦
              let inside : is_there start b' ≡ true = (rw e at holds) found in
              let first = first-Collects start target settings b' inside in
              let all =
                collect-Collects start target settings fuel start (first_batch settings)
                  (expire start b') first in
              let b'' =
                (collect fuel start target settings (first_batch settings) (expire start b')).0 in
              elim (Outcome-cases
                (collect fuel start target settings (first_batch settings) (expire start b')).1) [
                  | inr (inl c) ↦ rw (some_, e, found, c, read_chunk) tt
                  | inr (inr c) ↦ rw (some_, e, found, c, read_chunk) tt
                  | inl (m, c) ↦
                      let (j, done) : (j : ℕ) × Collects start target settings j m b'' =
                        rw c at all in
                      rw (some_, e, found, c, read_chunk)
                        (finish_chunk_lem size start target settings j m b'' done)
                ]
        ]
      ]
]

-- A chunk that `readChunk` returns starts at the entry that was asked for and holds at least that entry
-- and, without a gap, the entries of the buffer up to its end index. It keeps the limits: its bytes
-- and the text for its request are at most 30 KiB, and its time, which is at least that of its
-- entries, is at most the target unless it has one entry only.
pub read_chunk-IsChunk :
    (fuel : ℕ) (size : List BufferedSentence → ℕ) (start target : ℕ) (settings : Settings)
    (b : SpeechBuffer) (c : TtsAudioChunk)
    → (read_chunk fuel size start target settings b).1 ≡ returns (some c)
    → IsChunk size start target settings c (read_chunk fuel size start target settings b).0
read_chunk-IsChunk fuel size start target settings b c h =
    subst
      (Returned
        (GivesChunk size start target settings (read_chunk fuel size start target settings b).0))
      h (read_chunk_returns fuel size start target settings b)
