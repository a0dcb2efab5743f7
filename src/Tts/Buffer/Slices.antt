-- ===== src/Tts/Buffer/Slices.antt =====
-- `slicedDuration` and `appendNext` of frontend/src/lib/tts-batch.ts: the next slice of a sentence.
pub mod Bounds
use z_reader.Prelude.{
  ℕ, zero, suc, ◌+◌, ◌-◌, ◌*◌, ◌/◌, min, max, Bool, true, false, not, ◌&&◌, ◌||◌, Option, none,
  some, List, [], ◌∷◌, ◌++◌, if◌then◌else◌, ltb, leb, ◌==◌, length, map, drop,
}
use z_reader.Tts.Batch.{first_ending_after, search_loop}
use z_reader.Tts.Buffer.{
  Atomic, Sentence, Settings, BufferedSentence, PendingSentence, SpeechBuffer, max_chunk_bytes,
  envelope_bytes, max_slice_millis, fits_in, offset_at,
}

-- `atomic.pronunciationSeconds`
abbrev pub pronunciation : Sentence → Atomic → ℕ
pronunciation s a = max (s.estimate a.start a.end_) a.override

-- The atomics that end after an offset.
unfoldable pub atomics_after : Sentence → ℕ → List Atomic
unfolding first_ending_after
atomics_after s start =
    drop (first_ending_after (map (λ a. a.end_) s.atomics) start false) s.atomics

-- The loop of `slicedDuration`.
unfoldable pub add_atomics : Sentence → (ℕ → Bool) → ℕ → ℕ → List Atomic → ℕ → ℕ
add_atomics s fits start end_ [] time = time
add_atomics s fits start end_ (a ∷ more) time =
    let counts = not (ltb a.start start || (ltb end_ a.end_ || not (fits (pronunciation s a)))) in
    let rest =
      add_atomics s fits start end_ more
        (if counts then time + (pronunciation s a - s.estimate a.start a.end_) else time) in
    if ltb a.start end_ then rest else time

-- `slicedDuration`, at the base rate
unfoldable pub sliced_duration : Sentence → ℕ → ℕ → ℕ → ℕ → ℕ
unfolding add_atomics atomics_after
sliced_duration s speed budget start end_ =
    add_atomics s (fits_in speed budget) start end_ (atomics_after s start) (s.estimate start end_)

-- `while (high < length && duration(high) <= budget)`
unfoldable pub grow : (ℕ → Bool) → ℕ → ℕ → ℕ → ℕ → ℕ
grow fits position n zero high = high
grow fits position n (suc fuel) high = elim (ltb high n && fits high) [
  | true ↦ grow fits position n fuel (min n (position + (high - position) * 2))
  | false ↦ high
]

-- `while (low <= high)`
unfoldable pub last_fit : (ℕ → Bool) → ℕ → ℕ → ℕ → ℕ → ℕ
last_fit fits zero low high best = best
last_fit fits (suc fuel) low high best = elim (leb low high) [
  | false ↦ best
  | true ↦ elim (fits ((low + high) / 2)) [
    | true ↦ last_fit fits fuel ((low + high) / 2 + 1) high ((low + high) / 2)
    | false ↦ last_fit fits fuel low ((low + high) / 2 - 1) best
  ]
]

-- The slice ends before the first atomic that it would cut and that fits into a slice of its own.
unfoldable pub spare_atomic : Sentence → (ℕ → Bool) → ℕ → ℕ → List Atomic → ℕ
unfolding search_loop offset_at
spare_atomic s fits position best [] = best
spare_atomic s fits position best (a ∷ more) =
    let rest = spare_atomic s fits position best more in
    let spared = search_loop (λ i. leb a.start (offset_at s.lengths i)) best (position + 1) best in
    if ltb a.start (offset_at s.lengths best)
    then if ltb (offset_at s.lengths position) a.start
        && (ltb (offset_at s.lengths best) a.end_ && fits (pronunciation s a))
      then spared
      else rest
    else best

-- `while (rawBytes > MAX_CHUNK_BYTES - ENVELOPE_BYTES && best > position + 1)`
unfoldable pub halve : (ℕ → ℕ) → ℕ → ℕ → ℕ → ℕ
halve bytes position zero best = best
halve bytes position (suc fuel) best =
    elim (ltb (max_chunk_bytes - envelope_bytes) (bytes best) && ltb (position + 1) best) [
      | true ↦ halve bytes position fuel (position + max 1 ((best - position) / 2))
      | false ↦ best
    ]

-- Whether the slice up to a place fits into the budget.
abbrev pub slice_fits : ℕ → ℕ → PendingSentence → ℕ → Bool
slice_fits speed budget p i = fits_in speed budget (
    sliced_duration p.sentence speed budget (offset_at p.sentence.lengths p.position)
      (offset_at p.sentence.lengths i))

-- Where the next slice ends by its time; a slice has at least one code point.
unfoldable pub longest_fit : ℕ → ℕ → PendingSentence → ℕ
unfolding sliced_duration grow last_fit
longest_fit speed budget p =
    let n = length p.sentence.lengths in
    let high = grow (slice_fits speed budget p) p.position n n (min n (p.position + 64)) in
    let best = last_fit (slice_fits speed budget p) (n + 1) (p.position + 1) high p.position in
    if best == p.position then p.position + 1 else best

-- `conservativeBytes` of the slice that ends at a place
abbrev pub slice_bytes : ℕ → ℕ → PendingSentence → ℕ → ℕ
slice_bytes speed budget p best =
    p.sentence.bytes speed budget (offset_at p.sentence.lengths p.position)
      (offset_at p.sentence.lengths best)

-- Where the next slice ends.
unfoldable pub slice_end : ℕ → ℕ → PendingSentence → ℕ
unfolding longest_fit spare_atomic halve
slice_end speed budget p =
    let best =
      spare_atomic p.sentence (fits_in speed budget) p.position (longest_fit speed budget p)
        (atomics_after p.sentence (offset_at p.sentence.lengths p.position)) in
    halve (slice_bytes speed budget p) p.position best best

abbrev pub slice_of : ℕ → ℕ → PendingSentence → ℕ → BufferedSentence
slice_of speed budget p best = record {
  sentence = p.sentence;
  source_index = p.source_index;
  start = p.position;
  end_ = best;
  raw_bytes = slice_bytes speed budget p best;
  duration_at_base_rate =
      sliced_duration p.sentence speed budget (offset_at p.sentence.lengths p.position)
        (offset_at p.sentence.lengths best);
}

abbrev pub rest_of : PendingSentence → ℕ → Option PendingSentence
rest_of p best =
    if best == length p.sentence.lengths then none else some (record p { position = best })

-- `none` where the source throws, with nothing changed.
unfoldable pub append_next : ℕ → Settings → PendingSentence → SpeechBuffer → Option SpeechBuffer
unfolding slice_end
append_next target settings p b =
    let budget = min max_slice_millis target in
    let best = slice_end settings.speed budget p in
    if ltb (max_chunk_bytes - envelope_bytes) (slice_bytes settings.speed budget p best)
    then none
    else some (record b {
      sentences = b.sentences ++ slice_of settings.speed budget p best ∷ [];
      pending = rest_of p best;
    })
