-- ===== src/Tts/Buffer/Reading/Work.antt =====
-- What `ensure` (frontend/src/lib/tts-batch.ts) has left to do gets less with every turn.
use z_reader.Prelude.{
  ℕ, ◌+◌, ◌-◌, ◌≤◌, ◌<◌, ◌≡◌, ap, inl, inr, Bool, true, false, Option, none, some, List, [], ◌∷◌,
  ltb, ◌==◌, length, length-append, min, Bool-cases, arith, if◌then◌else◌,
}
use z_reader.Tts.Buffer.{
  Sentence, Settings, PendingSentence, Answer, gives, fails, disposes, SpeechBuffer,
  max_chunk_bytes, envelope_bytes, max_slice_millis, is_intact, begin_sentence, dispose,
}
use z_reader.Tts.Buffer.Slices.{append_next, slice_end, slice_bytes, slice_of, rest_of}
use z_reader.Tts.Buffer.Slices.Bounds.{slice_end_bounds}
use z_reader.Tts.Buffer.Reading.{Step, continues, ends, appended, step_from}
use z_reader.Tts.Buffer.Reading.Invariant.{IsValid, HasRoom}

-- The turns that the iterator has left at most: one for each code point and each answer.
abbrev pub weight : List Answer → ℕ
weight [] = 0
weight (gives s ∷ source) = length s.lengths + 1 + weight source
weight (fails ∷ source) = 1 + weight source
weight (disposes ∷ source) = 1 + weight source

abbrev pub left : Option PendingSentence → ℕ
left none = 0
left (some p) = length p.sentence.lengths - p.position

-- Whether the end of the iterator is still to be read.
abbrev pub unread : Bool → ℕ
unread true = 0
unread false = 1

-- The turns that are left at most.
abbrev pub work : SpeechBuffer → ℕ
work b = weight b.source + left b.pending + unread b.is_done

-- The index after the last entry.
abbrev pub extent : SpeechBuffer → ℕ
extent b = b.base_index + length b.sentences

-- After a turn there is less to do, if the loop goes on, and no more of work and entries together.
abbrev pub Shrinks : SpeechBuffer → SpeechBuffer → Step → Type 0
Shrinks b b' continues = (work b' < work b) × (work b' + extent b' ≤ work b + extent b)
Shrinks b b' (ends o) = (work b' ≤ work b) × (work b' + extent b' ≤ work b + extent b)

rest_left :
    (p : PendingSentence) (best : ℕ)
    → p.position < best
    → best ≤ length p.sentence.lengths
    → left (rest_of p best) < left (some p)
rest_left p best more within = elim (Bool-cases (best == length p.sentence.lengths)) [
  | inl whole ↦ rw whole (omega (arith, more, within))
  | inr part ↦ rw part (omega (arith, more, within))
]

append_next-Shrinks :
    (target : ℕ) (settings : Settings) (p : PendingSentence) (b : SpeechBuffer)
    → b.pending ≡ some p
    → HasRoom (some p) b.source_index
    → Shrinks b
        (appended b (append_next target settings p b)).0
        (appended b (append_next target settings p b)).1
unfolding append_next
append_next-Shrinks target settings p b here room =
    let budget = min max_slice_millis target in
    let best = slice_end settings.speed budget p in
    let bounds = slice_end_bounds settings.speed budget p room.0 in
    let less = rest_left p best bounds.0 bounds.1 in
    let same : left b.pending ≡ left (some p) = ap left here in
    elim (Bool-cases
      (ltb (max_chunk_bytes - envelope_bytes) (slice_bytes settings.speed budget p best))) [
        | inl large ↦ rw (large, append_next) (omega arith, omega arith)
        | inr small ↦
            let count = length-append b.sentences (slice_of settings.speed budget p best ∷ []) in
            rw (small, append_next) (omega (arith, less, same), omega (arith, less, same, count))
      ]

begin_sentence-Shrinks :
    (target : ℕ) (settings : Settings) (s : Sentence) (source : List Answer) (b : SpeechBuffer)
    → b.pending ≡ none
    → b.source ≡ gives s ∷ source
    → Shrinks b (begin_sentence target settings s (record b { source = source })) continues
unfolding begin_sentence
begin_sentence-Shrinks target settings s source b idle now =
    let same : left b.pending ≡ 0 = ap left idle in
    let heavy : weight b.source ≡ length s.lengths + 1 + weight source = ap weight now in
    elim (Bool-cases (is_intact target settings s)) [
      | inl intact ↦
          let count = length-append b.sentences in
          rw (intact, begin_sentence)
            (omega (arith, same, heavy), omega (arith, same, heavy, count _))
      | inr long ↦
          rw (long, begin_sentence) (omega (arith, same, heavy), omega (arith, same, heavy))
    ]

take_sentence-Shrinks :
    (target : ℕ) (settings : Settings) (s : Sentence) (source : List Answer) (b : SpeechBuffer)
    (skips : Bool)
    → b.pending ≡ none
    → b.source ≡ gives s ∷ source
    → Shrinks b
        (if skips
          then record b { source = source }
          else begin_sentence target settings s (record b { source = source }))
        continues
take_sentence-Shrinks target settings s source b true idle now =
    let heavy : weight b.source ≡ length s.lengths + 1 + weight source = ap weight now in
    (omega (arith, heavy), omega (arith, heavy))
take_sentence-Shrinks target settings s source b false idle now =
    begin_sentence-Shrinks target settings s source b idle now

pub step_from-Shrinks :
    (target : ℕ) (settings : Settings) (b : SpeechBuffer) (pending : Option PendingSentence)
    (source : List Answer)
    → b.pending ≡ pending
    → b.source ≡ source
    → b.is_done ≡ false
    → IsValid b
    → Shrinks b
        (step_from target settings b pending source).0
        (step_from target settings b pending source).1
unfolding step_from dispose
step_from-Shrinks target settings b (some p) source here now on v =
    let room : HasRoom (some p) b.source_index = rw here at v.room in
    append_next-Shrinks target settings p b here room
step_from-Shrinks target settings b none [] here now on v =
    let more : unread b.is_done ≡ 1 = ap unread on in (omega (arith, more), omega (arith, more))
step_from-Shrinks target settings b none (gives s ∷ source) here now on v =
    take_sentence-Shrinks target settings s source b s.is_skippable here now
step_from-Shrinks target settings b none (fails ∷ source) here now on v =
    let heavy : weight b.source ≡ 1 + weight source = ap weight now in
    (omega (arith, heavy), omega (arith, heavy))
step_from-Shrinks target settings b none (disposes ∷ source) here now on v =
    (omega arith, omega arith)
