-- ===== src/Tts/Buffer/Reading/Invariant.antt =====
-- No speech is lost or said twice by `TTSSpeechBuffer` (frontend/src/lib/tts-batch.ts): the entries of
-- the buffer follow each other, and the next one starts where the last one ends.
use z_reader.Prelude.{
  ℕ, zero, suc, ◌+◌, ◌-◌, ◌≤◌, ◌<◌, ◌≡◌, refl, sym, arith, inl, inr, min, max, Bool, true, false,
  Option, none, some, List, [], ◌∷◌, ◌++◌, if◌then◌else◌, ltb, ◌==◌, length, drop, All, Bool-cases,
}
use z_reader.Tts.Buffer.{
  Sentence, Settings, BufferedSentence, PendingSentence, Answer, gives, fails, disposes,
  SpeechBuffer, max_slice_millis, is_intact, offset_at, max_chunk_bytes, envelope_bytes, dispose,
  begin_sentence,
}
use z_reader.Tts.Buffer.Slices.{append_next, slice_end, slice_of, slice_bytes, rest_of}
use z_reader.Tts.Buffer.Slices.Bounds.{slice_end_bounds}
use z_reader.Tts.Buffer.Reading.Keeps.{read_chunk-keeps}
use z_reader.Tts.Buffer.Reading.{appended, step_from, take_sentence, expire, read_chunk}

-- A place in the source: the sentence, and the code point in it.
abbrev pub Place : Type 0
Place = ℕ × ℕ

abbrev pub place_of : BufferedSentence → Place
place_of e = (e.source_index, e.start)

-- Where the entry after this one starts.
abbrev pub end_of : BufferedSentence → Place
end_of e =
    if e.end_ == length e.sentence.lengths
    then (e.source_index + 1, 0)
    else (e.source_index, e.end_)

abbrev pub first_place : List BufferedSentence → Place → Place
first_place [] q = q
first_place (e ∷ es) q = place_of e

-- Each entry ends where the next one starts, and the last one at a place.
abbrev pub Joined : List BufferedSentence → Place → Type 0
Joined [] q = Unit
Joined (e ∷ es) q = (end_of e ≡ first_place es q) × Joined es q

-- Where the next entry will start.
abbrev pub next_place : Option PendingSentence → ℕ → Place
next_place none i = (i, 0)
next_place (some p) i = (p.source_index, p.position)

abbrev pub HasRoom : Option PendingSentence → ℕ → Type 0
HasRoom none i = Unit
HasRoom (some p) i = (p.position < length p.sentence.lengths) × (i ≡ p.source_index + 1)

-- A sentence that is spoken has text.
abbrev pub HasText : Answer → Type 0
HasText (gives s) = s.is_skippable ≡ false → 0 < length s.lengths
HasText fails = Unit
HasText disposes = Unit

pub record IsValid (b : SpeechBuffer) : Type 0 where
  pub joined : Joined b.sentences (next_place b.pending b.source_index)
  pub room : HasRoom b.pending b.source_index
  pub texts : All HasText b.source

pub Joined-append :
    (es : List BufferedSentence) (e : BufferedSentence)
    → Joined es (place_of e)
    → Joined (es ++ e ∷ []) (end_of e)
Joined-append [] e h = (refl, tt)
Joined-append (x ∷ []) e h = (h.0, (refl, tt))
Joined-append (x ∷ y ∷ es) e h = (h.0, Joined-append (y ∷ es) e h.1)

pub Joined-drop :
    (n : ℕ) (es : List BufferedSentence) (q : Place) → Joined es q → Joined (drop n es) q
Joined-drop zero es q h = h
Joined-drop (suc n) [] q h = tt
Joined-drop (suc n) (e ∷ es) q h = Joined-drop n es q h.1

abbrev pub with_slice : ℕ → ℕ → PendingSentence → ℕ → SpeechBuffer → SpeechBuffer
with_slice speed budget p best b = record b {
  sentences = b.sentences ++ slice_of speed budget p best ∷ [];
  pending = rest_of p best;
}

slice-end :
    (speed budget best : ℕ) (p : PendingSentence) (i : ℕ)
    → i ≡ p.source_index + 1
    → end_of (slice_of speed budget p best) ≡ next_place (rest_of p best) i
slice-end speed budget best p i h = elim (Bool-cases (best == length p.sentence.lengths)) [
  | inl whole ↦ rw (whole, h) refl
  | inr part ↦ rw part refl
]

rest_of-HasRoom :
    (p : PendingSentence) (best i : ℕ)
    → best ≤ length p.sentence.lengths
    → i ≡ p.source_index + 1
    → HasRoom (rest_of p best) i
rest_of-HasRoom p best i within h = elim (Bool-cases (best == length p.sentence.lengths)) [
  | inl whole ↦ rw whole tt
  | inr part ↦ rw part (ground (arith, within, part), h)
]

-- A slice of the pending sentence joins.
slice-IsValid :
    (speed budget : ℕ) (p : PendingSentence) (best : ℕ) (b : SpeechBuffer)
    → b.pending ≡ some p
    → best ≤ length p.sentence.lengths
    → IsValid b
    → IsValid (with_slice speed budget p best b)
slice-IsValid speed budget p best b here within v =
    let room : HasRoom (some p) b.source_index = rw here at v.room in
    let joined : Joined b.sentences (p.source_index, p.position) = rw here at v.joined in
    record {
      joined =
          rw (sym (slice-end speed budget best p b.source_index room.1))
            (Joined-append b.sentences (slice_of speed budget p best) joined);
      room = rest_of-HasRoom p best b.source_index within room.1;
      texts = v.texts;
    }

appended-IsValid :
    (target : ℕ) (settings : Settings) (p : PendingSentence) (b : SpeechBuffer)
    → b.pending ≡ some p
    → IsValid b
    → IsValid (appended b (append_next target settings p b)).0
unfolding append_next
appended-IsValid target settings p b here v =
    let room : HasRoom (some p) b.source_index = rw here at v.room in
    let budget = min max_slice_millis target in
    let best = slice_end settings.speed budget p in
    elim (Bool-cases
      (ltb (max_chunk_bytes - envelope_bytes) (slice_bytes settings.speed budget p best))) [
        | inl large ↦ rw (large, append_next) v
        | inr small ↦
            rw (small, append_next)
              (slice-IsValid settings.speed budget p best b here
                (slice_end_bounds settings.speed budget p room.0).1 v)
      ]

abbrev whole_of : Sentence → ℕ → BufferedSentence
whole_of s i = record {
  sentence = s;
  source_index = i;
  start = 0;
  end_ = length s.lengths;
  raw_bytes = s.whole_bytes;
  duration_at_base_rate = s.estimate 0 (offset_at s.lengths (length s.lengths));
}

whole-end : (s : Sentence) (i : ℕ) → end_of (whole_of s i) ≡ (i + 1, 0)
whole-end s i =
    let same : (length s.lengths == length s.lengths) ≡ true = ground arith in rw same refl

begin_sentence-IsValid :
    (target : ℕ) (settings : Settings) (s : Sentence) (b : SpeechBuffer)
    → b.pending ≡ none
    → 0 < length s.lengths
    → IsValid b
    → IsValid (begin_sentence target settings s b)
unfolding begin_sentence
begin_sentence-IsValid target settings s b idle text v =
    let joined : Joined b.sentences (b.source_index, 0) = rw idle at v.joined in
    elim (Bool-cases (is_intact target settings s)) [
      | inl intact ↦
          rw (intact, begin_sentence)
            (record {
              joined =
                  rw (idle, sym (whole-end s b.source_index))
                    (Joined-append b.sentences (whole_of s b.source_index) joined);
              room = rw idle tt;
              texts = v.texts;
            })
      | inr long ↦
          rw (long, begin_sentence)
            (record { joined = joined; room = (text, refl); texts = v.texts })
    ]

take_sentence-IsValid :
    (target : ℕ) (settings : Settings) (s : Sentence) (b : SpeechBuffer)
    → b.pending ≡ none
    → (s.is_skippable ≡ false → 0 < length s.lengths)
    → IsValid b
    → IsValid (take_sentence target settings s b)
take_sentence-IsValid target settings s b idle text v = go s.is_skippable refl
  where
    go :
        (skips : Bool)
        → s.is_skippable ≡ skips
        → IsValid (if skips then b else begin_sentence target settings s b)
    go true e = v
    go false e = begin_sentence-IsValid target settings s b idle (text e) v

pub step_from-IsValid :
    (target : ℕ) (settings : Settings) (b : SpeechBuffer) (pending : Option PendingSentence)
    (source : List Answer)
    → b.pending ≡ pending
    → b.source ≡ source
    → IsValid b
    → IsValid (step_from target settings b pending source).0
unfolding step_from dispose
step_from-IsValid target settings b (some p) source here left v =
    appended-IsValid target settings p b here v
step_from-IsValid target settings b none [] here left v = record {
  joined = v.joined;
  room = v.room;
  texts = v.texts;
}
step_from-IsValid target settings b none (gives s ∷ source) here left v =
    let all : All HasText (gives s ∷ source) = rw left at v.texts in
    take_sentence-IsValid target settings s (record b { source = source }) here all.0
      (record { joined = v.joined; room = v.room; texts = all.1 })
step_from-IsValid target settings b none (fails ∷ source) here left v =
    let all : All HasText (fails ∷ source) = rw left at v.texts in
    record { joined = v.joined; room = v.room; texts = all.1 }
step_from-IsValid target settings b none (disposes ∷ source) here left v = record {
  joined = tt;
  room = tt;
  texts = tt;
}

abbrev pub step-IsValid :
    (target : ℕ) (settings : Settings) (b : SpeechBuffer)
    → IsValid b
    → IsValid (step_from target settings b b.pending b.source).0
step-IsValid target settings b v =
    step_from-IsValid target settings b b.pending b.source refl refl v

pub expire-IsValid : (start : ℕ) (b : SpeechBuffer) → IsValid b → IsValid (expire start b)
unfolding expire
expire-IsValid start b v = record {
  joined = Joined-drop (max b.base_index (start - 256) - b.base_index) b.sentences _ v.joined;
  room = v.room;
  texts = v.texts;
}

-- Whatever `readChunk` is asked for, with whatever settings, in a valid buffer: after it the entries of
-- the buffer still follow each other without a gap or an overlap, each starting where the one before
-- ends, and what is read next starts where the last one ends.
pub read_chunk-IsValid :
    (fuel : ℕ) (size : List BufferedSentence → ℕ) (start target : ℕ) (settings : Settings)
    (b : SpeechBuffer)
    → IsValid b
    → IsValid (read_chunk fuel size start target settings b).0
read_chunk-IsValid fuel size start target settings b v =
    read_chunk-keeps IsValid target settings (step-IsValid target settings) start
      (expire-IsValid start) fuel size b v
