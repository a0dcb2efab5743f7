-- ===== src/Tts/Buffer/Reading/Covers.antt =====
-- The entries that `readChunk` (frontend/src/lib/tts-batch.ts) has collected stand one after the other
-- in the buffer.
use mathlib.Core.Path.{subst}
use z_reader.Prelude.{
  ℕ, zero, suc, ◌+◌, ◌-◌, ◌≡◌, ◌⊎◌, refl, sym, ap, ◌∙◌, inl, inr, Bool, true, false, Option, none,
  some, List, [], ◌∷◌, ◌++◌, ltb, get_elem?, length, length-append, min, append-nil, append_assoc,
  or_else, Bool-cases, arith, if◌then◌else◌,
}
use z_reader.Tts.Buffer.{
  Sentence, Settings, BufferedSentence, PendingSentence, Answer, gives, fails, disposes,
  SpeechBuffer, max_chunk_bytes, envelope_bytes, max_slice_millis, is_intact, begin_sentence,
  dispose,
}
use z_reader.Tts.Buffer.Slices.{append_next, slice_end, slice_bytes}
use z_reader.Tts.Buffer.Reading.{appended, step_from, is_there, Batch, adds, turn}
use z_reader.Tts.Buffer.Reading.Limits.{added, turn_adds}

-- A wait adds entries at the end, or the buffer was disposed.
abbrev Grows : SpeechBuffer → SpeechBuffer → Type 0
Grows b b' =
    (b'.is_disposed ≡ true)
    ⊎ ((b'.is_disposed ≡ b.is_disposed)
        × (b'.base_index ≡ b.base_index)
        × ((es : List BufferedSentence) × (b'.sentences ≡ b.sentences ++ es)))

Grows-refl : (b : SpeechBuffer) → Grows b b
Grows-refl b = inr (refl, refl, ([], sym (append-nil b.sentences)))

append_next-Grows :
    (target : ℕ) (settings : Settings) (p : PendingSentence) (b : SpeechBuffer)
    → Grows b (appended b (append_next target settings p b)).0
unfolding append_next
append_next-Grows target settings p b =
    let budget = min max_slice_millis target in
    let best = slice_end settings.speed budget p in
    elim (Bool-cases
      (ltb (max_chunk_bytes - envelope_bytes) (slice_bytes settings.speed budget p best))) [
        | inl large ↦ rw (large, append_next) (Grows-refl b)
        | inr small ↦ rw (small, append_next) (inr (refl, refl, (_, refl)))
      ]

begin_sentence-Grows :
    (target : ℕ) (settings : Settings) (s : Sentence) (b : SpeechBuffer)
    → Grows b (begin_sentence target settings s b)
unfolding begin_sentence
begin_sentence-Grows target settings s b = elim (Bool-cases (is_intact target settings s)) [
  | inl intact ↦ rw (intact, begin_sentence) (inr (refl, refl, (_, refl)))
  | inr long ↦ rw (long, begin_sentence) (inr (refl, refl, ([], sym (append-nil b.sentences))))
]

take_sentence-Grows :
    (target : ℕ) (settings : Settings) (s : Sentence) (b : SpeechBuffer) (skips : Bool)
    → Grows b (if skips then b else begin_sentence target settings s b)
take_sentence-Grows target settings s b true = Grows-refl b
take_sentence-Grows target settings s b false = begin_sentence-Grows target settings s b

pub step-Grows :
    (target : ℕ) (settings : Settings) (b : SpeechBuffer) (pending : Option PendingSentence)
    (source : List Answer)
    → Grows b (step_from target settings b pending source).0
unfolding step_from dispose
step-Grows target settings b (some p) source = append_next-Grows target settings p b
step-Grows target settings b none [] = Grows-refl b
step-Grows target settings b none (gives s ∷ source) =
    take_sentence-Grows target settings s (record b { source = source }) s.is_skippable
step-Grows target settings b none (fails ∷ source) = Grows-refl b
step-Grows target settings b none (disposes ∷ source) = inl refl

-- The batch holds the entries of the buffer from `start` up to `i`.
abbrev pub Covers : ℕ → ℕ → Batch → SpeechBuffer → Type 0
Covers start i m b =
    (i ≡ start + length m.entries)
    × ((b.is_disposed ≡ true)
        ⊎ ((before : List BufferedSentence) × ((after : List BufferedSentence) × ((b.sentences
                  ≡ before ++ (m.entries ++ after))
                × (length before + b.base_index ≡ start)))))

pub Covers-Grows :
    (start i : ℕ) (m : Batch) (b b' : SpeechBuffer)
    → Grows b b'
    → Covers start i m b
    → Covers start i m b'
Covers-Grows start i m b b' (inl gone) (at, c) = (at, inl gone)
Covers-Grows start i m b b' (inr (same, base, (es, grown))) (at, inl gone) = (at, inl (same ∙ gone))
Covers-Grows start i m b b' (inr (same, base, (es, grown)))
      (at, inr (before, (after, (split_, count)))) =
    (
      at,
      inr (
        before,
        (
          after ++ es,
          (
            grown
                ∙ ap (λ l. l ++ es) split_
                ∙ append_assoc before (m.entries ++ after) es
                ∙ ap (λ l. before ++ l) (append_assoc m.entries after es),
            omega (arith, base, count),
          ),
        ),
      ),
    )

get_elem?-append :
    (xs ys : List BufferedSentence) (n k : ℕ)
    → n ≡ length xs + k
    → get_elem? (xs ++ ys) n ≡ get_elem? ys k
get_elem?-append [] ys n k h = ap (get_elem? ys) (omega (arith, h))
get_elem?-append (x ∷ xs) ys zero k h = absurd (omega (arith, h))
get_elem?-append (x ∷ xs) ys (suc n) k h = get_elem?-append xs ys n k (omega (arith, h))

-- The entry at `i` is the first one after those of the batch.
next_entry :
    (before mid after : List BufferedSentence) (e : BufferedSentence)
    → get_elem? (before ++ (mid ++ after)) (length before + length mid) ≡ some e
    → (more : List BufferedSentence) × (before ++ (mid ++ after)
        ≡ before ++ ((mid ++ e ∷ []) ++ more))
next_entry before mid after e h = go after (
    sym (get_elem?-append mid after (length mid) 0 (omega arith))
    ∙ sym (get_elem?-append before (mid ++ after) (length before + length mid) (length mid) refl)
    ∙ h)
  where
    go :
        (after : List BufferedSentence)
        → get_elem? after 0 ≡ some e
        → (more : List BufferedSentence) × (before ++ (mid ++ after)
            ≡ before ++ ((mid ++ e ∷ []) ++ more))
    go [] h = absurd (ground (arith, h))
    go (x ∷ after) h = (
      after,
      ap (λ l. before ++ l)
          (ap (λ y. mid ++ y ∷ after) (ap (λ o. or_else o x) h)
            ∙ sym (append_assoc mid (e ∷ []) after)),
    )

Covers-added :
    (start : ℕ) (settings : Settings) (i : ℕ) (m : Batch) (b : SpeechBuffer) (e : BufferedSentence)
    → is_there i b ≡ true
    → get_elem? b.sentences (i - b.base_index) ≡ some e
    → Covers start i m b
    → Covers start (suc i) (added settings e m) b
Covers-added start settings i m b e inside here (at, inl gone) =
    (omega (arith, at, length-append m.entries (e ∷ [])), inl gone)
Covers-added start settings i m b e inside here (at, inr (before, (after, (split_, count)))) =
    let place : i - b.base_index ≡ length before + length m.entries = omega (arith, at, count) in
    let found : get_elem? (before ++ (m.entries ++ after)) (length before + length m.entries)
        ≡ some e =
      rw (sym split_, sym place) here in
    let (more, next) = next_entry before m.entries after e found in
    (
      omega (arith, at, length-append m.entries (e ∷ [])),
      inr (before, (more, (split_ ∙ next, count))),
    )

pub Covers-adds :
    (start target : ℕ) (settings : Settings) (i : ℕ) (m n : Batch) (b : SpeechBuffer)
    (e : BufferedSentence)
    → is_there i b ≡ true
    → get_elem? b.sentences (i - b.base_index) ≡ some e
    → turn target settings e m ≡ adds n
    → Covers start i m b
    → Covers start (suc i) n b
Covers-adds start target settings i m n b e inside here t c =
    subst (λ k. Covers start (suc i) k b) (turn_adds target settings e m n t).0
      (Covers-added start settings i m b e inside here c)
