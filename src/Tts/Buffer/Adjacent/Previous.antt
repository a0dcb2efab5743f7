-- ===== src/Tts/Buffer/Adjacent/Previous.antt =====
-- What `adjacentSentenceIndex` (frontend/src/lib/tts-batch.ts) gives.
use mathlib.Core.Path.{subst}
use z_reader.Prelude.{
  ℕ, zero, suc, ◌+◌, ◌-◌, ◌≤◌, ◌<◌, ◌≡◌, ◌≢◌, ◌⊎◌, refl, sym, ap, ◌∙◌, inl, inr, Bool, true, false,
  some, List, get_elem?, or_else, ltb, arith, Bool-cases, Option-cases,
}
use z_reader.Tts.Buffer.{Settings, BufferedSentence, SpeechBuffer, max_slice_millis}
use z_reader.Tts.Buffer.Reading.{ensure}
use z_reader.Tts.Buffer.Reading.Keeps.{ensure-keeps, Outcome-cases}
use z_reader.Tts.Buffer.Reading.Invariant.{IsValid, step-IsValid}
use z_reader.Tts.Buffer.Adjacent.{
  is_of, skip_back, first_of, previous_index, is_pending, abandon, cursor_after, next_index,
  adjacent_sentence_index,
}

up_to :
    (test : ℕ → Bool) (low n : ℕ)
    → ((i : ℕ) → low ≤ i → i < n → test i ≡ true)
    → test n ≡ true
    → (i : ℕ) → low ≤ i
    → i < suc n
    → test i ≡ true
up_to test low n below here i a b = elim (Bool-cases (ltb i n)) [
  | inl under ↦ below i a (ground (arith, under))
  | inr over ↦ let same : i ≡ n = ground (arith, over, b) in ap test same ∙ here
]

-- The entry before `n` that is not of the sentence, and those between.
skip_back_lem :
    (es : List BufferedSentence) (source n c : ℕ)
    → skip_back es source n ≡ some c
    → (c < n) × (is_of es source c ≡ false) × ((i : ℕ) → c < i → i < n → is_of es source i ≡ true)
unfolding skip_back
skip_back_lem es source zero c h = absurd (ground (arith, h))
skip_back_lem es source (suc n) c h = elim (Bool-cases (is_of es source n)) [
  | inl same ↦
      let r = skip_back_lem es source n c (rw (same, skip_back) at h) in
      (omega (arith, r.0), r.1, up_to (is_of es source) (suc c) n r.2 same)
  | inr other ↦
      let here : n ≡ c = ap (λ o. or_else o n) (rw (other, skip_back) at h) in
      (
        omega (arith, here),
        ap (is_of es source) (sym here) ∙ other,
        λ i a b. absurd (omega (arith, a, b, here)),
      )
]

first_of_lem :
    (es : List BufferedSentence) (source n : ℕ)
    → (first_of es source n ≤ n)
      × ((i : ℕ) → first_of es source n ≤ i → i < n → is_of es source i ≡ true)
      × ((first_of es source n ≡ 0) ⊎ (is_of es source (first_of es source n - 1) ≡ false))
unfolding first_of
first_of_lem es source zero = (omega arith, λ i a b. absurd (omega (arith, b)), inl refl)
first_of_lem es source (suc n) = elim (Bool-cases (is_of es source n)) [
  | inl same ↦
      let r = first_of_lem es source n in
      rw (same, first_of)
        (omega (arith, r.0), up_to (is_of es source) (first_of es source n) n r.1 same, r.2)
  | inr other ↦
      rw (other, first_of)
        (
          omega arith,
          λ i a b. absurd (omega (arith, a, b)),
          inr (ap (is_of es source) (omega arith) ∙ other),
        )
]

-- The entry at `r` is the first that the buffer has of the sentence before the one of the entry at an
-- index; `cursor` is the place of the last entry of that sentence before.
pub record IsPrevious (index source : ℕ) (b : SpeechBuffer) (r : ℕ) : Type 0 where
  pub other : ℕ
  pub cursor : ℕ
  pub differs : other ≢ source
  pub start : b.base_index ≤ r
  pub order : r ≤ b.base_index + cursor
  pub below : b.base_index + cursor < index
  pub own : (i : ℕ) → r ≤ b.base_index + i → i ≤ cursor → is_of b.sentences other i ≡ true
  pub between : (i : ℕ) → cursor < i → b.base_index + i < index → is_of b.sentences source i ≡ true
  pub beginning : (r ≡ b.base_index) ⊎ (is_of b.sentences other (r - b.base_index - 1) ≡ false)

found-IsPrevious :
    (index source c : ℕ) (b : SpeechBuffer) (e : BufferedSentence)
    → skip_back b.sentences source (index - b.base_index) ≡ some c
    → get_elem? b.sentences c ≡ some e
    → IsPrevious index source b (b.base_index + first_of b.sentences e.source_index c)
found-IsPrevious index source c b e skipped here =
    let s = skip_back_lem b.sentences source (index - b.base_index) c skipped in
    let f = first_of_lem b.sentences e.source_index c in
    let at_c : is_of b.sentences e.source_index c ≡ true = rw (here, is_of) (ground arith) in
    record {
      other = e.source_index;
      cursor = c;
      differs = λ same. absurd (ground (arith, ap (λ k. is_of b.sentences k c) same, at_c, s.1));
      start = omega arith;
      order = omega (arith, f.0);
      below = omega (arith, s.0);
      own = λ i a l.
          up_to (is_of b.sentences e.source_index) (first_of b.sentences e.source_index c) c f.1
            at_c i (omega (arith, a)) (omega (arith, l));
      between = λ i a l. s.2 i a (omega (arith, l));
      beginning = elim f.2 [
        | inl none_ ↦ inl (omega (arith, none_))
        | inr stops ↦ inr (ap (is_of b.sentences e.source_index) (omega arith) ∙ stops)
      ];
    }

-- When `adjacentSentenceIndex` goes back from an entry of a sentence and gives an index, then that is
-- the first entry in the buffer of the run of the sentence before: all entries between are of one of
-- the two sentences, and the entry before the first one, if the buffer has one, is not of the sentence
-- before.
pub previous_index-IsPrevious :
    (index source : ℕ) (b : SpeechBuffer) (r : ℕ)
    → previous_index index source b ≡ some r
    → IsPrevious index source b r
unfolding previous_index
previous_index-IsPrevious index source b r h =
    elim (Option-cases (skip_back b.sentences source (index - b.base_index))) [
      | inl nothing ↦ absurd (ground (arith, rw (nothing, previous_index) at h))
      | inr (c, skipped) ↦ elim (Option-cases (get_elem? b.sentences c)) [
        | inl gone ↦ absurd (ground (arith, rw (skipped, gone, previous_index) at h))
        | inr (e, here) ↦
            let same : b.base_index + first_of b.sentences e.source_index c ≡ r =
              ap (λ o. or_else o r) (rw (skipped, here, previous_index) at h) in
            subst (IsPrevious index source b) same
              (found-IsPrevious index source c b e skipped here)
      ]
    ]

abandon-IsValid : (source : ℕ) (b : SpeechBuffer) → IsValid b → IsValid (abandon source b)
unfolding abandon
abandon-IsValid source b v = elim (Bool-cases (is_pending source b.pending)) [
  | inl half ↦ rw (half, abandon) (record { joined = tt; room = tt; texts = v.texts })
  | inr whole ↦ rw (whole, abandon) v
]

next_index-IsValid :
    (fuel cursor source : ℕ) (settings : Settings) (b : SpeechBuffer)
    → IsValid b
    → IsValid (next_index fuel cursor source settings b).0
unfolding next_index
next_index-IsValid zero cursor source settings b v = v
next_index-IsValid (suc fuel) cursor source settings b v =
    let w =
      ensure-keeps IsValid max_slice_millis settings (step-IsValid max_slice_millis settings)
        (suc fuel) cursor b v in
    let b' = (ensure (suc fuel) cursor max_slice_millis settings b).0 in
    elim (Outcome-cases (ensure (suc fuel) cursor max_slice_millis settings b).1) [
      | inr (inl e) ↦ rw (e, next_index) w
      | inr (inr e) ↦ rw (e, next_index) w
      | inl (there, e) ↦ elim (Bool-cases there) [
        | inr missing ↦ rw (e, missing, next_index) w
        | inl found ↦ elim (Bool-cases (is_of b'.sentences source (cursor - b'.base_index))) [
          | inr other ↦ rw (e, found, other, next_index) w
          | inl same ↦
              rw (e, found, same, next_index)
                (next_index-IsValid fuel (suc cursor) source settings b' w)
        ]
      ]
    ]

-- `adjacentSentenceIndex` keeps a buffer valid, also when it gives up the rest of a long sentence.
pub adjacent-IsValid :
    (fuel index : ℕ) (forward : Bool) (settings : Settings) (b : SpeechBuffer)
    → IsValid b
    → IsValid (adjacent_sentence_index fuel index forward settings b).0
unfolding adjacent_sentence_index
adjacent-IsValid fuel index forward settings b v =
    let w =
      ensure-keeps IsValid max_slice_millis settings (step-IsValid max_slice_millis settings) fuel
        index b v in
    let b' = (ensure fuel index max_slice_millis settings b).0 in
    elim (Outcome-cases (ensure fuel index max_slice_millis settings b).1) [
      | inr (inl e) ↦ rw (e, adjacent_sentence_index) w
      | inr (inr e) ↦ rw (e, adjacent_sentence_index) w
      | inl (there, e) ↦ elim (Bool-cases there) [
        | inr missing ↦ rw (e, missing, adjacent_sentence_index) w
        | inl found ↦ elim (Option-cases (get_elem? b'.sentences (index - b'.base_index))) [
          | inl nothing ↦ rw (e, found, nothing, adjacent_sentence_index) w
          | inr (x, here) ↦ elim (Bool-cases forward) [
            | inr back ↦ rw (e, found, here, back, adjacent_sentence_index) w
            | inl on ↦
                rw (e, found, here, on, adjacent_sentence_index)
                  (next_index-IsValid fuel (cursor_after index x.source_index b') x.source_index
                    settings (abandon x.source_index b') (abandon-IsValid x.source_index b' w))
          ]
        ]
      ]
    ]
