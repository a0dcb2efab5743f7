-- ===== src/Tts/Buffer/Adjacent.antt =====
-- `adjacentSentenceIndex` of `TTSSpeechBuffer` (frontend/src/lib/tts-batch.ts): the index of the next or
-- the previous sentence, where one sentence can have several entries.
pub mod Previous
use mathlib.Core.Path.{subst}
use z_reader.Prelude.{
  ℕ, zero, suc, ◌+◌, ◌-◌, ◌≤◌, ◌<◌, ◌≡◌, ◌≢◌, ◌⊎◌, refl, sym, ap, ◌∙◌, inl, inr, Bool, true, false,
  Option, none, some, List, [], if◌then◌else◌, ◌==◌, length, get_elem?, or_else, ltb, arith,
  Bool-cases, Option-cases,
}
use z_reader.Tts.Buffer.{
  Settings, BufferedSentence, PendingSentence, SpeechBuffer, max_slice_millis,
}
use z_reader.Tts.Buffer.Reading.{Outcome, returns, throws, unfinished, ensure}
use z_reader.Tts.Buffer.Reading.Keeps.{ensure-keeps, Outcome-cases}
use z_reader.Tts.Buffer.Reading.Invariant.{IsValid, step-IsValid}

-- Whether the entry at a place of the buffer is of a sentence.
abbrev pub is_of : List BufferedSentence → ℕ → ℕ → Bool
is_of es source i = elim (get_elem? es i) [ none ↦ false | some e ↦ e.source_index == source ]

-- The last entry before the `n`-th that is not of the sentence.
unfoldable pub skip_back : List BufferedSentence → ℕ → ℕ → Option ℕ
skip_back es source zero = none
skip_back es source (suc n) = elim (is_of es source n) [
  | true ↦ skip_back es source n
  | false ↦ some n
]

-- The first of the entries of the sentence that end before the `n`-th one.
unfoldable pub first_of : List BufferedSentence → ℕ → ℕ → ℕ
first_of es source zero = zero
first_of es source (suc n) = elim (is_of es source n) [
  | true ↦ first_of es source n
  | false ↦ suc n
]

unfoldable pub previous_index : ℕ → ℕ → SpeechBuffer → Option ℕ
unfolding skip_back first_of
previous_index index source b = elim (skip_back b.sentences source (index - b.base_index)) [
  | none ↦ none
  | some cursor ↦ elim (get_elem? b.sentences cursor) [
    | none ↦ none
    | some e ↦ some (b.base_index + first_of b.sentences e.source_index cursor)
  ]
]

abbrev pub is_pending : ℕ → Option PendingSentence → Bool
is_pending source none = false
is_pending source (some p) = p.source_index == source

-- The rest of a sentence that is left is given up with the entries that are there.
unfoldable pub abandon : ℕ → SpeechBuffer → SpeechBuffer
abandon source b =
    if is_pending source b.pending
    then record b { base_index = b.base_index + length b.sentences; sentences = []; pending = none }
    else b

abbrev pub cursor_after : ℕ → ℕ → SpeechBuffer → ℕ
cursor_after index source b =
    if is_pending source b.pending then b.base_index + length b.sentences else index + 1

unfoldable pub next_index : ℕ → ℕ → ℕ → Settings → SpeechBuffer → SpeechBuffer × Outcome (Option ℕ)
unfolding ensure
next_index zero cursor source settings b = (b, unfinished)
next_index (suc fuel) cursor source settings b =
    let (b', found) = ensure (suc fuel) cursor max_slice_millis settings b in
    elim found [
      | unfinished ↦ (b', unfinished)
      | throws ↦ (b', throws)
      | returns there ↦ elim there [
        | false ↦ (b', returns none)
        | true ↦ elim (is_of b'.sentences source (cursor - b'.base_index)) [
          | false ↦ (b', returns (some cursor))
          | true ↦ next_index fuel (suc cursor) source settings b'
        ]
      ]
    ]

unfoldable pub adjacent_sentence_index :
    ℕ → ℕ → Bool → Settings → SpeechBuffer → SpeechBuffer × Outcome (Option ℕ)
unfolding ensure previous_index abandon next_index
adjacent_sentence_index fuel index forward settings b =
    let (b', found) = ensure fuel index max_slice_millis settings b in
    elim found [
      | unfinished ↦ (b', unfinished)
      | throws ↦ (b', throws)
      | returns there ↦ elim there [
        | false ↦ (b', returns none)
        | true ↦ elim (get_elem? b'.sentences (index - b'.base_index)) [
          | none ↦ (b', throws)
          | some e ↦ elim forward [
            | true ↦
                next_index fuel (cursor_after index e.source_index b') e.source_index settings
                  (abandon e.source_index b')
            | false ↦ (b', returns (previous_index index e.source_index b'))
          ]
        ]
      ]
    ]
