-- ===== src/Tts/Buffer/Reading/Finishes.antt =====
-- The loops of `ensure` and `readChunk` (frontend/src/lib/tts-batch.ts) end.
use mathlib.Core.Path.{subst}
use z_reader.Prelude.{
  ℕ, zero, suc, ◌+◌, ◌*◌, ◌-◌, ◌≤◌, ◌<◌, ◌≡◌, ◌≢◌, refl, inl, inr, Bool, true, ◌||◌, List, leb, ltb,
  ◌==◌, get_elem?, length-drop, max, Bool-cases, Option-cases, arith,
}
use z_reader.Tts.Buffer.{Settings, BufferedSentence, SpeechBuffer, max_chunk_bytes}
use z_reader.Tts.Buffer.Reading.{
  Outcome, returns, throws, unfinished, continues, ends, step_from, is_there, reads_on, ensure,
  Batch, turn, collect, first_batch, expire, read_chunk, finish_chunk, is_empty,
}
use z_reader.Tts.Buffer.Reading.Keeps.{
  EndsEmpty, step_from-EndsEmpty, Outcome-cases, Turn-cases, Step-cases, ensure_lem,
}
use z_reader.Tts.Buffer.Reading.Invariant.{IsValid, step_from-IsValid, expire-IsValid}
use z_reader.Tts.Buffer.Reading.Work.{work, extent, Shrinks, step_from-Shrinks}

abbrev Finishes : {A : Type 0} → Outcome A → Type 0
Finishes (returns a) = Unit
Finishes throws = Unit
Finishes unfinished = ⊥

-- A valid buffer with no more to do than before, and a result.
abbrev Settles : {A : Type 0} → SpeechBuffer → SpeechBuffer × Outcome A → Type 0
Settles b r =
    IsValid r.0 × (work r.0 ≤ work b) × (work r.0 + extent r.0 ≤ work b + extent b) × Finishes r.1

ended :
    (b b' : SpeechBuffer) (o : Outcome Bool)
    → EndsEmpty (ends o)
    → Shrinks b b' (ends o)
    → IsValid b'
    → Settles b (b', o)
ended b b' (returns t) e s v = (v, s.0, s.1, tt)
ended b b' throws e s v = (v, s.0, s.1, tt)
ended b b' unfinished e s v = (v, s.0, s.1, absurd e)

ensure-Settles :
    (fuel index target : ℕ) (settings : Settings) (b : SpeechBuffer)
    → work b < fuel
    → IsValid b
    → Settles b (ensure fuel index target settings b)
unfolding ensure
ensure-Settles zero index target settings b enough v = absurd (omega (arith, enough))
ensure-Settles (suc fuel) index target settings b enough v = elim (Bool-cases (reads_on index b)) [
  | inr stop ↦ rw (stop, ensure) (v, omega arith, omega arith, tt)
  | inl on ↦
      let b' = (step_from target settings b b.pending b.source).0 in
      let s =
        step_from-Shrinks target settings b b.pending b.source refl refl (ground (arith, on)) v in
      let w = step_from-IsValid target settings b b.pending b.source refl refl v in
      let e = step_from-EndsEmpty target settings b b.pending b.source in
      elim (Step-cases (step_from target settings b b.pending b.source).1) [
        | inl goes ↦
            let less : Shrinks b b' continues = rw goes at s in
            let rest =
              ensure-Settles fuel index target settings b' (omega (arith, less.0, enough)) w in
            rw (on, goes, ensure)
              (rest.0, omega (arith, rest.1, less.0), omega (arith, rest.2, less.1), rest.3)
        | inr (o, over) ↦ rw (on, over, ensure) (ended b b' o (rw over at e) (rw over at s) w)
      ]
]

collect-Finishes :
    (fuel index target : ℕ) (settings : Settings) (m : Batch) (b : SpeechBuffer)
    → index ≤ extent b
    → work b + extent b < fuel + index
    → IsValid b
    → Finishes (collect fuel index target settings m b).1
unfolding collect
collect-Finishes zero index target settings m b low enough v = absurd (omega (arith, low, enough))
collect-Finishes (suc fuel) index target settings m b low enough v =
    let r = ensure-Settles (suc fuel) index target settings b (omega (arith, low, enough)) v in
    let holds = ensure_lem (suc fuel) index target settings b in
    let b' = (ensure (suc fuel) index target settings b).0 in
    elim (Outcome-cases (ensure (suc fuel) index target settings b).1) [
      | inr (inl e) ↦ rw (e, collect) tt
      | inr (inr e) ↦ absurd (rw e at r.3)
      | inl (there, e) ↦ elim (Bool-cases there) [
        | inr missing ↦ rw (e, missing, collect) tt
        | inl found ↦
            let inside : is_there index b' ≡ true = (rw e at holds) found in
            let below : index < extent b' = ground (arith, inside) in
            elim (Option-cases (get_elem? b'.sentences (index - b'.base_index))) [
              | inl nothing ↦ rw (e, found, nothing, collect) tt
              | inr (x, here) ↦ elim (Turn-cases (turn target settings x m)) [
                | inr (inl t) ↦ rw (e, found, here, t, collect) tt
                | inr (inr t) ↦ rw (e, found, here, t, collect) tt
                | inl (more, t) ↦ elim (Bool-cases (leb (target * settings.speed) more.time)) [
                  | inl full ↦ rw (e, found, here, t, full, collect) tt
                  | inr room ↦
                      rw (e, found, here, t, room, collect)
                        (collect-Finishes fuel (suc index) target settings more b'
                          (omega (arith, below)) (omega (arith, r.2, enough)) r.0)
                ]
              ]
            ]
      ]
    ]

expire-extent :
    (start : ℕ) (b : SpeechBuffer)
    → start < extent b
    → (work (expire start b) ≡ work b) × (extent (expire start b) ≡ extent b)
unfolding expire
expire-extent start b below = (
  refl,
  omega (arith, below, length-drop (max b.base_index (start - 256) - b.base_index) b.sentences),
)

finish_chunk-Finishes :
    (size : List BufferedSentence → ℕ) (start : ℕ) (m : Batch) (b : SpeechBuffer)
    → Finishes (finish_chunk size start m b)
unfolding finish_chunk
finish_chunk-Finishes size start m b = elim (Bool-cases (b.is_disposed || is_empty m.entries)) [
  | inl nothing ↦ rw (nothing, finish_chunk) tt
  | inr some_ ↦ elim (Bool-cases (ltb max_chunk_bytes (size m.entries))) [
    | inl large ↦ rw (some_, large, finish_chunk) tt
    | inr small ↦ rw (some_, small, finish_chunk) tt
  ]
]

read_chunk-Finishes :
    (fuel : ℕ) (size : List BufferedSentence → ℕ) (start target : ℕ) (settings : Settings)
    (b : SpeechBuffer)
    → work b + extent b < fuel
    → IsValid b
    → Finishes (read_chunk fuel size start target settings b).1
unfolding read_chunk
read_chunk-Finishes fuel size start target settings b enough v =
    let r = ensure-Settles fuel start target settings b (omega (arith, enough)) v in
    let holds = ensure_lem fuel start target settings b in
    let b' = (ensure fuel start target settings b).0 in
    elim (Bool-cases (target == 0)) [
      | inl nothing ↦ rw (nothing, read_chunk) tt
      | inr some_ ↦ elim (Outcome-cases (ensure fuel start target settings b).1) [
        | inr (inl e) ↦ rw (some_, e, read_chunk) tt
        | inr (inr e) ↦ absurd (rw e at r.3)
        | inl (there, e) ↦ elim (Bool-cases there) [
          | inr missing ↦ rw (some_, e, missing, read_chunk) tt
          | inl found ↦
              let inside : is_there start b' ≡ true = (rw e at holds) found in
              let below : start < extent b' = ground (arith, inside) in
              let same = expire-extent start b' below in
              let c =
                collect-Finishes fuel start target settings (first_batch settings) (expire start b')
                  (omega (arith, same.1, below)) (omega (arith, same, r.2, enough))
                  (expire-IsValid start b' r.0) in
              elim (Outcome-cases
                (collect fuel start target settings (first_batch settings) (expire start b')).1) [
                  | inr (inl g) ↦ rw (some_, e, found, g, read_chunk) tt
                  | inr (inr g) ↦ absurd (rw g at c)
                  | inl (m, g) ↦
                      rw (some_, e, found, g, read_chunk)
                        (finish_chunk-Finishes size start m
                          (collect fuel start target settings (first_batch settings)
                            (expire start b')).0)
                ]
        ]
      ]
    ]

-- `readChunk` of a valid buffer ends: with fuel for the text that is left and the entries that are
-- there, it returns or throws.
pub read_chunk_finishes :
    (fuel : ℕ) (size : List BufferedSentence → ℕ) (start target : ℕ) (settings : Settings)
    (b : SpeechBuffer)
    → work b + extent b < fuel
    → IsValid b
    → (read_chunk fuel size start target settings b).1 ≢ unfinished
read_chunk_finishes fuel size start target settings b enough v h =
    subst Finishes h (read_chunk-Finishes fuel size start target settings b enough v)
