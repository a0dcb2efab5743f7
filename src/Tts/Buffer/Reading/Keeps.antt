-- ===== src/Tts/Buffer/Reading/Keeps.antt =====
-- What every turn of `ensure` keeps, `readChunk` keeps (frontend/src/lib/tts-batch.ts).
use z_reader.Prelude.{
  ℕ, zero, suc, ◌*◌, ◌-◌, ◌≡◌, ◌⊎◌, refl, inl, inr, Bool, true, false, Option, none, some, List, [],
  ◌∷◌, leb, ◌==◌, get_elem?, Bool-cases, Option-cases, arith,
}
use z_reader.Tts.Buffer.{
  Settings, BufferedSentence, PendingSentence, Answer, gives, fails, disposes, SpeechBuffer,
}
use z_reader.Tts.Buffer.Slices.{append_next}
use z_reader.Tts.Buffer.Reading.{
  Outcome, returns, throws, appended, is_there, unfinished, Step, continues, ends, step_from,
  reads_on, ensure, Batch, Turn, adds, stops, throws_too_large, turn, collect, first_batch, expire,
  read_chunk,
}

pub Step-cases : (s : Step) → (s ≡ continues) ⊎ ((o : Outcome Bool) × (s ≡ ends o))
Step-cases continues = inl refl
Step-cases (ends o) = inr (o, refl)

pub Outcome-cases {ℓ} :
    {A : Type ℓ} (o : Outcome A) → ((a : A) × (o ≡ returns a)) ⊎ ((o ≡ throws) ⊎ (o ≡ unfinished))
Outcome-cases (returns a) = inl (a, refl)
Outcome-cases throws = inr (inl refl)
Outcome-cases unfinished = inr (inr refl)

pub Turn-cases : (t : Turn) → ((m : Batch) × (t ≡ adds m)) ⊎ ((t ≡ stops) ⊎ (t ≡ throws_too_large))
Turn-cases (adds m) = inl (m, refl)
Turn-cases stops = inr (inl refl)
Turn-cases throws_too_large = inr (inr refl)

abbrev pub Returned : {A : Type 0} → (A → Type 0) → Outcome A → Type 0
Returned P (returns a) = P a
Returned P throws = Unit
Returned P unfinished = Unit

-- A turn that ends the loop does so without the entry, and for good.
abbrev pub EndsEmpty : Step → Type 0
EndsEmpty continues = Unit
EndsEmpty (ends (returns t)) = t ≡ false
EndsEmpty (ends throws) = Unit
EndsEmpty (ends unfinished) = ⊥

appended-EndsEmpty : (b : SpeechBuffer) (o : Option SpeechBuffer) → EndsEmpty (appended b o).1
appended-EndsEmpty b none = tt
appended-EndsEmpty b (some b') = tt

pub step_from-EndsEmpty :
    (target : ℕ) (settings : Settings) (b : SpeechBuffer) (pending : Option PendingSentence)
    (source : List Answer)
    → EndsEmpty (step_from target settings b pending source).1
unfolding step_from
step_from-EndsEmpty target settings b (some p) source =
    appended-EndsEmpty b (append_next target settings p b)
step_from-EndsEmpty target settings b none [] = tt
step_from-EndsEmpty target settings b none (gives s ∷ source) = tt
step_from-EndsEmpty target settings b none (fails ∷ source) = tt
step_from-EndsEmpty target settings b none (disposes ∷ source) = refl

-- What `ensure` returns.
pub ensure_lem :
    (fuel index target : ℕ) (settings : Settings) (b : SpeechBuffer)
    → Returned
        (λ t. t ≡ true → is_there index (ensure fuel index target settings b).0 ≡ true)
        (ensure fuel index target settings b).1
unfolding ensure
ensure_lem zero index target settings b = tt
ensure_lem (suc fuel) index target settings b = elim (Bool-cases (reads_on index b)) [
  | inr stop ↦ rw (stop, ensure) (λ h. h)
  | inl on ↦
      let empty = step_from-EndsEmpty target settings b b.pending b.source in
      let b' = (step_from target settings b b.pending b.source).0 in
      elim (Step-cases (step_from target settings b b.pending b.source).1) [
        | inl goes ↦ rw (on, goes, ensure) (ensure_lem fuel index target settings b')
        | inr (o, over) ↦ rw (on, over, ensure) (ended b' o (rw over at empty))
      ]
]
  where
    ended :
        (b' : SpeechBuffer) (o : Outcome Bool)
        → EndsEmpty (ends o)
        → Returned (λ t. t ≡ true → is_there index b' ≡ true) o
    ended b' (returns t) h = λ e. absurd (ground (arith, h, e))
    ended b' throws h = tt
    ended b' unfinished h = tt

module _ (P : SpeechBuffer → Type 0) (target : ℕ) (settings : Settings)
    (step : (b : SpeechBuffer) → P b → P (step_from target settings b b.pending b.source).0) where
  pub ensure-keeps :
      (fuel index : ℕ) (b : SpeechBuffer) → P b → P (ensure fuel index target settings b).0
  unfolding ensure
  ensure-keeps zero index b v = v
  ensure-keeps (suc fuel) index b v = elim (Bool-cases (reads_on index b)) [
    | inr stop ↦ rw (stop, ensure) v
    | inl on ↦ elim (Step-cases (step_from target settings b b.pending b.source).1) [
      | inl goes ↦
          rw (on, goes, ensure)
            (ensure-keeps fuel index (step_from target settings b b.pending b.source).0 (step b v))
      | inr (o, over) ↦ rw (on, over, ensure) (step b v)
    ]
  ]

  pub collect-keeps :
      (fuel index : ℕ) (batch : Batch) (b : SpeechBuffer)
      → P b
      → P (collect fuel index target settings batch b).0
  unfolding collect
  collect-keeps zero index batch b v = v
  collect-keeps (suc fuel) index batch b v =
      let w = ensure-keeps (suc fuel) index b v in
      let b' = (ensure (suc fuel) index target settings b).0 in
      elim (Outcome-cases (ensure (suc fuel) index target settings b).1) [
        | inr (inl e) ↦ rw (e, collect) w
        | inr (inr e) ↦ rw (e, collect) w
        | inl (there, e) ↦ elim (Bool-cases there) [
          | inr missing ↦ rw (e, missing, collect) w
          | inl found ↦ elim (Option-cases (get_elem? b'.sentences (index - b'.base_index))) [
            | inl nothing ↦ rw (e, found, nothing, collect) w
            | inr (x, here) ↦ elim (Turn-cases (turn target settings x batch)) [
              | inr (inl t) ↦ rw (e, found, here, t, collect) w
              | inr (inr t) ↦ rw (e, found, here, t, collect) w
              | inl (more, t) ↦ elim (Bool-cases (leb (target * settings.speed) more.time)) [
                | inl full ↦ rw (e, found, here, t, full, collect) w
                | inr room ↦
                    rw (e, found, here, t, room, collect) (collect-keeps fuel (suc index) more b' w)
              ]
            ]
          ]
        ]
      ]

  pub read_chunk-keeps :
      (start : ℕ)
      → ((b : SpeechBuffer) → P b → P (expire start b))
      → (fuel : ℕ) (size : List BufferedSentence → ℕ) (b : SpeechBuffer) → P b
      → P (read_chunk fuel size start target settings b).0
  unfolding read_chunk
  read_chunk-keeps start expires fuel size b v =
      let b' = (ensure fuel start target settings b).0 in
      let w = ensure-keeps fuel start b v in
      let u = collect-keeps fuel start (first_batch settings) (expire start b') (expires b' w) in
      elim (Bool-cases (target == 0)) [
        | inl nothing ↦ rw (nothing, read_chunk) v
        | inr some_ ↦ elim (Outcome-cases (ensure fuel start target settings b).1) [
          | inr (inl e) ↦ rw (some_, e, read_chunk) w
          | inr (inr e) ↦ rw (some_, e, read_chunk) w
          | inl (there, e) ↦ elim (Bool-cases there) [
            | inr missing ↦ rw (some_, e, missing, read_chunk) w
            | inl found ↦
                elim (Outcome-cases
                  (collect fuel start target settings (first_batch settings) (expire start b')).1) [
                    | inr (inl c) ↦ rw (some_, e, found, c, read_chunk) u
                    | inr (inr c) ↦ rw (some_, e, found, c, read_chunk) u
                    | inl (batch, c) ↦ rw (some_, e, found, c, read_chunk) u
                  ]
          ]
        ]
      ]

-- What holds of a batch and the buffer at an index, when every wait keeps it and every entry that is
-- added moves it to the next index, holds of the batch that `collect` returns.
module _ (Q : ℕ → Batch → SpeechBuffer → Type 0) (target : ℕ) (settings : Settings)
    (step : (i : ℕ) (m : Batch) (b : SpeechBuffer)
      → Q i m b
      → Q i m (step_from target settings b b.pending b.source).0)
    (add : (i : ℕ) (m n : Batch) (b : SpeechBuffer) (e : BufferedSentence)
      → is_there i b ≡ true
      → get_elem? b.sentences (i - b.base_index) ≡ some e
      → turn target settings e m ≡ adds n
      → Q i m b
      → Q (suc i) n b) where
  pub collect-Returned :
      (fuel i : ℕ) (m : Batch) (b : SpeechBuffer)
      → Q i m b
      → Returned
          (λ n. (j : ℕ) × Q j n (collect fuel i target settings m b).0)
          (collect fuel i target settings m b).1
  unfolding collect
  collect-Returned zero i m b v = tt
  collect-Returned (suc fuel) i m b v =
      let w = ensure-keeps (Q i m) target settings (step i m) (suc fuel) i b v in
      let b' = (ensure (suc fuel) i target settings b).0 in
      let holds = ensure_lem (suc fuel) i target settings b in
      elim (Outcome-cases (ensure (suc fuel) i target settings b).1) [
        | inr (inl e) ↦ rw (e, collect) tt
        | inr (inr e) ↦ rw (e, collect) tt
        | inl (there, e) ↦ elim (Bool-cases there) [
          | inr missing ↦ rw (e, missing, collect) (i, w)
          | inl found ↦
              let inside : is_there i b' ≡ true = (rw e at holds) found in
              elim (Option-cases (get_elem? b'.sentences (i - b'.base_index))) [
                | inl nothing ↦ rw (e, found, nothing, collect) tt
                | inr (x, here) ↦ elim (Turn-cases (turn target settings x m)) [
                  | inr (inl t) ↦ rw (e, found, here, t, collect) (i, w)
                  | inr (inr t) ↦ rw (e, found, here, t, collect) tt
                  | inl (more, t) ↦
                      let u = add i m more b' x inside here t w in
                      elim (Bool-cases (leb (target * settings.speed) more.time)) [
                        | inl full ↦ rw (e, found, here, t, full, collect) (suc i, u)
                        | inr room ↦
                            rw (e, found, here, t, room, collect)
                              (collect-Returned fuel (suc i) more b' u)
                      ]
                ]
              ]
        ]
      ]
