-- ===== src/Tts/Buffer/Reading/Limits.antt =====
-- What a batch of `readChunk` (frontend/src/lib/tts-batch.ts) holds at most.
use mathlib.Core.Path.{subst}
use z_reader.Prelude.{
  ℕ, ◌+◌, ◌*◌, ◌≤◌, ◌≡◌, ◌⊎◌, refl, ap, inl, inr, Bool, true, false, not, ◌&&◌, List, [], ◌∷◌, ◌++◌,
  ltb, length, length-append, Bool-cases, arith,
}
use z_reader.Tts.Buffer.{Settings, BufferedSentence, max_chunk_bytes, envelope_bytes}
use z_reader.Tts.Buffer.Reading.{
  Batch, Turn, adds, stops, throws_too_large, turn, is_empty, adds_pause, time_of, bytes_of,
}

abbrev pub total_bytes : List BufferedSentence → ℕ
total_bytes [] = 0
total_bytes (e ∷ es) = e.raw_bytes + total_bytes es

abbrev pub total_time : List BufferedSentence → ℕ
total_time [] = 0
total_time (e ∷ es) = e.duration_at_base_rate * 100 + total_time es

total_bytes-append :
    (xs : List BufferedSentence) (e : BufferedSentence)
    → total_bytes (xs ++ e ∷ []) ≡ total_bytes xs + e.raw_bytes
total_bytes-append [] e = omega arith
total_bytes-append (x ∷ xs) e = omega (arith, total_bytes-append xs e)

total_time-append :
    (xs : List BufferedSentence) (e : BufferedSentence)
    → total_time (xs ++ e ∷ []) ≡ total_time xs + e.duration_at_base_rate * 100
total_time-append [] e = omega arith
total_time-append (x ∷ xs) e = omega (arith, total_time-append xs e)

-- A batch within the limits, unless it is empty; its sums are at least those of its entries.
pub record Fits (target : ℕ) (settings : Settings) (m : Batch) : Type 0 where
  pub size : (m.entries ≡ []) ⊎ (m.bytes ≤ max_chunk_bytes)
  pub duration : (length m.entries ≤ 1) ⊎ (m.time ≤ target * settings.speed)
  pub bytes : envelope_bytes + settings.voice_bytes * 6 + total_bytes m.entries ≤ m.bytes
  pub time : total_time m.entries ≤ m.time

abbrev pub added : Settings → BufferedSentence → Batch → Batch
added settings e m =
    let pauses = adds_pause m.entries e in
    record {
      entries = m.entries ++ e ∷ [];
      time = m.time + time_of settings pauses e;
      bytes = m.bytes + bytes_of pauses e;
    }

-- Whether the entry would make the batch too long, or too large.
abbrev pub is_late : ℕ → Settings → BufferedSentence → Batch → Bool
is_late target settings e m =
    not (is_empty m.entries)
    && ltb (target * settings.speed) (m.time + time_of settings (adds_pause m.entries e) e)

abbrev pub is_large : BufferedSentence → Batch → Bool
is_large e m = ltb max_chunk_bytes (m.bytes + bytes_of (adds_pause m.entries e) e)

abbrev batch_of : Batch → Turn → Batch
batch_of d (adds m) = m
batch_of d stops = d
batch_of d throws_too_large = d

abbrev is_adds : Turn → Bool
is_adds (adds m) = true
is_adds stops = false
is_adds throws_too_large = false

pub turn_adds :
    (target : ℕ) (settings : Settings) (e : BufferedSentence) (m n : Batch)
    → turn target settings e m ≡ adds n
    → (added settings e m ≡ n) × (is_late target settings e m ≡ false) × (is_large e m ≡ false)
unfolding turn
turn_adds target settings e m n h =
    let yes : is_adds (turn target settings e m) ≡ true = ap is_adds h in
    let same : batch_of m (turn target settings e m) ≡ n = ap (batch_of m) h in
    elim (Bool-cases (is_late target settings e m)) [
      | inl late ↦ absurd (ground (arith, late, yes))
      | inr early ↦ elim (Bool-cases (is_large e m)) [
        | inl large ↦ absurd (ground (arith, early, large, yes))
        | inr small ↦ (rw (early, small, turn) at same, early, small)
      ]
    ]

pub is_empty_lem : (es : List BufferedSentence) → is_empty es ≡ true → length es ≡ 0
is_empty_lem [] h = refl
is_empty_lem (x ∷ es) h = absurd (ground arith)

added-Fits :
    (target : ℕ) (settings : Settings) (e : BufferedSentence) (m : Batch)
    → is_late target settings e m ≡ false
    → is_large e m ≡ false
    → Fits target settings m
    → Fits target settings (added settings e m)
added-Fits target settings e m early small v =
    let b = total_bytes-append m.entries e in
    let t = total_time-append m.entries e in
    let l = length-append m.entries (e ∷ []) in
    record {
      size = inr (ground (arith, small));
      duration = elim (Bool-cases (is_empty m.entries)) [
        | inl empty ↦ inl (omega (arith, is_empty_lem m.entries empty, l))
        | inr more ↦ inr (ground (arith, more, early))
      ];
      bytes = omega (arith, v.bytes, b);
      time = omega (arith, v.time, t);
    }

pub turn-Fits :
    (target : ℕ) (settings : Settings) (e : BufferedSentence) (m n : Batch)
    → turn target settings e m ≡ adds n
    → Fits target settings m
    → Fits target settings n
turn-Fits target settings e m n h v =
    let (same, early, small) = turn_adds target settings e m n h in
    subst (Fits target settings) same (added-Fits target settings e m early small v)
