-- ===== src/Tts/Buffer/Slices/Bounds.antt =====
-- How far a slice of `appendNext` (frontend/src/lib/tts-batch.ts) can go.
use z_reader.Prelude.{
  ◌≡◌, false, refl, ℕ, zero, suc, ◌+◌, ◌-◌, ◌*◌, ◌/◌, ◌≤◌, ◌<◌, arith, inl, inr, min, max, Bool,
  ◌&&◌, List, [], ◌∷◌, ltb, leb, length, Bool-cases,
}
use z_reader.Tts.Batch.{search_loop}
use z_reader.Tts.Buffer.{
  Atomic, Sentence, PendingSentence, max_chunk_bytes, envelope_bytes, fits_in, offset_at,
}
use z_reader.Tts.Buffer.Slices.{
  atomics_after, grow, last_fit, spare_atomic, halve, slice_fits, longest_fit, slice_bytes,
  slice_end,
}

grow_bounds :
    (fits : ℕ → Bool) (position n fuel high : ℕ)
    → position < n
    → position < high
    → high ≤ n
    → (position < grow fits position n fuel high) × (grow fits position n fuel high ≤ n)
unfolding grow
grow_bounds fits position n zero high room above below = (above, below)
grow_bounds fits position n (suc fuel) high room above below =
    elim (Bool-cases (ltb high n && fits high)) [
      | inr stop ↦ rw (stop, grow) (above, below)
      | inl on ↦
          rw (on, grow)
            (grow_bounds fits position n fuel (min n (position + (high - position) * 2)) room
              (omega (arith, room, above)) (omega arith))
    ]

last_fit_bounds :
    (fits : ℕ → Bool) (position n fuel low high best : ℕ)
    → position < low
    → high ≤ n
    → position ≤ best
    → best ≤ n
    → (position ≤ last_fit fits fuel low high best) × (last_fit fits fuel low high best ≤ n)
unfolding last_fit
last_fit_bounds fits position n zero low high best a b c d = (c, d)
last_fit_bounds fits position n (suc fuel) low high best a b c d =
    elim (Bool-cases (leb low high)) [
      | inr stop ↦ rw (stop, last_fit) (c, d)
      | inl on ↦
          let le : low ≤ high = ground (arith, on) in
          elim (Bool-cases (fits ((low + high) / 2))) [
            | inl fit ↦
                rw (on, fit, last_fit)
                  (last_fit_bounds fits position n fuel ((low + high) / 2 + 1) high
                    ((low + high) / 2) (omega (arith, a, le)) b (omega (arith, a, le))
                    (omega (arith, b, le)))
            | inr long ↦
                rw (on, long, last_fit)
                  (last_fit_bounds fits position n fuel low ((low + high) / 2 - 1) best a
                    (omega (arith, b, le)) c d)
          ]
    ]

search_loop_bounds :
    (hits : ℕ → Bool) (fuel low high : ℕ)
    → low ≤ high
    → (low ≤ search_loop hits fuel low high) × (search_loop hits fuel low high ≤ high)
unfolding search_loop
search_loop_bounds hits zero low high le = (omega arith, le)
search_loop_bounds hits (suc fuel) low high le = elim (Bool-cases (ltb low high)) [
  | inr stop ↦ rw (stop, search_loop) (omega arith, le)
  | inl on ↦
      let lt : low < high = ground (arith, on) in
      elim (Bool-cases (hits ((low + high) / 2))) [
        | inl hit ↦
            let r = search_loop_bounds hits fuel low ((low + high) / 2) (omega (arith, lt)) in
            rw (on, hit, search_loop) (r.0, omega (arith, r.1, lt))
        | inr miss ↦
            let r = search_loop_bounds hits fuel ((low + high) / 2 + 1) high (omega (arith, lt)) in
            rw (on, miss, search_loop) (omega (arith, r.0, lt), r.1)
      ]
]

spare_bounds :
    (s : Sentence) (fits : ℕ → Bool) (position best : ℕ) (more : List Atomic)
    → position < best
    → (position < spare_atomic s fits position best more)
      × (spare_atomic s fits position best more ≤ best)
unfolding spare_atomic
spare_bounds s fits position best [] lt = (lt, omega arith)
spare_bounds s fits position best (a ∷ more) lt =
    let rest = spare_bounds s fits position best more lt in
    let r =
      search_loop_bounds (λ i. leb a.start (offset_at s.lengths i)) best (position + 1) best
        (omega (arith, lt)) in
    ground (arith, rest, r, lt)

halve_bounds :
    (bytes : ℕ → ℕ) (position fuel best : ℕ)
    → position < best
    → (position < halve bytes position fuel best) × (halve bytes position fuel best ≤ best)
unfolding halve
halve_bounds bytes position zero best lt = (lt, omega arith)
halve_bounds bytes position (suc fuel) best lt =
    elim (Bool-cases
      (ltb (max_chunk_bytes - envelope_bytes) (bytes best) && ltb (position + 1) best)) [
        | inr stop ↦ rw (stop, halve) (lt, omega arith)
        | inl on ↦
            let wide : position + 1 < best = ground (arith, on) in
            let r =
              halve_bounds bytes position fuel (position + max 1 ((best - position) / 2))
                (omega arith) in
            rw (on, halve) (r.0, omega (arith, r.1, wide))
      ]

longest_fit_bounds :
    (speed budget : ℕ) (p : PendingSentence)
    → p.position < length p.sentence.lengths
    → (p.position < longest_fit speed budget p)
      × (longest_fit speed budget p ≤ length p.sentence.lengths)
unfolding longest_fit
longest_fit_bounds speed budget p room =
    let n = length p.sentence.lengths in
    let g =
      grow_bounds (slice_fits speed budget p) p.position n n (min n (p.position + 64)) room
        (omega (arith, room)) (omega arith) in
    let high = grow (slice_fits speed budget p) p.position n n (min n (p.position + 64)) in
    let l =
      last_fit_bounds (slice_fits speed budget p) p.position n (n + 1) (p.position + 1) high
        p.position (omega arith) g.1 (omega arith) (omega (arith, room)) in
    ground (arith, l, room)

-- A slice of a sentence with text left has at least one code point and stays within the sentence.
pub slice_end_bounds :
    (speed budget : ℕ) (p : PendingSentence)
    → p.position < length p.sentence.lengths
    → (p.position < slice_end speed budget p)
      × (slice_end speed budget p ≤ length p.sentence.lengths)
unfolding slice_end
slice_end_bounds speed budget p room =
    let l = longest_fit_bounds speed budget p room in
    let more = atomics_after p.sentence (offset_at p.sentence.lengths p.position) in
    let s =
      spare_bounds p.sentence (fits_in speed budget) p.position (longest_fit speed budget p) more
        l.0 in
    let best =
      spare_atomic p.sentence (fits_in speed budget) p.position (longest_fit speed budget p) more in
    let h = halve_bounds (slice_bytes speed budget p) p.position best best s.0 in
    (h.0, omega (arith, h.1, s.1, l.1))

-- Fuel for each code point is enough for `halve`: it stops where the source stops.
halve_stops :
    (bytes : ℕ → ℕ) (position fuel best : ℕ)
    → best ≤ fuel
    → (ltb (max_chunk_bytes - envelope_bytes) (bytes (halve bytes position fuel best))
        && ltb (position + 1) (halve bytes position fuel best))
      ≡ false
unfolding halve
halve_stops bytes position zero best enough = ground (arith, enough)
halve_stops bytes position (suc fuel) best enough =
    elim (Bool-cases
      (ltb (max_chunk_bytes - envelope_bytes) (bytes best) && ltb (position + 1) best)) [
        | inr stop ↦ rw (stop, halve) stop
        | inl on ↦
            let wide : position + 1 < best = ground (arith, on) in
            rw (on, halve)
              (halve_stops bytes position fuel (position + max 1 ((best - position) / 2))
                (omega (arith, wide, enough)))
      ]

-- Fuel for each code point is enough for `grow`: it stops where the source stops.
grow_stops :
    (fits : ℕ → Bool) (position n fuel high : ℕ)
    → position < high
    → high ≤ n
    → n ≤ high + fuel
    → (ltb (grow fits position n fuel high) n && fits (grow fits position n fuel high)) ≡ false
unfolding grow
grow_stops fits position n zero high above below enough = ground (arith, enough)
grow_stops fits position n (suc fuel) high above below enough =
    elim (Bool-cases (ltb high n && fits high)) [
      | inr stop ↦ rw (stop, grow) stop
      | inl on ↦
          let lt : high < n = ground (arith, on) in
          rw (on, grow)
            (grow_stops fits position n fuel (min n (position + (high - position) * 2))
              (omega (arith, above, lt)) (omega arith) (omega (arith, above, lt, enough)))
    ]

-- More fuel than for each place changes nothing for `last_fit`.
last_fit_stops :
    (fits : ℕ → Bool) (fuel more low high best : ℕ)
    → high < low + fuel
    → fuel ≤ more
    → 0 < low
    → last_fit fits more low high best ≡ last_fit fits fuel low high best
unfolding last_fit
last_fit_stops fits zero zero low high best enough order pos = refl
last_fit_stops fits zero (suc more) low high best enough order pos =
    let stop : leb low high ≡ false = ground (arith, enough) in rw (stop, last_fit) refl
last_fit_stops fits (suc fuel) zero low high best enough order pos = absurd (omega (arith, order))
last_fit_stops fits (suc fuel) (suc more) low high best enough order pos =
    elim (Bool-cases (leb low high)) [
      | inr stop ↦ rw (stop, last_fit) refl
      | inl on ↦
          let le : low ≤ high = ground (arith, on) in
          elim (Bool-cases (fits ((low + high) / 2))) [
            | inl fit ↦
                rw (on, fit, last_fit)
                  (last_fit_stops fits fuel more ((low + high) / 2 + 1) high ((low + high) / 2)
                    (omega (arith, enough, le)) (omega (arith, order)) (omega arith))
            | inr long ↦
                rw (on, long, last_fit)
                  (last_fit_stops fits fuel more low ((low + high) / 2 - 1) best
                    (omega (arith, enough, le, pos)) (omega (arith, order)) pos)
          ]
    ]
