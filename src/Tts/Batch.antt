-- ===== src/Tts/Batch.antt =====
-- `firstEndingAfter` of frontend/src/lib/tts-batch.ts: the binary search in the ends of sorted runs.
use z_reader.Prelude.{
  ℕ, zero, suc, ◌+◌, ◌/◌, ◌≤◌, ◌<◌, ◌≡◌, refl, Bool, true, false, none, some, List, [], ◌∷◌,
  if◌then◌else◌, ltb, leb, length, get_elem?, arith, Bool-cases, Option-cases, inl, inr,
}

-- The test on the entry at a place; the loop asks only for places that are there.
abbrev pub ends_after : List ℕ → ℕ → Bool → ℕ → Bool
ends_after entries offset inclusive i = elim (get_elem? entries i) [
  | none ↦ true
  | some end_ ↦ if inclusive then leb offset end_ else ltb offset end_
]

-- The `while` loop, on fuel.
unfoldable pub search_loop : (ℕ → Bool) → ℕ → ℕ → ℕ → ℕ
search_loop hits zero low high = low
search_loop hits (suc fuel) low high = elim (ltb low high) [
  | false ↦ low
  | true ↦ elim (hits ((low + high) / 2)) [
    | true ↦ search_loop hits fuel low ((low + high) / 2)
    | false ↦ search_loop hits fuel ((low + high) / 2 + 1) high
  ]
]

unfoldable pub first_ending_after : List ℕ → ℕ → Bool → ℕ
unfolding search_loop
first_ending_after entries offset inclusive =
    search_loop (ends_after entries offset inclusive) (length entries) 0 (length entries)

-- Between `low` and `high`: no place before `r` hits, every place from `r` on does.
pub record Splits (hits : ℕ → Bool) (low high r : ℕ) : Type 0 where
  pub above : low ≤ r
  pub below : r ≤ high
  pub misses : (i : ℕ) → low ≤ i → i < r → hits i ≡ false
  pub found : (i : ℕ) → r ≤ i → i < high → hits i ≡ true

pub search_loop-Splits :
    (hits : ℕ → Bool) (monotone : (i j : ℕ) → i ≤ j → hits i ≡ true → hits j ≡ true)
    (fuel low high : ℕ)
    → low ≤ high
    → high ≤ low + fuel
    → Splits hits low high (search_loop hits fuel low high)
unfolding search_loop
search_loop-Splits hits monotone zero low high ordered enough = record {
  above = omega arith;
  below = omega arith;
  misses = λ i a b. absurd (omega (arith, a, b));
  found = λ i a b. absurd (omega (arith, a, b, enough));
}
search_loop-Splits hits monotone (suc fuel) low high ordered enough =
    elim (Bool-cases (ltb low high)) [
      | inr empty ↦
          rw (empty, search_loop)
            (record {
              above = omega arith;
              below = ordered;
              misses = λ i a b. absurd (omega (arith, a, b));
              found = λ i a b. absurd (ground (arith, a, b, empty));
            })
      | inl open_ ↦
          let room : low < high = ground (arith, open_) in
          let middle : ℕ = (low + high) / 2 in
          let left : low ≤ middle = omega (arith, room) in
          let right : middle < high = omega (arith, room) in
          elim (Bool-cases (hits ((low + high) / 2))) [
            | inl hit ↦
                let s =
                  search_loop-Splits hits monotone fuel low ((low + high) / 2) left
                    (omega (arith, enough, right)) in
                rw (open_, hit, search_loop)
                  (record {
                    above = s.above;
                    below = omega (arith, s.below, right);
                    misses = s.misses;
                    found =
                        λ i a b. monotone_from hits monotone low ((low + high) / 2) high hit s i a;
                  })
            | inr miss ↦
                let s =
                  search_loop-Splits hits monotone fuel ((low + high) / 2 + 1) high
                    (omega (arith, right)) (omega (arith, enough, left)) in
                rw (open_, miss, search_loop)
                  (record {
                    above = omega (arith, s.above, left);
                    below = s.below;
                    misses =
                        λ i a b. missed_before hits monotone ((low + high) / 2) high miss s i b;
                    found = s.found;
                  })
          ]
    ]
  where
    monotone_from :
        (hits : ℕ → Bool)
        → ((i j : ℕ) → i ≤ j → hits i ≡ true → hits j ≡ true)
        → (low m high : ℕ) → hits m ≡ true
        → {r : ℕ} → Splits hits low m r
        → (i : ℕ) → r ≤ i
        → hits i ≡ true
    monotone_from hits monotone low m high hit s i a = elim (Bool-cases (ltb i m)) [
      | inl inside ↦ s.found i a (ground (arith, inside))
      | inr past ↦ monotone m i (ground (arith, past)) hit
    ]

    missed_before :
        (hits : ℕ → Bool)
        → ((i j : ℕ) → i ≤ j → hits i ≡ true → hits j ≡ true)
        → (m high : ℕ) → hits m ≡ false
        → {r : ℕ} → Splits hits (m + 1) high r
        → (i : ℕ) → i < r
        → hits i ≡ false
    missed_before hits monotone m high miss s i b = elim (Bool-cases (ltb m i)) [
      | inl inside ↦ s.misses i (ground (arith, inside)) b
      | inr before ↦ elim (Bool-cases (hits i)) [
        | inr good ↦ good
        | inl bad ↦ let e = monotone i m (ground (arith, before)) bad in cc (e, miss)
      ]
    ]

-- The ends of the entries do not decrease.
abbrev pub IsAscending : List ℕ → Type 0
IsAscending entries =
    (i j a b : ℕ) → i ≤ j → get_elem? entries i ≡ some a → get_elem? entries j ≡ some b → a ≤ b

get_elem?-none :
    (entries : List ℕ) (i j : ℕ) → i ≤ j → get_elem? entries i ≡ none → get_elem? entries j ≡ none
get_elem?-none [] i j h e = refl
get_elem?-none (x ∷ xs) zero j h e = absurd (ground (arith, e))
get_elem?-none (x ∷ xs) (suc i) zero h e = absurd (omega (arith, h))
get_elem?-none (x ∷ xs) (suc i) (suc j) h e = get_elem?-none xs i j (omega (arith, h)) e

ends_after_mono :
    (entries : List ℕ) (offset : ℕ) (inclusive : Bool)
    → IsAscending entries
    → (i j : ℕ) → i ≤ j
    → ends_after entries offset inclusive i ≡ true
    → ends_after entries offset inclusive j ≡ true
ends_after_mono entries offset inclusive sorted i j h e =
    elim (Option-cases (get_elem? entries j)) [
      | inl gone ↦ rw (gone, ends_after) refl
      | inr (b, later) ↦ elim (Option-cases (get_elem? entries i)) [
        | inl missing ↦
            let q = get_elem?-none entries i j h missing in absurd (ground (arith, q, later))
        | inr (a, earlier) ↦
            let le = sorted i j a b h earlier later in ground (arith, earlier, later, le)
      ]
    ]

-- Over entries whose ends do not decrease, the search gives the first place that ends after the
-- offset, or the number of entries if none does: no place before it does, and every place from it
-- on does.
pub first_ending_after_least :
    (entries : List ℕ) (offset : ℕ) (inclusive : Bool)
    → IsAscending entries
    → Splits
        (ends_after entries offset inclusive)
        0
        (length entries)
        (first_ending_after entries offset inclusive)
unfolding first_ending_after
first_ending_after_least entries offset inclusive sorted =
    search_loop-Splits (ends_after entries offset inclusive)
      (ends_after_mono entries offset inclusive sorted) (length entries) 0 (length entries)
      (omega arith) (omega arith)
