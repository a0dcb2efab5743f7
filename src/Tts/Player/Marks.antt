-- ===== src/Tts/Player/Marks.antt =====
-- The marks of the speech that plays: `markBoundaries` and `updateCurrentMark` of `BackendTTS`
-- (frontend/src/lib/tts.ts). A boundary is a numerator over the total weight; the progress is a
-- fraction of the duration.
use z_reader.Prelude.{
  ℕ, zero, suc, ◌+◌, ◌-◌, ◌*◌, ◌≤◌, ◌<◌, min, max, ◌≡◌, refl, Bool, true, false, Option, none, some,
  List, [], ◌∷◌, if◌then◌else◌, ltb, length, get_elem?, arith, Option-cases, Bool-cases, inl, inr,
  sym,
}
use z_reader.Tts.Batch.{search_loop, search_loop-Splits}
use z_reader.Tts.Player.{Player, Mark, is_speech}

-- `Math.max(0.001, weight)`
abbrev pub weight_of : Mark → ℕ
weight_of m = max 1 m.weight

unfoldable pub total_weight : List Mark → ℕ
total_weight [] = 0
total_weight (m ∷ ms) = weight_of m + total_weight ms

unfoldable pub mark_boundaries : ℕ → List Mark → List ℕ
mark_boundaries cumulative [] = []
mark_boundaries cumulative (m ∷ ms) =
    (cumulative + weight_of m) ∷ mark_boundaries (cumulative + weight_of m) ms

-- `Math.min(currentTime / duration, 1)`, or 0 for a duration that is unknown
abbrev pub progress_of : ℕ → ℕ → ℕ × ℕ
progress_of time duration = if ltb 0 duration then (min time duration, duration) else (0, 1)

-- `progress < this.markBoundaries[middle]`
unfoldable pub is_before : ℕ × ℕ → List Mark → ℕ → Bool
unfolding total_weight mark_boundaries
is_before progress marks i = elim (get_elem? (mark_boundaries 0 marks) i) [
  | none ↦ true
  | some b ↦ ltb (progress.0 * total_weight marks) (b * progress.1)
]

unfoldable pub find_mark : ℕ × ℕ → List Mark → ℕ
unfolding search_loop is_before
find_mark progress marks =
    search_loop (is_before progress marks) (length marks) 0 (length marks - 1)

-- The index after `updateCurrentMark`: without marks the old one.
unfoldable pub shown_mark : ℕ × ℕ → List Mark → Option ℕ → Option ℕ
unfolding find_mark
shown_mark progress [] old = old
shown_mark progress (m ∷ ms) old =
    let index = find_mark progress (m ∷ ms) in if is_speech index old then old else some index

unfoldable pub update_current_mark : ℕ → ℕ → Player → Player
unfolding shown_mark
update_current_mark time duration s = record s {
  current_mark_index = shown_mark (progress_of time duration) s.marks s.current_mark_index;
}

boundaries_above :
    (c : ℕ) (ms : List Mark) (i b : ℕ) → get_elem? (mark_boundaries c ms) i ≡ some b → c ≤ b
unfolding mark_boundaries
boundaries_above c [] i b h = absurd (ground arith)
boundaries_above c (m ∷ ms) zero b h = ground arith
boundaries_above c (m ∷ ms) (suc i) b h =
    let rest = boundaries_above (c + weight_of m) ms i b h in omega (arith, rest)

boundaries_mono :
    (c : ℕ) (ms : List Mark) (i j a b : ℕ)
    → i ≤ j
    → get_elem? (mark_boundaries c ms) i ≡ some a
    → get_elem? (mark_boundaries c ms) j ≡ some b
    → a ≤ b
unfolding mark_boundaries
boundaries_mono c [] i j a b h e f = absurd (ground arith)
boundaries_mono c (m ∷ ms) zero zero a b h e f = ground arith
boundaries_mono c (m ∷ ms) zero (suc j) a b h e f =
    let rest = boundaries_above (c + weight_of m) ms j b f in ground (arith, rest)
boundaries_mono c (m ∷ ms) (suc i) zero a b h e f = absurd (omega arith)
boundaries_mono c (m ∷ ms) (suc i) (suc j) a b h e f =
    boundaries_mono (c + weight_of m) ms i j a b (omega arith) e f

boundaries_end :
    (c : ℕ) (ms : List Mark) (i j : ℕ)
    → i ≤ j
    → get_elem? (mark_boundaries c ms) i ≡ none
    → get_elem? (mark_boundaries c ms) j ≡ none
unfolding mark_boundaries
boundaries_end c [] i j h e = refl
boundaries_end c (m ∷ ms) zero j h e = absurd (ground arith)
boundaries_end c (m ∷ ms) (suc i) zero h e = absurd (omega arith)
boundaries_end c (m ∷ ms) (suc i) (suc j) h e =
    boundaries_end (c + weight_of m) ms i j (omega arith) e

times_mono : (a b d n : ℕ) → a ≤ b → n < a * d → n < b * d
times_mono a b d n h l = grind arith

is_before_mono :
    (p : ℕ × ℕ) (ms : List Mark) (i j : ℕ)
    → i ≤ j
    → is_before p ms i ≡ true
    → is_before p ms j ≡ true
unfolding is_before
is_before_mono p ms i j h t = elim (Option-cases (get_elem? (mark_boundaries 0 ms) j)) [
  | inl gone ↦ rw (gone, is_before) refl
  | inr (b, there) ↦ elim (Option-cases (get_elem? (mark_boundaries 0 ms) i)) [
    | inl gone ↦ let e = boundaries_end 0 ms i j h gone in absurd (ground (arith, e, there))
    | inr (a, here) ↦
        let le = boundaries_mono 0 ms i j a b h here there in
        let lt : p.0 * total_weight ms < a * p.1 = ground (arith, here, t) in
        let lt' = times_mono a b p.1 (p.0 * total_weight ms) le lt in ground (arith, there, lt')
  ]
]

-- The first place from `i` on that hits, after at most `steps` places that do not.
abbrev pub first_hit : (ℕ → Bool) → ℕ → ℕ → ℕ
first_hit hits zero i = i
first_hit hits (suc steps) i = if hits i then i else first_hit hits steps (suc i)

first_hit_lem :
    (hits : ℕ → Bool) (steps low k : ℕ)
    → low ≤ k
    → k ≤ low + steps
    → ((i : ℕ) → low ≤ i → i < k → hits i ≡ false)
    → (k < low + steps → hits k ≡ true)
    → k ≡ first_hit hits steps low
first_hit_lem hits zero low k above below misses found = omega (arith, above, below)
first_hit_lem hits (suc steps) low k above below misses found = elim (Bool-cases (ltb low k)) [
  | inl later ↦
      let miss = misses low (omega arith) (ground (arith, later)) in
      rw (miss, first_hit)
        (first_hit_lem hits steps (suc low) k (ground (arith, later)) (omega (arith, below))
          (λ i a b. misses i (omega (arith, a)) b) (λ l. found (omega (arith, l))))
  | inr here ↦
      let same : k ≡ low = ground (arith, above, here) in
      let hit : hits low ≡ true = rw (sym same) (found (omega (arith, same))) in
      rw (hit, first_hit) same
]

-- The binary search of `updateCurrentMark` finds what a search from the first mark on finds: with at
-- least one mark, the first mark that has not ended at the current time, or the last mark.
pub find_mark-first_hit :
    (time duration : ℕ) (m : Mark) (ms : List Mark)
    → find_mark (progress_of time duration) (m ∷ ms)
      ≡ first_hit (is_before (progress_of time duration) (m ∷ ms)) (length ms) 0
unfolding find_mark
find_mark-first_hit time duration m ms =
    let hits = is_before (progress_of time duration) (m ∷ ms) in
    let s =
      search_loop-Splits hits (is_before_mono (progress_of time duration) (m ∷ ms))
        (suc (length ms)) 0 (length (m ∷ ms) - 1) (omega arith) (omega arith) in
    first_hit_lem hits (length ms) 0 _ (omega arith) (omega (arith, s.below))
      (λ i a b. s.misses i a b) (λ l. s.found _ (omega arith) (omega (arith, l)))
