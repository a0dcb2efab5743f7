-- ===== src/Tts/SpeechQueue/Rebuild.antt =====
-- `rebuildTTSSpeechQueue` of frontend/src/lib/tts-queue.ts: the shape and the contents of the queue.
use z_reader.Prelude.{
  ℕ, zero, suc, ◌+◌, ◌≤◌, ◌<◌, ◌≡◌, ◌≢◌, ◌⊎◌, map, get_elem?, refl, String, str_eq, eq_iff, Bool,
  true, false, not, ◌||◌, Option, none, some, List, [], ◌∷◌, ◌++◌, length, length-append,
  length-take, length-map, take, any, arith, Bool-cases, Option-cases, inl, inr,
}
use mathlib.Core.Path.{subst}
use z_reader.Tts.SpeechQueue.{
  Segment, Source, Speech, create_tts_queue_segment, raw_segments, add_segment, add_segments,
  rebuild_tts_speech_queue, lookahead_count, lookahead,
}

-- The SSML of a segment is in the queue.
abbrev pub spoken : String → List Segment → Bool
spoken t queue = any (λ (s : Segment). str_eq s.enhanced_ssml t) queue

-- Numbered from `n` on.
abbrev pub Numbered : ℕ → List Segment → Type 0
Numbered n [] = Unit
Numbered n (s ∷ ss) = (s.index ≡ n) × Numbered (suc n) ss

abbrev pub IsDistinct : List Segment → Type 0
IsDistinct [] = Unit
IsDistinct (s ∷ ss) = (spoken s.enhanced_ssml ss ≡ false) × IsDistinct ss

Numbered-snoc :
    (n : ℕ) (ss : List Segment) (s : Segment)
    → Numbered n ss
    → s.index ≡ n + length ss
    → Numbered n (ss ++ s ∷ [])
Numbered-snoc n [] s h e = (omega (arith, e), tt)
Numbered-snoc n (x ∷ ss) s h e = (h.0, Numbered-snoc (suc n) ss s h.1 (omega (arith, e)))

spoken-snoc :
    (t : String) (ss : List Segment) (s : Segment)
    → spoken t (ss ++ s ∷ []) ≡ (spoken t ss || str_eq s.enhanced_ssml t)
spoken-snoc t [] s = ground arith
spoken-snoc t (x ∷ ss) s = ground (arith, spoken-snoc t ss s)

IsDistinct-snoc :
    (ss : List Segment) (s : Segment)
    → IsDistinct ss
    → spoken s.enhanced_ssml ss ≡ false
    → IsDistinct (ss ++ s ∷ [])
IsDistinct-snoc [] s d h = (refl, tt)
IsDistinct-snoc (x ∷ ss) s d h = ground (
  arith,
  spoken-snoc x.enhanced_ssml ss s,
  eq_iff x.enhanced_ssml s.enhanced_ssml,
  eq_iff s.enhanced_ssml x.enhanced_ssml,
  IsDistinct-snoc ss s d.1,
)

-- The loop's variables agree: what was seen is what the queue holds.
record InStep (r : List String × List Segment) : Type 0 where
  numbered : Numbered 0 r.1
  distinct : IsDistinct r.1
  agrees : (t : String) → any (λ u. str_eq u t) r.0 ≡ spoken t r.1

module _ (f : Speech) where
  -- The raw segment can be read aloud.
  abbrev pub speakable : String → Bool
  speakable ssml = not (str_eq (f.text_of ssml) "" || f.is_skippable (f.text_of ssml))

  create-index :
      (ssml : String) (i : ℕ) (source : Source) (s : Segment)
      → create_tts_queue_segment f ssml i source ≡ some s
      → (s.index ≡ i) × (s.enhanced_ssml ≡ f.build_ssml ssml) × (speakable ssml ≡ true)
  unfolding create_tts_queue_segment
  create-index ssml i source s h = ground arith

  create-none :
      (ssml : String) (i : ℕ) (source : Source)
      → create_tts_queue_segment f ssml i source ≡ none
      → speakable ssml ≡ false
  unfolding create_tts_queue_segment
  create-none ssml i source h = ground arith

  -- One round keeps the variables in step, forgets nothing, adds at most one segment, and speaks
  -- the raw segment if it can be read aloud.
  record Adds (raw : String × Source) (r r' : List String × List Segment) : Type 0 where
    step : InStep r'
    grows : length r'.1 ≤ length r.1 + 1
    keeps : (t : String) → spoken t r.1 ≡ true → spoken t r'.1 ≡ true
    speaks : speakable raw.0 ≡ true → spoken (f.build_ssml raw.0) r'.1 ≡ true

  add_segment-Adds :
      (raw : String × Source) (seen : List String) (queue : List Segment)
      → InStep (seen, queue)
      → Adds raw (seen, queue) (add_segment f raw (seen, queue))
  unfolding add_segment
  add_segment-Adds raw seen queue v =
      elim (Option-cases (create_tts_queue_segment f raw.0 (length queue) raw.1)) [
        | inl none_made ↦
            rw (none_made, add_segment)
              (record {
                step = v;
                grows = omega arith;
                keeps = λ t h. h;
                speaks = λ h.
                    absurd (ground (arith, h, create-none raw.0 (length queue) raw.1 none_made));
              })
        | inr (s, made) ↦
            let (index, text, _) = create-index raw.0 (length queue) raw.1 s made in
            elim (Bool-cases (any (λ t. str_eq t s.enhanced_ssml) seen)) [
              | inl old ↦
                  rw (made, old, add_segment)
                    (record {
                      step = v;
                      grows = omega arith;
                      keeps = λ t h. h;
                      speaks = λ h.
                          let e : spoken s.enhanced_ssml queue ≡ true =
                            ground (arith, old, v.agrees s.enhanced_ssml) in
                          subst (λ t. spoken t queue ≡ true) text e;
                    })
              | inr new ↦
                  rw (made, new, add_segment)
                    (record {
                      step = record {
                        numbered = Numbered-snoc 0 queue s v.numbered (omega (arith, index));
                        distinct =
                            IsDistinct-snoc queue s v.distinct
                              (ground (arith, new, v.agrees s.enhanced_ssml));
                        agrees = λ t. ground (arith, v.agrees t, spoken-snoc t queue s);
                      };
                      grows = omega (arith, length-append queue (s ∷ []));
                      keeps = λ t h. ground (arith, h, spoken-snoc t queue s);
                      speaks = λ h. ground (
                        arith,
                        text,
                        spoken-snoc (f.build_ssml raw.0) queue s,
                        eq_iff s.enhanced_ssml (f.build_ssml raw.0),
                      );
                    })
            ]
      ]

  add_segments-keeps :
      (raws : List (String × Source)) (seen : List String) (queue : List Segment)
      → InStep (seen, queue)
      → (InStep (add_segments f raws (seen, queue))
          × (length (add_segments f raws (seen, queue)).1 ≤ length queue + length raws)
          × ((t : String)
              → spoken t queue ≡ true
              → spoken t (add_segments f raws (seen, queue)).1 ≡ true))
  unfolding add_segments
  add_segments-keeps [] seen queue v = (v, omega arith, λ t h. h)
  add_segments-keeps (raw ∷ raws) seen queue v =
      let a = add_segment-Adds raw seen queue v in
      let r = add_segment f raw (seen, queue) in
      let (v', size, keeps) = add_segments-keeps raws r.0 r.1 a.step in
      (v', omega (arith, size, a.grows), λ t h. keeps t (a.keeps t h))

  -- Each raw segment that can be read aloud is spoken in the end.
  add_segments-speaks :
      (raws : List (String × Source)) (seen : List String) (queue : List Segment) (ssml : String)
      → InStep (seen, queue)
      → any (λ (w : String × Source). str_eq w.0 ssml) raws ≡ true
      → speakable ssml ≡ true
      → spoken (f.build_ssml ssml) (add_segments f raws (seen, queue)).1 ≡ true
  unfolding add_segments
  add_segments-speaks [] seen queue ssml v h p = absurd (ground arith)
  add_segments-speaks (raw ∷ raws) seen queue ssml v h p =
      let a = add_segment-Adds raw seen queue v in
      let r = add_segment f raw (seen, queue) in
      elim (Bool-cases (str_eq raw.0 ssml)) [
        | inr other ↦ add_segments-speaks raws r.0 r.1 ssml a.step (ground (arith, h, other)) p
        | inl same ↦
            let e : raw.0 ≡ ssml = (eq_iff raw.0 ssml).0 same in
            let said = a.speaks (rw e p) in
            let (_, _, keeps) = add_segments-keeps raws r.0 r.1 a.step in
            keeps (f.build_ssml ssml) (subst (λ t. spoken (f.build_ssml t) r.1 ≡ true) e said)
      ]

  empty-InStep : InStep ([], [])
  empty-InStep = record { numbered = tt; distinct = tt; agrees = λ t. refl }

  length-raw_segments :
      (cur : Option String) (ahead : List String)
      → length (raw_segments cur ahead) ≤ lookahead_count + 1
  unfolding raw_segments
  length-raw_segments cur ahead = ground (
    arith,
    length-take lookahead_count ahead,
    length-map {B = String × Source} (take lookahead_count ahead) (λ s. (s, lookahead)),
  )

  any-take :
      (ssml : String) (n i : ℕ) (ahead : List String)
      → i < n
      → get_elem? ahead i ≡ some ssml
      → any
          (λ (w : String × Source). str_eq w.0 ssml)
          (map {B = String × Source} (λ s. (s, lookahead)) (take n ahead))
        ≡ true
  any-take ssml n i [] l h = absurd (ground (arith, h))
  any-take ssml zero i (s ∷ ss) l h = absurd (omega (arith, l))
  any-take ssml (suc n) zero (s ∷ ss) l h = ground (arith, h, eq_iff s ssml)
  any-take ssml (suc n) (suc i) (s ∷ ss) l h =
      ground (arith, any-take ssml n i ss (omega (arith, l)) h)

  raw-among :
      (cur : Option String) (ahead : List String) (ssml : String)
      → ((cur ≡ some ssml) × (ssml ≢ "")) ⊎ ((i : ℕ) × (i < 6) × (get_elem? ahead i ≡ some ssml))
      → any (λ (w : String × Source). str_eq w.0 ssml) (raw_segments cur ahead) ≡ true
  unfolding raw_segments
  raw-among none ahead ssml (inl (h, e)) = absurd (ground (arith, h))
  raw-among (some s) ahead ssml (inl (h, e)) =
      ground (arith, h, e, eq_iff s "", eq_iff s ssml, eq_iff ssml ssml)
  raw-among none ahead ssml (inr (i, l, h)) = any-take ssml 6 i ahead l h
  raw-among (some s) ahead ssml (inr (i, l, h)) = ground (arith, any-take ssml 6 i ahead l h)

  -- The segments of a rebuilt queue are numbered by their places, no SSML stands twice, and there
  -- are at most seven.
  pub rebuild_bounds :
      (cur : Option String) (ahead : List String)
      → Numbered 0 (rebuild_tts_speech_queue f cur ahead)
        × IsDistinct (rebuild_tts_speech_queue f cur ahead)
        × (length (rebuild_tts_speech_queue f cur ahead) ≤ 7)
  unfolding rebuild_tts_speech_queue
  rebuild_bounds cur ahead =
      let (v, size, _) = add_segments-keeps (raw_segments cur ahead) [] [] empty-InStep in
      (v.numbered, v.distinct, omega (arith, size, length-raw_segments cur ahead))

  -- The current sentence, unless it is the empty text, and each of the first six that follow are
  -- spoken by some segment of the queue, if they can be read aloud.
  pub rebuild_complete :
      (cur : Option String) (ahead : List String) (ssml : String)
      → ((cur ≡ some ssml) × (ssml ≢ "")) ⊎ ((i : ℕ) × (i < 6) × (get_elem? ahead i ≡ some ssml))
      → speakable ssml ≡ true
      → spoken (f.build_ssml ssml) (rebuild_tts_speech_queue f cur ahead) ≡ true
  unfolding rebuild_tts_speech_queue
  rebuild_complete cur ahead ssml h p =
      add_segments-speaks (raw_segments cur ahead) [] [] ssml empty-InStep
        (raw-among cur ahead ssml h) p
