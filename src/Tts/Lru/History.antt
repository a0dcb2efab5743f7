-- ===== src/Tts/Lru/History.antt =====
-- Any sequence of calls on `LRUCache` (frontend/src/lib/tts.ts), against the list of entries in the
-- order of their last use.
use z_reader.Prelude.{
  ℕ, ◌≤◌, String, ◌≡◌, refl, ap, ◌∙◌, Option, none, some, List, [], ◌∷◌, length, arith,
  Option-cases, inl, inr,
}
use z_reader.JsMap
use z_reader.JsMap.{JsMap}
use z_reader.JsMap.Laws.{IsUnique, delete-IsUnique, size-delete-le}
use z_reader.Tts.Lru
use z_reader.Tts.Lru.{Entry, LruCache}
use z_reader.Tts.Lru.Validity.{IsValid, get-IsValid}
use z_reader.Tts.Lru.Contents.{
  keep_last, length-keep_last, keep_last_short, touch, touch-IsUnique, set-keep_last,
  keep_last-touch, set-delete,
}

pub data Call {ℓ} (V : Type ℓ) : Type ℓ where
  gets : String → Call V
  sets : String → V → Option ℕ → Call V
  deletes : String → Call V
  clears : Call V

module _ {ℓ} {V : Type ℓ} where
  unfoldable pub step : LruCache V → Call V → LruCache V
  step c (gets k) = (Lru.get k c).0
  step c (sets k v r) = (Lru.set k v r c).0
  step c (deletes k) = (Lru.delete k c).0.0
  step c clears = (Lru.clear c).0

  unfoldable pub run : LruCache V → List (Call V) → LruCache V
  run c [] = c
  run c (x ∷ xs) = run (step c x) xs

  -- The same calls on a list of all entries, the last used at the end. A read is a use if the key
  -- is among the last `n`; a deletion forgets what no longer fits.
  unfoldable pub note : ℕ → JsMap (Entry V) → Call V → JsMap (Entry V)
  note n h (gets k) = elim (JsMap.get k (keep_last n h)) [ none ↦ h | some e ↦ touch k e h ]
  note n h (sets k v r) = touch k (record { value = v; release = r }) h
  note n h (deletes k) = JsMap.delete k (keep_last n h)
  note n h clears = []

  unfoldable pub notes : ℕ → JsMap (Entry V) → List (Call V) → JsMap (Entry V)
  notes n h [] = h
  notes n h (x ∷ xs) = notes n (note n h x) xs

  pub record Tracks (n : ℕ) (c : LruCache V) (h : JsMap (Entry V)) : Type ℓ where
    pub limit : c.max_size ≡ n
    pub distinct : IsUnique h
    pub valid : IsUnique c.cache
    pub window : c.cache ≡ keep_last n h

  Tracks-IsValid : {n : ℕ} {c : LruCache V} {h : JsMap (Entry V)} → Tracks n c h → IsValid c
  Tracks-IsValid {n} {c} {h} t = record {
    unique = t.valid;
    bounded = omega (arith, length-keep_last n h, ap (λ m. length m) t.window, t.limit);
  }

  pub keep_last-IsUnique : (n : ℕ) (h : JsMap (Entry V)) → IsUnique h → IsUnique (keep_last n h)
  keep_last-IsUnique n [] u = tt
  keep_last-IsUnique n (x ∷ h) u = ground (arith, keep_last-IsUnique n h u.1)

  -- A cache that holds the last `n` entries of a list with distinct keys.
  Tracks-of :
      (n : ℕ) (h : JsMap (Entry V)) (c : LruCache V)
      → IsUnique h
      → c ≡ record { cache = keep_last n h; max_size = n }
      → Tracks n c h
  Tracks-of n h c u e = record {
    limit = ap (λ x. x.max_size) e;
    distinct = u;
    valid = rw e (keep_last-IsUnique n h u);
    window = ap (λ x. x.cache) e;
  }

  Tracks-set :
      (n : ℕ) (c : LruCache V) (h : JsMap (Entry V)) (k : String) (v : V) (r : Option ℕ)
      → Tracks n c h
      → Tracks n (step c (sets k v r)) (note n h (sets k v r))
  unfolding step note
  Tracks-set n c h k v r t =
      let e : Entry V = record { value = v; release = r } in
      Tracks-of n (touch k e h) _ (touch-IsUnique k e h t.distinct) (
        set-keep_last k v r c (Tracks-IsValid t)
        ∙ cc (t.limit, t.window, keep_last-touch n k e h t.distinct))

  length-move-le :
      (n : ℕ) (c : LruCache V) (k : String) (e : Entry V)
      → IsValid c
      → c.max_size ≡ n
      → JsMap.get k c.cache ≡ some e
      → length (touch k e c.cache) ≤ n
  unfolding Lru.get
  length-move-le n c k e valid limit hit =
      ground (arith, set-delete k e c.cache, IsValid.bounded (get-IsValid k c valid))

  Tracks-get :
      (n : ℕ) (c : LruCache V) (h : JsMap (Entry V)) (k : String)
      → Tracks n c h
      → Tracks n (step c (gets k)) (note n h (gets k))
  unfolding step note Lru.get
  Tracks-get n c h k t = elim (Option-cases (JsMap.get k c.cache)) [
    | inl miss ↦
        let miss' : JsMap.get k (keep_last n h) ≡ none = rw t.window at miss in
        rw (miss, miss', step, note, Lru.get) t
    | inr (e, hit) ↦
        let hit' : JsMap.get k (keep_last n h) ≡ some e = rw t.window at hit in
        rw (hit', note)
          (Tracks-of n (touch k e h) _ (touch-IsUnique k e h t.distinct) (
            cc (
              hit,
              t.limit,
              t.window,
              set-delete k e c.cache,
              keep_last-touch n k e h t.distinct,
              keep_last_short n (touch k e c.cache)
                  (length-move-le n c k e (Tracks-IsValid t) t.limit hit),
            )))
  ]

  pub step-Tracks :
      (n : ℕ) (c : LruCache V) (h : JsMap (Entry V)) (x : Call V)
      → Tracks n c h
      → Tracks n (step c x) (note n h x)
  unfolding step note Lru.delete Lru.clear
  step-Tracks n c h (gets k) t = Tracks-get n c h k t
  step-Tracks n c h (sets k v r) t = Tracks-set n c h k v r t
  step-Tracks n c h (deletes k) t =
      Tracks-of n (JsMap.delete k (keep_last n h)) _
        (delete-IsUnique k _ (keep_last-IsUnique n h t.distinct))
        (cc (
          t.limit,
          t.window,
          keep_last_short n (JsMap.delete k (keep_last n h))
              (omega (arith, size-delete-le k (keep_last n h), length-keep_last n h)),
        ))
  step-Tracks n c h clears t = Tracks-of n [] _ tt (cc t.limit)

  run-Tracks :
      (n : ℕ) (c : LruCache V) (h : JsMap (Entry V)) (xs : List (Call V))
      → Tracks n c h
      → Tracks n (run c xs) (notes n h xs)
  unfolding run notes
  run-Tracks n c h [] t = t
  run-Tracks n c h (x ∷ xs) t = run-Tracks n (step c x) (note n h x) xs (step-Tracks n c h x t)

  -- After any calls on a new cache of limit n, the cache holds exactly the last n entries, in
  -- order, of the list of entries ordered by last use.
  pub run-window :
      (n : ℕ) (xs : List (Call V)) → (run (Lru.new n) xs).cache ≡ keep_last n (notes n [] xs)
  unfolding Lru.new
  run-window n xs = Tracks.window (run-Tracks n (Lru.new n) [] xs (Tracks-of n [] _ tt refl))

  pub run-IsValid : (n : ℕ) (xs : List (Call V)) → IsValid (run (Lru.new n) xs)
  unfolding Lru.new
  run-IsValid n xs = Tracks-IsValid (run-Tracks n (Lru.new n) [] xs (Tracks-of n [] _ tt refl))
