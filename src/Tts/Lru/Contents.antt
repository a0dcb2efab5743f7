-- ===== src/Tts/Lru/Contents.antt =====
-- The entries of `LRUCache` (frontend/src/lib/tts.ts) beside a list of all entries in the order of
-- their last use that forgets nothing.
use z_reader.Prelude.{
  ℕ, suc, ◌≤◌, String, eq_iff, ◌≡◌, refl, Option, none, List, [], ◌∷◌, ◌++◌, if◌then◌else◌, length,
  arith, ltb, length-append,
}
use z_reader.JsMap
use z_reader.JsMap.{JsMap}
use z_reader.JsMap.Laws.{
  IsUnique, get-delete, set-IsUnique, delete-IsUnique, set_absent, delete_absent, size-delete,
  size-delete-le,
}
use z_reader.Tts.Lru
use z_reader.Tts.Lru.{Entry, LruCache, evict}
use z_reader.Tts.Lru.Validity.{IsValid}

-- The last `n` elements.
abbrev pub keep_last {ℓ} : {A : Type ℓ} → ℕ → List A → List A
keep_last n [] = []
keep_last n (x ∷ xs) = if ltb n (suc (length xs)) then keep_last n xs else x ∷ xs

pub length-keep_last {ℓ} : {A : Type ℓ} (n : ℕ) (xs : List A) → length (keep_last n xs) ≤ n
length-keep_last n [] = omega arith
length-keep_last n (x ∷ xs) = ground (arith, length-keep_last n xs)

pub keep_last_short {ℓ} : {A : Type ℓ} (n : ℕ) (xs : List A) → length xs ≤ n → keep_last n xs ≡ xs
keep_last_short n [] h = refl
keep_last_short n (x ∷ xs) h = ground arith

module _ {ℓ} {V : Type ℓ} where
  -- An entry that is used goes to the end.
  abbrev pub touch : String → Entry V → JsMap (Entry V) → JsMap (Entry V)
  touch k e h = JsMap.delete k h ++ (k, e) ∷ []

  get-delete_self : (k : String) (m : JsMap (Entry V)) → JsMap.get k (JsMap.delete k m) ≡ none
  get-delete_self k m = ground (arith, get-delete k k m, eq_iff k k)

  pub set-delete :
      (k : String) (e : Entry V) (m : JsMap (Entry V))
      → JsMap.set k e (JsMap.delete k m) ≡ touch k e m
  set-delete k e m = set_absent k e (JsMap.delete k m) (get-delete_self k m)

  pub touch-IsUnique :
      (k : String) (e : Entry V) (m : JsMap (Entry V)) → IsUnique m → IsUnique (touch k e m)
  touch-IsUnique k e m u = rw (← set-delete k e m) (set-IsUnique k e _ (delete-IsUnique k m u))

  length-touch :
      (k : String) (e : Entry V) (m : JsMap (Entry V))
      → length (touch k e m) ≡ suc (JsMap.size (JsMap.delete k m))
  length-touch k e m = omega (arith, length-append (JsMap.delete k m) ((k, e) ∷ []))

  -- With at most one entry too many, eviction drops the oldest entries beyond the limit.
  evict-keep_last :
      (n : ℕ) (m : JsMap (Entry V))
      → IsUnique m
      → length m ≤ suc n
      → (evict (record { cache = m; max_size = n })).0
        ≡ record { cache = keep_last n m; max_size = n }
  unfolding evict JsMap.delete
  evict-keep_last n [] u h = ground arith
  evict-keep_last n ((k, e) ∷ m) u h =
      ground (arith, eq_iff k k, delete_absent k m, keep_last_short n m)

  -- `set` puts the entry at the end and keeps as many of the last entries as fit.
  pub set-keep_last :
      (k : String) (v : V) (r : Option ℕ) (c : LruCache V)
      → IsValid c
      → (Lru.set k v r c).0 ≡ record c {
        cache = keep_last c.max_size (touch k (record { value = v; release = r }) c.cache);
      }
  unfolding Lru.set
  set-keep_last k v r c valid = ground (
    arith,
    delete_absent k c.cache,
    set-delete k (record { value = v; release = r }) c.cache,
    evict-keep_last c.max_size (touch k (record { value = v; release = r }) c.cache)
        (touch-IsUnique k (record { value = v; release = r }) c.cache valid.unique)
        (omega (
          arith,
          length-touch k (record { value = v; release = r }) c.cache,
          size-delete-le k c.cache,
          valid.bounded,
        )),
  )

  keep_last-cons_long :
      (n : ℕ) (x : String × Entry V) (xs : JsMap (Entry V))
      → n ≤ length xs
      → keep_last n (x ∷ xs) ≡ keep_last n xs
  keep_last-cons_long n x xs h = ground arith

  -- To move an entry to the end and keep `n`, the last `n` entries are all that matter.
  pub keep_last-touch :
      (n : ℕ) (k : String) (e : Entry V) (h : JsMap (Entry V))
      → IsUnique h
      → keep_last n (touch k e (keep_last n h)) ≡ keep_last n (touch k e h)
  unfolding JsMap.delete
  keep_last-touch n k e [] u = refl
  keep_last-touch n k e ((j, w) ∷ h) u = ground (
    arith,
    eq_iff j k,
    keep_last-touch n k e h u.1,
    size-delete k h u.1,
    length-touch k e h,
    keep_last-cons_long n (j, w) (touch k e h),
  )
