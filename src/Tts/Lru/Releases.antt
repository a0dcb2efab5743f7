-- ===== src/Tts/Lru/Releases.antt =====
-- The release callbacks of `LRUCache` (frontend/src/lib/tts.ts), counted.
use z_reader.Prelude.{
  ℕ, suc, ◌+◌, String, eq_iff, ◌≡◌, refl, Option, some, List, [], ◌∷◌, ◌++◌, if◌then◌else◌, arith,
  ◌==◌,
}
use z_reader.JsMap
use z_reader.JsMap.{JsMap}
use z_reader.JsMap.Laws.{IsUnique, delete_absent}
use z_reader.Tts.Lru
use z_reader.Tts.Lru.{Entry, LruCache, released, release_all, evict}
use z_reader.Tts.Lru.Contents.{touch, touch-IsUnique, set-delete}

-- How often a number stands in a list.
abbrev pub count : ℕ → List ℕ → ℕ
count r [] = 0
count r (x ∷ xs) = if x == r then suc (count r xs) else count r xs

pub count-append : (r : ℕ) (xs ys : List ℕ) → count r (xs ++ ys) ≡ count r xs + count r ys
count-append r [] ys = omega arith
count-append r (x ∷ xs) ys = ground (arith, count-append r xs ys)

module _ {ℓ} {V : Type ℓ} where
  count-release_all-delete :
      (r : ℕ) (k : String) (m : JsMap (Entry V))
      → IsUnique m
      → count r (release_all (JsMap.delete k m)) + count r (released (JsMap.get k m))
        ≡ count r (release_all m)
  unfolding release_all JsMap.delete JsMap.get
  count-release_all-delete r k [] u = refl
  count-release_all-delete r k ((j, e) ∷ m) u = ground (
    arith,
    eq_iff j k,
    delete_absent k m,
    count-append r (released (some e)) (release_all m),
    count-append r (released (some e)) (release_all (JsMap.delete k m)),
    count-release_all-delete r k m u.1,
  )

  count-release_all-append :
      (r : ℕ) (xs ys : JsMap (Entry V))
      → count r (release_all (xs ++ ys)) ≡ count r (release_all xs) + count r (release_all ys)
  unfolding release_all
  count-release_all-append r [] ys = omega arith
  count-release_all-append r ((k, e) ∷ xs) ys = omega (
    arith,
    count-append r (released (some e)) (release_all xs),
    count-append r (released (some e)) (release_all (xs ++ ys)),
    count-release_all-append r xs ys,
  )

  evict_conserves :
      (r : ℕ) (c : LruCache V)
      → IsUnique c.cache
      → count r (release_all (evict c).0.cache) + count r (evict c).1
        ≡ count r (release_all c.cache)
  unfolding evict
  evict_conserves r c u = go c.cache c.max_size u
    where
      go :
          (m : JsMap (Entry V)) (n : ℕ)
          → IsUnique m
          → count r (release_all (evict (record { cache = m; max_size = n })).0.cache)
              + count r (evict (record { cache = m; max_size = n })).1
            ≡ count r (release_all m)
      go [] n v = ground arith
      go ((k, e) ∷ m) n v = ground (arith, count-release_all-delete r k ((k, e) ∷ m) v)

  -- On a cache with distinct keys, for each callback: the calls that `set` made and those left in the cache add up to those that
  -- were in the cache and the new one.
  pub set_conserves :
      (r : ℕ) (k : String) (v : V) (new : Option ℕ) (c : LruCache V)
      → IsUnique c.cache
      → count r (release_all (Lru.set k v new c).0.cache) + count r (Lru.set k v new c).1
        ≡ count r (release_all c.cache)
          + count r (released (some (record { value = v; release = new })))
  unfolding Lru.set release_all
  set_conserves r k v new c u =
      let e : Entry V = record { value = v; release = new } in
      let after = touch k e c.cache in
      ground (
        arith,
        set-delete k e c.cache,
        delete_absent k c.cache,
        count-release_all-delete r k c.cache u,
        count-release_all-append r (JsMap.delete k c.cache) ((k, e) ∷ []),
        count-append r (released (some e)) [],
        evict_conserves r (record c { cache = after }) (touch-IsUnique k e c.cache u),
        count-append r (released (JsMap.get k c.cache)) (evict (record c { cache = after })).1,
      )
