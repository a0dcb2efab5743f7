-- ===== src/Tts/Lru.antt =====
-- The class `LRUCache` of frontend/src/lib/tts.ts over the JavaScript `Map`. A release callback is
-- named by a number; an operation returns the callbacks that it called beside its result.
pub mod Validity
pub mod Contents
pub mod History
pub mod Releases
use z_reader.Prelude.{
  ℕ, String, Bool, Option, none, some, List, [], ◌∷◌, ◌++◌, if◌then◌else◌, ltb, is_some,
}
use z_reader.JsMap
use z_reader.JsMap.{JsMap}

pub record Entry {ℓ} (V : Type ℓ) : Type ℓ where
  pub value : V
  pub release : Option ℕ

pub record LruCache {ℓ} (V : Type ℓ) : Type ℓ where
  pub cache : JsMap (Entry V)
  pub max_size : ℕ

-- `entry?.release?.()`
abbrev pub released {ℓ} : {V : Type ℓ} → Option (Entry V) → List ℕ
released none = []
released (some e) = elim e.release [ none ↦ [] | some r ↦ r ∷ [] ]

module _ {ℓ} {V : Type ℓ} where
  unfoldable pub new : ℕ → LruCache V
  new n = record { cache = []; max_size = n }

  unfoldable pub get : String → LruCache V → LruCache V × Option V
  get key c = elim (JsMap.get key c.cache) [
    | none ↦ (c, none)
    | some e ↦ (record c { cache = JsMap.set key e (JsMap.delete key c.cache) }, some e.value)
  ]

  -- `this.cache.keys().next().value`
  abbrev pub first_key : JsMap (Entry V) → Option String
  first_key [] = none
  first_key ((k, e) ∷ m) = some k

  -- the last statement of `set`
  unfoldable pub evict : LruCache V → LruCache V × List ℕ
  evict c =
      if ltb c.max_size (JsMap.size c.cache)
      then elim (first_key c.cache) [
        | none ↦ (c, [])
        | some k ↦ (record c { cache = JsMap.delete k c.cache }, released (JsMap.get k c.cache))
      ]
      else (c, [])

  unfoldable pub set : String → V → Option ℕ → LruCache V → LruCache V × List ℕ
  unfolding evict
  set key v release c =
      let e : Entry V = record { value = v; release = release } in
      let old = if JsMap.has key c.cache then released (JsMap.get key c.cache) else [] in
      let kept = if JsMap.has key c.cache then JsMap.delete key c.cache else c.cache in
      let (c', evicted) = evict (record c { cache = JsMap.set key e kept }) in (c', old ++ evicted)

  unfoldable pub has : String → LruCache V → Bool
  has key c = JsMap.has key c.cache

  unfoldable pub delete : String → LruCache V → (LruCache V × Bool) × List ℕ
  delete key c = (
    (record c { cache = JsMap.delete key c.cache }, JsMap.has key c.cache),
    released (JsMap.get key c.cache),
  )

  -- the loop of `clear`
  unfoldable pub release_all : JsMap (Entry V) → List ℕ
  release_all [] = []
  release_all ((k, e) ∷ m) = released (some e) ++ release_all m

  unfoldable pub clear : LruCache V → LruCache V × List ℕ
  unfolding release_all
  clear c = (record c { cache = [] }, release_all c.cache)

  unfoldable pub size : LruCache V → ℕ
  size c = JsMap.size c.cache
