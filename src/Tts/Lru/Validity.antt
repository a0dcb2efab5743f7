-- ===== src/Tts/Lru/Validity.antt =====
-- The invariant of `LRUCache` (frontend/src/lib/tts.ts).
use z_reader.Prelude.{ℕ, ◌≤◌, String, eq_iff, ◌≡◌, true, false, arith, Option-cases, inl, inr}
use z_reader.JsMap
use z_reader.JsMap.Laws.{IsUnique, get-delete, set-IsUnique, delete-IsUnique, size-set, size-delete}
use z_reader.Tts.Lru.{Entry, LruCache, new, get}

pub record IsValid {ℓ} {V : Type ℓ} (c : LruCache V) : Type ℓ where
  pub unique : IsUnique c.cache
  pub bounded : JsMap.size c.cache ≤ c.max_size

module _ {ℓ} {V : Type ℓ} where
  pub new-IsValid : (n : ℕ) → IsValid (new {V = V} n)
  unfolding new
  new-IsValid n = record { unique = tt; bounded = omega arith }

  has-delete_self :
      (k : String) (m : JsMap.JsMap (Entry V)) → JsMap.has k (JsMap.delete k m) ≡ false
  has-delete_self k m = ground (arith, get-delete k k m, eq_iff k k)

  -- A hit moves the entry to the end: as many entries as before.
  pub size-move :
      (k : String) (e : Entry V) (m : JsMap.JsMap (Entry V))
      → IsUnique m
      → JsMap.has k m ≡ true
      → JsMap.size (JsMap.set k e (JsMap.delete k m)) ≡ JsMap.size m
  size-move k e m u h =
      ground (arith, size-set k e (JsMap.delete k m), has-delete_self k m, size-delete k m u)

  pub get-IsValid : (k : String) (c : LruCache V) → IsValid c → IsValid (get k c).0
  unfolding get
  get-IsValid k c v = elim (Option-cases (JsMap.get k c.cache)) [
    | inl miss ↦ rw (miss, get) v
    | inr (e, hit) ↦
        rw (hit, get)
          (record {
            unique = set-IsUnique k e _ (delete-IsUnique k c.cache v.unique);
            bounded = ground (arith, size-move k e c.cache v.unique, v.bounded);
          })
  ]
