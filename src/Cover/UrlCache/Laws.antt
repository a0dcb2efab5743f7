-- ===== src/Cover/UrlCache/Laws.antt =====
-- Stores and evictions of the cover cache (frontend/src/hooks/useCoverUrl.ts): reading back, the
-- limit, and the revoked URLs.
use Prim.Native.String
use z_reader.Prelude.{
  ℕ, zero, suc, ◌+◌, ◌≤◌, String, str_eq, eq_iff, ◌≡◌, ◌≢◌, inl, inr, refl, true, none, some, List,
  [], ◌∷◌, ◌++◌, if◌then◌else◌, ltb, length, arith, Bool-cases,
}
use z_reader.JsMap
use z_reader.JsMap.Laws.{
  IsUnique, get-set, get-delete, delete-IsUnique, set-IsUnique, set_absent, delete_absent,
}
use z_reader.Cover.UrlCache.{
  Urls, max_cached_covers, is_stale, drop_stale, replaced, drop_oldest, trim, set_cached_cover_url,
}

-- How often a URL stands in a list.
abbrev pub count : String → List String → ℕ
count u [] = 0
count u (x ∷ xs) = if str_eq x u then suc (count u xs) else count u xs

count-append : (u : String) (xs ys : List String) → count u (xs ++ ys) ≡ count u xs + count u ys
count-append u [] ys = omega arith
count-append u (x ∷ xs) ys = ground (arith, count-append u xs ys)

-- The URLs that the cache holds.
abbrev pub held : String → Urls → ℕ
held u m = count u (JsMap.values m)

get-drop_stale :
    (p c k : String) (m : Urls)
    → JsMap.get k (drop_stale p c m).0 ≡ (if is_stale p c k then none else JsMap.get k m)
unfolding drop_stale JsMap.get
get-drop_stale p c k [] = ground arith
get-drop_stale p c k ((j, u) ∷ m) = elim (Bool-cases (str_eq j k)) [
  | inl same ↦
      let e : j ≡ k = (eq_iff j k).0 same in
      rw (e, drop_stale) (ground (arith, eq_iff k k, get-drop_stale p c k m))
  | inr other ↦ ground (arith, other, get-drop_stale p c k m)
]

drop_stale-IsUnique : (p c : String) (m : Urls) → IsUnique m → IsUnique (drop_stale p c m).0
unfolding drop_stale
drop_stale-IsUnique p c [] u = tt
drop_stale-IsUnique p c ((j, w) ∷ m) u =
    ground (arith, get-drop_stale p c j m, drop_stale-IsUnique p c m u.1)

held-drop_stale :
    (u p c : String) (m : Urls)
    → held u (drop_stale p c m).0 + count u (drop_stale p c m).1 ≡ held u m
unfolding drop_stale
held-drop_stale u p c [] = refl
held-drop_stale u p c ((j, w) ∷ m) = ground (arith, held-drop_stale u p c m)

delete_head : (k w : String) (m : Urls) → IsUnique ((k, w) ∷ m) → JsMap.delete k ((k, w) ∷ m) ≡ m
unfolding JsMap.delete
delete_head k w m v = ground (arith, eq_iff k k, delete_absent k m)

drop_oldest_tail :
    (k w : String) (m : Urls) → IsUnique ((k, w) ∷ m) → drop_oldest ((k, w) ∷ m) ≡ (m, w ∷ [])
unfolding drop_oldest JsMap.delete
drop_oldest_tail k w m v = ground (arith, eq_iff k k, delete_absent k m)

-- The loop ends within its fuel, below the limit.
size-trim :
    (n : ℕ) (m : Urls)
    → IsUnique m
    → JsMap.size m ≤ n + max_cached_covers
    → (JsMap.size (trim n m).0 ≤ max_cached_covers) × IsUnique (trim n m).0
unfolding trim
size-trim zero m v h = (omega arith, v)
size-trim (suc n) [] v h = ground arith
size-trim (suc n) ((k, w) ∷ m) v h = ground (arith, drop_oldest_tail k w m v, size-trim n m v.1)

held-trim :
    (u : String) (n : ℕ) (m : Urls)
    → IsUnique m
    → held u (trim n m).0 + count u (trim n m).1 ≡ held u m
unfolding trim
held-trim u zero m v = omega arith
held-trim u (suc n) [] v = ground arith
held-trim u (suc n) ((k, w) ∷ m) v = ground (arith, drop_oldest_tail k w m v, held-trim u n m v.1)

get-last :
    (m : Urls) (k w : String)
    → IsUnique (m ++ (k, w) ∷ [])
    → JsMap.get k (m ++ (k, w) ∷ []) ≡ some w
unfolding JsMap.get
get-last [] k w v = ground (arith, eq_iff k k)
get-last ((j, x) ∷ m) k w v = ground (arith, eq_iff j k, get-last m k w v.1)

-- The entry at the end stays.
get-trim_last :
    (n : ℕ) (m : Urls) (k w : String)
    → IsUnique (m ++ (k, w) ∷ [])
    → JsMap.get k (trim n (m ++ (k, w) ∷ [])).0 ≡ some w
unfolding trim JsMap.get
get-trim_last zero m k w v = get-last m k w v
get-trim_last (suc n) [] k w v = ground (arith, eq_iff k k)
get-trim_last (suc n) ((j, x) ∷ m) k w v =
    elim (Bool-cases (ltb max_cached_covers (suc (length (m ++ (k, w) ∷ []))))) [
      | inl over ↦ rw (over, trim, delete_head j x (m ++ (k, w) ∷ []) v) (get-trim_last n m k w v.1)
      | inr fits ↦ rw (fits, trim) (get-last ((j, x) ∷ m) k w v)
    ]

get-trim_absent :
    (n : ℕ) (m : Urls) (k : String)
    → IsUnique m
    → JsMap.get k m ≡ none
    → JsMap.get k (trim n m).0 ≡ none
unfolding trim JsMap.get
get-trim_absent zero m k v h = h
get-trim_absent (suc n) [] k v h = ground arith
get-trim_absent (suc n) ((j, x) ∷ m) k v h =
    ground (arith, drop_oldest_tail j x m v, get-trim_absent n m k v.1)

held-append :
    (u k w : String) (m : Urls)
    → held u (m ++ (k, w) ∷ []) ≡ held u m + (if str_eq w u then 1 else 0)
held-append u k w [] = ground arith
held-append u k w ((j, x) ∷ m) = ground (arith, held-append u k w m)

held-delete :
    (u k url : String) (m : Urls)
    → IsUnique m
    → JsMap.get k m ≢ some url
    → JsMap.get k m ≢ some ""
    → held u (JsMap.delete k m) + count u (replaced (JsMap.get k m) url) ≡ held u m
unfolding JsMap.delete JsMap.get
held-delete u k url [] v h e = refl
held-delete u k url ((j, x) ∷ m) v h e =
    ground
      (arith, eq_iff j k, eq_iff x "", eq_iff x url, delete_absent k m, held-delete u k url m v.1)

-- The state of `setCachedCoverUrl` before its `while` loop.
module _ (book_id cache_key url : String) (m : Urls) (v : IsUnique m) where
  abbrev prefix : String
  prefix = String.◌++◌ book_id ":"

  abbrev kept : Urls
  kept = (drop_stale prefix cache_key m).0

  abbrev added : Urls
  added = JsMap.set cache_key url (JsMap.delete cache_key kept)

  absent : JsMap.get cache_key (JsMap.delete cache_key kept) ≡ none
  absent = ground (arith, get-delete cache_key cache_key kept, eq_iff cache_key cache_key)

  added-append : added ≡ JsMap.delete cache_key kept ++ (cache_key, url) ∷ []
  added-append = set_absent cache_key url (JsMap.delete cache_key kept) absent

  added-IsUnique : IsUnique added
  added-IsUnique =
      set-IsUnique cache_key url _
        (delete-IsUnique cache_key kept (drop_stale-IsUnique prefix cache_key m v))

  -- On a cache with distinct keys, a store keeps them distinct and leaves at most 200 covers in the cache.
  pub set_cached-IsValid :
      IsUnique (set_cached_cover_url book_id cache_key url m).0
      × (JsMap.size (set_cached_cover_url book_id cache_key url m).0 ≤ max_cached_covers)
  unfolding set_cached_cover_url
  set_cached-IsValid =
      let t = size-trim (JsMap.size added) added added-IsUnique (omega arith) in (t.1, t.0)

  -- On a cache with distinct keys, after a store the key has the new URL, and every other key of the same book is gone.
  pub get-set_cached :
      (k : String)
      → is_stale (String.◌++◌ book_id ":") cache_key k ≡ true
      → (JsMap.get cache_key (set_cached_cover_url book_id cache_key url m).0 ≡ some url)
        × (JsMap.get k (set_cached_cover_url book_id cache_key url m).0 ≡ none)
  unfolding set_cached_cover_url
  get-set_cached k stale = (
    rw added-append (
        get-trim_last _ (JsMap.delete cache_key kept) cache_key url
          (rw added-append at added-IsUnique)),
    get-trim_absent (JsMap.size added) added k added-IsUnique (
        ground (
          arith,
          stale,
          eq_iff cache_key k,
          eq_iff k cache_key,
          get-set cache_key k url (JsMap.delete cache_key kept),
          get-delete cache_key k kept,
          get-drop_stale prefix cache_key k m,
        )),
  )

  -- On a cache with distinct keys, where the stored URL is not yet under the key, and no empty URL
  -- is: for each URL, the revoked
  -- and the held ones afterwards are together those held before and the new one.
  pub set_cached_revokes :
      (u : String)
      → JsMap.get cache_key m ≢ some url
      → JsMap.get cache_key m ≢ some ""
      → held u (set_cached_cover_url book_id cache_key url m).0
          + count u (set_cached_cover_url book_id cache_key url m).1
        ≡ held u m + (if str_eq url u then 1 else 0)
  unfolding set_cached_cover_url
  set_cached_revokes u other filled =
      let old = JsMap.get cache_key kept in
      let (trimmed, oldest) = trim (JsMap.size added) added in
      let stale = (drop_stale prefix cache_key m).1 in
      let same : old ≡ JsMap.get cache_key m =
        ground (arith, get-drop_stale prefix cache_key cache_key m, eq_iff cache_key cache_key) in
      let gone : held u (JsMap.delete cache_key kept) + count u (replaced old url) ≡ held u kept =
        held-delete u cache_key url kept (drop_stale-IsUnique prefix cache_key m v) (rw same other)
          (rw same filled) in
      let put : held u added
          ≡ held u (JsMap.delete cache_key kept) + (if str_eq url u then 1 else 0) =
        rw added-append (held-append u cache_key url (JsMap.delete cache_key kept)) in
      omega (
        arith,
        held-trim u (JsMap.size added) added added-IsUnique,
        held-drop_stale u prefix cache_key m,
        gone,
        put,
        count-append u stale (replaced old url ++ oldest),
        count-append u (replaced old url) oldest,
      )
