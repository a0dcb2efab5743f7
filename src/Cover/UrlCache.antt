-- ===== src/Cover/UrlCache.antt =====
-- The cache of object URLs (`coverUrlCache`) of frontend/src/hooks/useCoverUrl.ts. An operation
-- returns the URLs that it revoked beside the new cache.
use Prim.Native.String
use text.Mathlib.Text.{starts_with}
use z_reader.Prelude.{
  ℕ, zero, suc, String, str_eq, Bool, Option, none, some, List, [], ◌∷◌, ◌++◌, if◌then◌else◌, ltb,
  not, ◌&&◌, length,
}
use z_reader.JsMap
use z_reader.JsMap.{JsMap}
pub mod Laws

abbrev pub max_cached_covers : ℕ
max_cached_covers = 200

abbrev pub Urls : Type 0
Urls = JsMap String

-- An empty text is falsy.
unfoldable pub get_cached_cover_url : String → Urls → Urls × Option String
get_cached_cover_url key m = elim (JsMap.get key m) [
  | none ↦ (m, none)
  | some url ↦
      if str_eq url "" then (m, none) else (JsMap.set key url (JsMap.delete key m), some url)
]

-- The test of the `for` loop: another entry of the same book.
abbrev pub is_stale : String → String → String → Bool
is_stale prefix cache_key key = not (str_eq key cache_key) && starts_with key prefix

-- The `for` loop: the entries that stay, and the URLs that are revoked.
unfoldable pub drop_stale : String → String → Urls → Urls × List String
drop_stale prefix cache_key [] = ([], [])
drop_stale prefix cache_key ((key, url) ∷ m) =
    let (rest, revoked) = drop_stale prefix cache_key m in
    if is_stale prefix cache_key key then (rest, url ∷ revoked) else ((key, url) ∷ rest, revoked)

-- `if (existing && existing !== url) URL.revokeObjectURL(existing)`
abbrev pub replaced : Option String → String → List String
replaced none url = []
replaced (some existing) url =
    if not (str_eq existing "") && not (str_eq existing url) then existing ∷ [] else []

-- One round of the `while` loop.
unfoldable pub drop_oldest : Urls → Urls × List String
drop_oldest [] = ([], [])
drop_oldest ((key, url) ∷ m) = (JsMap.delete key ((key, url) ∷ m), url ∷ [])

-- The `while` loop, on fuel.
unfoldable pub trim : ℕ → Urls → Urls × List String
unfolding drop_oldest
trim zero m = (m, [])
trim (suc fuel) m =
    let (m', url) = drop_oldest m in
    let (rest, revoked) = trim fuel m' in
    if ltb max_cached_covers (JsMap.size m) then (rest, url ++ revoked) else (m, [])

unfoldable pub set_cached_cover_url : String → String → String → Urls → Urls × List String
unfolding drop_stale trim
set_cached_cover_url book_id cache_key url m =
    let (kept, stale) = drop_stale (String.◌++◌ book_id ":") cache_key m in
    let added = JsMap.set cache_key url (JsMap.delete cache_key kept) in
    let (trimmed, oldest) = trim (JsMap.size added) added in
    (trimmed, stale ++ (replaced (JsMap.get cache_key kept) url ++ oldest))

unfoldable pub clear_cover_url_cache : Urls → Urls × List String
clear_cover_url_cache m = ([], JsMap.values m)
