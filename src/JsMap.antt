-- ===== src/JsMap.antt =====
-- The JavaScript `Map` with text keys: an association list in insertion order. `set` on a key that
-- is there keeps its place, and a key that `delete` removed and `set` adds again goes to the end.
pub mod Laws
use z_reader.Prelude.{
  ℕ, String, str_eq, Bool, Option, none, some, List, [], ◌∷◌, map, if◌then◌else◌, is_some, length,
}

abbrev pub JsMap {ℓ} : Type ℓ → Type ℓ
JsMap V = List (String × V)

module _ {ℓ} {V : Type ℓ} where
  unfoldable pub get : String → JsMap V → Option V
  get k [] = none
  get k ((j, v) ∷ m) = if str_eq j k then some v else get k m

  abbrev pub has : String → JsMap V → Bool
  has k m = is_some (get k m)

  unfoldable pub set : String → V → JsMap V → JsMap V
  set k v [] = (k, v) ∷ []
  set k v ((j, w) ∷ m) = if str_eq j k then (k, v) ∷ m else (j, w) ∷ set k v m

  unfoldable pub delete : String → JsMap V → JsMap V
  delete k [] = []
  delete k ((j, v) ∷ m) = let rest = delete k m in if str_eq j k then rest else (j, v) ∷ rest

  abbrev pub size : JsMap V → ℕ
  size m = length m

  abbrev pub values : JsMap V → List V
  values m = map (λ e. e.1) m

  abbrev pub keys : JsMap V → List String
  keys m = map (λ e. e.0) m
