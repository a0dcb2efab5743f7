-- ===== src/JsMap/Laws.antt =====
-- The laws of the map operations.
use z_reader.Prelude.{
  suc, ◌≤◌, String, str_eq, eq_iff, ◌≡◌, refl, Bool, none, some, [], ◌∷◌, ◌++◌, if◌then◌else◌,
  arith,
}
use z_reader.JsMap.{JsMap, get, set, delete, has, size}

module _ {ℓ} {V : Type ℓ} where
  -- No key stands twice.
  abbrev pub IsUnique : JsMap V → Type 0
  IsUnique [] = Unit
  IsUnique ((k, v) ∷ m) = (has k m ≡ Bool.false) × IsUnique m

  pub get-set :
      (k j : String) (v : V) (m : JsMap V)
      → get j (set k v m) ≡ (if str_eq k j then some v else get j m)
  unfolding get set
  get-set k j v [] = refl
  get-set k j v ((i, w) ∷ m) = ground (arith, eq_iff k j, eq_iff i k, eq_iff i j, get-set k j v m)

  pub get-delete :
      (k j : String) (m : JsMap V) → get j (delete k m) ≡ (if str_eq k j then none else get j m)
  unfolding get delete
  get-delete k j [] = ground arith
  get-delete k j ((i, w) ∷ m) = ground (arith, eq_iff k j, eq_iff i k, eq_iff i j, get-delete k j m)

  pub set-IsUnique : (k : String) (v : V) (m : JsMap V) → IsUnique m → IsUnique (set k v m)
  unfolding set get
  set-IsUnique k v [] u = (refl, tt)
  set-IsUnique k v ((j, w) ∷ m) u =
      ground (arith, eq_iff j k, eq_iff k j, get-set k j v m, set-IsUnique k v m u.1)

  pub delete-IsUnique : (k : String) (m : JsMap V) → IsUnique m → IsUnique (delete k m)
  unfolding delete
  delete-IsUnique k [] u = tt
  delete-IsUnique k ((j, w) ∷ m) u =
      ground (arith, eq_iff j k, eq_iff k j, get-delete k j m, delete-IsUnique k m u.1)

  pub set_absent :
      (k : String) (v : V) (m : JsMap V) → get k m ≡ none → set k v m ≡ m ++ (k, v) ∷ []
  unfolding set get
  set_absent k v [] h = refl
  set_absent k v ((j, w) ∷ m) h = ground (arith, set_absent k v m)

  pub delete_absent : (k : String) (m : JsMap V) → get k m ≡ none → delete k m ≡ m
  unfolding delete get
  delete_absent k [] h = refl
  delete_absent k ((j, w) ∷ m) h = ground (arith, delete_absent k m)

  pub size-set :
      (k : String) (v : V) (m : JsMap V)
      → size (set k v m) ≡ (if has k m then size m else suc (size m))
  unfolding set get
  size-set k v [] = refl
  size-set k v ((j, w) ∷ m) = ground (arith, size-set k v m)

  pub size-delete-le : (k : String) (m : JsMap V) → size (delete k m) ≤ size m
  unfolding delete
  size-delete-le k [] = omega arith
  size-delete-le k ((j, w) ∷ m) = ground (arith, size-delete-le k m)

  pub size-delete :
      (k : String) (m : JsMap V)
      → IsUnique m
      → (if has k m then suc (size (delete k m)) else size (delete k m)) ≡ size m
  unfolding delete get
  size-delete k [] u = refl
  size-delete k ((j, w) ∷ m) u = ground (arith, eq_iff j k, delete_absent k m, size-delete k m u.1)
