-- ===== src/Shelf/Books.antt =====
-- The list of books of frontend/src/hooks/useShelfData.ts: a further page is merged into it, and
-- books leave it when the server has deleted them. What a book has besides its id is a value of any
-- type.
use z_reader.Prelude.{
  ℕ, String, str_eq, eq_iff, ◌≡◌, ◌≢◌, refl, Bool, not, Option, none, some, List, [], ◌∷◌,
  if◌then◌else◌, filter, any, length, ◌⊎◌, arith, inl, inr,
}
use z_reader.JsMap
use z_reader.JsMap.{JsMap}
use z_reader.JsMap.Laws.{IsUnique, get-set, set-IsUnique}

pub record Book {ℓ} (A : Type ℓ) : Type ℓ where
  pub id : String
  pub body : A

-- The answer of `api.deleteBooks`: the ids it names, or none, or an error.
pub data DeleteAnswer : Type 0 where
  deleted : Option (List String) → DeleteAnswer
  delete_error : DeleteAnswer

abbrev pub has_id : String → List String → Bool
has_id id ids = any (λ i. str_eq i id) ids

-- `Array.from(new Set(ids)).filter(Boolean)`, the ids seen so far first
unfoldable pub unique_ids : List String → List String → List String
unique_ids seen [] = []
unique_ids seen (i ∷ is) =
    let kept = unique_ids (i ∷ seen) is in
    if has_id i seen then unique_ids seen is else if str_eq i "" then kept else i ∷ kept

pub record Shelf {ℓ} (A : Type ℓ) : Type ℓ where
  pub books : List (Book A)
  pub search_results : Option (List (Book A))
  pub progress_by_book_id : String → Option ℕ

nil-cases : (xs : List String) → (xs ≡ []) ⊎ ((y : String) × (ys : List String) × (xs ≡ y ∷ ys))
nil-cases [] = inl refl
nil-cases (y ∷ ys) = inr (y, ys, refl)

module _ {ℓ} {A : Type ℓ} where
  -- `books.forEach((book) => byID.set(book.id, book))`
  unfoldable pub set_all : List (Book A) → JsMap (Book A) → JsMap (Book A)
  set_all [] m = m
  set_all (b ∷ bs) m = set_all bs (JsMap.set b.id b m)

  -- `mergeBooks`, as the map whose values are the new list
  unfoldable pub merge_map : List (Book A) → List (Book A) → JsMap (Book A)
  unfolding set_all
  merge_map page current = set_all page (set_all current [])

  unfoldable pub merge_books : List (Book A) → List (Book A) → List (Book A)
  unfolding merge_map
  merge_books page current = JsMap.values (merge_map page current)

  abbrev pub without : List String → List (Book A) → List (Book A)
  without ids bs = filter (λ (b : Book A). not (has_id b.id ids)) bs

  abbrev pub without_in : List String → Option (List (Book A)) → Option (List (Book A))
  without_in ids none = none
  without_in ids (some bs) = some (without ids bs)

  abbrev pub remove : List String → Shelf A → Shelf A
  remove ids s = record {
    books = without ids s.books;
    search_results = without_in ids s.search_results;
    progress_by_book_id = λ id. if has_id id ids then none else s.progress_by_book_id id;
  }

  -- `handleDelete`, with whether `api.deleteBook` succeeds
  unfoldable pub handle_delete : String → Bool → Shelf A → Shelf A
  handle_delete id succeeds s = if succeeds then remove (id ∷ []) s else s

  -- `handleDeleteMany`, with the counts that it returns
  unfoldable pub handle_delete_many : List String → DeleteAnswer → Shelf A → Shelf A × (ℕ × ℕ)
  unfolding unique_ids
  handle_delete_many ids answer s =
      let asked = unique_ids [] ids in
      elim asked [
        | [] ↦ (s, (0, 0))
        | i ∷ is ↦ elim answer [
          | deleted none ↦ (remove (i ∷ is) s, (length (i ∷ is), 0))
          | deleted (some done) ↦ (remove done s, (length done, 0))
          | delete_error ↦ (s, (0, length (i ∷ is)))
        ]
      ]

  set_all-IsUnique :
      (bs : List (Book A)) (m : JsMap (Book A)) → IsUnique m → IsUnique (set_all bs m)
  unfolding set_all
  set_all-IsUnique [] m u = u
  set_all-IsUnique (b ∷ bs) m u = set_all-IsUnique bs (JsMap.set b.id b m) (set-IsUnique b.id b m u)

  -- Which book of a page has an id, the last one if several have.
  abbrev pub find_last : String → List (Book A) → Option (Book A) → Option (Book A)
  find_last id [] found = found
  find_last id (b ∷ bs) found = find_last id bs (if str_eq b.id id then some b else found)

  get-set_all :
      (id : String) (bs : List (Book A)) (m : JsMap (Book A))
      → JsMap.get id (set_all bs m) ≡ find_last id bs (JsMap.get id m)
  unfolding set_all
  get-set_all id [] m = refl
  get-set_all id (b ∷ bs) m = rw (get-set_all id bs (JsMap.set b.id b m), get-set b.id id b m) refl

  -- A merge has each id once, and for each id the last book of the page with it, or else the last
  -- that was there.
  pub merge_map-find :
      (page current : List (Book A))
      → IsUnique (merge_map page current)
        × ((id : String)
            → JsMap.get id (merge_map page current) ≡ find_last id page (find_last id current none))
  unfolding merge_map JsMap.get
  merge_map-find page current = (
    set_all-IsUnique page (set_all current []) (set_all-IsUnique current [] tt),
    λ id. rw (get-set_all id page (set_all current []), get-set_all id current []) refl,
  )

  -- How many books with this id a list has.
  abbrev pub copies : String → List (Book A) → ℕ
  copies id bs = length (filter (λ (b : Book A). str_eq b.id id) bs)

  copies-without :
      (id : String) (ids : List String) (bs : List (Book A))
      → copies id (without ids bs) ≡ (if has_id id ids then 0 else copies id bs)
  copies-without id ids [] = ground arith
  copies-without id ids (b ∷ bs) = ground (arith, eq_iff b.id id, copies-without id ids bs)

  -- After a deletion that the server confirms with a list of ids, where at least one id was asked
  -- for: exactly the books on that list are gone, from the shelf and from the reading progress.
  pub handle_delete_many_exact :
      (ids done : List String) (s : Shelf A) (id : String)
      → unique_ids [] ids ≢ []
      → (copies id (handle_delete_many ids (deleted (some done)) s).0.books
          ≡ (if has_id id done then 0 else copies id s.books))
        × ((handle_delete_many ids (deleted (some done)) s).0.progress_by_book_id id
            ≡ (if has_id id done then none else s.progress_by_book_id id))
        × ((handle_delete_many ids delete_error s).0 ≡ s)
  unfolding handle_delete_many
  handle_delete_many_exact ids done s id h = elim (nil-cases (unique_ids [] ids)) [
    | inl e ↦ absurd (h e)
    | inr (i, is, e) ↦ (
      rw (e, handle_delete_many) (copies-without id done s.books),
      rw (e, handle_delete_many) refl,
      rw (e, handle_delete_many) refl,
    )
  ]
