-- ===== src/Shelf/Loading/Requests.antt =====
-- What the answers to the requests of the shelf (frontend/src/hooks/useShelfData.ts) may rely on, and
-- when the state is current.
use z_reader.Prelude.{
  ℕ, ◌≤◌, ◌<◌, ◌≡◌, inl, inr, refl, sym, ap, ◌∙◌, arith, String, str_eq, Bool, true, false, Option,
  none, some, List, [], ◌∷◌, if◌then◌else◌, All, Bool-cases, map, or_else,
}
use z_reader.JsMap
use z_reader.Shelf.Books.{Book, merge_books, merge_map, set_all}
use z_reader.Shelf.Loading.{
  Asked, Page, Kind, first_page, search_page, more_page, Request, ShelfData, is_in, books_of,
}

abbrev pub Are : Asked → List (Book Asked) → Type 0
Are a bs = All (λ (b : Book Asked). b.body ≡ a) bs

abbrev pub list_of : ℕ → Asked
list_of f = record { filter = f; text = none }

abbrev pub now_asked : ShelfData → Asked
now_asked s = record { filter = s.filter; text = s.text }

-- What an answer to a request of this generation may rely on.
abbrev pub IsTimely : ShelfData → Request → Kind → Type 0
IsTimely s r first_page = r.load_generation ≡ s.load_generation → r.asked ≡ list_of s.loaded
IsTimely s r search_page = r.search_generation ≡ s.search_generation → r.asked ≡ now_asked s
IsTimely s r more_page =
    r.load_generation ≡ s.load_generation
    → r.search_generation ≡ s.search_generation
    → (r.asked ≡ now_asked s) × (s.is_loading_books ≡ false) × (s.is_searching ≡ false)

abbrev pub IsRequest : ShelfData → Request → Type 0
IsRequest s r =
    (r.load_generation ≤ s.load_generation)
    × (r.search_generation ≤ s.search_generation)
    × IsTimely s r r.kind

abbrev pub Timer : ShelfData → Option Request → Type 0
Timer s none = Unit
Timer s (some r) = IsRequest s r

pub record IsCurrent (s : ShelfData) : Type 0 where
  pub books :
      s.is_loading_books ≡ false
      → s.load_timer ≡ false
      → s.filter ≡ s.loaded
      → Are (list_of s.loaded) s.books
  pub old_loads : All (λ g. g ≤ s.load_generation) s.aborted_loads
  pub live_load : s.load_timer ≡ false → is_in s.load_generation s.aborted_loads ≡ false
  pub old_searches : All (λ g. g < s.search_generation) s.aborted_searches
  pub results : s.is_searching ≡ false → Are (now_asked s) (or_else s.search_results [])
  pub timer : Timer s s.search_timer

-- A state that follows another, as far as requests depend on it.
abbrev pub Later : ShelfData → ShelfData → Type 0
Later s t =
    (s.load_generation ≤ t.load_generation)
    × (s.search_generation ≤ t.search_generation)
    × (t.load_generation ≡ s.load_generation
        → (t.loaded ≡ s.loaded) × (s.is_loading_books ≡ false → t.is_loading_books ≡ false))
    × (t.search_generation ≡ s.search_generation
        → (t.filter ≡ s.filter)
          × (t.text ≡ s.text)
          × (s.is_searching ≡ false → t.is_searching ≡ false))

IsTimely-Later :
    (s t : ShelfData) (r : Request) (k : Kind)
    → r.load_generation ≤ s.load_generation
    → r.search_generation ≤ s.search_generation
    → Later s t
    → IsTimely s r k
    → IsTimely t r k
IsTimely-Later s t r first_page a b l h = λ e.
    let g : t.load_generation ≡ s.load_generation = omega (arith, a, l.0, e) in
    h (omega (arith, e, g)) ∙ ap list_of (sym (l.2 g).0)
IsTimely-Later s t r search_page a b l h = λ e.
    let g : t.search_generation ≡ s.search_generation = omega (arith, b, l.1, e) in
    let kept = l.3 g in
    h (omega (arith, e, g))
    ∙ ap (λ f. record { filter = f; text = s.text }) (sym kept.0)
    ∙ ap (λ x. record { filter = t.filter; text = x }) (sym kept.1)
IsTimely-Later s t r more_page a b l h = λ d e.
    let g : t.load_generation ≡ s.load_generation = omega (arith, a, l.0, d) in
    let j : t.search_generation ≡ s.search_generation = omega (arith, b, l.1, e) in
    let kept = l.3 j in
    let was = h (omega (arith, d, g)) (omega (arith, e, j)) in
    (
      was.0
          ∙ ap (λ f. record { filter = f; text = s.text }) (sym kept.0)
          ∙ ap (λ x. record { filter = t.filter; text = x }) (sym kept.1),
      (l.2 g).1 was.1,
      kept.2 was.2,
    )

pub request-Later : (s t : ShelfData) (r : Request) → Later s t → IsRequest s r → IsRequest t r
request-Later s t r l (a, b, h) =
    (omega (arith, a, l.0), omega (arith, b, l.1), IsTimely-Later s t r r.kind a b l h)

pub Timer-Later : (s t : ShelfData) (o : Option Request) → Later s t → Timer s o → Timer t o
Timer-Later s t none l h = tt
Timer-Later s t (some r) l h = request-Later s t r l h

pub books_of-Are : (a : Asked) (answer : Option Page) → Are a (books_of a answer)
books_of-Are a none = tt
books_of-Are a (some p) = go p.ids
  where
    go : (ids : List String) → Are a (map (λ id. record { id = id; body = a }) ids)
    go [] = tt
    go (i ∷ is) = (refl, go is)

set-Are :
    (a : Asked) (k : String) (b : Book Asked) (m : JsMap.JsMap (Book Asked))
    → b.body ≡ a
    → Are a (JsMap.values m)
    → Are a (JsMap.values (JsMap.set k b m))
unfolding JsMap.set
set-Are a k b [] h all = (h, tt)
set-Are a k b ((j, w) ∷ m) h all = elim (Bool-cases (str_eq j k)) [
  | inl hit ↦ rw (hit, JsMap.set) (h, all.1)
  | inr miss ↦ rw (miss, JsMap.set) (all.0, set-Are a k b m h all.1)
]

set_all-Are :
    (a : Asked) (bs : List (Book Asked)) (m : JsMap.JsMap (Book Asked))
    → Are a bs
    → Are a (JsMap.values m)
    → Are a (JsMap.values (set_all bs m))
unfolding set_all
set_all-Are a [] m h all = all
set_all-Are a (b ∷ bs) m h all =
    set_all-Are a bs (JsMap.set b.id b m) h.1 (set-Are a b.id b m h.0 all)

pub merge_books-Are :
    (a : Asked) (page current : List (Book Asked))
    → Are a page
    → Are a current
    → Are a (merge_books page current)
unfolding merge_books merge_map
merge_books-Are a page current h k =
    set_all-Are a page (set_all current []) h (set_all-Are a current [] k tt)

pub not_in : (n : ℕ) (gs : List ℕ) → All (λ g. g < n) gs → is_in n gs ≡ false
not_in n [] h = refl
not_in n (g ∷ gs) h = ground (arith, h.0, not_in n gs h.1)

pub choose-Are :
    (c : Bool) (a : Asked) (xs ys : List (Book Asked))
    → (c ≡ true → Are a xs)
    → (c ≡ false → Are a ys)
    → Are a (if c then xs else ys)
choose-Are true a xs ys h k = h refl
choose-Are false a xs ys h k = k refl

pub choose_results-Are :
    (c : Bool) (a : Asked) (xs ys : Option (List (Book Asked)))
    → (c ≡ true → Are a (or_else xs []))
    → (c ≡ false → Are a (or_else ys []))
    → Are a (or_else (if c then xs else ys) [])
choose_results-Are true a xs ys h k = h refl
choose_results-Are false a xs ys h k = k refl
