-- ===== src/Shelf/Loading/Moves.antt =====
-- What each operation of the shelf (frontend/src/hooks/useShelfData.ts) keeps: the books and the requests
-- at work are those that were asked for last.
use mathlib.Core.Path.{subst}
use z_reader.Prelude.{
  ℕ, ◌+◌, ◌<◌, ◌≡◌, inl, inr, refl, sym, ap, ◌∙◌, arith, Bool, true, false, not, ◌&&◌, Option, none,
  some, [], ◌∷◌, ◌==◌, All, All-map, Bool-cases, is_some, or_else,
}
use z_reader.Shelf.Loading.{
  Asked, Page, first_page, search_page, more_page, Request, ShelfData, load_books, after_load,
  after_more, after_search, change_text, load_effect, search_effect, is_in, books_of, add_page,
  end_more,
}
use z_reader.Shelf.Loading.Requests.{
  Are, list_of, now_asked, IsTimely, IsRequest, Timer, IsCurrent, Later, Timer-Later, books_of-Are,
  merge_books-Are, not_in, choose-Are, choose_results-Are,
}

-- An operation that keeps the state current, and its requests.
abbrev pub Moves : ShelfData → ShelfData → Type 0
Moves s t = IsCurrent t × Later s t

pub load_books-Moves :
    (w : Bool) (f : ℕ) (s : ShelfData)
    → IsCurrent s
    → Moves s (record (load_books f s).0 { load_timer = w })
      × IsRequest (record (load_books f s).0 { load_timer = w }) (load_books f s).1
unfolding load_books
load_books-Moves w f s v =
    let later : Later s (record (load_books f s).0 { load_timer = w }) =
      (omega arith, omega arith, λ e. absurd (omega (arith, e)), λ e. (refl, refl, λ h. h)) in
    let old : All (λ g. g < s.load_generation + 1) (s.load_generation ∷ s.aborted_loads) =
      (omega arith, All-map _ _ s.aborted_loads (λ g h. omega (arith, h)) v.old_loads) in
    (
      (
        record {
          books = λ e. absurd (ground (arith, e));
          old_loads =
              All-map _ _ (s.load_generation ∷ s.aborted_loads) (λ g h. omega (arith, h)) old;
          live_load = λ h. not_in (s.load_generation + 1) (s.load_generation ∷ s.aborted_loads) old;
          old_searches = v.old_searches;
          results = v.results;
          timer =
              Timer-Later s (record (load_books f s).0 { load_timer = w }) s.search_timer later
                v.timer;
        },
        later,
      ),
      (omega arith, omega arith, λ e. refl),
    )

pub after_load-Moves :
    (r : Request) (answer : Option Page) (s : ShelfData)
    → IsTimely s r first_page
    → IsCurrent s
    → Moves s (after_load r answer s)
unfolding after_load
after_load-Moves r answer s timely v =
    let later : Later s (after_load r answer s) =
      (omega arith, omega arith, λ e. (refl, λ h. ground (arith, h)), λ e. (refl, refl, λ h. h)) in
    (
      record {
        books = λ e w k.
            choose-Are _ (list_of s.loaded) (books_of r.asked answer) s.books
              (λ c.
                subst (λ a. Are a (books_of r.asked answer)) (timely (ground (arith, c)))
                  (books_of-Are r.asked answer))
              (λ c. elim (Bool-cases (r.load_generation == s.load_generation)) [
                | inr other ↦ v.books (ground (arith, other, e)) w k
                | inl here ↦
                    let g : r.load_generation ≡ s.load_generation = ground (arith, here) in
                    let live : is_in r.load_generation s.aborted_loads ≡ false =
                      ap (λ n. is_in n s.aborted_loads) g ∙ v.live_load w in
                    absurd (ground (arith, here, live, c))
              ]);
        old_loads = v.old_loads;
        live_load = v.live_load;
        old_searches = v.old_searches;
        results = v.results;
        timer = Timer-Later s (after_load r answer s) s.search_timer later v.timer;
      },
      later,
    )

pub after_search-Moves :
    (r : Request) (answer : Option Page) (s : ShelfData)
    → IsTimely s r search_page
    → IsCurrent s
    → Moves s (after_search r answer s)
unfolding after_search
after_search-Moves r answer s timely v =
    let later : Later s (after_search r answer s) =
      (omega arith, omega arith, λ e. (refl, λ h. h), λ e. (refl, refl, λ h. ground (arith, h))) in
    (
      record {
        books = v.books;
        old_loads = v.old_loads;
        live_load = v.live_load;
        old_searches = v.old_searches;
        results = λ e.
            choose_results-Are _ (now_asked s) (some (books_of r.asked answer)) s.search_results
              (λ c.
                subst (λ a. Are a (books_of r.asked answer)) (timely (ground (arith, c)))
                  (books_of-Are r.asked answer))
              (λ c. elim (Bool-cases (r.search_generation == s.search_generation)) [
                | inr other ↦ v.results (ground (arith, other, e))
                | inl here ↦
                    let g : r.search_generation ≡ s.search_generation = ground (arith, here) in
                    let live : is_in r.search_generation s.aborted_searches ≡ false =
                      ap (λ n. is_in n s.aborted_searches) g
                      ∙ not_in s.search_generation s.aborted_searches v.old_searches in
                    absurd (ground (arith, here, live, c))
              ]);
        timer = Timer-Later s (after_search r answer s) s.search_timer later v.timer;
      },
      later,
    )

end_more-Moves : (r : Request) (s : ShelfData) → IsCurrent s → Moves s (end_more r s)
end_more-Moves r s v = (
  record {
    books = v.books;
    old_loads = v.old_loads;
    live_load = v.live_load;
    old_searches = v.old_searches;
    results = v.results;
    timer = v.timer;
  },
  (omega arith, omega arith, λ e. (refl, λ h. h), λ e. (refl, refl, λ h. h)),
)

add_page-Moves :
    (text : Option ℕ) (a : Asked) (answer : Option Page) (s : ShelfData)
    → a.text ≡ text
    → a ≡ now_asked s
    → s.is_loading_books ≡ false
    → s.is_searching ≡ false
    → IsCurrent s
    → Moves s (add_page text a answer s)
add_page-Moves text a none s e now idle still v =
    (v, (omega arith, omega arith, λ e. (refl, λ h. h), λ e. (refl, refl, λ h. h)))
add_page-Moves none a (some p) s e now idle still v = (
  record {
    books = λ l w k.
        let text : s.text ≡ none = ap (λ (x : Asked). x.text) (sym now) ∙ e in
        let asked : a ≡ list_of s.loaded =
          now ∙ ap (λ x. record { filter = s.filter; text = x }) text ∙ ap list_of k in
        merge_books-Are (list_of s.loaded) (books_of a (some p)) s.books
          (subst (λ x. Are x (books_of a (some p))) asked (books_of-Are a (some p)))
          (v.books l w k);
    old_loads = v.old_loads;
    live_load = v.live_load;
    old_searches = v.old_searches;
    results = v.results;
    timer = v.timer;
  },
  (omega arith, omega arith, λ e. (refl, λ h. h), λ e. (refl, refl, λ h. h)),
)
add_page-Moves (some t) a (some p) s e now idle still v = (
  record {
    books = v.books;
    old_loads = v.old_loads;
    live_load = v.live_load;
    old_searches = v.old_searches;
    results = λ l.
        merge_books-Are (now_asked s) (books_of a (some p)) (or_else s.search_results [])
          (subst (λ x. Are x (books_of a (some p))) now (books_of-Are a (some p))) (v.results l);
    timer = v.timer;
  },
  (omega arith, omega arith, λ e. (refl, λ h. h), λ e. (refl, refl, λ h. h)),
)

pub after_more-Moves :
    (r : Request) (answer : Option Page) (s : ShelfData)
    → IsTimely s r more_page
    → IsCurrent s
    → Moves s (after_more r answer s)
unfolding after_more
after_more-Moves r answer s timely v =
    elim (Bool-cases (
      not (is_in r.controller s.aborted_more)
      && (r.load_generation == s.load_generation
          && (r.search_generation == s.search_generation)))) [
            | inr stale ↦ rw (stale, after_more) (end_more-Moves r s v)
            | inl current ↦
                let (now, idle, still) =
                  timely (ground (arith, current)) (ground (arith, current)) in
                let (w, l) = add_page-Moves r.asked.text r.asked answer s refl now idle still v in
                let (x, k) = end_more-Moves r (add_page r.asked.text r.asked answer s) w in
                rw (current, after_more) (x, l)
          ]

-- After the effect that searches: no old results, unless a search is on.
pub search_effect-Are :
    (u : ShelfData)
    → (search_effect u).is_searching ≡ false
    → Are (now_asked (search_effect u)) (or_else (search_effect u).search_results [])
unfolding search_effect
search_effect-Are u h =
    choose_results-Are _ (now_asked u) u.search_results none (λ c. absurd (ground (arith, c, h)))
      (λ c. tt)

pub search_effect-Timer : (u : ShelfData) → Timer (search_effect u) (search_effect u).search_timer
unfolding search_effect
search_effect-Timer u = elim (Bool-cases (u.is_authenticated && is_some u.text)) [
  | inl on ↦ rw (on, search_effect) (omega arith, omega arith, λ e. refl)
  | inr off ↦ rw (off, search_effect) tt
]

pub effects-Moves :
    (b : Bool) (f : ℕ) (s : ShelfData)
    → IsCurrent s
    → Moves s (search_effect (load_effect (record s { is_authenticated = b; filter = f })))
unfolding search_effect load_effect
effects-Moves true f s v =
    let u = load_effect (record s { is_authenticated = true; filter = f }) in
    (
      record {
        books = λ e w. absurd (ground (arith, w));
        old_loads = (omega arith, v.old_loads);
        live_load = λ w. absurd (ground (arith, w));
        old_searches =
            (omega arith, All-map _ _ s.aborted_searches (λ g h. omega (arith, h)) v.old_searches);
        results = search_effect-Are u;
        timer = search_effect-Timer u;
      },
      (omega arith, omega arith, λ e. (refl, λ h. h), λ e. absurd (omega (arith, e))),
    )
effects-Moves false f s v =
    let u = load_effect (record s { is_authenticated = false; filter = f }) in
    let old : All (λ g. g < s.load_generation + 1) (s.load_generation ∷ s.aborted_loads) =
      (omega arith, All-map _ _ s.aborted_loads (λ g h. omega (arith, h)) v.old_loads) in
    (
      record {
        books = λ e w k. tt;
        old_loads = All-map _ _ (s.load_generation ∷ s.aborted_loads) (λ g h. omega (arith, h)) old;
        live_load = λ w. not_in (s.load_generation + 1) (s.load_generation ∷ s.aborted_loads) old;
        old_searches =
            (omega arith, All-map _ _ s.aborted_searches (λ g h. omega (arith, h)) v.old_searches);
        results = search_effect-Are u;
        timer = search_effect-Timer u;
      },
      (omega arith, omega arith, λ e. absurd (omega (arith, e)), λ e. absurd (omega (arith, e))),
    )

pub change_text-Moves : (t : Option ℕ) (s : ShelfData) → IsCurrent s → Moves s (change_text t s)
unfolding change_text search_effect
change_text-Moves t s v = (
  record {
    books = v.books;
    old_loads = v.old_loads;
    live_load = v.live_load;
    old_searches =
        (omega arith, All-map _ _ s.aborted_searches (λ g h. omega (arith, h)) v.old_searches);
    results = search_effect-Are (record s { text = t });
    timer = search_effect-Timer (record s { text = t });
  },
  (omega arith, omega arith, λ e. (refl, λ h. h), λ e. absurd (omega (arith, e))),
)
