-- ===== src/Shelf/Loading/Events/Current.antt =====
-- The shelf shows what was asked for last (frontend/src/hooks/useShelfData.ts).
use mathlib.Core.Path.{subst}
use z_reader.Prelude.{
  All-middle, ℕ, ◌≡◌, inl, inr, refl, sym, ap, arith, false, not, ◌||◌, Option, none, some, List,
  [], ◌∷◌, ◌++◌, All, All-append, All-map, Bool-cases, is_some, or_else,
}
use z_reader.Shelf.Books.{Book}
use z_reader.Shelf.Loading.{
  Asked, Page, Kind, first_page, search_page, more_page, Request, ShelfData, load_books,
  load_more_books, after_answer, change_filter, change_text, change_login, cursor_for,
}
use z_reader.Shelf.Loading.Requests.{
  Are, now_asked, IsTimely, IsRequest, IsCurrent, Timer, request-Later,
}
use z_reader.Shelf.Loading.Moves.{
  Moves, load_books-Moves, after_load-Moves, after_search-Moves, after_more-Moves, effects-Moves,
  change_text-Moves,
}
use z_reader.Shelf.Loading.Events.{
  System, blank, initial, Event, Reach, start, next, fires_load, reloads, fires_search, asks_more,
  answers, filters, types, logs,
}

pub record IsValid (s : System) : Type 0 where
  pub current : IsCurrent s.data_
  pub requests : All (IsRequest s.data_) s.pending

after_answer-Moves :
    (r : Request) (k : Kind) (answer : Option Page) (s : ShelfData)
    → r.kind ≡ k
    → IsTimely s r k
    → IsCurrent s
    → Moves s (after_answer r answer s)
unfolding after_answer
after_answer-Moves r first_page answer s e h v =
    rw (e, after_answer) (after_load-Moves r answer s h v)
after_answer-Moves r search_page answer s e h v =
    rw (e, after_answer) (after_search-Moves r answer s h v)
after_answer-Moves r more_page answer s e h v =
    rw (e, after_answer) (after_more-Moves r answer s h v)

-- The request that `loadMoreBooks` sends.
abbrev more_request : ShelfData → Request
more_request s = record {
  kind = more_page;
  load_generation = s.load_generation;
  search_generation = s.search_generation;
  controller = s.next_controller;
  asked = record { filter = s.filter; text = s.text };
}

load_more_books-Moves :
    (s : ShelfData) (r : Request)
    → (load_more_books s).1 ≡ some r
    → IsCurrent s
    → Moves s (load_more_books s).0 × (more_request s ≡ r)
unfolding load_more_books
load_more_books-Moves s r h v =
    elim (Bool-cases (not (is_some (cursor_for s.text s)) || s.loading_more)) [
      | inl nothing ↦ absurd (ground (arith, rw (nothing, load_more_books) at h))
      | inr on ↦ (
        rw (on, load_more_books)
            (
              record {
                books = v.books;
                old_loads = v.old_loads;
                live_load = v.live_load;
                old_searches = v.old_searches;
                results = v.results;
                timer = v.timer;
              },
              (omega arith, omega arith, λ e. (refl, λ h. h), λ e. (refl, refl, λ h. h)),
            ),
        ap (λ o. or_else o (more_request s)) (rw (on, load_more_books) at h),
      )
    ]

moved :
    (s t : ShelfData) (ps : List Request) → Moves s t → All (IsRequest s) ps → All (IsRequest t) ps
moved s t ps m a = All-map _ _ ps (λ r h. request-Later s t r m.1 h) a

Event-IsValid : {s t : System} → Event s t → IsValid s → IsValid t
unfolding change_filter change_login load_books
Event-IsValid {s = s} (fires_load on) v =
    let (m, r) = load_books-Moves false s.data_.filter s.data_ v.current in
    record {
      current = m.0;
      requests =
          All-append _ s.pending _
            (moved s.data_ (record (load_books s.data_.filter s.data_).0 { load_timer = false })
              s.pending m v.requests)
            (r, tt);
    }
Event-IsValid {s = s} (reloads f) v =
    let (m, r) = load_books-Moves s.data_.load_timer f s.data_ v.current in
    record {
      current = m.0;
      requests =
          All-append _ s.pending _ (moved s.data_ (load_books f s.data_).0 s.pending m v.requests)
            (r, tt);
    }
Event-IsValid {s = s} (fires_search r on) v =
    let c = v.current in
    let ready : Timer s.data_ (some r) = subst (Timer s.data_) on c.timer in
    let t = record s.data_ { search_timer = none } in
    let m : Moves s.data_ t = (
      record {
        books = c.books;
        old_loads = c.old_loads;
        live_load = c.live_load;
        old_searches = c.old_searches;
        results = c.results;
        timer = tt;
      },
      (omega arith, omega arith, λ e. (refl, λ h. h), λ e. (refl, refl, λ h. h)),
    ) in
    record {
      current = m.0;
      requests =
          All-append _ s.pending _ (moved s.data_ t s.pending m v.requests)
            (request-Later s.data_ t r m.1 ready, tt);
    }
Event-IsValid {s = s} (asks_more r idle still asked) v =
    let (m, same) = load_more_books-Moves s.data_ r asked v.current in
    let ready : IsRequest s.data_ (more_request s.data_) =
      (omega arith, omega arith, λ d e. (refl, idle, still)) in
    record {
      current = m.0;
      requests =
          All-append _ s.pending _
            (moved s.data_ (load_more_books s.data_).0 s.pending m v.requests)
            (
              request-Later s.data_ (load_more_books s.data_).0 r m.1
                  (subst (IsRequest s.data_) same ready),
              tt,
            );
    }
Event-IsValid {s = s} (answers before r after answer place) v =
    let all : All (IsRequest s.data_) (before ++ r ∷ after) = rw place at v.requests in
    let (here, rest) = All-middle _ before r after all in
    let m = after_answer-Moves r r.kind answer s.data_ refl here.2 v.current in
    record {
      current = m.0;
      requests = moved s.data_ (after_answer r answer s.data_) (before ++ after) m rest;
    }
Event-IsValid {s = s} (filters f) v =
    let m = effects-Moves s.data_.is_authenticated f s.data_ v.current in
    record {
      current = m.0;
      requests = moved s.data_ (change_filter f s.data_) s.pending m v.requests;
    }
Event-IsValid {s = s} (types t) v =
    let m = change_text-Moves t s.data_ v.current in
    record {
      current = m.0;
      requests = moved s.data_ (change_text t s.data_) s.pending m v.requests;
    }
Event-IsValid {s = s} (logs b) v =
    let m = effects-Moves b s.data_.filter s.data_ v.current in
    record {
      current = m.0;
      requests = moved s.data_ (change_login b s.data_) s.pending m v.requests;
    }

-- The list that the shelf shows: the results while a text is searched for, else the books.
abbrev pub shown_for : Option ℕ → ShelfData → List (Book Asked)
shown_for none s = s.books
shown_for (some t) s = or_else s.search_results []

shown_for-Are :
    (text : Option ℕ) (s : ShelfData)
    → s.text ≡ text
    → s.is_loading_books ≡ false
    → s.is_searching ≡ false
    → s.load_timer ≡ false
    → s.filter ≡ s.loaded
    → IsCurrent s
    → Are (record { filter = s.filter; text = text }) (shown_for text s)
shown_for-Are none s e idle still off same v =
    subst (λ f. Are (record { filter = f; text = none }) s.books) (sym same) (v.books idle off same)
shown_for-Are (some t) s e idle still off same v =
    subst (λ x. Are (record { filter = s.filter; text = x }) (or_else s.search_results [])) e
      (v.results still)

blank-IsCurrent : (f : ℕ) → IsCurrent (blank f)
blank-IsCurrent f = record {
  books = λ e w k. tt;
  old_loads = tt;
  live_load = λ w. refl;
  old_searches = tt;
  results = λ e. tt;
  timer = tt;
}

Reach-IsCurrent : {s : System} → Reach s → IsValid s
unfolding initial
Reach-IsCurrent (start b f) = record {
  current = (effects-Moves b f (blank f) (blank-IsCurrent f)).0;
  requests = tt;
}
Reach-IsCurrent (next before e) = Event-IsValid e (Reach-IsCurrent before)

-- In whatever order loads, loads after an upload with an older filter, searches, further pages, answers
-- and changes of the filter, the text and the login follow each other: while nothing is loaded,
-- searched or about to be loaded, and the last load asked for the filter that is chosen now, every book
-- shown came with an answer to the filter and the text that are chosen now, never with a stale one.
pub shelf_is_current :
    {s : System}
    → Reach s
    → s.data_.is_loading_books ≡ false
    → s.data_.is_searching ≡ false
    → s.data_.load_timer ≡ false
    → s.data_.filter ≡ s.data_.loaded
    → Are (now_asked s.data_) (shown_for s.data_.text s.data_)
shelf_is_current {s = s} r idle still off same =
    shown_for-Are s.data_.text s.data_ refl idle still off same (Reach-IsCurrent r).current
