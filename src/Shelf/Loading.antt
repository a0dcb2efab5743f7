-- ===== src/Shelf/Loading.antt =====
-- Loading, searching and paging of the shelf in frontend/src/hooks/useShelfData.ts. A filter stands for
-- the category and the order; a text of `none` is an empty search. The body of a book is what the
-- page that brought it was asked for. An answer of `none` is an error. The controller of a load or a
-- search is named by its generation. The progress of the books and the summary of the library are
-- left out.

pub mod Requests
pub mod Moves
pub mod Events
use z_reader.Prelude.{
  ℕ, ◌+◌, String, Bool, true, false, not, ◌&&◌, ◌||◌, Option, none, some, List, [], ◌∷◌,
  if◌then◌else◌, ◌==◌, any, map, is_some, or_else,
}
use z_reader.Shelf.Books.{Book, merge_books}

pub record Asked : Type 0 where
  pub filter : ℕ
  pub text : Option ℕ

pub record Page : Type 0 where
  pub ids : List String
  pub next_cursor : Option ℕ

pub data Kind : Type 0 where
  first_page search_page more_page : Kind

-- A request at work, with the generations at its start; `controller` is that of `loadMoreBooks`.
pub record Request : Type 0 where
  pub kind : Kind
  pub load_generation : ℕ
  pub search_generation : ℕ
  pub controller : ℕ
  pub asked : Asked

-- `loaded` is the filter that the last load asked for; `load_timer` and `search_timer` are the time-outs of the
-- effects.
pub record ShelfData : Type 0 where
  pub is_authenticated : Bool
  pub filter : ℕ
  pub text : Option ℕ
  pub books : List (Book Asked)
  pub next_cursor : Option ℕ
  pub is_loading_books : Bool
  pub load_error : Bool
  pub search_results : Option (List (Book Asked))
  pub search_next_cursor : Option ℕ
  pub is_searching : Bool
  pub is_loading_more_books : Bool
  pub loading_more : Bool
  pub load_generation : ℕ
  pub search_generation : ℕ
  pub aborted_loads : List ℕ
  pub aborted_searches : List ℕ
  pub aborted_more : List ℕ
  pub more_abort : Option ℕ
  pub next_controller : ℕ
  pub load_timer : Bool
  pub search_timer : Option Request
  pub loaded : ℕ

abbrev pub is_in : ℕ → List ℕ → Bool
is_in n ns = any (λ m. m == n) ns

abbrev pub abort_more : Option ℕ → List ℕ → List ℕ
abort_more none cs = cs
abort_more (some c) cs = c ∷ cs

-- The books of an answer; an error gives none.
abbrev pub books_of : Asked → Option Page → List (Book Asked)
books_of a none = []
books_of a (some p) = map (λ id. record { id = id; body = a }) p.ids

abbrev pub cursor_of : Option Page → Option ℕ
cursor_of none = none
cursor_of (some p) = p.next_cursor

-- `loadBooks` up to its wait. The filter is the one of the rendering whose `loadBooks` is called: an
-- upload calls the one of the rendering in which it began.
unfoldable pub load_books : ℕ → ShelfData → ShelfData × Request
load_books filter s = (
  record s {
    aborted_loads = s.load_generation ∷ s.aborted_loads;
    aborted_more = abort_more s.more_abort s.aborted_more;
    load_generation = s.load_generation + 1;
    loading_more = false;
    is_loading_more_books = false;
    next_cursor = none;
    is_loading_books = true;
    load_error = false;
    loaded = filter;
  },
  record {
    kind = first_page;
    load_generation = s.load_generation + 1;
    search_generation = s.search_generation;
    controller = 0;
    asked = record { filter = filter; text = none };
  },
)

-- `loadBooks` from its answer on.
unfoldable pub after_load : Request → Option Page → ShelfData → ShelfData
after_load r answer s =
    let same = r.load_generation == s.load_generation in
    let current = same && not (is_in r.load_generation s.aborted_loads) in
    record s {
      books = if current then books_of r.asked answer else s.books;
      next_cursor = if current then cursor_of answer else s.next_cursor;
      load_error = if current then not (is_some answer) else s.load_error;
      is_loading_books = if same then false else s.is_loading_books;
    }

abbrev pub cursor_for : Option ℕ → ShelfData → Option ℕ
cursor_for none s = s.next_cursor
cursor_for (some t) s = s.search_next_cursor

-- `loadMoreBooks` up to its wait.
unfoldable pub load_more_books : ShelfData → ShelfData × Option Request
load_more_books s = if not (is_some (cursor_for s.text s)) || s.loading_more then (s, none) else (
  record s {
    more_abort = some s.next_controller;
    next_controller = s.next_controller + 1;
    loading_more = true;
    is_loading_more_books = true;
  },
  some (record {
    kind = more_page;
    load_generation = s.load_generation;
    search_generation = s.search_generation;
    controller = s.next_controller;
    asked = record { filter = s.filter; text = s.text };
  }),
)

abbrev pub is_number : ℕ → Option ℕ → Bool
is_number n none = false
is_number n (some m) = m == n

-- The `finally` of `loadMoreBooks`.
abbrev pub end_more : Request → ShelfData → ShelfData
end_more r s = record s {
  loading_more = if is_number r.controller s.more_abort then false else s.loading_more;
  is_loading_more_books =
      if is_number r.controller s.more_abort then false else s.is_loading_more_books;
}

-- A further page joins the list, or the results of the search for a text; an error joins nothing.
abbrev pub add_page : Option ℕ → Asked → Option Page → ShelfData → ShelfData
add_page text a none s = s
add_page none a (some p) s = record s {
  books = merge_books (books_of a (some p)) s.books;
  next_cursor = p.next_cursor;
}
add_page (some t) a (some p) s = record s {
  search_results = some (merge_books (books_of a (some p)) (or_else s.search_results []));
  search_next_cursor = p.next_cursor;
}

-- `loadMoreBooks` from its answer on.
unfoldable pub after_more : Request → Option Page → ShelfData → ShelfData
unfolding merge_books
after_more r answer s =
    if not (is_in r.controller s.aborted_more)
      && (r.load_generation == s.load_generation && (r.search_generation == s.search_generation))
    then end_more r (add_page r.asked.text r.asked answer s)
    else end_more r s

-- The effect that loads, after the cleanup of the one before.
unfoldable pub load_effect : ShelfData → ShelfData
load_effect s =
    let s' = record s {
      aborted_loads = s.load_generation ∷ s.aborted_loads;
      aborted_more = abort_more s.more_abort s.aborted_more;
    } in
    if s.is_authenticated then record s' { load_timer = true } else record s' {
      load_timer = false;
      load_generation = s.load_generation + 1;
      search_generation = s.search_generation + 1;
      loading_more = false;
      next_cursor = none;
      search_results = none;
      search_next_cursor = none;
      books = [];
      loaded = s.filter;
    }

-- The effect that searches, after the cleanup of the one before.
unfoldable pub search_effect : ShelfData → ShelfData
search_effect s =
    let searches = s.is_authenticated && is_some s.text in
    record s {
      search_generation = s.search_generation + 1;
      aborted_searches = s.search_generation ∷ s.aborted_searches;
      aborted_more = abort_more s.more_abort s.aborted_more;
      loading_more = false;
      is_loading_more_books = false;
      search_results = if searches then s.search_results else none;
      search_next_cursor = if searches then s.search_next_cursor else none;
      is_searching = searches;
      search_timer =
          if searches
          then some (record {
            kind = search_page;
            load_generation = s.load_generation;
            search_generation = s.search_generation + 1;
            controller = 0;
            asked = record { filter = s.filter; text = s.text };
          })
          else none;
    }

-- The search from its answer on.
unfoldable pub after_search : Request → Option Page → ShelfData → ShelfData
after_search r answer s =
    let same = r.search_generation == s.search_generation in
    let current = same && not (is_in r.search_generation s.aborted_searches) in
    record s {
      search_results = if current then some (books_of r.asked answer) else s.search_results;
      search_next_cursor = if current then cursor_of answer else s.search_next_cursor;
      is_searching = if same then false else s.is_searching;
    }

-- A request that has its answer.
unfoldable pub after_answer : Request → Option Page → ShelfData → ShelfData
unfolding after_load after_search after_more
after_answer r answer s = elim r.kind [
  | first_page ↦ after_load r answer s
  | search_page ↦ after_search r answer s
  | more_page ↦ after_more r answer s
]

unfoldable pub change_filter : ℕ → ShelfData → ShelfData
unfolding load_effect search_effect
change_filter f s = search_effect (load_effect (record s { filter = f }))

unfoldable pub change_text : Option ℕ → ShelfData → ShelfData
unfolding search_effect
change_text t s = search_effect (record s { text = t })

unfoldable pub change_login : Bool → ShelfData → ShelfData
unfolding load_effect search_effect
change_login b s = search_effect (load_effect (record s { is_authenticated = b }))
