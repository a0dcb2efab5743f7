-- ===== src/Shelf/Loading/Events.antt =====
-- What can happen to the shelf (frontend/src/hooks/useShelfData.ts) and in which order.
pub mod Current
use z_reader.Prelude.{ℕ, ◌≡◌, Bool, true, false, Option, none, some, List, [], ◌∷◌, ◌++◌}
use z_reader.Shelf.Loading.{
  Page, Request, ShelfData, load_books, load_more_books, after_answer, change_filter, change_text,
  change_login, load_effect, search_effect,
}

pub record System : Type 0 where
  pub data_ : ShelfData
  pub pending : List Request

-- The initial values of the state.
abbrev pub blank : ℕ → ShelfData
blank filter = record {
  is_authenticated = false;
  filter = filter;
  text = none;
  books = [];
  next_cursor = none;
  is_loading_books = true;
  load_error = false;
  search_results = none;
  search_next_cursor = none;
  is_searching = false;
  is_loading_more_books = false;
  loading_more = false;
  load_generation = 0;
  search_generation = 0;
  aborted_loads = [];
  aborted_searches = [];
  aborted_more = [];
  more_abort = none;
  next_controller = 0;
  load_timer = false;
  search_timer = none;
  loaded = filter;
}

-- The state after the effects of the first rendering.
unfoldable pub initial : Bool → ℕ → ShelfData
unfolding load_effect search_effect
initial is_authenticated filter =
    search_effect (load_effect (record (blank filter) { is_authenticated = is_authenticated }))

-- A further page is asked for only where the list is shown: not while it loads or a search runs
-- (frontend/src/app/shelf/page.tsx). A load that is not the effect's is one after an
-- upload, with the filter that was chosen when the upload began.
pub data Event (s : System) : System → Type 0 where
  fires_load :
      s.data_.load_timer ≡ true
      → Event s (record {
        data_ = record (load_books s.data_.filter s.data_).0 { load_timer = false };
        pending = s.pending ++ (load_books s.data_.filter s.data_).1 ∷ [];
      })
  reloads :
      (f : ℕ)
      → Event s (record {
        data_ = (load_books f s.data_).0;
        pending = s.pending ++ (load_books f s.data_).1 ∷ [];
      })
  fires_search :
      (r : Request)
      → s.data_.search_timer ≡ some r
      → Event s
          (record { data_ = record s.data_ { search_timer = none }; pending = s.pending ++ r ∷ [] })
  asks_more :
      (r : Request)
      → s.data_.is_loading_books ≡ false
      → s.data_.is_searching ≡ false
      → (load_more_books s.data_).1 ≡ some r
      → Event s (record { data_ = (load_more_books s.data_).0; pending = s.pending ++ r ∷ [] })
  answers :
      (before : List Request) (r : Request) (after : List Request) (answer : Option Page)
      → s.pending ≡ before ++ r ∷ after
      → Event s (record { data_ = after_answer r answer s.data_; pending = before ++ after })
  filters : (f : ℕ) → Event s (record s { data_ = change_filter f s.data_ })
  types : (t : Option ℕ) → Event s (record s { data_ = change_text t s.data_ })
  logs : (b : Bool) → Event s (record s { data_ = change_login b s.data_ })

pub data Reach : System → Type 0 where
  start : (b : Bool) (f : ℕ) → Reach (record { data_ = initial b f; pending = [] })
  next : {s t : System} → Reach s → Event s t → Reach t
