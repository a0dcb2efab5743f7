-- ===== src/Offline/Library.antt =====
-- The downloaded books of frontend/src/lib/offline-books.ts: one cache for each account. A book has
-- its bytes, its type, its file name and the hash of its content.
use z_reader.Prelude.{
  String, str_eq, eq_iff, ◌≡◌, ◌≢◌, Bool, true, false, not, ◌||◌, Option, none, some, if◌then◌else◌,
  length, arith,
}
use z_reader.Offline.Store.{
  Blob, Cache, Clearing, all_deleted, Account, is_usable, Estimate, ensure_capacity,
  type_or_default, clear_partial_book_download,
}

pub record Stored : Type 0 where
  pub bytes : Blob
  pub content_type : String
  pub filename : String
  pub content_hash : String

-- The cache of one account: whole books, and partial downloads.
pub record AccountCache : Type 0 where
  pub books : String → Option Stored
  pub partial_downloads : Cache

-- The caches of the browser, one for each user id.
abbrev pub Caches : Type 0
Caches = String → AccountCache

abbrev pub put_account : String → AccountCache → Caches → Caches
put_account user c caches u = if str_eq u user then c else caches u

-- `Book`, as far as it is used here
pub record Book : Type 0 where
  pub id : String
  pub filename : String
  pub content_hash : Option String

abbrev pub hash_of : Option String → String
hash_of none = ""
hash_of (some h) = h

-- `saveOfflineBook`; the second component is whether it returned. The source does not look at the
-- user id here.
unfoldable pub save_offline_book :
    Account → Book → Blob → String → Option Estimate → Bool → Caches → Caches × Bool
save_offline_book a book file ctype estimate stores caches =
    if not a.supports_offline_books
    then (caches, false)
    else if not (ensure_capacity estimate (length file))
    then (caches, false)
    else if not stores
    then (caches, false)
    else (
      put_account a.user_id
          (record (caches a.user_id) {
            books = λ b.
                if str_eq b book.id
                then some (record {
                  bytes = file;
                  content_type = type_or_default ctype;
                  filename = book.filename;
                  content_hash = hash_of book.content_hash;
                })
                else (caches a.user_id).books b;
          })
          caches,
      true,
    )

-- `OfflineBookEntry`
pub record OfflineBookEntry : Type 0 where
  pub file : Blob
  pub filename : String
  pub content_hash : String

abbrev pub is_refused : Option String → String → Bool
is_refused none hash = false
is_refused (some expected) hash = str_eq expected "" || not (str_eq hash expected)

-- An empty header gives the name that is made of the id, `fallback`.
unfoldable pub get_offline_book_entry :
    (String → String) → Account → String → Option String → Caches → Option OfflineBookEntry
get_offline_book_entry fallback a book expected caches =
    if not (is_usable a) then none else elim ((caches a.user_id).books book) [
      | none ↦ none
      | some s ↦
          if is_refused expected s.content_hash
          then none
          else some (record {
            file = s.bytes;
            filename = if str_eq s.filename "" then fallback book else s.filename;
            content_hash = s.content_hash;
          })
    ]

abbrev pub file_of : Option OfflineBookEntry → Option Blob
file_of none = none
file_of (some e) = some e.file

unfoldable pub get_offline_book :
    (String → String) → Account → String → Option String → Caches → Option Blob
unfolding get_offline_book_entry
get_offline_book fallback a book expected caches =
    file_of (get_offline_book_entry fallback a book expected caches)

-- The second component is whether it returned; the removal of the whole book comes first.
unfoldable pub remove_offline_book : Account → String → Bool → Clearing → Caches → Caches × Bool
remove_offline_book a book deletes clearing caches =
    if not (is_usable a) then (caches, true) else if not deletes then (caches, false) else (
      put_account a.user_id
          (record {
            books = λ b. if str_eq b book then none else (caches a.user_id).books b;
            partial_downloads =
                (clear_partial_book_download a book clearing
                  (caches a.user_id).partial_downloads).0;
          })
          caches,
      (clear_partial_book_download a book clearing (caches a.user_id).partial_downloads).1,
    )

abbrev pub empty_account : AccountCache
empty_account = record {
  books = λ b. none;
  partial_downloads = record { meta = λ b. none; chunk = λ b n. none };
}

unfoldable pub clear_offline_books : Account → Caches → Caches
clear_offline_books a caches =
    if not (is_usable a) then caches else put_account a.user_id empty_account caches

-- For a usable account, a book that was saved is read back as long as no hash or its own non-empty
-- hash is asked for, and with any other hash it is not; no other account's books change.
pub get-save_offline_book :
    (fallback : String → String) (a : Account) (book : Book) (file : Blob) (ctype : String)
    (estimate : Option Estimate) (caches : Caches) (h : String) (b : Account) (id : String)
    → is_usable a ≡ true
    → ensure_capacity estimate (length file) ≡ true
    → b.user_id ≢ a.user_id
    → let saved = (save_offline_book a book file ctype estimate true caches).0 in
      (get_offline_book fallback a book.id none saved ≡ some file)
      × (get_offline_book fallback a book.id (some h) saved
          ≡ (if str_eq h "" || not (str_eq (hash_of book.content_hash) h) then none else some file))
      × (get_offline_book fallback b id none saved ≡ get_offline_book fallback b id none caches)
unfolding save_offline_book get_offline_book get_offline_book_entry
get-save_offline_book fallback a book file ctype estimate caches h b id usable fits other =
    let on : a.supports_offline_books ≡ true = ground arith in
    (
      ground (arith, usable, on, fits, eq_iff a.user_id a.user_id, eq_iff book.id book.id),
      ground (arith, usable, on, fits, eq_iff a.user_id a.user_id, eq_iff book.id book.id),
      ground (arith, on, fits, eq_iff b.user_id a.user_id),
    )

-- For a usable account: after a removal that returned the book is gone, whole and in part, and every
-- other book is as it was; after the account is cleared no book is left, and other accounts are as they were.
pub removed_offline_books :
    (fallback : String → String) (a : Account) (book other user : String) (expected : Option String)
    (caches : Caches)
    → is_usable a ≡ true
    → other ≢ book
    → user ≢ a.user_id
    → let removed = (remove_offline_book a book true all_deleted caches).0 in
      (get_offline_book fallback a book expected removed ≡ none)
      × ((removed a.user_id).partial_downloads.meta book ≡ none)
      × (get_offline_book fallback a other expected removed
          ≡ get_offline_book fallback a other expected caches)
      × (get_offline_book fallback a other expected (clear_offline_books a caches) ≡ none)
      × (clear_offline_books a caches user ≡ caches user)
unfolding remove_offline_book clear_offline_books get_offline_book get_offline_book_entry
    clear_partial_book_download
removed_offline_books fallback a book other user expected caches usable differs elsewhere = (
  ground (arith, usable, eq_iff a.user_id a.user_id, eq_iff book book),
  ground (arith, usable, eq_iff a.user_id a.user_id, eq_iff book book),
  ground (arith, usable, eq_iff a.user_id a.user_id, eq_iff other book),
  ground (arith, usable, eq_iff a.user_id a.user_id),
  ground (arith, usable, eq_iff user a.user_id),
)
