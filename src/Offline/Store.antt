-- ===== src/Offline/Store.antt =====
-- The partial downloads of frontend/src/lib/offline-books.ts: the cache of one account, with the
-- chunks and the metadata of each book. A blob is its list of bytes. What may throw (the check of
-- the quota, each write and each removal) is decided by an argument; reading the cache does not.
pub mod Holds
pub mod Appends
pub mod Single
use z_reader.Prelude.{
  ℕ, zero, suc, ◌+◌, ◌*◌, String, str_eq, Bool, true, false, not, ◌&&◌, ◌||◌, Option, none, some,
  List, [], ◌∷◌, ◌++◌, if◌then◌else◌, ltb, leb, ◌==◌, length,
}

abbrev pub Blob : Type 0
Blob = List ℕ

-- A number of the stored JSON: a natural number, or anything else.
pub data JsonNumber : Type 0 where
  whole : ℕ → JsonNumber
  other : JsonNumber

-- `PartialBookDownloadMeta`
pub record Meta : Type 0 where
  pub chunks : JsonNumber
  pub downloaded_bytes : JsonNumber
  pub total_bytes : Option ℕ
  pub content_type : String
  pub etag : Option String

-- `PartialBookDownload`
pub record PartialDownload : Type 0 where
  pub chunks : List Blob
  pub downloaded_bytes : ℕ
  pub total_bytes : Option ℕ
  pub content_type : String
  pub etag : Option String

-- The entries under the partial-download paths of the account's cache.
pub record Cache : Type 0 where
  pub meta : String → Option Meta
  pub chunk : String → ℕ → Option Blob

abbrev pub put_meta : String → Meta → Cache → Cache
put_meta book m c = record c { meta = λ b. if str_eq b book then some m else c.meta b }

abbrev pub put_chunk : String → ℕ → Blob → Cache → Cache
put_chunk book i blob c = record c {
  chunk = λ b n. if str_eq b book && (n == i) then some blob else c.chunk b n;
}

-- `!userId || !supportsOfflineBooks()` is false
pub record Account : Type 0 where
  pub user_id : String
  pub supports_offline_books : Bool

abbrev pub is_usable : Account → Bool
is_usable a = not (str_eq a.user_id "") && a.supports_offline_books

abbrev pub default_type : String
default_type = "application/octet-stream"

abbrev pub type_or_default : String → String
type_or_default t = if str_eq t "" then default_type else t

-- How the deletions of one call end: every entry of the book is deleted, or the call rejects and some
-- of the entries are deleted.
pub data Clearing : Type 0 where
  all_deleted : Clearing
  rejected : Bool → (ℕ → Bool) → Clearing

-- The new state, and whether the deletions succeeded.
abbrev pub delete_entries : String → Clearing → Cache → Cache × Bool
delete_entries book all_deleted c = (
  record {
    meta = λ b. if str_eq b book then none else c.meta b;
    chunk = λ b n. if str_eq b book then none else c.chunk b n;
  },
  true,
)
delete_entries book (rejected deletes_meta deletes_chunk) c = (
  record {
    meta = λ b. if str_eq b book && deletes_meta then none else c.meta b;
    chunk = λ b n. if str_eq b book && deletes_chunk n then none else c.chunk b n;
  },
  false,
)

-- The new state, and whether the call returned.
unfoldable pub clear_partial_book_download : Account → String → Clearing → Cache → Cache × Bool
clear_partial_book_download a book clearing c =
    if is_usable a then delete_entries book clearing c else (c, true)

-- The `for` loop of `getPartialBookDownload` from chunk `i` on, `n` chunks more.
unfoldable pub read_chunks : (ℕ → Option Blob) → ℕ → ℕ → Option (List Blob)
read_chunks chunk i zero = some []
read_chunks chunk i (suc n) = elim (chunk i) [
  | none ↦ none
  | some blob ↦ elim (read_chunks chunk (i + 1) n) [ none ↦ none | some rest ↦ some (blob ∷ rest) ]
]

unfoldable pub total_size : List Blob → ℕ
total_size [] = 0
total_size (b ∷ bs) = length b + total_size bs

-- A download that the metadata describes, if it is usable.
unfoldable pub read_partial : Meta → (ℕ → Option Blob) → Option PartialDownload
unfolding read_chunks total_size
read_partial m chunk = elim m.chunks [
  | other ↦ none
  | whole n ↦ elim m.downloaded_bytes [
    | other ↦ none
    | whole bytes ↦ if (n == 0) || (bytes == 0) then none else elim (read_chunks chunk 0 n) [
      | none ↦ none
      | some chunks ↦
          if total_size chunks == bytes
          then some (record {
            chunks = chunks;
            downloaded_bytes = bytes;
            total_bytes = m.total_bytes;
            content_type = type_or_default m.content_type;
            etag = m.etag;
          })
          else none
    ]
  ]
]

-- What is not usable is removed; that the removal rejects is ignored.
unfoldable pub get_partial_book_download :
    Account → String → Clearing → Cache → Cache × Option PartialDownload
unfolding read_partial clear_partial_book_download
get_partial_book_download a book clearing c =
    if is_usable a
    then elim (c.meta book) [
      | none ↦ (c, none)
      | some m ↦ elim (read_partial m (c.chunk book)) [
        | none ↦ ((clear_partial_book_download a book clearing c).0, none)
        | some p ↦ (c, some p)
      ]
    ]
    else (c, none)

-- The variables that the `append` of a writer closes over; `active` is false for the writer whose
-- `append` does nothing.
pub record Writer : Type 0 where
  pub active : Bool
  pub book : String
  pub chunks : ℕ
  pub downloaded_bytes : ℕ
  pub total_bytes : Option ℕ
  pub content_type : String
  pub etag : Option String
  pub bytes_since_quota_check : ℕ

abbrev pub quota_check_interval : ℕ
quota_check_interval = 8 * 1024 * 1024

-- `navigator.storage.estimate()`, if there is one
pub record Estimate : Type 0 where
  pub usage : ℕ
  pub quota : ℕ

-- Whether `ensureCapacity` returns. The source compares with `quota * 0.9`.
unfoldable pub ensure_capacity : Option Estimate → ℕ → Bool
ensure_capacity none bytes = true
ensure_capacity (some e) bytes =
    if e.quota == 0 then true else leb (10 * (e.usage + bytes)) (9 * e.quota)

-- What the device does during one `append`.
pub record Device : Type 0 where
  pub estimate : Option Estimate
  pub stores_chunk : Bool
  pub stores_meta : Bool

-- An `append` returns or throws; either way the variables of the writer may have changed.
pub data Append : Type 0 where
  appended : Writer → Append
  failed : Writer → Append

abbrev pub meta_after : Writer → Blob → Meta
meta_after w blob = record {
  chunks = whole (w.chunks + 1);
  downloaded_bytes = whole (w.downloaded_bytes + length blob);
  total_bytes = w.total_bytes;
  content_type = type_or_default w.content_type;
  etag = w.etag;
}

-- The two `cache.put` and the assignments after them.
unfoldable pub write_chunk : Writer → ℕ → Blob → Device → Cache → Cache × Append
write_chunk w since blob d c =
    if not d.stores_chunk
    then (c, failed (record w { bytes_since_quota_check = since }))
    else let c' = put_chunk w.book w.chunks blob c in
      if not d.stores_meta then (c', failed (record w { bytes_since_quota_check = since })) else (
        put_meta w.book (meta_after w blob) c',
        appended (record w {
          chunks = w.chunks + 1;
          downloaded_bytes = w.downloaded_bytes + length blob;
          bytes_since_quota_check = since + length blob;
        }),
      )

unfoldable pub append : Writer → Blob → Device → Cache → Cache × Append
unfolding write_chunk
append w blob d c =
    if not w.active || (length blob == 0)
    then (c, appended w)
    else if leb quota_check_interval w.bytes_since_quota_check
    then if ensure_capacity d.estimate (length blob)
      then write_chunk w 0 blob d c
      else (c, failed w)
    else write_chunk w w.bytes_since_quota_check blob d c

-- The third argument of the constructor: a download, `null`, or nothing.
pub data Initial : Type 0 where
  resumed : PartialDownload → Initial
  fresh : Initial
  unknown : Initial

abbrev pub whole_or_zero : JsonNumber → ℕ
whole_or_zero (whole n) = n
whole_or_zero other = 0

-- `etag || initialDownload?.etag`
abbrev pub etag_or : Option String → Option String → Option String
etag_or none d = d
etag_or (some t) d = if str_eq t "" then d else some t

unfoldable pub create_partial_book_download_writer :
    Account → String → Option ℕ → String → Initial → Option String → Cache → Writer
create_partial_book_download_writer a book total ctype initial etag c =
    let base : Writer = record {
      active = is_usable a;
      book = book;
      chunks = 0;
      downloaded_bytes = 0;
      total_bytes = total;
      content_type = ctype;
      etag = etag_or etag none;
      bytes_since_quota_check = quota_check_interval;
    } in
    elim initial [
      | resumed p ↦ record base {
        chunks = length p.chunks;
        downloaded_bytes = p.downloaded_bytes;
        etag = etag_or etag p.etag;
      }
      | fresh ↦ base
      | unknown ↦ elim (c.meta book) [
        | none ↦ base
        | some m ↦ record base {
          chunks = whole_or_zero m.chunks;
          downloaded_bytes = whole_or_zero m.downloaded_bytes;
        }
      ]
    ]
