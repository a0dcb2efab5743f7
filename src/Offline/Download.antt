-- ===== src/Offline/Download.antt =====
-- `downloadBookFile` of frontend/src/lib/book-download.ts: the request that resumes a stored
-- partial download, the batches that it stores while it reads, and its outcome. Responses, reads
-- and device failures are arguments; a `Content-Range` header is the value that `parseContentRange`
-- gives for it. A read during which the call is cancelled is a broken read. The removals of one call
-- are numbered: while the stored download is read, after a 416, before a restart, and at the end.
pub mod Reads
pub mod Stored
pub mod Resumes
pub mod Whole
use z_reader.Prelude.{
  ℕ, zero, suc, ◌+◌, ◌*◌, String, str_eq, Bool, true, false, not, ◌&&◌, ◌||◌, Option, none, some,
  List, [], ◌∷◌, ◌++◌, if◌then◌else◌, ltb, leb, ◌==◌, length, or_else,
}
use z_reader.Offline.Store.{
  Blob, PartialDownload, Cache, Clearing, Account, Writer, Device, Initial, resumed, fresh,
  get_partial_book_download, clear_partial_book_download, create_partial_book_download_writer,
  default_type,
}
use z_reader.Offline.Store.Appends.{append_all}

pub record ContentRange : Type 0 where
  pub start : ℕ
  pub total_bytes : Option ℕ

-- What one `reader.read()` gives: a value, the end, or a rejection.
pub data Read : Type 0 where
  value : Blob → Read
  done : Read
  broken : Read

-- A response without a body stream gives its bytes at once, if reading them does not throw.
pub data Body : Type 0 where
  at_once : Option Blob → Body
  stream : List Read → Body

pub record Response : Type 0 where
  pub status : ℕ
  pub content_range : Option ContentRange
  pub content_length : Option ℕ
  pub content_type : String
  pub etag : Option String
  pub body : Body

-- The answer to the request with this number, this start and this `If-Range`; `none` if the
-- request throws, also because it is cancelled.
abbrev pub Server : Type 0
Server = ℕ → ℕ → Option String → Option Response

pub data Outcome : Type 0 where
  file : Blob → Outcome
  thrown : Outcome

-- The variables after the requests.
pub record Session : Type 0 where
  pub response : Response
  pub partial_download : Option PartialDownload

abbrev pub downloaded_of : Option PartialDownload → ℕ
downloaded_of none = 0
downloaded_of (some p) = p.downloaded_bytes

abbrev pub etag_of : Option PartialDownload → Option String
etag_of none = none
etag_of (some p) = p.etag

abbrev pub starts_at : Option ContentRange → ℕ → Bool
starts_at none n = false
starts_at (some r) n = r.start == n

abbrev pub can_append : ℕ → Response → Bool
can_append downloaded r =
    ltb 0 downloaded && ((r.status == 206) && starts_at r.content_range downloaded)

abbrev pub is_ok : Response → Bool
is_ok r = leb 200 r.status && ltb r.status 300

abbrev pub checked : Cache → Option Response → Option PartialDownload → Cache × Option Session
checked c none p = (c, none)
checked c (some r) p =
    if is_ok r then (c, some (record { response = r; partial_download = p })) else (c, none)

module _ (a : Account) (book : String) (server : Server) (clears : ℕ → Clearing) where
  -- From the second `if` on: what the response says of the stored bytes.
  unfoldable pub settle : Response → Option PartialDownload → Cache → Cache × Option Session
  settle r p c =
      let (cleared, deleted) = clear_partial_book_download a book (clears 2) c in
      if ltb 0 (downloaded_of p) && not (can_append (downloaded_of p) r)
      then (if not deleted
          then (cleared, none)
          else if r.status == 200
          then checked cleared (some r) none
          else checked cleared (server 2 0 none) none)
      else checked c (some r) p

  -- The first request and, after a 416, the second for the whole file.
  unfoldable pub ask : Cache → Option PartialDownload → Cache × Option Session
  unfolding settle
  ask c p = elim (server 0 (downloaded_of p) (etag_of p)) [
    | none ↦ (c, none)
    | some r ↦
        if (r.status == 416) && ltb 0 (downloaded_of p)
        then (let (cleared, deleted) = clear_partial_book_download a book (clears 1) c in
            if not deleted then (cleared, none) else elim (server 1 0 none) [
              | none ↦ (cleared, none)
              | some r' ↦ settle r' none cleared
            ])
        else settle r p c
  ]

  unfoldable pub negotiate : Cache → Cache × Option Session
  unfolding ask
  negotiate c = let (c', p) = get_partial_book_download a book (clears 0) c in ask c' p

abbrev pub batch_bytes : ℕ
batch_bytes = 1024 * 1024

-- The `while` loop: the batches that were persisted, what is pending, and whether the end was read.
unfoldable pub read_loop : List Read → Blob → List Blob → List Blob × Blob × Bool
read_loop [] pending batches = (batches, pending, false)
read_loop (broken ∷ reads) pending batches = (batches, pending, false)
read_loop (done ∷ reads) pending batches = (batches, pending, true)
read_loop (value b ∷ reads) pending batches =
    let full = leb batch_bytes (length (pending ++ b)) in
    read_loop reads (if full then [] else pending ++ b)
      (if full then batches ++ (pending ++ b) ∷ [] else batches)

-- `persistPendingChunks`
abbrev pub flushed : List Blob → Blob → List Blob
flushed batches pending = if length pending == 0 then batches else batches ++ pending ∷ []

-- All batches that are persisted, with the last short one, and whether reading ended well.
unfoldable pub read_body : Body → List Blob × Bool
unfolding read_loop
read_body (at_once none) = ([], false)
read_body (at_once (some b)) = if length b == 0 then ([], false) else (b ∷ [], true)
read_body (stream reads) =
    let (batches, pending, ended) = read_loop reads [] [] in (flushed batches pending, ended)

unfoldable pub concat : List Blob → Blob
concat [] = []
concat (b ∷ bs) = b ++ concat bs

abbrev pub with_devices : (ℕ → Device) → ℕ → List Blob → List (Blob × Device)
with_devices devices i [] = []
with_devices devices i (b ∷ bs) = (b, devices i) ∷ with_devices devices (i + 1) bs

-- `range?.totalBytes ?? (responseLength === null ? partialDownload?.totalBytes ?? null : …)`
abbrev pub length_or : Option ℕ → Option PartialDownload → Option ℕ
length_or none none = none
length_or none (some p) = p.total_bytes
length_or (some n) p = some (downloaded_of p + n)

abbrev pub total_of : Session → Option ℕ
total_of s = elim s.response.content_range [
  | none ↦ length_or s.response.content_length s.partial_download
  | some r ↦ elim r.total_bytes [
    | none ↦ length_or s.response.content_length s.partial_download
    | some n ↦ some n
  ]
]

abbrev pub type_of : Session → String
type_of s =
    if str_eq s.response.content_type ""
    then elim s.partial_download [
      | none ↦ default_type
      | some p ↦ if str_eq p.content_type "" then default_type else p.content_type
    ]
    else s.response.content_type

abbrev pub initial_of : Option PartialDownload → Initial
initial_of none = fresh
initial_of (some p) = resumed p

abbrev pub chunks_of : Option PartialDownload → List Blob
chunks_of none = []
chunks_of (some p) = p.chunks

abbrev pub falls_short : ℕ → Option ℕ → Bool
falls_short n none = false
falls_short n (some total) = ltb n total

-- Whether the signal is aborted at the first test, and at the test after the writes.
pub record Signal : Type 0 where
  pub aborted_first : Bool
  pub aborted_last : Bool

module _ (a : Account) (book : String) (clears : ℕ → Clearing) where
  -- From the creation of the writer on. `opens` says whether the writer could be created.
  unfoldable pub transfer : Signal → Session → Bool → (ℕ → Device) → Cache → Cache × Outcome
  unfolding read_body concat
  transfer signal s opens devices c =
      let (batches, ended) = read_body s.response.body in
      let w =
        create_partial_book_download_writer a book (total_of s) (type_of s)
          (initial_of s.partial_download) s.response.etag c in
      let stored = if opens then append_all w (with_devices devices 0 batches) c else c in
      let parts = chunks_of s.partial_download ++ batches in
      let downloaded = downloaded_of s.partial_download + length (concat batches) in
      if not ended || signal.aborted_last
      then (stored, thrown)
      else if (downloaded == 0) || falls_short downloaded (total_of s)
      then (stored, thrown)
      else ((clear_partial_book_download a book (clears 3) stored).0, file (concat parts))

  unfoldable pub download_book_file :
      Server → Signal → Bool → (ℕ → Device) → Cache → Cache × Outcome
  unfolding negotiate transfer
  download_book_file server signal opens devices c =
      if signal.aborted_first
      then (c, thrown)
      else (let (c', session) = negotiate a book server clears c in
          elim session [ none ↦ (c', thrown) | some s ↦ transfer signal s opens devices c' ])
