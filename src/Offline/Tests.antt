-- ===== src/Offline/Tests.antt =====
-- Partial downloads on concrete caches, servers and devices.
use mathlib.Core.Path.{subst}
use z_reader.Prelude.{
  ℕ, zero, suc, ◌<◌, ◌≡◌, String, eq_iff, false, ◌⊎◌, refl, inl, sym, ap, ◌∙◌, str_eq, true, false,
  Option, none, some, List, [], ◌∷◌, ◌++◌, if◌then◌else◌, ◌==◌, length, get_elem?, drop, take,
  arith, append-nil,
}
use z_reader.Offline.Library
use z_reader.Offline.OpenBook
use z_reader.Offline.Shared
use z_reader.Offline.Store.{
  Blob, whole, Meta, PartialDownload, Cache, Clearing, all_deleted, rejected, Account, Writer,
  Device, total_size, ensure_capacity, get_partial_book_download,
}
use z_reader.Offline.Store.Holds.{Holds, Leaves, get_partial_sound}
use z_reader.Offline.Store.Appends.{InStep, append_all, blobs, append_all-Holds}
use z_reader.Offline.Download.{
  Response, Body, stream, value, done, broken, Server, Signal, Session, concat, download_book_file,
}
use z_reader.Offline.Download.Resumes.{Delivers, Serves}
use z_reader.Offline.Download.Stored.{Resumable}
use z_reader.Offline.Download.Whole.{Ends, download-Ends}

abbrev account : Account
account = record { user_id = "u"; supports_offline_books = true }

abbrev bytes : Blob
bytes = 10 ∷ 20 ∷ 30 ∷ 40 ∷ []

abbrev stored : Blob
stored = 10 ∷ 20 ∷ []

abbrev metadata : Meta
metadata = record {
  chunks = whole 1;
  downloaded_bytes = whole 2;
  total_bytes = some 4;
  content_type = "";
  etag = some "v1";
}

-- The cache with the first two bytes of the book.
abbrev half : Cache
half = record {
  meta = λ b. if str_eq b "b1" then some metadata else none;
  chunk = λ b i. if i == 0 then some stored else none;
}

half-Holds : Holds half "b1" (stored ∷ [])
unfolding total_size
half-Holds = (metadata, refl, refl, refl, at)
  where
    at : (i : ℕ) → i < length (stored ∷ []) → half.chunk "b1" i ≡ get_elem? (stored ∷ []) i
    at zero l = refl
    at (suc i) l = absurd (omega (arith, l))

-- The last removal rejects, after some chunks.
abbrev clears : ℕ → Clearing
clears n = if n == 3 then rejected false (λ i. i == 0) else all_deleted

get_partial_sound_example :
    ((p : PartialDownload) × (get_partial_book_download account "b1" all_deleted half
        ≡ (half, some p))
      × (p.downloaded_bytes ≡ total_size p.chunks)
      × (0 < p.downloaded_bytes))
    ⊎ (((get_partial_book_download account "b1" all_deleted half).1 ≡ none)
        × Leaves "b1" all_deleted half (get_partial_book_download account "b1" all_deleted half).0)
get_partial_sound_example = get_partial_sound account "b1" all_deleted half refl

abbrev writer : Writer
writer = record {
  active = true;
  book = "b1";
  chunks = 1;
  downloaded_bytes = 2;
  total_bytes = some 4;
  content_type = "";
  etag = some "v1";
  bytes_since_quota_check = 0;
}

abbrev sound_device : Device
sound_device = record { estimate = none; stores_chunk = true; stores_meta = true }

abbrev failing_device : Device
failing_device = record { estimate = none; stores_chunk = true; stores_meta = false }

writer-InStep : InStep writer (stored ∷ [])
unfolding total_size
writer-InStep = record { counted = refl; measured = refl }

abbrev later_chunks : List (Blob × Device)
later_chunks = (30 ∷ [], sound_device) ∷ (40 ∷ [], failing_device) ∷ []

append_all-Holds_example :
    (n : ℕ) × Holds
      (append_all writer later_chunks half)
      "b1"
      ((stored ∷ []) ++ take n (blobs later_chunks))
append_all-Holds_example =
    append_all-Holds writer later_chunks half (stored ∷ []) refl (omega arith, (omega arith, tt))
      writer-InStep half-Holds

abbrev cut_body : Body
cut_body = stream (value (30 ∷ []) ∷ value [] ∷ value (40 ∷ []) ∷ broken ∷ [])

abbrev response : ℕ → Response
response start = record {
  status = if start == 0 then 200 else 206;
  content_range = some (record { start = start; total_bytes = some 4 });
  content_length = none;
  content_type = "";
  etag = some "v1";
  body = stream (value (drop start bytes) ∷ done ∷ []);
}

-- A server of the file that knows ranges.
abbrev server : Server
server n start etag = some (response start)

delivers : (start : ℕ) (r : Response) → some (response start) ≡ some r → Delivers bytes start r
delivers start r e =
    let same : response start ≡ r = cc e in
    subst (λ (x : Response). Delivers bytes start x) same
      (record {
        rest = [];
        prefix = sym (append-nil (drop start bytes ++ []) ∙ append-nil (drop start bytes));
        announced = inl refl;
      })

status_zero : (start : ℕ) → (response start).status ≡ 200 → start ≡ 0
status_zero start h = ground arith

server-Serves : Serves bytes server
server-Serves = record {
  partial = λ n start etag r range e status found same. delivers start r e;
  full = λ n start etag r e status.
      subst (λ (k : ℕ). Delivers bytes k r)
        (status_zero start
          (ap (λ (o : Option Response). elim o [ none ↦ 200 | some x ↦ x.status ]) e ∙ status))
        (delivers start r e);
  from_zero = λ n etag r e ok. delivers 0 r e;
}

half-Resumable : Resumable bytes "b1" half
unfolding concat
half-Resumable = record {
  chunks = stored ∷ [];
  filled = (omega arith, tt);
  held = half-Holds;
  tail = 30 ∷ 40 ∷ [];
  prefix = refl;
}

abbrev signal : Signal
signal = record { aborted_first = false; aborted_last = false }

download-Ends_example :
    Ends account "b1" bytes refl clears
      (download_book_file account "b1" clears server signal true (λ n. failing_device) half)
download-Ends_example =
    download-Ends account "b1" bytes refl clears server server-Serves signal true
      (λ n. failing_device) half half-Resumable

abbrev session : Session
session = record {
  response = response 2;
  partial_download = some (record {
    chunks = stored ∷ [];
    downloaded_bytes = 2;
    total_bytes = some 4;
    content_type = "application/octet-stream";
    etag = some "v1";
  });
}

abbrev book : Library.Book
book = record { id = "b1"; filename = "one.epub"; content_hash = some "h1" }

abbrev no_caches : Library.Caches
no_caches user = Library.empty_account

abbrev other_account : Account
other_account = record { user_id = "v"; supports_offline_books = true }

abbrev named : String → String
named id = id

get-save_offline_book_example :
    (Library.get_offline_book named account "b1" none
        (Library.save_offline_book account book bytes "" none true no_caches).0
      ≡ some bytes)
    × (Library.get_offline_book named account "b1"
          (some "h2")
          (Library.save_offline_book account book bytes "" none true no_caches).0
        ≡ none)
    × (Library.get_offline_book named other_account "b1" none
          (Library.save_offline_book account book bytes "" none true no_caches).0
        ≡ Library.get_offline_book named other_account "b1" none no_caches)
unfolding ensure_capacity
get-save_offline_book_example =
    Library.get-save_offline_book named account book bytes "" none no_caches "h2" other_account "b1"
      refl refl (λ e. ground (arith, eq_iff "v" "u"))

abbrev with_book : Library.Caches
with_book = (Library.save_offline_book account book bytes "" none true no_caches).0

abbrev two_readers : Shared.Downloads
two_readers =
    Shared.share_book_download "b1" 2 false (Shared.share_book_download "b1" 1 false Shared.initial)

one_transfer_example : Shared.IsValid (Shared.abort "b1" 1 two_readers)
one_transfer_example = Shared.one_transfer (
    Shared.next
      (Shared.next (Shared.next Shared.start (Shared.shares "b1" 1 false))
        (Shared.shares "b1" 2 false))
      (Shared.aborts "b1" 1))

abbrev no_connection : OpenBook.Failure
no_connection = record { is_api_error = false; is_abort_like = false }

abbrev copy : Library.OfflineBookEntry
copy = record { file = bytes; filename = "one.epub"; content_hash = "h1" }

abbrev opening : OpenBook.Opening
opening = record {
  cached = some copy;
  metadata = OpenBook.error no_connection;
  download = OpenBook.error no_connection;
  aborted_first = false;
  aborted_metadata = false;
  aborted_last = false;
  same_user_metadata = true;
  same_user_last = true;
  abort_error = record { is_api_error = false; is_abort_like = true };
  auth_changed_error = record { is_api_error = true; is_abort_like = false };
}

opened_from_device_example :
    (c : Library.OfflineBookEntry) × (some copy ≡ some c)
    × (c.file ≡ bytes)
    × OpenBook.IsTrusted opening c
unfolding OpenBook.create_book_file OpenBook.recover
opened_from_device_example = OpenBook.opened_from_device opening bytes refl
