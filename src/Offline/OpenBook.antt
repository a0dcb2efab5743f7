-- ===== src/Offline/OpenBook.antt =====
-- `createBookFile` of frontend/src/lib/book-download.ts: whether a book is opened from the copy on
-- the device or from the download. What the waits give and what is true after each is an argument;
-- of an error only what the code asks about it is kept. The wrapping of the bytes in a `File` is
-- left out.
use mathlib.Core.Path.{subst}
use z_reader.Prelude.{
  sym, str_eq, ◌≡◌, refl, Bool, true, false, not, ◌&&◌, ◌||◌, Option, none, some, if◌then◌else◌,
  arith, Bool-cases, Option-cases, inl, inr, ◌⊎◌,
}
use z_reader.Offline.Store.{Blob}
use z_reader.Offline.Library.{Book, OfflineBookEntry}

pub record Failure : Type 0 where
  pub is_api_error : Bool
  pub is_abort_like : Bool

pub data Answer {ℓ} (A : Type ℓ) : Type ℓ where
  value : A → Answer A
  error : Failure → Answer A

-- Where the file came from, or that the call threw.
pub data Opened : Type 0 where
  from_device : Blob → Opened
  from_download : Blob → Opened
  thrown : Opened

-- What the code sees: the copy on the device, the answers to both requests, whether the signal is
-- aborted after each wait, whether the account is still the same, and the two errors it may throw
-- itself.
pub record Opening : Type 0 where
  pub cached : Option OfflineBookEntry
  pub metadata : Answer Book
  pub download : Answer Blob
  pub aborted_first : Bool
  pub aborted_metadata : Bool
  pub aborted_last : Bool
  pub same_user_metadata : Bool
  pub same_user_last : Bool
  pub abort_error : Failure
  pub auth_changed_error : Failure

-- `book.content_hash && cached.contentHash === book.content_hash`
abbrev pub is_current : Book → OfflineBookEntry → Bool
is_current book c = elim book.content_hash [
  | none ↦ false
  | some h ↦ not (str_eq h "") && str_eq c.content_hash h
]

abbrev pub is_unrefuted : Option Book → OfflineBookEntry → Bool
is_unrefuted none c = true
is_unrefuted (some book) c = is_current book c

-- The `catch` block.
unfoldable pub recover : Opening → Option Book → Failure → Opened
recover o book e =
    if o.aborted_last || (e.is_api_error || e.is_abort_like) then thrown else elim o.cached [
      | none ↦ thrown
      | some c ↦ if o.same_user_last && is_unrefuted book c then from_device c.file else thrown
    ]

abbrev pub is_cached : Option OfflineBookEntry → Book → Bool
is_cached none book = false
is_cached (some c) book = is_current book c

abbrev pub cached_file : Option OfflineBookEntry → Opened
cached_file none = thrown
cached_file (some c) = from_device c.file

-- The `try` block from the answer about the book on, and what `catch` makes of its errors.
unfoldable pub after_metadata : Opening → Book → Opened
unfolding recover
after_metadata o book =
    if o.aborted_metadata
    then recover o (some book) o.abort_error
    else if not o.same_user_metadata
    then recover o (some book) o.auth_changed_error
    else if is_cached o.cached book
    then cached_file o.cached
    else elim o.download [ value blob ↦ from_download blob | error e ↦ recover o (some book) e ]

unfoldable pub create_book_file : Opening → Opened
unfolding after_metadata recover
create_book_file o =
    if o.aborted_first
    then thrown
    else elim o.metadata [ value book ↦ after_metadata o book | error e ↦ recover o none e ]

Answer-cases {ℓ} :
    {A : Type ℓ} (x : Answer A) → ((a : A) × (x ≡ value a)) ⊎ ((e : Failure) × (x ≡ error e))
Answer-cases (value a) = inl (a, refl)
Answer-cases (error e) = inr (e, refl)

-- What it takes to open the copy `c`: where the server described the book, the hash is the one it
-- named; where it did not, the error is no answer of the server.
abbrev pub IsTrustedBy : OfflineBookEntry → Answer Book → Type 0
IsTrustedBy c (value book) = is_current book c ≡ true
IsTrustedBy c (error e) = e.is_api_error ≡ false

abbrev pub IsTrusted : Opening → OfflineBookEntry → Type 0
IsTrusted o c = IsTrustedBy c o.metadata

-- The file of the recovery is that of the copy on the device.
recover_device :
    (o : Opening) (book : Option Book) (e : Failure) (f : Blob)
    → recover o book e ≡ from_device f
    → (c : OfflineBookEntry) × (o.cached ≡ some c)
      × (c.file ≡ f)
      × (is_unrefuted book c ≡ true)
      × (e.is_api_error ≡ false)
unfolding recover
recover_device o book e f h = elim (Option-cases o.cached) [
  | inl nothing ↦ absurd (ground (arith, nothing))
  | inr (c, found) ↦ (c, found, ground (arith, found), ground (arith, found), ground (arith, found))
]

-- The same after the answer about the book, whose hash is that of the copy.
recovered :
    (o : Opening) (book : Book) (e : Failure) (f : Blob)
    → recover o (some book) e ≡ from_device f
    → (c : OfflineBookEntry) × (o.cached ≡ some c) × (c.file ≡ f) × (is_current book c ≡ true)
recovered o book e f h =
    let (c, found, same, fresh, api) = recover_device o (some book) e f h in (c, found, same, fresh)

after_metadata_device :
    (o : Opening) (book : Book) (f : Blob)
    → after_metadata o book ≡ from_device f
    → (c : OfflineBookEntry) × (o.cached ≡ some c) × (c.file ≡ f) × (is_current book c ≡ true)
unfolding after_metadata
after_metadata_device o book f h = elim (Bool-cases o.aborted_metadata) [
  | inl gone ↦ recovered o book o.abort_error f (rw (gone, after_metadata) at h)
  | inr on ↦ elim (Bool-cases o.same_user_metadata) [
    | inr changed ↦ recovered o book o.auth_changed_error f (rw (on, changed, after_metadata) at h)
    | inl same ↦ elim (Bool-cases (is_cached o.cached book)) [
      | inl current ↦ elim (Option-cases o.cached) [
        | inl nothing ↦ absurd (ground (arith, nothing))
        | inr (c, found) ↦ (c, found, ground (arith, on, same, found), ground (arith, found))
      ]
      | inr stale ↦ elim (Answer-cases o.download) [
        | inl (blob, came) ↦ absurd (ground (arith, on, same, stale, came))
        | inr (e, failed) ↦ recovered o book e f (rw (on, same, stale, failed, after_metadata) at h)
      ]
    ]
  ]
]

-- A book that is opened from the device is the stored copy, and the server has not contradicted it:
-- either it described the book with the hash of the copy, or it gave no answer about the book.
pub opened_from_device :
    (o : Opening) (f : Blob)
    → create_book_file o ≡ from_device f
    → (c : OfflineBookEntry) × (o.cached ≡ some c) × (c.file ≡ f) × IsTrusted o c
unfolding create_book_file
opened_from_device o f h = elim (Bool-cases o.aborted_first) [
  | inl gone ↦ absurd (ground (arith, gone))
  | inr on ↦ elim (Answer-cases o.metadata) [
    | inr (e, failed) ↦
        let h' : recover o none e ≡ from_device f = rw (on, failed, create_book_file) at h in
        let (c, found, same, fresh, api) = recover_device o none e f h' in
        (c, found, same, subst (IsTrustedBy c) (sym failed) api)
    | inl (book, known) ↦
        let h' : after_metadata o book ≡ from_device f = rw (on, known, create_book_file) at h in
        let (c, found, same, current) = after_metadata_device o book f h' in
        (c, found, same, subst (IsTrustedBy c) (sym known) current)
  ]
]
