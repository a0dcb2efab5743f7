-- ===== src/Offline/Store/Single.antt =====
-- `appendPartialBookDownload` of frontend/src/lib/offline-books.ts: one append by a writer that takes
-- its counters from the stored metadata.
use mathlib.Core.Path.{subst}
use z_reader.Prelude.{
  ℕ, ◌<◌, String, ◌≡◌, sym, ◌⊎◌, inl, inr, ◌∙◌, true, false, ◌||◌, not, Option, none, List, [], ◌∷◌,
  ◌++◌, if◌then◌else◌, ◌==◌, length, arith,
}
use z_reader.Offline.Store.{
  Blob, Cache, Account, is_usable, total_size, Writer, Device, Append, append, appended, failed,
  unknown, create_partial_book_download_writer,
}
use z_reader.Offline.Store.Holds.{Holds}
use z_reader.Offline.Store.Appends.{InStep, After, append-After}

abbrev pub single_writer : Account → String → Option ℕ → String → Cache → Writer
single_writer a book total ctype c =
    create_partial_book_download_writer a book total ctype unknown none c

unfoldable pub append_partial_book_download :
    Account → String → Blob → Option ℕ → String → Device → Cache → Cache
append_partial_book_download a book chunk total ctype d c =
    if not (is_usable a) || (length chunk == 0)
    then c
    else (append (single_writer a book total ctype c) chunk d c).0

-- What `single_writer` sets, for a cache that holds a list of chunks.
single_writer-InStep :
    (a : Account) (book : String) (total : Option ℕ) (ctype : String) (c : Cache) (bs : List Blob)
    → Holds c book bs
    → InStep (single_writer a book total ctype c) bs
      × ((single_writer a book total ctype c).active ≡ is_usable a)
      × ((single_writer a book total ctype c).book ≡ book)
unfolding create_partial_book_download_writer total_size
single_writer-InStep a book total ctype c [] h = (
  record { counted = ground (arith, h); measured = ground (arith, h) },
  ground (arith, h),
  ground (arith, h),
)
single_writer-InStep a book total ctype c (b ∷ bs) (m, found, n, size, at) = (
  record { counted = ground (arith, found, n); measured = ground (arith, found, size) },
  ground (arith, found),
  ground (arith, found),
)

-- What is held after an append, in the words of the cache alone.
After-Holds :
    (r : Cache × Append) (w : Writer) (bs : List Blob) (b : Blob)
    → After r w bs b
    → (Holds r.0 w.book (bs ++ b ∷ [])) ⊎ (Holds r.0 w.book bs)
After-Holds (c, appended w') w bs b h = inl h.3
After-Holds (c, failed w') w bs b h = inr h

-- For a usable account, after one append of a non-empty chunk the stored chunks are those from
-- before with the new one at the end or, if a write or the check of the quota failed, those from
-- before.
pub append_partial-Holds :
    (a : Account) (book : String) (b : Blob) (total : Option ℕ) (ctype : String) (d : Device)
    (c : Cache) (bs : List Blob)
    → is_usable a ≡ true
    → 0 < length b
    → Holds c book bs
    → (Holds (append_partial_book_download a book b total ctype d c) book (bs ++ b ∷ []))
      ⊎ (Holds (append_partial_book_download a book b total ctype d c) book bs)
unfolding append_partial_book_download
append_partial-Holds a book b total ctype d c bs usable pos h =
    let (step, active, same) = single_writer-InStep a book total ctype c bs h in
    let w = single_writer a book total ctype c in
    let filled : (length b == 0) ≡ false = ground arith in
    let after =
      append-After w b d c bs (active ∙ usable) pos step (subst (λ k. Holds c k bs) (sym same) h) in
    rw (usable, filled)
      (subst (λ k. (Holds (append w b d c).0 k (bs ++ b ∷ [])) ⊎ (Holds (append w b d c).0 k bs))
        same (After-Holds (append w b d c) w bs b after))
