-- ===== src/Offline/Store/Holds.antt =====
-- When the cache of partial downloads (frontend/src/lib/offline-books.ts) holds a list of chunks for
-- a book, and reading it back.
use z_reader.Prelude.{
  ℕ, zero, suc, ◌+◌, ◌<◌, String, eq_iff, ◌≡◌, ◌≢◌, ◌⊎◌, refl, true, Option, none, some, List, [],
  ◌∷◌, length, get_elem?, arith, Option-cases, inl, inr,
}
use z_reader.Offline.Store.{
  Blob, whole, Meta, PartialDownload, Cache, Clearing, all_deleted, rejected, delete_entries,
  Account, is_usable, read_chunks, total_size, read_partial, get_partial_book_download,
  clear_partial_book_download, type_or_default,
}

-- The metadata counts the chunks and their bytes, and each chunk is there. No chunks: no metadata.
abbrev pub Holds : Cache → String → List Blob → Type 0
Holds c book [] = c.meta book ≡ none
Holds c book (b ∷ bs) =
    (m : Meta) × (c.meta book ≡ some m)
    × (m.chunks ≡ whole (length (b ∷ bs)))
    × (m.downloaded_bytes ≡ whole (total_size (b ∷ bs)))
    × ((i : ℕ) → i < length (b ∷ bs) → c.chunk book i ≡ get_elem? (b ∷ bs) i)

pub read_chunks-all :
    (bs : List Blob) (f : ℕ → Option Blob) (k : ℕ)
    → ((i : ℕ) → i < length bs → f (k + i) ≡ get_elem? bs i)
    → read_chunks f k (length bs) ≡ some bs
unfolding read_chunks
read_chunks-all [] f k h = refl
read_chunks-all (b ∷ bs) f k h =
    let first : f k ≡ some b = let e : k + 0 ≡ k = omega arith in rw e at (h 0 (omega arith)) in
    let rest =
      read_chunks-all bs f (k + 1)
        (λ i l. let e : k + suc i ≡ k + 1 + i = omega arith in rw e at (h (suc i) (omega arith))) in
    rw (first, rest)

read_chunks-length :
    (n : ℕ) (f : ℕ → Option Blob) (k : ℕ) (bs : List Blob)
    → read_chunks f k n ≡ some bs
    → length bs ≡ n
unfolding read_chunks
read_chunks-length zero f k bs h = ground arith
read_chunks-length (suc n) f k bs h = elim (Option-cases (f k)) [
  | inl gone ↦ ground (arith, gone)
  | inr (b, found) ↦ elim (Option-cases (read_chunks f (k + 1) n)) [
    | inl gone ↦ ground (arith, found, gone)
    | inr (rest, more) ↦ ground (arith, found, more, read_chunks-length n f (k + 1) rest more)
  ]
]

-- For a usable account, reading back a non-empty list of chunks that the cache holds, the first
-- chunk not empty, gives the chunks and their bytes,
-- and leaves the cache as it was.
pub get_partial-Holds :
    (a : Account) (book : String) (clearing : Clearing) (c : Cache) (b : Blob) (bs : List Blob)
    → is_usable a ≡ true
    → 0 < length b
    → Holds c book (b ∷ bs)
    → (p : PartialDownload) × (get_partial_book_download a book clearing c ≡ (c, some p))
      × (p.chunks ≡ b ∷ bs)
      × (p.downloaded_bytes ≡ total_size (b ∷ bs))
unfolding get_partial_book_download read_partial total_size
get_partial-Holds a book clearing c b bs u pos (m, found, chunks, bytes, at) =
    let read =
      read_chunks-all (b ∷ bs) (c.chunk book) 0
        (λ i l. let e : 0 + i ≡ i = omega arith in rw e (at i l)) in
    (
      record {
        chunks = b ∷ bs;
        downloaded_bytes = total_size (b ∷ bs);
        total_bytes = m.total_bytes;
        content_type = type_or_default m.content_type;
        etag = m.etag;
      },
      ground (arith, found, chunks, bytes, read, u, pos),
      refl,
      refl,
    )

read_partial_sound :
    (m : Meta) (f : ℕ → Option Blob) {p : PartialDownload}
    → read_partial m f ≡ some p
    → (p.downloaded_bytes ≡ total_size p.chunks) × (0 < p.downloaded_bytes)
unfolding read_partial
read_partial_sound m f h = ground arith

-- What a call leaves that returned nothing: the cache as it was, without metadata of the book; or
-- neither metadata nor chunks of the book; or the removal was rejected.
pub data Leaves (book : String) (clearing : Clearing) (c c' : Cache) : Type 0 where
  unknown_book : c'.meta book ≡ none → c' ≡ c → Leaves book clearing c c'
  emptied : c'.meta book ≡ none → ((i : ℕ) → c'.chunk book i ≡ none) → Leaves book clearing c c'
  failed : clearing ≢ all_deleted → Leaves book clearing c c'

emptied-Leaves :
    (book : String) (clearing : Clearing) (c : Cache)
    → Leaves book clearing c (delete_entries book clearing c).0
emptied-Leaves book all_deleted c =
    emptied (ground (arith, eq_iff book book)) (λ i. ground (arith, eq_iff book book))
emptied-Leaves book (rejected m k) c = failed (λ e. ground (arith, e))

clear-Leaves :
    (a : Account) (book : String) (clearing : Clearing) (c : Cache)
    → is_usable a ≡ true
    → Leaves book clearing c (clear_partial_book_download a book clearing c).0
unfolding clear_partial_book_download
clear-Leaves a book clearing c u =
    rw (u, clear_partial_book_download) (emptied-Leaves book clearing c)

-- For a usable account, what is returned is complete: at least one byte, and as many as the chunks
-- have together, with the cache as it was. If nothing is returned, then no metadata was there and the
-- cache is as it was, or neither metadata nor chunks of the book are left, or their removal was
-- rejected.
pub get_partial_sound :
    (a : Account) (book : String) (clearing : Clearing) (c : Cache)
    → is_usable a ≡ true
    → ((p : PartialDownload) × (get_partial_book_download a book clearing c ≡ (c, some p))
        × (p.downloaded_bytes ≡ total_size p.chunks)
        × (0 < p.downloaded_bytes))
      ⊎ (((get_partial_book_download a book clearing c).1 ≡ none)
          × Leaves book clearing c (get_partial_book_download a book clearing c).0)
unfolding get_partial_book_download
get_partial_sound a book clearing c u = elim (Option-cases (c.meta book)) [
  | inl gone ↦ inr (rw (u, gone, get_partial_book_download) (refl, unknown_book gone refl))
  | inr (m, found) ↦ elim (Option-cases (read_partial m (c.chunk book))) [
    | inl bad ↦
        inr (rw (u, found, bad, get_partial_book_download) (refl, clear-Leaves a book clearing c u))
    | inr (p, good) ↦
        let (bytes, pos) = read_partial_sound m (c.chunk book) good in
        inl (p, ground (arith, found, good, u), bytes, pos)
  ]
]
