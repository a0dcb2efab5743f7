-- ===== src/Offline/Download/Stored.antt =====
-- What the cache may hold of a book before and after `downloadBookFile`
-- (frontend/src/lib/book-download.ts), also where a removal of the partial download rejected.
use z_reader.Prelude.{
  ℕ, zero, suc, ◌+◌, ◌<◌, String, eq_iff, ◌≡◌, ◌≢◌, ◌⊎◌, refl, sym, ap, ◌∙◌, Bool, true, false,
  Option, none, some, List, [], ◌∷◌, ◌++◌, length, arith, Bool-cases, Option-cases, inl, inr, All,
}
use z_reader.Offline.Store.{
  Blob, whole, Meta, PartialDownload, Cache, Clearing, all_deleted, rejected, delete_entries,
  Account, is_usable, read_chunks, read_partial, get_partial_book_download,
  clear_partial_book_download,
}
use z_reader.Offline.Store.Holds.{Holds, read_chunks-all}
use z_reader.Offline.Download.{concat}

-- What is stored of the book is a prefix of the file.
pub record Resumable (bytes : Blob) (book : String) (c : Cache) : Type 0 where
  pub chunks : List Blob
  pub filled : All (λ b. 0 < length b) chunks
  pub held : Holds c book chunks
  pub tail : Blob
  pub prefix : bytes ≡ concat chunks ++ tail

-- Whatever a later call reads back is a prefix of the file.
abbrev pub Readable : Account → Blob → String → Cache → Type 0
Readable a bytes book c =
    (clearing : Clearing) (p : PartialDownload)
    → (get_partial_book_download a book clearing c).1 ≡ some p
    → (tail : Blob) × (bytes ≡ concat p.chunks ++ tail)

-- Fewer chunks: what can still be read is the same.
read_chunks-sub :
    (n k : ℕ) (f g : ℕ → Option Blob) (bs : List Blob)
    → ((i : ℕ) → (f i ≡ none) ⊎ (f i ≡ g i))
    → read_chunks f k n ≡ some bs
    → read_chunks g k n ≡ some bs
unfolding read_chunks
read_chunks-sub zero k f g bs h e = e
read_chunks-sub (suc n) k f g bs h e = elim (Option-cases (f k)) [
  | inl gone ↦ absurd (ground (arith, gone, e))
  | inr (b, found) ↦ elim (Option-cases (read_chunks f (k + 1) n)) [
    | inl gone ↦ absurd (ground (arith, found, gone, e))
    | inr (rest, more) ↦
        let later = read_chunks-sub n (k + 1) f g rest h more in
        elim (h k) [
          | inl gone ↦ absurd (ground (arith, found, gone))
          | inr same ↦ ground (arith, found, more, later, same, e)
        ]
  ]
]

read_partial-chunks :
    (m : Meta) (n : ℕ) (f : ℕ → Option Blob) (p : PartialDownload)
    → m.chunks ≡ whole n
    → read_partial m f ≡ some p
    → read_chunks f 0 n ≡ some p.chunks
unfolding read_partial
read_partial-chunks m n f p e h = ground (arith, e, h)

module _ (a : Account) (book : String) (bytes : Blob) (usable : is_usable a ≡ true) where
  -- What is read back where the cache has only some of the chunks that it held.
  part-prefix :
      (c : Cache) (f : ℕ → Option Blob) (m : Meta) (p : PartialDownload)
      → Resumable bytes book c
      → c.meta book ≡ some m
      → ((i : ℕ) → (f i ≡ none) ⊎ (f i ≡ c.chunk book i))
      → read_partial m f ≡ some p
      → (tail : Blob) × (bytes ≡ concat p.chunks ++ tail)
  part-prefix c f m p r found part h = go r.chunks r.held r.prefix
    where
      go :
          (bs : List Blob)
          → Holds c book bs
          → bytes ≡ concat bs ++ r.tail
          → (tail : Blob) × (bytes ≡ concat p.chunks ++ tail)
      go [] held e = absurd (ground (arith, held, found))
      go (b ∷ bs) (m', found', counted, measured, at) e =
          let same : m' ≡ m = ground (arith, found, found') in
          let n : m.chunks ≡ whole (length (b ∷ bs)) =
            ap (λ (x : Meta). x.chunks) (sym same) ∙ counted in
          let all : read_chunks (c.chunk book) 0 (length (b ∷ bs)) ≡ some (b ∷ bs) =
            read_chunks-all (b ∷ bs) (c.chunk book) 0
              (λ i l. let z : 0 + i ≡ i = omega arith in rw z (at i l)) in
          let some_read =
            read_chunks-sub (length (b ∷ bs)) 0 f (c.chunk book) p.chunks part
              (read_partial-chunks m (length (b ∷ bs)) f p n h) in
          let chunks : b ∷ bs ≡ p.chunks = ground (arith, all, some_read) in
          (r.tail, e ∙ ap (λ l. concat l ++ r.tail) chunks)

  get-read :
      (clearing : Clearing) (c : Cache) (p : PartialDownload)
      → (get_partial_book_download a book clearing c).1 ≡ some p
      → (m : Meta) × (c.meta book ≡ some m) × (read_partial m (c.chunk book) ≡ some p)
  unfolding get_partial_book_download
  get-read clearing c p h = elim (Option-cases (c.meta book)) [
    | inl gone ↦ absurd (ground (arith, usable, gone, h))
    | inr (m, found) ↦ elim (Option-cases (read_partial m (c.chunk book))) [
      | inl bad ↦ absurd (ground (arith, usable, found, bad, h))
      | inr (q, good) ↦ (m, found, ground (arith, usable, found, good, h))
    ]
  ]

  rejected-Readable :
      (m : Bool) (k : ℕ → Bool) (c : Cache)
      → Resumable bytes book c
      → Readable a bytes book (delete_entries book (rejected m k) c).0
  rejected-Readable m k c r clearing p h =
      let (x, found, read) = get-read clearing (delete_entries book (rejected m k) c).0 p h in
      part-prefix c (λ i. (delete_entries book (rejected m k) c).0.chunk book i) x p r
        (ground (arith, found, eq_iff book book))
        (λ i. elim (Bool-cases (k i)) [
          | inl gone ↦ inl (ground (arith, gone, eq_iff book book))
          | inr stays ↦ inr (ground (arith, stays, eq_iff book book))
        ])
        read

  -- After a removal: no metadata is left, or it rejected and what can be read back is a prefix.
  pub data Cleared (clearing : Clearing) (r : Cache × Bool) : Type 0 where
    gone : r.1 ≡ true → r.0.meta book ≡ none → Cleared clearing r
    left : r.1 ≡ false → clearing ≢ all_deleted → Readable a bytes book r.0 → Cleared clearing r

  deleted-Cleared :
      (clearing : Clearing) (c : Cache)
      → Resumable bytes book c
      → Cleared clearing (delete_entries book clearing c)
  deleted-Cleared all_deleted c r = gone refl (ground (arith, eq_iff book book))
  deleted-Cleared (rejected m k) c r =
      left refl (λ e. ground (arith, e)) (rejected-Readable m k c r)

  pub clear-Cleared :
      (clearing : Clearing) (c : Cache)
      → Resumable bytes book c
      → Cleared clearing (clear_partial_book_download a book clearing c)
  unfolding clear_partial_book_download
  clear-Cleared clearing c r =
      rw (usable, clear_partial_book_download) (deleted-Cleared clearing c r)

  -- What a failed call leaves: a prefix of the file, or, if a removal rejected, such that whatever can
  -- be read back is a prefix.
  abbrev pub Left : (ℕ → Clearing) → Cache → Type 0
  Left clears c =
      Resumable bytes book c ⊎ (((i : ℕ) × (clears i ≢ all_deleted)) × Readable a bytes book c)
