-- ===== src/Offline/Download/Whole.antt =====
-- The outcome of `downloadBookFile` (frontend/src/lib/book-download.ts) and what it leaves stored.
use mathlib.Core.Path.{subst}
use z_reader.Prelude.{
  ℕ, zero, suc, ◌+◌, ◌-◌, ◌≤◌, ltb, ◌≢◌, ◌⊎◌, ◌<◌, String, ◌≡◌, refl, ap, sym, ◌∙◌, Bool, true,
  false, Option, none, some, List, [], ◌∷◌, ◌++◌, if◌then◌else◌, ◌==◌, not, ◌||◌, length, drop,
  take, arith, Bool-cases, inl, inr, append-nil, append_assoc, length-append, All, All-append,
  take-append-drop,
}
use z_reader.Offline.Store.{
  Blob, PartialDownload, Cache, Account, is_usable, Writer, Device, Clearing, all_deleted,
  clear_partial_book_download, create_partial_book_download_writer,
}
use z_reader.Offline.Store.Holds.{Holds}
use z_reader.Offline.Store.Appends.{append_all, append_all-Holds, blobs}
use z_reader.Offline.Download.{
  Server, Signal, Session, Outcome, file, thrown, downloaded_of, chunks_of, negotiate, concat,
  read_body, with_devices, total_of, type_of, initial_of, falls_short, transfer, download_book_file,
}
use z_reader.Offline.Download.Reads.{
  body_bytes, body_ends, read_body-bytes, read_body-nonempty, read_body-ends, concat-append,
}
use z_reader.Offline.Download.Resumes.{
  range_total, start-le, Serves, IsReady, length-concat, Settled, negotiate-Settled,
}
use z_reader.Offline.Download.Stored.{Resumable, Readable, Left, gone, left, clear-Cleared}

blobs-with_devices :
    (devices : ℕ → Device) (i : ℕ) (bs : List Blob) → blobs (with_devices devices i bs) ≡ bs
blobs-with_devices devices i [] = refl
blobs-with_devices devices i (b ∷ bs) = ap (◌∷◌ b) (blobs-with_devices devices (i + 1) bs)

All-take {κ} : (P : Blob → Type κ) (n : ℕ) (bs : List Blob) → All P bs → All P (take n bs)
All-take P zero bs h = tt
All-take P (suc n) [] h = tt
All-take P (suc n) (b ∷ bs) h = (h.0, All-take P n bs h.1)

writer_of : Account → String → Session → Cache → Writer
writer_of a book s c =
    create_partial_book_download_writer a book (total_of s) (type_of s)
      (initial_of s.partial_download) s.response.etag c

writer_fields :
    (a : Account) (book : String) (total : Option ℕ) (t : String) (p : Option PartialDownload)
    (etag : Option String) (c : Cache)
    → ((create_partial_book_download_writer a book total t (initial_of p) etag c).chunks
        ≡ length (chunks_of p))
      × ((create_partial_book_download_writer a book total t (initial_of p) etag c).downloaded_bytes
          ≡ downloaded_of p)
      × ((create_partial_book_download_writer a book total t (initial_of p) etag c).active
          ≡ is_usable a)
      × ((create_partial_book_download_writer a book total t (initial_of p) etag c).book ≡ book)
unfolding create_partial_book_download_writer
writer_fields a book total t none etag c = (refl, refl, refl, refl)
writer_fields a book total t (some p) etag c = (refl, refl, refl, refl)

tail-le :
    {bytes : Blob} {book : String} (s : Session) (c : Cache) (r : IsReady bytes book c s)
    → r.hand.stored.tail ≡ body_bytes s.response.body ++ r.body.rest
tail-le s c r = sym (start-le c s.partial_download r.hand) ∙ r.body.prefix

length-zero : (xs : Blob) → length xs ≡ 0 → xs ≡ []
length-zero [] h = refl
length-zero (x ∷ xs) h = absurd (omega (arith, h))

-- The total that the code computes is the one that the response announces.
total_of-announced :
    (s : Session) (n : ℕ)
    → downloaded_of s.partial_download ≤ n
    → (range_total s.response.content_range ≡ some n)
      ⊎ ((range_total s.response.content_range ≡ none)
          × (s.response.content_length ≡ some (n - downloaded_of s.partial_download)))
    → total_of s ≡ some n
total_of-announced s n l (inl h) = ground (arith, h)
total_of-announced s n l (inr (h, k)) = ground (arith, h, k, l)

module _ (a : Account) (book : String) (bytes : Blob) (usable : is_usable a ≡ true)
    (clears : ℕ → Clearing) where
  -- What is stored at the end of reading, whichever writes failed: a prefix of the file.
  stored-Resumable :
      (s : Session) (opens : Bool) (devices : ℕ → Device) (c : Cache)
      → IsReady bytes book c s
      → Resumable bytes book (
          if opens
          then append_all
              (writer_of a book s c)
              (with_devices devices 0 (read_body s.response.body).0)
              c
          else c)
  unfolding writer_of
  stored-Resumable s false devices c r = r.hand.stored
  stored-Resumable s true devices c r =
      let t = r.hand.stored in
      let batches = (read_body s.response.body).0 in
      let w = writer_of a book s c in
      let (counted, measured, active, same) =
        writer_fields a book (total_of s) (type_of s) s.partial_download s.response.etag c in
      let given = blobs-with_devices devices 0 batches in
      let (n, held) =
        append_all-Holds w (with_devices devices 0 batches) c t.chunks (active ∙ usable)
          (subst (All (λ (b : Blob). 0 < length b)) (sym given)
            (read_body-nonempty s.response.body))
          (record {
            counted = counted ∙ ap (λ (l : List Blob). length l) r.hand.same;
            measured = measured ∙ r.hand.measured;
          })
          (subst (λ k. Holds c k t.chunks) (sym same) t.held) in
      let kept = take n batches in
      let left = drop n batches in
      record {
        chunks = t.chunks ++ kept;
        filled =
            All-append _ t.chunks kept t.filled
              (All-take _ n batches (read_body-nonempty s.response.body));
        held =
            subst
              (λ l.
                Holds (append_all w (with_devices devices 0 batches) c) book (t.chunks ++ take n l))
              given
              (subst
                (λ k.
                  Holds (append_all w (with_devices devices 0 batches) c) k
                    (t.chunks ++ take n (blobs (with_devices devices 0 batches))))
                same held);
        tail = concat left ++ r.body.rest;
        prefix = rebuild t.chunks kept left t.tail r.body.rest bytes t.prefix (
            tail-le s c r
            ∙ ap (λ x. x ++ r.body.rest)
                (sym (read_body-bytes s.response.body)
                  ∙ ap concat (sym (take-append-drop n batches))));
      }
    where
      rebuild :
          (cs ks ls : List Blob) (tail rest bytes : Blob)
          → bytes ≡ concat cs ++ tail
          → tail ≡ concat (ks ++ ls) ++ rest
          → bytes ≡ concat (cs ++ ks) ++ (concat ls ++ rest)
      rebuild cs ks ls tail rest bytes e f =
          e ∙ ap (λ x. concat cs ++ x) f ∙ simp (concat-append, append_assoc)

  -- The bytes in hand and those that were received, of all bytes.
  abbrev pub received_of : Session → ℕ
  received_of s = downloaded_of s.partial_download + length (body_bytes s.response.body)

  -- The file if the body ended, the call is not cancelled, the file is not empty and all its bytes
  -- were received; else an error.
  abbrev pub outcome_of : Signal → Session → Outcome
  outcome_of signal s =
      if not (body_ends s.response.body) || signal.aborted_last
      then thrown
      else if (length bytes == 0) || ltb (received_of s) (length bytes)
      then thrown
      else file bytes

  -- A result that is the file leaves no partial download, unless the last removal rejected; an error
  -- leaves a prefix of the file, unless a removal rejected; and whatever can be read back is a prefix.
  abbrev pub Ends : Cache × Outcome → Type 0
  Ends (c, file b) =
      (b ≡ bytes) × ((c.meta book ≡ none) ⊎ ((clears 3 ≢ all_deleted) × Readable a bytes book c))
  Ends (c, thrown) = Left a book bytes usable clears c

  received-le :
      (s : Session) (c : Cache) (r : IsReady bytes book c s)
      → received_of s + length r.body.rest ≡ length bytes
  received-le s c r = omega (
    arith,
    r.hand.measured,
    length-concat r.hand.stored.chunks,
    ap (λ (l : Blob). length l) r.hand.stored.prefix,
    length-append (concat r.hand.stored.chunks) r.hand.stored.tail,
    ap (λ (l : Blob). length l) (tail-le s c r),
    length-append (body_bytes s.response.body) r.body.rest,
  )

  announced_total :
      (s : Session) (c : Cache) → IsReady bytes book c s → total_of s ≡ some (length bytes)
  announced_total s c r =
      total_of-announced s (length bytes) (omega (arith, received-le s c r)) r.body.announced

  whole-parts :
      (s : Session) (c : Cache) (r : IsReady bytes book c s)
      → ltb (received_of s) (length bytes) ≡ false
      → concat (chunks_of s.partial_download ++ (read_body s.response.body).0) ≡ bytes
  whole-parts s c r full =
      let none_left : length r.body.rest ≡ 0 = ground (arith, full, received-le s c r) in
      ap (λ l. concat (l ++ (read_body s.response.body).0)) r.hand.same
      ∙ concat-append r.hand.stored.chunks (read_body s.response.body).0
      ∙ ap (λ x. concat r.hand.stored.chunks ++ x)
          (read_body-bytes s.response.body
            ∙ sym (append-nil _)
            ∙ ap (λ x. body_bytes s.response.body ++ x) (sym (length-zero r.body.rest none_left))
            ∙ sym (tail-le s c r))
      ∙ sym r.hand.stored.prefix

  transfer-Ends :
      (signal : Signal) (s : Session) (opens : Bool) (devices : ℕ → Device) (c : Cache)
      → IsReady bytes book c s
      → Ends (transfer a book clears signal s opens devices c)
        × ((transfer a book clears signal s opens devices c).1 ≡ outcome_of signal s)
  unfolding transfer writer_of
  transfer-Ends signal s opens devices c r =
      let stored = stored-Resumable s opens devices c r in
      let e = read_body-ends s.response.body in
      let n : length (concat (read_body s.response.body).0) ≡ length (body_bytes s.response.body) =
        ap (λ (l : Blob). length l) (read_body-bytes s.response.body) in
      let total = announced_total s c r in
      let test : ((received_of s == 0) || falls_short (received_of s) (total_of s))
          ≡ ((received_of s == 0) || ltb (received_of s) (length bytes)) =
        ap (λ o. (received_of s == 0) || falls_short (received_of s) o) total in
      elim (Bool-cases (not (body_ends s.response.body) || signal.aborted_last)) [
        | inl cut ↦ (rw (e, cut, transfer) (inl stored), rw (e, cut, transfer) refl)
        | inr ended ↦
            elim (Bool-cases ((received_of s == 0) || ltb (received_of s) (length bytes))) [
              | inl bad ↦
                  let bad' : ((length bytes == 0) || ltb (received_of s) (length bytes)) ≡ true =
                    ground (arith, bad, received-le s c r) in
                  (
                    rw (e, ended, n, test ∙ bad, transfer) (inl stored),
                    rw (e, ended, n, test ∙ bad, bad', transfer) refl,
                  )
              | inr good ↦
                  let good' : ((length bytes == 0) || ltb (received_of s) (length bytes)) ≡ false =
                    ground (arith, good, received-le s c r) in
                  let parts = whole-parts s c r (ground (arith, good)) in
                  (
                    rw (e, ended, n, test ∙ good, transfer) (parts, at_end _ stored),
                    rw (e, ended, n, test ∙ good, good', transfer) (ap file parts),
                  )
            ]
      ]
    where
      at_end :
          (d : Cache)
          → Resumable bytes book d
          → ((clear_partial_book_download a book (clears 3) d).0.meta book ≡ none)
            ⊎ ((clears 3 ≢ all_deleted)
                × Readable a bytes book (clear_partial_book_download a book (clears 3) d).0)
      at_end d stored = elim (clear-Cleared a book bytes usable (clears 3) d stored) [
        | gone e empty ↦ inl empty
        | left e fails readable ↦ inr (fails, readable)
      ]

  module _ (server : Server) (serves : Serves bytes server) (signal : Signal) (opens : Bool)
      (devices : ℕ → Device) where
    -- For a usable account, where what is stored is a prefix of the file that the server serves, and
    -- the responses announce its length: whichever requests, reads of a body, checks, writes and removals fail,
    -- whether a body breaks off or ends early, and if the call is cancelled, the download returns
    -- exactly the file and leaves no partial download, or throws and leaves a prefix of the file stored.
    -- If a removal rejects, the partial download may stay, and whatever can be read back of it is a prefix.
    pub download-Ends :
        (c : Cache)
        → Resumable bytes book c
        → Ends (download_book_file a book clears server signal opens devices c)
    unfolding download_book_file
    download-Ends c r = elim (Bool-cases signal.aborted_first) [
      | inl early ↦ rw (early, download_book_file) (inl r)
      | inr on ↦
          rw (on, download_book_file)
            (go (negotiate a book server clears c)
              (negotiate-Settled a book bytes usable clears server serves c r))
    ]
      where
        go :
            (n : Cache × Option Session)
            → Settled a book bytes usable clears n
            → Ends (elim n.1 as (λ _. Cache × Outcome) [
              | none ↦ (n.0, thrown)
              | some s ↦ transfer a book clears signal s opens devices n.0
            ])
        go (c', none) h = h
        go (c', some s) h = (transfer-Ends signal s opens devices c' h).0
