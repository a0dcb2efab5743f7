-- ===== src/Offline/Download/Resumes.antt =====
-- The requests of `downloadBookFile` (frontend/src/lib/book-download.ts): what a server of a file is,
-- and the stored bytes beside the bytes of the response.
use mathlib.Core.Path.{subst}
use z_reader.Prelude.{
  ℕ, ◌-◌, ◌<◌, ◌≡◌, ◌⊎◌, refl, ap, sym, ◌∙◌, String, true, false, Option, none, some, List, [], ◌∷◌,
  ◌++◌, ltb, ◌==◌, not, ◌&&◌, length, drop, arith, Bool-cases, Option-cases, inl, inr,
  length-append, All,
}
use z_reader.Offline.Store.{
  Blob, PartialDownload, Cache, Clearing, Account, is_usable, total_size, get_partial_book_download,
  clear_partial_book_download,
}
use z_reader.Offline.Store.Holds.{Holds, get_partial-Holds}
use z_reader.Offline.Download.{
  Response, ContentRange, Server, Session, downloaded_of, etag_of, chunks_of, can_append, is_ok,
  checked, settle, ask, negotiate, concat,
}
use z_reader.Offline.Download.Reads.{body_bytes}
use z_reader.Offline.Download.Stored.{Resumable, Left, gone, left, clear-Cleared}

abbrev pub range_total : Option ContentRange → Option ℕ
range_total none = none
range_total (some r) = r.total_bytes

-- The response delivers bytes of the file from `start` on, perhaps not all of them even if its body
-- ends; and it announces the length: that of the file in its `Content-Range`, or else in
-- `Content-Length` that of the bytes from `start` on.
pub record Delivers (bytes : Blob) (start : ℕ) (r : Response) : Type 0 where
  pub rest : Blob
  pub prefix : drop start bytes ≡ body_bytes r.body ++ rest
  pub announced :
      (range_total r.content_range ≡ some (length bytes))
      ⊎ ((range_total r.content_range ≡ none) × (r.content_length ≡ some (length bytes - start)))

-- A server of the file `bytes`: a 206 for the start that was asked for delivers the bytes from there
-- on, a 200 delivers all bytes, and so does any successful answer to a request from the start.
pub record Serves (bytes : Blob) (server : Server) : Type 0 where
  pub partial :
      (n start : ℕ) (etag : Option String) (r : Response) (range : ContentRange)
      → server n start etag ≡ some r
      → r.status ≡ 206
      → r.content_range ≡ some range
      → range.start ≡ start
      → Delivers bytes start r
  pub full :
      (n start : ℕ) (etag : Option String) (r : Response)
      → server n start etag ≡ some r
      → r.status ≡ 200
      → Delivers bytes 0 r
  pub from_zero :
      (n : ℕ) (etag : Option String) (r : Response)
      → server n 0 etag ≡ some r
      → is_ok r ≡ true
      → Delivers bytes 0 r

-- The partial download in hand is the one that is stored.
pub record InHand (bytes : Blob) (book : String) (c : Cache) (p : Option PartialDownload)
    : Type 0 where
  pub stored : Resumable bytes book c
  pub same : chunks_of p ≡ stored.chunks
  pub measured : downloaded_of p ≡ total_size stored.chunks

-- The response in hand delivers what comes after it.
pub record IsReady (bytes : Blob) (book : String) (c : Cache) (s : Session) : Type 0 where
  pub hand : InHand bytes book c s.partial_download
  pub body : Delivers bytes (downloaded_of s.partial_download) s.response

pub length-concat : (bs : List Blob) → length (concat bs) ≡ total_size bs
unfolding concat total_size
length-concat [] = refl
length-concat (b ∷ bs) = omega (arith, length-append b (concat bs), length-concat bs)

drop-append : (xs ys : Blob) → drop (length xs) (xs ++ ys) ≡ ys
drop-append [] ys = refl
drop-append (x ∷ xs) ys = drop-append xs ys

-- Bytes in hand: the answer starts where they end.
pub start-le :
    {bytes : Blob} {book : String} (c : Cache) (p : Option PartialDownload)
    (h : InHand bytes book c p)
    → drop (downloaded_of p) bytes ≡ h.stored.tail
start-le {bytes = bytes} c p h =
    let t = h.stored in
    ap (λ k. drop k bytes) (h.measured ∙ sym (length-concat t.chunks))
    ∙ ap (drop (length (concat t.chunks))) t.prefix
    ∙ drop-append (concat t.chunks) t.tail

module _ (a : Account) (book : String) (bytes : Blob) (usable : is_usable a ≡ true)
    (clears : ℕ → Clearing) where
  nothing : (c : Cache) → c.meta book ≡ none → Resumable bytes book c
  unfolding concat
  nothing c h = record { chunks = []; filled = tt; held = h; tail = bytes; prefix = refl }

  nothing_in_hand : (c : Cache) → c.meta book ≡ none → InHand bytes book c none
  unfolding total_size nothing
  nothing_in_hand c h = record { stored = nothing c h; same = refl; measured = refl }

  get_partial_none :
      (clearing : Clearing) (c : Cache)
      → c.meta book ≡ none
      → get_partial_book_download a book clearing c ≡ (c, none)
  unfolding get_partial_book_download
  get_partial_none clearing c h = ground (arith, usable, h)

  -- Reading the stored download changes nothing where it is a prefix of the file.
  get_partial-InHand :
      (clearing : Clearing) (c : Cache)
      → Resumable bytes book c
      → ((get_partial_book_download a book clearing c).0 ≡ c)
        × InHand bytes book c (get_partial_book_download a book clearing c).1
  get_partial-InHand clearing c r = go r.chunks r.filled r.held r.tail r.prefix
    where
      go :
          (bs : List Blob)
          → All (λ b. 0 < length b) bs
          → Holds c book bs
          → (tail : Blob) → bytes ≡ concat bs ++ tail
          → ((get_partial_book_download a book clearing c).0 ≡ c)
            × InHand bytes book c (get_partial_book_download a book clearing c).1
      go [] f h tail e = rw (get_partial_none clearing c h) (refl, nothing_in_hand c h)
      go (b ∷ bs) f h tail e =
          let (p, got, chunks, size) = get_partial-Holds a book clearing c b bs usable f.0 h in
          rw got (
            refl,
            record {
              stored = record { chunks = b ∷ bs; filled = f; held = h; tail = tail; prefix = e };
              same = chunks;
              measured = size;
            },
          )

  abbrev pub Settled : Cache × Option Session → Type 0
  Settled (c, none) = Left a book bytes usable clears c
  Settled (c, some s) = IsReady bytes book c s

  -- With nothing in hand, a successful answer delivers the file.
  checked-Settled :
      (c : Cache) (o : Option Response)
      → c.meta book ≡ none
      → ((r : Response) → o ≡ some r → is_ok r ≡ true → Delivers bytes 0 r)
      → Settled (checked c o none)
  unfolding nothing_in_hand
  checked-Settled c none h d = inl (nothing c h)
  checked-Settled c (some r) h d = elim (Bool-cases (is_ok r)) [
    | inr bad ↦ rw (bad, checked) (inl (nothing c h))
    | inl good ↦ rw (good, checked) (record { hand = nothing_in_hand c h; body = d r refl good })
  ]

  module _ (server : Server) (serves : Serves bytes server) where
    keeps :
        (n : ℕ) (etag : Option String) (p : Option PartialDownload) (r : Response)
        → server n (downloaded_of p) etag ≡ some r
        → (ltb 0 (downloaded_of p) && not (can_append (downloaded_of p) r)) ≡ false
        → is_ok r ≡ true
        → Delivers bytes (downloaded_of p) r
    keeps n etag p r asked kept good = elim (Bool-cases (ltb 0 (downloaded_of p))) [
      | inr none_yet ↦
          let z : downloaded_of p ≡ 0 = ground (arith, none_yet) in
          subst (λ k. Delivers bytes k r) (sym z)
            (serves.from_zero n etag r (subst (λ k. server n k etag ≡ some r) z asked) good)
      | inl some_yet ↦ elim (Option-cases r.content_range) [
        | inl no_range ↦ absurd (ground (arith, kept, some_yet, no_range))
        | inr (range, found) ↦
            serves.partial n (downloaded_of p) etag r range asked
              (ground (arith, kept, some_yet, found)) found (ground (arith, kept, some_yet, found))
      ]
    ]

    settle-Settled :
        (n : ℕ) (etag : Option String) (c : Cache) (p : Option PartialDownload) (r : Response)
        → InHand bytes book c p
        → server n (downloaded_of p) etag ≡ some r
        → Settled (settle a book server clears r p c)
    unfolding settle
    settle-Settled n etag c p r h asked =
        let cleared = (clear_partial_book_download a book (clears 2) c).0 in
        elim (Bool-cases (ltb 0 (downloaded_of p) && not (can_append (downloaded_of p) r))) [
          | inr kept ↦ elim (Bool-cases (is_ok r)) [
            | inr bad ↦ rw (kept, bad, settle, checked) (inl h.stored)
            | inl good ↦
                rw (kept, good, settle, checked)
                  (record { hand = h; body = keeps n etag p r asked kept good })
          ]
          | inl dropped ↦ elim (clear-Cleared a book bytes usable (clears 2) c h.stored) [
            | left e fails readable ↦ rw (dropped, e, settle) (inr ((2, fails), readable))
            | gone e empty ↦ elim (Bool-cases (r.status == 200)) [
              | inl whole_file ↦
                  rw (dropped, e, whole_file, settle)
                    (checked-Settled cleared (some r) empty (λ r' e good.
                      serves.full n (downloaded_of p) etag r' (asked ∙ e)
                        (ground (arith, whole_file, e))))
              | inr other_status ↦
                  rw (dropped, e, other_status, settle)
                    (checked-Settled cleared (server 2 0 none) empty
                      (λ r' e good. serves.from_zero 2 none r' e good))
            ]
          ]
        ]

    -- The second request, after a 416.
    second-Settled :
        (c : Cache) (o : Option Response)
        → server 1 0 none ≡ o
        → c.meta book ≡ none
        → Settled (elim o as (λ _. Cache × Option Session) [
          | none ↦ (c, none)
          | some r ↦ settle a book server clears r none c
        ])
    second-Settled c none again empty = inl (nothing c empty)
    second-Settled c (some r) again empty =
        settle-Settled 1 none c none r (nothing_in_hand c empty) again

    ask-Settled :
        (c : Cache) (p : Option PartialDownload)
        → InHand bytes book c p
        → Settled (ask a book server clears c p)
    unfolding ask
    ask-Settled c p h = elim (Option-cases (server 0 (downloaded_of p) (etag_of p))) [
      | inl lost ↦ rw (lost, ask) (inl h.stored)
      | inr (r, asked) ↦ elim (Bool-cases ((r.status == 416) && ltb 0 (downloaded_of p))) [
        | inr usual ↦ rw (asked, usual, ask) (settle-Settled 0 (etag_of p) c p r h asked)
        | inl refused ↦
            let cleared = (clear_partial_book_download a book (clears 1) c).0 in
            elim (clear-Cleared a book bytes usable (clears 1) c h.stored) [
              | left e fails readable ↦ rw (asked, refused, e, ask) (inr ((1, fails), readable))
              | gone e empty ↦
                  rw (asked, refused, e, ask) (second-Settled cleared (server 1 0 none) refl empty)
            ]
      ]
    ]

    -- For a usable account, where what is stored is a prefix of the file that the server serves:
    -- whatever the answers, either the requests failed and what is stored is still a prefix of the
    -- file, or a removal rejected and what can be read back is one, or the stored bytes in hand are
    -- followed by what the response delivers.
    pub negotiate-Settled :
        (c : Cache) → Resumable bytes book c → Settled (negotiate a book server clears c)
    unfolding negotiate
    negotiate-Settled c r =
        let (same, h) = get_partial-InHand (clears 0) c r in
        ask-Settled _ _ (
          subst (λ k. InHand bytes book k (get_partial_book_download a book (clears 0) c).1)
            (sym same) h)
