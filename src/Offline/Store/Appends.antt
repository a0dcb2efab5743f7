-- ===== src/Offline/Store/Appends.antt =====
-- Appends of a writer of frontend/src/lib/offline-books.ts, one and several in a row, against the
-- list of chunks that the cache holds. `append_all` is the write chain of `downloadBookFile`
-- (frontend/src/lib/book-download.ts).
use z_reader.Prelude.{
  ℕ, zero, suc, ◌+◌, ◌≤◌, ◌<◌, String, eq_iff, ◌≡◌, ◌⊎◌, refl, ap, sym, true, false, some, List, [],
  ◌∷◌, ◌++◌, length, get_elem?, arith, Bool-cases, ◌∙◌, leb, take, inl, inr, ◌==◌, length-append,
  All, append-nil, append_assoc,
}
use mathlib.Core.Path.{subst}
use z_reader.Offline.Store.{
  Blob, whole, Meta, Cache, total_size, Writer, Device, Append, appended, failed, meta_after,
  write_chunk, append, put_chunk, put_meta, quota_check_interval, ensure_capacity,
}
use z_reader.Offline.Store.Holds.{Holds}

-- The counters of the writer are those of the chunks that the cache holds for its book.
pub record InStep (w : Writer) (bs : List Blob) : Type 0 where
  pub counted : w.chunks ≡ length bs
  pub measured : w.downloaded_bytes ≡ total_size bs

pub total_size-append : (xs ys : List Blob) → total_size (xs ++ ys) ≡ total_size xs + total_size ys
unfolding total_size
total_size-append [] ys = omega arith
total_size-append (x ∷ xs) ys = omega (arith, total_size-append xs ys)

get_elem?-append_left :
    (i : ℕ) (bs : List Blob) (b : Blob)
    → i < length bs
    → get_elem? (bs ++ b ∷ []) i ≡ get_elem? bs i
get_elem?-append_left i [] b h = elim h [ ]
get_elem?-append_left zero (x ∷ bs) b h = refl
get_elem?-append_left (suc i) (x ∷ bs) b h = get_elem?-append_left i bs b (omega arith)

get_elem?-append_last : (bs : List Blob) (b : Blob) → get_elem? (bs ++ b ∷ []) (length bs) ≡ some b
get_elem?-append_last [] b = refl
get_elem?-append_last (x ∷ bs) b = get_elem?-append_last bs b

-- A non-empty list of chunks, in the form that does not split the list.
abbrev HoldsSome : Cache → String → List Blob → Type 0
HoldsSome c book bs =
    (m : Meta) × (c.meta book ≡ some m)
    × (m.chunks ≡ whole (length bs))
    × (m.downloaded_bytes ≡ whole (total_size bs))
    × ((i : ℕ) → i < length bs → c.chunk book i ≡ get_elem? bs i)

Holds-snoc :
    (c : Cache) (book : String) (bs : List Blob) (b : Blob)
    → HoldsSome c book (bs ++ b ∷ [])
    → Holds c book (bs ++ b ∷ [])
Holds-snoc c book [] b h = h
Holds-snoc c book (x ∷ bs) b h = h

-- The chunks that are held stay where they are under a write at the next index.
chunk_at :
    (c : Cache) (book : String) (bs : List Blob) (i : ℕ)
    → Holds c book bs
    → i < length bs
    → c.chunk book i ≡ get_elem? bs i
chunk_at c book [] i h l = elim l [ ]
chunk_at c book (b ∷ bs) i (m, found, n, s, at) l = at i l

-- The write of a chunk alone leaves what is held.
Holds-put_chunk :
    (c : Cache) (book : String) (bs : List Blob) (b : Blob)
    → Holds c book bs
    → Holds (put_chunk book (length bs) b c) book bs
Holds-put_chunk c book [] b h = h
Holds-put_chunk c book (x ∷ bs) b (m, found, n, s, at) =
    (m, found, n, s, λ i l. ground (arith, eq_iff book book, at i l, l))

stored_at :
    (w : Writer) (c : Cache) (bs : List Blob) (b : Blob) (i : ℕ)
    → InStep w bs
    → Holds c w.book bs
    → i ≤ length bs
    → (put_chunk w.book w.chunks b c).chunk w.book i ≡ get_elem? (bs ++ b ∷ []) i
stored_at w c bs b i v h l = elim (Bool-cases (i == length bs)) [
  | inl last ↦
      let e : i ≡ length bs = ground (arith, last) in
      ground (
        arith,
        eq_iff w.book w.book,
        e,
        v.counted,
        ap (get_elem? (bs ++ b ∷ [])) e,
        get_elem?-append_last bs b,
      )
  | inr earlier ↦ ground (
    arith,
    eq_iff w.book w.book,
    earlier,
    v.counted,
    chunk_at c w.book bs i h,
    get_elem?-append_left i bs b,
  )
]

Holds-put :
    (w : Writer) (c : Cache) (bs : List Blob) (b : Blob)
    → InStep w bs
    → Holds c w.book bs
    → Holds (put_meta w.book (meta_after w b) (put_chunk w.book w.chunks b c)) w.book (bs ++ b ∷ [])
unfolding total_size
Holds-put w c bs b v h =
    let c' : Cache = put_meta w.book (meta_after w b) (put_chunk w.book w.chunks b c) in
    Holds-snoc c' w.book bs b (
      meta_after w b,
      ground (arith, eq_iff w.book w.book),
      ap whole (omega (arith, v.counted, length-append bs (b ∷ []))),
      ap whole (omega (arith, v.measured, total_size-append bs (b ∷ []))),
      λ i l. stored_at w c bs b i v h (omega (arith, length-append bs (b ∷ []), l)),
    )

-- One append: the chunk is added, or it threw and what was held is held.
abbrev pub After : Cache × Append → Writer → List Blob → Blob → Type 0
After r w bs b = elim r.1 [
  | appended w' ↦
      (w'.book ≡ w.book)
      × (w'.active ≡ w.active)
      × InStep w' (bs ++ b ∷ [])
      × Holds r.0 w.book (bs ++ b ∷ [])
  | failed w' ↦ Holds r.0 w.book bs
]

write_chunk-After :
    (w : Writer) (since : ℕ) (b : Blob) (d : Device) (c : Cache) (bs : List Blob)
    → InStep w bs
    → Holds c w.book bs
    → After (write_chunk w since b d c) w bs b
unfolding write_chunk total_size
write_chunk-After w since b d c bs v h = elim (Bool-cases d.stores_chunk) [
  | inr lost ↦ rw (lost, write_chunk) h
  | inl kept ↦ elim (Bool-cases d.stores_meta) [
    | inr lost ↦ rw (kept, lost, write_chunk, v.counted) (Holds-put_chunk c w.book bs b h)
    | inl done ↦
        rw (kept, done, write_chunk)
          (
            refl,
            refl,
            record {
              counted = omega (arith, v.counted, length-append bs (b ∷ []));
              measured = omega (arith, v.measured, total_size-append bs (b ∷ []));
            },
            Holds-put w c bs b v h,
          )
  ]
]

append-cases :
    (w : Writer) (b : Blob) (d : Device) (c : Cache)
    → w.active ≡ true
    → 0 < length b
    → (append w b d c ≡ (c, failed w))
      ⊎ ((since : ℕ) × (append w b d c ≡ write_chunk w since b d c))
unfolding append
append-cases w b d c on pos =
    let filled : (length b == 0) ≡ false = ground (arith, pos) in
    elim (Bool-cases (leb quota_check_interval w.bytes_since_quota_check)) [
      | inr soon ↦ inr (w.bytes_since_quota_check, simp (on, filled, soon))
      | inl due ↦ elim (Bool-cases (ensure_capacity d.estimate (length b))) [
        | inl room ↦ inr (0, simp (on, filled, due, room))
        | inr short ↦ inl (simp (on, filled, due, short))
      ]
    ]

-- What became of an append of a non-empty chunk by an active writer in step: it is at the end of what is
-- held and the writer is in step again, or the append threw and what was held is still held,
-- whichever write or check failed.
pub append-After :
    (w : Writer) (b : Blob) (d : Device) (c : Cache) (bs : List Blob)
    → w.active ≡ true
    → 0 < length b
    → InStep w bs
    → Holds c w.book bs
    → After (append w b d c) w bs b
append-After w b d c bs on pos v h = elim (append-cases w b d c on pos) [
  | inl e ↦ rw e h
  | inr (since, e) ↦ rw e (write_chunk-After w since b d c bs v h)
]

-- Appends in order until one throws, as `downloadBookFile` makes them.
unfoldable pub append_all : Writer → List (Blob × Device) → Cache → Cache
append_all w [] c = c
append_all w ((b, d) ∷ more) c = elim (append w b d c).1 [
  | appended w' ↦ append_all w' more (append w b d c).0
  | failed w' ↦ (append w b d c).0
]

abbrev pub blobs : List (Blob × Device) → List Blob
blobs [] = []
blobs ((b, d) ∷ more) = b ∷ blobs more

Append-cases : (r : Append) → ((w : Writer) × (r ≡ appended w)) ⊎ ((w : Writer) × (r ≡ failed w))
Append-cases (appended w) = inl (w, refl)
Append-cases (failed w) = inr (w, refl)

append_all-appended :
    (w w' : Writer) (b : Blob) (d : Device) (more : List (Blob × Device)) (c : Cache)
    → (append w b d c).1 ≡ appended w'
    → append_all w ((b, d) ∷ more) c ≡ append_all w' more (append w b d c).0
unfolding append_all
append_all-appended w w' b d more c e = rw (e, append_all)

append_all-failed :
    (w w' : Writer) (b : Blob) (d : Device) (more : List (Blob × Device)) (c : Cache)
    → (append w b d c).1 ≡ failed w'
    → append_all w ((b, d) ∷ more) c ≡ (append w b d c).0
unfolding append_all
append_all-failed w w' b d more c e = rw (e, append_all)

-- Whichever writes fail, what is held after appends of non-empty chunks by an active writer in step
-- is what was held followed
-- by the first chunks that were given, none missing in between.
pub append_all-Holds :
    (w : Writer) (more : List (Blob × Device)) (c : Cache) (bs : List Blob)
    → w.active ≡ true
    → All (λ b. 0 < length b) (blobs more)
    → InStep w bs
    → Holds c w.book bs
    → (n : ℕ) × Holds (append_all w more c) w.book (bs ++ take n (blobs more))
unfolding append_all
append_all-Holds w [] c bs on pos v h = (0, rw append-nil h)
append_all-Holds w ((b, d) ∷ more) c bs on pos v h =
    let after = append-After w b d c bs on pos.0 v h in
    let c' : Cache = (append w b d c).0 in
    elim (Append-cases (append w b d c).1) [
      | inl (w', e) ↦
          let (same, on', v', h') = rw e at after in
          let h'' : Holds c' w'.book (bs ++ b ∷ []) =
            subst (λ k. Holds c' k (bs ++ b ∷ [])) (sym same) h' in
          let (n, held) = append_all-Holds w' more c' (bs ++ b ∷ []) (on' ∙ on) pos.1 v' h'' in
          (
            suc n,
            subst (λ x. Holds x w.book (bs ++ b ∷ take n (blobs more)))
                (sym (append_all-appended w w' b d more c e))
                (subst (λ k. Holds (append_all w' more c') k (bs ++ b ∷ take n (blobs more))) same
                  (subst (λ l. Holds (append_all w' more c') w'.book l)
                    (append_assoc bs (b ∷ []) (take n (blobs more))) held)),
          )
      | inr (w', e) ↦ (
        0,
        subst (λ x. Holds x w.book (bs ++ [])) (sym (append_all-failed w w' b d more c e))
            (rw append-nil (rw e at after)),
      )
    ]
