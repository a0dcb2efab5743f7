-- ===== src/Offline/Download/Reads.antt =====
-- The read loop of `downloadBookFile` (frontend/src/lib/book-download.ts): its batches against the
-- bytes that were read.
use z_reader.Prelude.{
  ◌≤◌, ◌<◌, ◌≡◌, refl, sym, ◌∙◌, Bool, true, false, none, some, List, [], ◌∷◌, ◌++◌, if◌then◌else◌,
  leb, leb→le, ◌==◌, length, arith, Bool-cases, inl, inr, append-nil, append_assoc, All, All-append,
  All-map,
}
use z_reader.Offline.Store.{Blob}
use z_reader.Offline.Download.{
  Read, value, done, broken, Body, at_once, stream, read_loop, read_body, flushed, concat,
  batch_bytes,
}

-- The bytes of the values before the end or the first rejection.
abbrev pub received : List Read → Blob
received [] = []
received (broken ∷ reads) = []
received (done ∷ reads) = []
received (value b ∷ reads) = b ++ received reads

-- Whether the end is read before any rejection.
abbrev pub ends : List Read → Bool
ends [] = false
ends (broken ∷ reads) = false
ends (done ∷ reads) = true
ends (value b ∷ reads) = ends reads

pub concat-append : (xs ys : List Blob) → concat (xs ++ ys) ≡ concat xs ++ concat ys
unfolding concat
concat-append [] ys = refl
concat-append (x ∷ xs) ys = rw (concat-append xs ys) (sym (append_assoc x (concat xs) (concat ys)))

concat-flushed :
    (batches : List Blob) (pending : Blob)
    → concat (flushed batches pending) ≡ concat batches ++ pending
unfolding concat
concat-flushed batches [] = sym (append-nil (concat batches))
concat-flushed batches (b ∷ bs) =
    ground (arith, concat-append batches ((b ∷ bs) ∷ []), append-nil (b ∷ bs))

-- The batches with what is pending, as `read_body` puts them together.
abbrev loop_bytes : List Blob × Blob × Bool → Blob
loop_bytes r = concat r.0 ++ r.1

read_loop-received :
    (reads : List Read) (pending : Blob) (batches : List Blob)
    → (loop_bytes (read_loop reads pending batches) ≡ (concat batches ++ pending) ++ received reads)
      × ((read_loop reads pending batches).2 ≡ ends reads)
unfolding read_loop concat
read_loop-received [] pending batches = (sym (append-nil _), refl)
read_loop-received (broken ∷ reads) pending batches = (sym (append-nil _), refl)
read_loop-received (done ∷ reads) pending batches = (sym (append-nil _), refl)
read_loop-received (value b ∷ reads) pending batches =
    elim (Bool-cases (leb batch_bytes (length (pending ++ b)))) [
      | inl full ↦
          let (bytes, end) = read_loop-received reads [] (batches ++ (pending ++ b) ∷ []) in
          (
            rw (full, read_loop) (bytes ∙ simp (concat-append, append-nil, append_assoc)),
            rw (full, read_loop) end,
          )
      | inr short ↦
          let (bytes, end) = read_loop-received reads (pending ++ b) batches in
          (rw (short, read_loop) (bytes ∙ simp append_assoc), rw (short, read_loop) end)
    ]

read_loop-full :
    (reads : List Read) (pending : Blob) (batches : List Blob)
    → All (λ b. batch_bytes ≤ length b) batches
    → All (λ b. batch_bytes ≤ length b) (read_loop reads pending batches).0
unfolding read_loop
read_loop-full [] pending batches h = h
read_loop-full (broken ∷ reads) pending batches h = h
read_loop-full (done ∷ reads) pending batches h = h
read_loop-full (value b ∷ reads) pending batches h =
    elim (Bool-cases (leb batch_bytes (length (pending ++ b)))) [
      | inl full ↦
          rw (full, read_loop)
            (read_loop-full reads [] (batches ++ (pending ++ b) ∷ [])
              (All-append _ batches ((pending ++ b) ∷ []) h (leb→le batch_bytes _ full, tt)))
      | inr short ↦ rw (short, read_loop) (read_loop-full reads (pending ++ b) batches h)
    ]

-- What the body delivers: its bytes up to the end or the failure, and whether it ended.
abbrev pub body_bytes : Body → Blob
body_bytes (at_once none) = []
body_bytes (at_once (some b)) = b
body_bytes (stream reads) = received reads

-- The batches that are stored are together the bytes that were read, in order.
pub read_body-bytes : (body : Body) → concat (read_body body).0 ≡ body_bytes body
unfolding read_body concat
read_body-bytes (at_once none) = refl
read_body-bytes (at_once (some [])) = refl
read_body-bytes (at_once (some (x ∷ b))) = ground (arith, append-nil (x ∷ b))
read_body-bytes (stream reads) =
    concat-flushed (read_loop reads [] []).0 (read_loop reads [] []).1
    ∙ (read_loop-received reads [] []).0

flushed-nonempty :
    (batches : List Blob) (pending : Blob)
    → All (λ b. batch_bytes ≤ length b) batches
    → All (λ b. 0 < length b) (flushed batches pending)
flushed-nonempty batches pending h =
    let filled =
      All-map (λ (b : Blob). batch_bytes ≤ length b) (λ b. 0 < length b) batches
        (λ b p. omega arith) h in
    elim (Bool-cases (length pending == 0)) [
      | inl empty ↦ rw empty filled
      | inr some_left ↦
          rw some_left (All-append _ batches (pending ∷ []) filled (ground (arith, some_left), tt))
    ]

-- No stored batch is empty.
pub read_body-nonempty : (body : Body) → All (λ b. 0 < length b) (read_body body).0
unfolding read_body
read_body-nonempty (at_once none) = tt
read_body-nonempty (at_once (some [])) = tt
read_body-nonempty (at_once (some (x ∷ b))) = ground arith
read_body-nonempty (stream reads) =
    flushed-nonempty (read_loop reads [] []).0 (read_loop reads [] []).1
      (read_loop-full reads [] [] tt)

abbrev pub body_ends : Body → Bool
body_ends (at_once none) = false
body_ends (at_once (some b)) = if length b == 0 then false else true
body_ends (stream reads) = ends reads

pub read_body-ends : (body : Body) → (read_body body).1 ≡ body_ends body
unfolding read_body
read_body-ends (at_once none) = refl
read_body-ends (at_once (some b)) = ground arith
read_body-ends (stream reads) = (read_loop-received reads [] []).1
