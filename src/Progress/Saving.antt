-- ===== src/Progress/Saving.antt =====
-- When a save is sent, and what each answer leaves behind.
use z_reader.Prelude.{
  ℕ, ◌≡◌, ◌≢◌, ◌⊎◌, inl, inr, ◌↔◌, refl, ap, String, str_eq, eq_iff, Bool, true, false, ◌&&◌, ◌||◌,
  Option, none, some, List, [], ◌∷◌, ◌++◌, if◌then◌else◌, is_some, any, arith, Bool-cases,
}
use z_reader.Progress.{
  Snapshot, Position, Reader, Device, enqueue_on, SaveAnswer, saved, conflict, api_error,
  unreachable, begin_save, end_save, has_meaningful_change, settle_pending, enqueue,
}

abbrev pub queued : String → Option (List String) → Bool
queued book none = false
queued book (some q) = any (λ b. str_eq b book) q

-- No book stands twice.
abbrev pub IsDistinct : List String → Type 0
IsDistinct [] = Unit
IsDistinct (b ∷ bs) = (any (λ c. str_eq c b) bs ≡ false) × IsDistinct bs

any-snoc :
    (b c : String) (bs : List String)
    → any (λ d. str_eq d b) (bs ++ c ∷ []) ≡ (any (λ d. str_eq d b) bs || str_eq c b)
any-snoc b c [] = ground arith
any-snoc b c (d ∷ bs) = ground (arith, any-snoc b c bs)

snoc-IsDistinct :
    (c : String) (bs : List String)
    → any (λ d. str_eq d c) bs ≡ false
    → IsDistinct bs
    → IsDistinct (bs ++ c ∷ [])
snoc-IsDistinct c [] h u = (refl, tt)
snoc-IsDistinct c (b ∷ bs) h u =
    ground (arith, any-snoc b c bs, eq_iff b c, eq_iff c b, snoc-IsDistinct c bs)

-- The queue gains the book, keeps every other, and stays without repetition.
pub queued-enqueue :
    (book other : String) (q : Option (List String))
    → queued other (enqueue book q) ≡ (queued other q || str_eq book other)
unfolding enqueue
queued-enqueue book other none = ground arith
queued-enqueue book other (some q) = elim (Bool-cases (any (λ b. str_eq b book) q)) [
  | inr absent ↦ rw (absent, enqueue) (any-snoc other book q)
  | inl there ↦ elim (Bool-cases (str_eq book other)) [
    | inl same ↦
        let e : book ≡ other = (eq_iff book other).0 same in
        ground (arith, there, same, ap (λ b. any (λ c. str_eq c b) q) e)
    | inr differs ↦ ground (arith, there, differs)
  ]
]

enqueue-IsDistinct :
    (book : String) (q : List String)
    → IsDistinct q
    → (q' : List String) × (enqueue book (some q) ≡ some q') × IsDistinct q'
unfolding enqueue
enqueue-IsDistinct book q u = elim (Bool-cases (any (λ b. str_eq b book) q)) [
  | inl there ↦ (q, rw there, u)
  | inr absent ↦ (q ++ book ∷ [], rw absent, snoc-IsDistinct book q absent u)
]

-- A save that is not forced is sent exactly if none is in flight and the position changed: another
-- CFI, or one percent or more. What is sent names the time of the copy that was saved last.
pub begin_save_iff :
    (p : Position) (r : Reader)
    → (is_some (begin_save p false r).1 ≡ true)
      ↔ ((r.saving ≡ false) × (has_meaningful_change p r ≡ true))
unfolding begin_save
begin_save_iff p r = ground arith

-- A position that the reader moved to while another was being saved is still pending afterwards,
-- whatever the answer and whatever the storage of the device refuses, unless the server answered
-- with a conflict and its own newer copy.
pub end_save_keeps_newer :
    (d : Device) (p q : Position) (answer : SaveAnswer) (now : ℕ) (r : Reader)
    → r.pending_save ≡ some q
    → (q.cfi ≢ p.cfi) ⊎ (q.percentage ≢ p.percentage)
    → ((s : Snapshot) → answer ≢ conflict (some s))
    → (end_save d p answer now r).pending_save ≡ some q
unfolding end_save settle_pending
end_save_keeps_newer d p q (saved s) now r h e n = ground (arith, eq_iff q.cfi p.cfi)
end_save_keeps_newer d p q (conflict none) now r h e n = h
end_save_keeps_newer d p q (conflict (some s)) now r h e n = absurd (n s refl)
end_save_keeps_newer d p q api_error now r h e n = h
end_save_keeps_newer d p q unreachable now r h e n = ground (arith, eq_iff q.cfi p.cfi)

queued-enqueue_on :
    (d : Device) (book other : String) (q : Option (List String))
    → queued other (enqueue_on d book q)
      ≡ (queued other q || (str_eq book other && d.reads_queue && d.takes_queue))
unfolding enqueue_on
queued-enqueue_on d book other q = ground (arith, queued-enqueue book other q)

-- With the server out of reach: if the storage of the device takes the snapshot, the position is
-- kept under its book, and otherwise what was kept there and the pending position stay. The book
-- waits for synchronisation if it did before, or if the snapshot was taken and the queue could be
-- read and written. The entries of every other book are as they were.
pub end_save_unreachable :
    (d : Device) (p : Position) (now : ℕ) (other : String) (r : Reader)
    → other ≢ r.book_id
    → ((s : Snapshot) × ((end_save d p unreachable now r).storage.offline r.book_id
          ≡ (if d.takes_snapshot then some s else r.storage.offline r.book_id))
        × (s.cfi ≡ p.cfi)
        × (s.percentage ≡ p.percentage)
        × (s.updated_at ≡ some now))
      × ((end_save d p unreachable now r).pending_save
          ≡ (if d.takes_snapshot then settle_pending p r.pending_save else r.pending_save))
      × (queued r.book_id (end_save d p unreachable now r).storage.queue ≡ (
          queued r.book_id r.storage.queue || (d.takes_snapshot && d.reads_queue && d.takes_queue)))
      × ((end_save d p unreachable now r).storage.offline other ≡ r.storage.offline other)
      × (queued other (end_save d p unreachable now r).storage.queue ≡ queued other r.storage.queue)
unfolding end_save
end_save_unreachable d p now other r h = (
  (
    record {
      cfi = p.cfi;
      percentage = p.percentage;
      updated_at = some now;
      device_id = some (if str_eq r.device_id "" then "offline-device" else r.device_id);
      remote = false;
    },
    ground (arith, eq_iff r.book_id r.book_id),
    refl,
    refl,
    refl,
  ),
  ground arith,
  ground
      (arith, queued-enqueue_on d r.book_id r.book_id r.storage.queue, eq_iff r.book_id r.book_id),
  ground (arith, eq_iff other r.book_id, h),
  ground (arith, queued-enqueue_on d r.book_id other r.storage.queue, eq_iff r.book_id other, h),
)

-- Every answer ends the request, so that the next position can be saved.
pub end_save_frees :
    (d : Device) (p : Position) (answer : SaveAnswer) (now : ℕ) (r : Reader)
    → (end_save d p answer now r).saving ≡ false
unfolding end_save
end_save_frees d p (saved s) now r = refl
end_save_frees d p (conflict none) now r = refl
end_save_frees d p (conflict (some s)) now r = refl
end_save_frees d p api_error now r = refl
end_save_frees d p unreachable now r = ground arith
