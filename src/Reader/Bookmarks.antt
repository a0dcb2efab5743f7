-- ===== src/Reader/Bookmarks.antt =====
-- frontend/src/hooks/useReaderBookmarks.ts: the list of bookmarks of a book, with the answers of the
-- server as arguments. A bookmark has an id and a place; what else it has is left out.
use z_reader.Prelude.{
  String, str_eq, eq_iff, ◌≡◌, refl, Bool, true, false, not, ◌||◌, Option, none, some, List, [],
  ◌∷◌, ◌++◌, if◌then◌else◌, filter, any, arith, Bool-cases, inl, inr,
}

pub record Bookmark : Type 0 where
  pub id : String
  pub cfi : String

pub record Bookmarks : Type 0 where
  pub bookmarks : List Bookmark
  pub is_saving : Bool
  -- the place of the request in flight
  pub saving_cfi : String

abbrev pub has_cfi : String → List Bookmark → Bool
has_cfi cfi bs = any (λ (b : Bookmark). str_eq b.cfi cfi) bs

-- `loadBookmarks` with the answer of `api.listBookmarks`, `none` if it fails.
unfoldable pub load_bookmarks : Option (List Bookmark) → Bookmarks → Bookmarks
load_bookmarks none s = s
load_bookmarks (some items) s = record s { bookmarks = items }

-- `handleCreateBookmark` up to its `await`.
unfoldable pub begin_create : String → Bookmarks → Bookmarks
begin_create current_cfi s =
    if str_eq current_cfi "" || s.is_saving
    then s
    else if has_cfi current_cfi s.bookmarks
    then s
    else record s { is_saving = true; saving_cfi = current_cfi }

-- `handleCreateBookmark` from its `await` on, with the bookmark that the server made.
unfoldable pub end_create : Option Bookmark → Bookmarks → Bookmarks
end_create none s = record s { is_saving = false }
end_create (some b) s = record s { bookmarks = s.bookmarks ++ b ∷ []; is_saving = false }

-- `handleDeleteBookmark` up to its `await`; after it only a failure loads the list again.
unfoldable pub begin_delete : String → Bookmarks → Bookmarks
begin_delete bookmark_id s = record s {
  bookmarks = filter (λ (b : Bookmark). not (str_eq b.id bookmark_id)) s.bookmarks;
}

abbrev pub AreDistinct : List Bookmark → Type 0
AreDistinct [] = Unit
AreDistinct (b ∷ bs) = (has_cfi b.cfi bs ≡ false) × AreDistinct bs

-- What can happen. The server answers a creation with a bookmark at the place that was sent, and a
-- list with distinct places; no list arrives while a creation is in flight.
pub data Event (s : Bookmarks) : Bookmarks → Type 0 where
  begins : (cfi : String) → Event s (begin_create cfi s)
  creates :
      (b : Bookmark) → s.is_saving ≡ true → b.cfi ≡ s.saving_cfi → Event s (end_create (some b) s)
  fails : Event s (end_create none s)
  deletes : (id : String) → Event s (begin_delete id s)
  loads :
      (items : List Bookmark)
      → s.is_saving ≡ false
      → AreDistinct items
      → Event s (load_bookmarks (some items) s)

pub data Reach : Bookmarks → Type 0 where
  start : Reach (record { bookmarks = []; is_saving = false; saving_cfi = "" })
  next : {s t : Bookmarks} → Reach s → Event s t → Reach t

record IsValid (s : Bookmarks) : Type 0 where
  distinct : AreDistinct s.bookmarks
  absent : s.is_saving ≡ true → has_cfi s.saving_cfi s.bookmarks ≡ false

has_cfi-snoc :
    (cfi : String) (bs : List Bookmark) (b : Bookmark)
    → has_cfi cfi (bs ++ b ∷ []) ≡ (has_cfi cfi bs || str_eq b.cfi cfi)
has_cfi-snoc cfi [] b = ground arith
has_cfi-snoc cfi (x ∷ bs) b = ground (arith, has_cfi-snoc cfi bs b)

AreDistinct-snoc :
    (bs : List Bookmark) (b : Bookmark)
    → AreDistinct bs
    → has_cfi b.cfi bs ≡ false
    → AreDistinct (bs ++ b ∷ [])
AreDistinct-snoc [] b d h = (refl, tt)
AreDistinct-snoc (x ∷ bs) b d h = ground (
  arith,
  has_cfi-snoc x.cfi bs b,
  eq_iff x.cfi b.cfi,
  eq_iff b.cfi x.cfi,
  AreDistinct-snoc bs b d.1,
)

has_cfi-filter :
    (cfi : String) (p : Bookmark → Bool) (bs : List Bookmark)
    → has_cfi cfi bs ≡ false
    → has_cfi cfi (filter p bs) ≡ false
has_cfi-filter cfi p [] h = refl
has_cfi-filter cfi p (b ∷ bs) h = ground (arith, has_cfi-filter cfi p bs)

AreDistinct-filter :
    (p : Bookmark → Bool) (bs : List Bookmark) → AreDistinct bs → AreDistinct (filter p bs)
AreDistinct-filter p [] d = tt
AreDistinct-filter p (b ∷ bs) d =
    ground (arith, has_cfi-filter b.cfi p bs, AreDistinct-filter p bs d.1)

begin_create-IsValid : (cfi : String) (s : Bookmarks) → IsValid s → IsValid (begin_create cfi s)
unfolding begin_create
begin_create-IsValid cfi s v = elim (Bool-cases (str_eq cfi "" || s.is_saving)) [
  | inl busy ↦ rw (busy, begin_create) v
  | inr free ↦ elim (Bool-cases (has_cfi cfi s.bookmarks)) [
    | inl there ↦ rw (free, there, begin_create) v
    | inr absent ↦
        rw (free, absent, begin_create) (record { distinct = v.distinct; absent = λ h. absent })
  ]
]

Event-IsValid : {s t : Bookmarks} → Event s t → IsValid s → IsValid t
unfolding end_create begin_delete load_bookmarks
Event-IsValid {s = s} (begins cfi) v = begin_create-IsValid cfi s v
Event-IsValid {s = s} (creates b saving same) v = record {
  distinct = AreDistinct-snoc s.bookmarks b v.distinct (rw same (v.absent saving));
  absent = λ h. ground arith;
}
Event-IsValid fails v = record { distinct = v.distinct; absent = λ h. ground arith }
Event-IsValid {s = s} (deletes id) v = record {
  distinct = AreDistinct-filter _ s.bookmarks v.distinct;
  absent = λ h. has_cfi-filter s.saving_cfi _ s.bookmarks (v.absent h);
}
Event-IsValid {s = s} (loads items free d) v = record {
  distinct = d;
  absent = λ h. absurd (ground arith);
}

Bookmarks-IsValid : {s : Bookmarks} → Reach s → IsValid s
Bookmarks-IsValid start = record { distinct = tt; absent = λ h. refl }
Bookmarks-IsValid (next before e) = Event-IsValid e (Bookmarks-IsValid before)

-- However creations, failures, deletions and loads follow each other, no place has two bookmarks.
-- This is for a server that answers a creation with the place that was sent and lists distinct
-- places, and without a list that arrives while a creation is in flight.
pub bookmarks_distinct : {s : Bookmarks} → Reach s → AreDistinct s.bookmarks
bookmarks_distinct r = IsValid.distinct (Bookmarks-IsValid r)
