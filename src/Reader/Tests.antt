-- ===== src/Reader/Tests.antt =====
-- Bookmarks on concrete events.
use z_reader.Prelude.{refl, false, some, []}
use z_reader.Reader.Bookmarks.{
  Bookmark, Bookmarks, AreDistinct, begin_create, end_create, start, next, begins, creates,
  bookmarks_distinct,
}

abbrev made : Bookmark
made = record { id = "m1"; cfi = "p1" }

abbrev at_start : Bookmarks
at_start = record { bookmarks = []; is_saving = false; saving_cfi = "" }

bookmarks_distinct_example :
    AreDistinct (begin_create "p1" (end_create (some made) (begin_create "p1" at_start))).bookmarks
unfolding begin_create
bookmarks_distinct_example =
    bookmarks_distinct
      (next (next (next start (begins "p1")) (creates made refl refl)) (begins "p1"))
