-- ===== src/Shelf/Tests.antt =====
-- The shelf's theorems at a first page of two books, and at three files, one of them empty.
use z_reader.Shelf.Uploads
use z_reader.Shelf.Uploads.{
  Uploads, max_concurrent_uploads, upload_files, end_upload, uploadable_files, count,
}
use z_reader.Shelf.Uploads.Complete.{uploads_complete}
use z_reader.Prelude.{◌≡◌, ℕ, List, ◌+◌, ◌≤◌, ◌<◌, length, refl, true, false, some, [], ◌∷◌}
use z_reader.Shelf.Loading.{Page, ShelfData, load_books, after_answer}
use z_reader.Shelf.Loading.Requests.{Are, now_asked}
use z_reader.Shelf.Loading.Events.{initial, Reach, start, next, fires_load, answers}
use z_reader.Shelf.Loading.Events.Current.{shown_for, shelf_is_current}

abbrev page : Page
page = record { ids = "a" ∷ "b" ∷ []; next_cursor = some 2 }

abbrev asked : ShelfData
asked = record (load_books 5 (initial true 5)).0 { load_timer = false }

abbrev loaded : ShelfData
loaded = after_answer (load_books 5 (initial true 5)).1 (some page) asked

loaded-Reach : Reach (record { data_ = loaded; pending = [] })
unfolding initial
loaded-Reach =
    next (next (start true 5) (fires_load refl))
      (answers [] (load_books 5 (initial true 5)).1 [] (some page) refl)

shelf_is_current_example : Are (now_asked loaded) (shown_for loaded.text loaded)
unfolding initial after_answer load_books
shelf_is_current_example = shelf_is_current loaded-Reach refl refl refl refl

abbrev sizes : List ℕ
sizes = 5 ∷ 0 ∷ 7 ∷ []

abbrev sent : Uploads
sent = end_upload 1 false (end_upload 0 true (upload_files sizes))

uploads_complete_example :
    (length sent.uploading ≤ max_concurrent_uploads)
    × ((i : ℕ) → count i sent.uploaded + count i sent.uploading ≤ 1)
    × (sent.uploading ≡ []
        → (sent.success_count + sent.failed_count ≡ length (uploadable_files sizes))
          × ((i : ℕ) → i < length (uploadable_files sizes) → count i sent.uploaded ≡ 1))
unfolding upload_files end_upload
uploads_complete_example =
    uploads_complete sizes sent (Uploads.next (Uploads.next Uploads.start 0 true refl) 1 false refl)
