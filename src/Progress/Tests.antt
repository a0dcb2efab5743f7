-- ===== src/Progress/Tests.antt =====
-- The reading position on concrete answers.
use z_reader.Prelude.{
  ℕ, ◌≡◌, ◌≢◌, inl, refl, String, str_eq, eq_iff, true, false, none, some, List, [], ◌∷◌,
  if◌then◌else◌, is_some, arith,
}
use z_reader.Progress.{
  Snapshot, Position, Storage, Reader, Device, put_offline, settle_pending, saved, unreachable,
  end_save,
}
use z_reader.Progress.Saving.{queued, end_save_keeps_newer, end_save_unreachable}
use z_reader.Progress.Sync.{
  SyncAnswer, accepted, no_connection, sync_loop, write_queue, sync_offline_progress_queue,
}
use z_reader.Progress.Sync.Losses.{
  LeavesAlone, sync_removes_answered, sync_still_queued, sync_all, sync_drops_enqueued,
}
use z_reader.Progress.Loading.{
  open_reader, reopen_unreachable, cfi_of, load_progress, load_progress_newest,
}

abbrev at_page : String → ℕ → Snapshot
at_page cfi time = record {
  cfi = cfi;
  percentage = 5000;
  updated_at = some time;
  device_id = some "tablet";
  remote = false;
}

abbrev storage : Storage
storage = record {
  offline = λ b. if str_eq b "b1" then some (at_page "p7" 20) else none;
  queue = some ("b1" ∷ []);
}

abbrev page_eight : Position
page_eight = record { cfi = "p8"; percentage = 5100 }

abbrev page_nine : Position
page_nine = record { cfi = "p9"; percentage = 5200 }

abbrev reader : Reader
reader = record {
  book_id = "b1";
  device_id = "phone";
  progress = none;
  is_loading = true;
  last_saved = some (at_page "p7" 20);
  pending_save = some page_nine;
  saving = false;
  storage = storage;
}

abbrev other_reader : Reader
other_reader = record reader { book_id = "b2" }

abbrev device : Device
device = record { takes_snapshot = true; reads_queue = true; takes_queue = true }

-- The queue cannot be written any more.
abbrev full_device : Device
full_device = record device { takes_queue = false }

end_save_keeps_newer_example :
    (end_save device page_eight (saved (at_page "p8" 30)) 30 reader).pending_save ≡ some page_nine
end_save_keeps_newer_example =
    end_save_keeps_newer device page_eight page_nine (saved (at_page "p8" 30)) 30 reader refl
      (inl (λ e. ground (arith, eq_iff "p9" "p8"))) (λ s e. ground arith)

end_save_unreachable_example :
    ((s : Snapshot) × ((end_save full_device page_nine unreachable 30 reader).storage.offline "b1"
        ≡ some s)
      × (s.cfi ≡ "p9")
      × (s.percentage ≡ 5200)
      × (s.updated_at ≡ some 30))
    × ((end_save full_device page_nine unreachable 30 reader).pending_save
        ≡ settle_pending page_nine (some page_nine))
    × (queued "b1" (end_save full_device page_nine unreachable 30 reader).storage.queue ≡ true)
    × ((end_save full_device page_nine unreachable 30 reader).storage.offline "b2" ≡ none)
    × (queued "b2" (end_save full_device page_nine unreachable 30 reader).storage.queue
        ≡ queued "b2" (some ("b1" ∷ [])))
end_save_unreachable_example =
    end_save_unreachable full_device page_nine 30 "b2" reader
      (λ e. ground (arith, eq_iff "b2" "b1"))

abbrev online : String → Snapshot → SyncAnswer
online id s = accepted

-- While the request for "b1" is awaited, the reader turns a page without a connection.
abbrev turns_page : List String → Storage → Storage
turns_page [] st = st
turns_page (id ∷ ids) st =
    if str_eq id "b1" then put_offline "b1" (some (at_page "p8" 40)) st else st

turns_page-LeavesAlone : LeavesAlone online turns_page "b1"
turns_page-LeavesAlone id ids st other = ground (arith, other)

turns_page_keeps :
    (ids : List String) (st : Storage)
    → is_some (st.offline "b1") ≡ true
    → is_some ((turns_page ids st).offline "b1") ≡ true
turns_page_keeps [] st h = h
turns_page_keeps (id ∷ ids) st h = ground (arith, h)

sync_removes_answered_example : online "b1" (at_page "p7" 20) ≢ no_connection
unfolding sync_offline_progress_queue sync_loop
sync_removes_answered_example =
    sync_removes_answered online turns_page "b1" (at_page "p7" 20) storage turns_page-LeavesAlone
      turns_page_keeps refl refl

abbrev offline : String → Snapshot → SyncAnswer
offline id s = no_connection

sync_still_queued_example :
    queued "b1" (sync_offline_progress_queue offline turns_page storage).queue ≡ true
unfolding sync_offline_progress_queue sync_loop
sync_still_queued_example =
    sync_still_queued offline turns_page "b1" storage turns_page-LeavesAlone refl refl

sync_all_example :
    ((sync_offline_progress_queue online turns_page storage).offline "b1" ≡ none)
    × (queued "b1" (sync_offline_progress_queue online turns_page storage).queue ≡ false)
sync_all_example =
    sync_all online turns_page "b1" ("b1" ∷ []) storage refl (refl, tt) turns_page-LeavesAlone refl
      (λ id s e. ground arith)

sync_drops_enqueued_example :
    (queued "b2" (end_save device page_nine unreachable 30 other_reader).storage.queue ≡ true)
    × (queued "b2"
          (write_queue
            (sync_loop online turns_page ("b1" ∷ []) storage ("b1" ∷ [])).1
            (end_save device page_nine unreachable 30 other_reader).storage).queue
        ≡ false)
    × (is_some (
          (write_queue
              (sync_loop online turns_page ("b1" ∷ []) storage ("b1" ∷ [])).1
              (end_save device page_nine unreachable 30 other_reader).storage).offline
            "b2")
        ≡ true)
sync_drops_enqueued_example =
    sync_drops_enqueued online turns_page ("b1" ∷ []) storage device page_nine 30 "b1" other_reader
      (λ e. ground (arith, eq_iff "b1" "b2")) refl refl refl refl

load_progress_newest_example :
    (cfi_of (load_progress (some (at_page "p3" 10)) reader).progress ≡ "p7")
    × (cfi_of (load_progress none reader).progress ≡ "p7")
    × ((load_progress (some (at_page "p3" 10)) reader).is_loading ≡ false)
    × ((load_progress none reader).is_loading ≡ false)
load_progress_newest_example =
    load_progress_newest (at_page "p3" 10) (at_page "p7" 20) reader refl
      (λ e. ground (arith, eq_iff "p3" "")) (λ e. ground (arith, eq_iff "p7" ""))

reopen_unreachable_example :
    (cfi_of
        (open_reader "b1" "phone"
          (end_save device page_nine unreachable 30 reader).storage).progress
      ≡ "p9")
    × ((open_reader "b1" "phone"
          (end_save device page_nine unreachable 30 reader).storage).is_loading
        ≡ false)
    × (cfi_of
          (load_progress none (
            open_reader "b1" "phone"
              (end_save device page_nine unreachable 30 reader).storage)).progress
        ≡ "p9")
reopen_unreachable_example =
    reopen_unreachable device page_nine 30 "phone" reader refl (λ e. ground (arith, eq_iff "p9" ""))
