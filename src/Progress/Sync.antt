-- ===== src/Progress/Sync.antt =====
-- `syncOfflineProgressQueue` of frontend/src/hooks/useProgress.ts. The function reads the queue,
-- sends the snapshot of each book, awaiting each answer, and at the end writes what is left of its
-- copy of the queue.
pub mod Losses
use z_reader.Prelude.{
  ℕ, String, str_eq, Bool, true, false, Option, none, some, List, [], ◌∷◌, if◌then◌else◌,
}
use z_reader.Progress.{Snapshot, Storage, put_offline}

-- The answer to `api.saveProgress`: success, an `ApiError`, or no connection.
pub data SyncAnswer : Type 0 where
  accepted : SyncAnswer
  rejected : SyncAnswer
  no_connection : SyncAnswer

-- `localStorage.removeItem` of the snapshot of the book
abbrev pub forget : String → Storage → Storage
forget id st = put_offline id none st

-- `nextQueue.splice(nextQueue.indexOf(id), 1)`, if it is there
unfoldable pub splice : String → List String → List String
splice id [] = []
splice id (b ∷ bs) = if str_eq b id then bs else b ∷ splice id bs

-- The `for` loop over the books of the queue. `meanwhile` is what other handlers do to the storage
-- while the request for the first of these books is awaited.
unfoldable pub sync_loop :
    (String → Snapshot → SyncAnswer)
    → (List String → Storage → Storage)
    → List String
    → Storage
    → List String
    → Storage × List String
unfolding splice
sync_loop server meanwhile [] st next = (st, next)
sync_loop server meanwhile (id ∷ ids) st next = elim (st.offline id) [
  | none ↦ sync_loop server meanwhile ids st (splice id next)
  | some s ↦ elim (server id s) [
    | accepted ↦
        sync_loop server meanwhile ids (forget id (meanwhile (id ∷ ids) st)) (splice id next)
    | rejected ↦
        sync_loop server meanwhile ids (forget id (meanwhile (id ∷ ids) st)) (splice id next)
    | no_connection ↦ (meanwhile (id ∷ ids) st, next)
  ]
]

-- The last statement: the queue of the storage, as it then is, is replaced.
abbrev pub write_queue : List String → Storage → Storage
write_queue next st = record st { queue = some next }

-- The whole function, on a storage that can be read and written.
unfoldable pub sync_offline_progress_queue :
    (String → Snapshot → SyncAnswer) → (List String → Storage → Storage) → Storage → Storage
unfolding sync_loop
sync_offline_progress_queue server meanwhile st = elim st.queue [
  | none ↦ st
  | some [] ↦ st
  | some (id ∷ ids) ↦
      let (after, next) = sync_loop server meanwhile (id ∷ ids) st (id ∷ ids) in
      write_queue next after
]
