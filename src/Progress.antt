-- ===== src/Progress.antt =====
-- `useProgress` of frontend/src/hooks/useProgress.ts: the reading position of a book, its saves to
-- the server and what is kept on the device while there is no connection. Percentages are whole
-- hundredths of a percent, times are what `Date.parse` gives; the answers of the server are
-- arguments. A handler is cut at its `await`: one function up to it, one from it on.
pub mod Saving
pub mod Sync
pub mod Loading
mod Tests
use z_reader.Prelude.{
  ℕ, ◌+◌, ◌-◌, ◌≤◌, String, str_eq, Bool, true, false, not, ◌&&◌, ◌||◌, Option, none, some, List,
  [], ◌∷◌, ◌++◌, if◌then◌else◌, ltb, leb, ◌==◌, is_some, any,
}

-- `ProgressSnapshot`; a missing `updated_at` or `device_id` is `none`.
pub record Snapshot : Type 0 where
  pub cfi : String
  pub percentage : ℕ
  pub updated_at : Option ℕ
  pub device_id : Option String
  pub remote : Bool

pub record Position : Type 0 where
  pub cfi : String
  pub percentage : ℕ

-- What `localStorage` keeps: the snapshot of each book, and the books to synchronise (`none` if
-- the key is missing).
pub record Storage : Type 0 where
  pub offline : String → Option Snapshot
  pub queue : Option (List String)

abbrev pub put_offline : String → Option Snapshot → Storage → Storage
put_offline book v st = record st { offline = λ b. if str_eq b book then v else st.offline b }

pub record Reader : Type 0 where
  pub book_id : String
  pub device_id : String
  pub progress : Option Snapshot
  pub is_loading : Bool
  pub last_saved : Option Snapshot
  pub pending_save : Option Position
  pub saving : Bool
  pub storage : Storage

abbrev pub updated_at_of : Option Snapshot → Option ℕ
updated_at_of none = none
updated_at_of (some s) = s.updated_at

-- `applyLoadedProgress`
unfoldable pub apply_loaded_progress : Snapshot → Reader → Reader
apply_loaded_progress data_ r =
    if str_eq data_.cfi ""
    then r
    else let s = record data_ { remote = true } in
      record r { progress = some s; last_saved = some s }

abbrev pub one_percent : ℕ
one_percent = 100

-- `Math.abs(a - b)`
abbrev pub distance : ℕ → ℕ → ℕ
distance a b = if leb a b then b - a else a - b

unfoldable pub has_meaningful_change : Position → Reader → Bool
has_meaningful_change p r = elim r.last_saved [
  | none ↦ true
  | some s ↦ not (str_eq p.cfi s.cfi) || leb one_percent (distance p.percentage s.percentage)
]

-- The arguments of `api.saveProgress`.
pub record SaveRequest : Type 0 where
  pub book_id : String
  pub position : Position
  pub expected_updated_at : Option ℕ
  pub device_id : String

-- `saveProgress` up to its `await`: nothing, or the request in flight.
unfoldable pub begin_save : Position → Bool → Reader → Reader × Option SaveRequest
unfolding has_meaningful_change
begin_save p force r =
    if not force && (r.saving || not (has_meaningful_change p r)) then (r, none) else (
      record r { saving = true },
      some (record {
        book_id = r.book_id;
        position = p;
        expected_updated_at = updated_at_of r.last_saved;
        device_id = r.device_id;
      }),
    )

-- What becomes of the request: the server's copy, a conflict with what the server then says
-- (`none` if that request fails), another error of the server, or no connection.
pub data SaveAnswer : Type 0 where
  saved : Snapshot → SaveAnswer
  conflict : Option Snapshot → SaveAnswer
  api_error : SaveAnswer
  unreachable : SaveAnswer

-- `pendingSaveRef.current = null` if it is still what was sent
unfoldable pub settle_pending : Position → Option Position → Option Position
settle_pending p none = none
settle_pending p (some q) =
    if str_eq q.cfi p.cfi && (q.percentage == p.percentage) then none else some q

unfoldable pub enqueue : String → Option (List String) → Option (List String)
enqueue book none = some (book ∷ [])
enqueue book (some q) = if any (λ b. str_eq b book) q then some q else some (q ++ book ∷ [])

-- What `localStorage` does at the calls of `saveProgress`: whether it takes the snapshot, whether
-- the queue can be read, and whether it takes the queue.
pub record Device : Type 0 where
  pub takes_snapshot : Bool
  pub reads_queue : Bool
  pub takes_queue : Bool

-- The inner `try`, whose errors are ignored.
unfoldable pub enqueue_on : Device → String → Option (List String) → Option (List String)
unfolding enqueue
enqueue_on d book q = if d.reads_queue && d.takes_queue then enqueue book q else q

-- `saveProgress` from its `await` on; `now` is the time of the device. A snapshot that is not taken
-- is an exception of the `catch` itself: only the `finally` still runs.
unfoldable pub end_save : Device → Position → SaveAnswer → ℕ → Reader → Reader
unfolding settle_pending enqueue_on apply_loaded_progress
end_save d p (saved s) now r =
    let s' = record s { remote = false } in
    record r {
      last_saved = some s';
      progress = some s';
      pending_save = settle_pending p r.pending_save;
      saving = false;
    }
end_save d p (conflict none) now r = record r { saving = false }
end_save d p (conflict (some s)) now r = record (apply_loaded_progress s r) {
  pending_save = none;
  saving = false;
}
end_save d p api_error now r = record r { saving = false }
end_save d p unreachable now r =
    let s : Snapshot = record {
      cfi = p.cfi;
      percentage = p.percentage;
      updated_at = some now;
      device_id = some (if str_eq r.device_id "" then "offline-device" else r.device_id);
      remote = false;
    } in
    if not d.takes_snapshot then record r { saving = false } else record r {
      last_saved = some s;
      progress = some s;
      pending_save = settle_pending p r.pending_save;
      saving = false;
      storage = record (put_offline r.book_id (some s) r.storage) {
        queue = enqueue_on d r.book_id r.storage.queue;
      };
    }

unfoldable pub update_progress : String → ℕ → Reader → Reader
update_progress cfi percentage r = record r {
  progress = some (record {
    cfi = cfi;
    percentage = percentage;
    updated_at = none;
    device_id = none;
    remote = false;
  });
  pending_save = some (record { cfi = cfi; percentage = percentage });
}

-- `saveNow`, and the handler of a page that is hidden
unfoldable pub save_now : Reader → Reader × Option SaveRequest
unfolding begin_save
save_now r = elim r.pending_save [ none ↦ (r, none) | some p ↦ begin_save p true r ]

-- What the timer of `debouncedSave` does when it goes off.
unfoldable pub debounced_save : Position → Reader → Reader × Option SaveRequest
unfolding begin_save
debounced_save p r = begin_save p false r

-- The interval, with the debounced save that it sets off and no change meanwhile.
unfoldable pub autosave : Reader → Reader × Option SaveRequest
unfolding debounced_save
autosave r = elim r.pending_save [
  | none ↦ (r, none)
  | some p ↦ if r.saving then (r, none) else debounced_save p r
]

-- `handleBeforeUnload`: the request that is sent with the page gone.
unfoldable pub before_unload : Reader → Option SaveRequest
unfolding has_meaningful_change
before_unload r = elim r.pending_save [
  | none ↦ none
  | some p ↦
      if has_meaningful_change p r
      then some (record {
        book_id = r.book_id;
        position = p;
        expected_updated_at = updated_at_of r.last_saved;
        device_id = r.device_id;
      })
      else none
]
