-- ===== src/Progress/Loading.antt =====
-- `loadProgress` and `refreshRemoteProgress` of frontend/src/hooks/useProgress.ts: which copy of
-- the position wins.
use z_reader.Prelude.{
  ℕ, ◌<◌, ◌≡◌, ◌≢◌, inl, inr, refl, String, str_eq, eq_iff, Bool, true, false, not, ◌&&◌, Option,
  none, some, if◌then◌else◌, ltb, is_some, arith, Bool-cases, Option-cases,
}
use z_reader.Progress.{
  Snapshot, Storage, Reader, Device, apply_loaded_progress, updated_at_of, Position, end_save,
  unreachable,
}

-- `updated_at ? Date.parse(updated_at) : 0`
abbrev pub time_of : Option ℕ → ℕ
time_of none = 0
time_of (some t) = t

abbrev pub apply_cached : Option Snapshot → Reader → Reader
apply_cached none r = r
apply_cached (some s) r = apply_loaded_progress s r

-- The check for a newer copy on the device.
abbrev pub prefer_newer : Snapshot → Option Snapshot → Reader → Reader
prefer_newer s none r = r
prefer_newer s (some c) r =
    if ltb (time_of s.updated_at) (time_of c.updated_at) then apply_loaded_progress c r else r

-- `loadProgress` with the answer of `api.getProgress`, `none` if it fails.
unfoldable pub load_progress : Option Snapshot → Reader → Reader
unfolding apply_loaded_progress
load_progress none r = record (apply_cached (r.storage.offline r.book_id) r) { is_loading = false }
load_progress (some s) r =
    let r' = apply_loaded_progress s r in
    record (prefer_newer s (r'.storage.offline r'.book_id) r') { is_loading = false }

-- The guard and, with the answer of `api.getProgress`, the rest of `refreshRemoteProgress`.
unfoldable pub may_refresh : Reader → Bool
may_refresh r = is_some r.last_saved && (not r.saving && not (is_some r.pending_save))

abbrev pub same_device : Option String → String → Bool
same_device none d = false
same_device (some e) d = str_eq e d

unfoldable pub refresh_remote_progress : Option Snapshot → Reader → Reader
unfolding apply_loaded_progress
refresh_remote_progress none r = r
refresh_remote_progress (some s) r = elim s.updated_at [
  | none ↦ r
  | some t ↦
      if str_eq s.cfi ""
      then r
      else if ltb (time_of (updated_at_of r.last_saved)) t
          && not (same_device s.device_id r.device_id)
      then apply_loaded_progress s r
      else r
]

abbrev pub cfi_of : Option Snapshot → String
cfi_of none = ""
cfi_of (some s) = s.cfi

-- With both copies usable, the reader opens at the position of the device exactly if it is newer
-- than the server's, and else at the server's; without an answer, at the position of the device.
pub load_progress_newest :
    (s c : Snapshot) (r : Reader)
    → r.storage.offline r.book_id ≡ some c
    → s.cfi ≢ ""
    → c.cfi ≢ ""
    → (cfi_of (load_progress (some s) r).progress
        ≡ (if ltb (time_of s.updated_at) (time_of c.updated_at) then c.cfi else s.cfi))
      × (cfi_of (load_progress none r).progress ≡ c.cfi)
      × ((load_progress (some s) r).is_loading ≡ false)
      × ((load_progress none r).is_loading ≡ false)
unfolding load_progress
load_progress_newest s c r h ns nc =
    elim (Bool-cases (ltb (time_of s.updated_at) (time_of c.updated_at))) [
      | inl newer ↦ (
        ground (arith, h, newer, eq_iff s.cfi "", eq_iff c.cfi ""),
        ground (arith, h, eq_iff c.cfi ""),
        refl,
        refl,
      )
      | inr older ↦ (
        ground (arith, h, older, eq_iff s.cfi ""),
        ground (arith, h, eq_iff c.cfi ""),
        refl,
        refl,
      )
    ]

-- A refresh changes the position only for a newer copy of another device, and then to that copy.
pub refresh_remote_newer :
    (s : Snapshot) (r : Reader)
    → refresh_remote_progress (some s) r ≢ r
    → (time_of (updated_at_of r.last_saved) < time_of s.updated_at)
      × (same_device s.device_id r.device_id ≡ false)
      × (cfi_of (refresh_remote_progress (some s) r).progress ≡ s.cfi)
unfolding refresh_remote_progress
refresh_remote_newer s r h = elim (Option-cases s.updated_at) [
  | inl missing ↦ absurd (h (ground (arith, missing)))
  | inr (t, found) ↦ elim (Bool-cases (str_eq s.cfi "")) [
    | inl empty ↦ absurd (h (ground (arith, found, empty)))
    | inr filled ↦
        elim (Bool-cases (
          ltb (time_of (updated_at_of r.last_saved)) t
          && not (same_device s.device_id r.device_id))) [
            | inr older ↦ absurd (h (ground (arith, found, filled, older)))
            | inl newer ↦ (
              ground (arith, found, newer),
              ground (arith, newer),
              ground (arith, found, filled, newer),
            )
          ]
  ]
]

-- `readOfflineProgressSnapshot`
unfoldable pub read_offline_progress_snapshot : String → Storage → Option Snapshot
read_offline_progress_snapshot book st = elim (st.offline book) [
  | none ↦ none
  | some s ↦ if str_eq s.cfi "" then none else some (record s { remote = false })
]

-- The initial state of `useProgress`.
unfoldable pub open_reader : String → String → Storage → Reader
unfolding read_offline_progress_snapshot
open_reader book device_id st =
    let offline = read_offline_progress_snapshot book st in
    record {
      book_id = book;
      device_id = device_id;
      progress = offline;
      is_loading = not (is_some offline);
      last_saved = offline;
      pending_save = none;
      saving = false;
      storage = st;
    }

-- A position that was saved without a connection is where the book opens again at once, before any
-- answer of the server, and where it stays if the server cannot be reached; the storage of the device
-- had taken the snapshot.
pub reopen_unreachable :
    (d : Device) (p : Position) (now : ℕ) (device : String) (r : Reader)
    → d.takes_snapshot ≡ true
    → p.cfi ≢ ""
    → let again = open_reader r.book_id device (end_save d p unreachable now r).storage in
      (cfi_of again.progress ≡ p.cfi)
      × (again.is_loading ≡ false)
      × (cfi_of (load_progress none again).progress ≡ p.cfi)
unfolding open_reader load_progress apply_loaded_progress end_save
reopen_unreachable d p now device r took named = (
  ground (arith, eq_iff r.book_id r.book_id, eq_iff p.cfi ""),
  ground (arith, eq_iff r.book_id r.book_id, eq_iff p.cfi ""),
  ground (arith, eq_iff r.book_id r.book_id, eq_iff p.cfi ""),
)
