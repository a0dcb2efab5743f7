-- ===== src/Tts/Session.antt =====
-- frontend/src/hooks/useTTSSession.ts: the place of the narration that a device keeps for each book.
-- A stored session is named by the id of its book. Times are milliseconds. Whether the storage takes
-- a write is an argument.
pub mod Kept
use z_reader.Prelude.{
  ℕ, ◌+◌, ◌≤◌, ◌<◌, ◌≡◌, ◌≢◌, ◌⊎◌, inl, inr, refl, sym, ap, ◌∙◌, arith, String, str_eq, eq_iff,
  Bool, true, false, not, ◌&&◌, ◌||◌, Option, none, some, if◌then◌else◌, ltb, leb, is_some,
  Bool-cases, Option-cases,
}
use z_reader.JsMap
use z_reader.JsMap.{JsMap}
use z_reader.JsMap.Laws.{get-set}

-- `mark` names the mark and its text, `settings` the settings of the voice.
pub record TtsSessionSnapshot : Type 0 where
  pub cfi : String
  pub mark : Option ℕ
  pub timestamp : ℕ
  pub settings : ℕ

-- What the storage has under a key: the text of a snapshot, or one that does not parse.
pub data Stored : Type 0 where
  snapshot : TtsSessionSnapshot → Stored
  garbage : Stored

-- `timer` is when the time-out is due.
pub record Session : Type 0 where
  pub pending : Option (String × TtsSessionSnapshot)
  pub timer : Option ℕ
  pub last_write : Option ℕ
  pub storage : JsMap Stored

abbrev pub session_ttl : ℕ
session_ttl = 604800000

abbrev pub write_interval : ℕ
write_interval = 2000

-- `getTTSSessionKey`
abbrev pub session_key : Option String → Option String
session_key none = none
session_key (some id) = if str_eq id "" then none else some id

abbrev pub written : Option (String × TtsSessionSnapshot) → JsMap Stored → JsMap Stored
written none m = m
written (some p) m = JsMap.set p.0 (snapshot p.1) m

-- `writePending`, also the callback of the time-out and the cleanup of the effect
unfoldable pub write_pending : ℕ → Bool → Session → Session
write_pending now writes s =
    let stores = is_some s.pending && writes in
    record s {
      timer = none;
      pending = none;
      storage = if stores then written s.pending s.storage else s.storage;
      last_write = if stores then some now else s.last_write;
    }

-- When the next write may be, `none` for at once.
abbrev pub due_after : Option ℕ → ℕ → Option ℕ
due_after none now = none
due_after (some w) now = if leb (w + write_interval) now then none else some (w + write_interval)

-- The time-out that is set is kept.
abbrev pub schedule : Option ℕ → Option ℕ → Option ℕ
schedule none due = due
schedule (some t) due = some t

-- The end of `saveTTSSession`, with the key and the snapshot.
unfoldable pub save_snapshot : Bool → ℕ → Bool → String → TtsSessionSnapshot → Session → Session
unfolding write_pending
save_snapshot flush now writes key x s =
    let s' = record s { pending = some (key, x) } in
    if flush || not (is_some (due_after s.last_write now))
    then write_pending now writes s'
    else record s' { timer = schedule s.timer (due_after s.last_write now) }

-- `saveTTSSession`, with the place of the current mark or of the page.
unfoldable pub save_tts_session :
    Bool → ℕ → Bool → Option String → Option String → Option ℕ → ℕ → Session → Session
unfolding save_snapshot
save_tts_session flush now writes book cfi mark settings s = elim (session_key book) [
  | none ↦ s
  | some key ↦ elim cfi [
    | none ↦ s
    | some place ↦
        if str_eq place ""
        then s
        else save_snapshot flush now writes key
            (record { cfi = place; mark = mark; timestamp = now; settings = settings }) s
  ]
]

-- A session without a place, or an old one.
abbrev pub is_expired : ℕ → TtsSessionSnapshot → Bool
is_expired now x = str_eq x.cfi "" || ltb (x.timestamp + session_ttl) now

-- What is stored, read back; an expired session is removed.
unfoldable pub read_stored : ℕ → String → Stored → Session → Session × Option TtsSessionSnapshot
read_stored now key garbage s = (s, none)
read_stored now key (snapshot x) s =
    if is_expired now x
    then (record s { storage = JsMap.delete key s.storage }, none)
    else (s, some x)

-- `loadTTSSession`
unfoldable pub load_tts_session : ℕ → Option String → Session → Session × Option TtsSessionSnapshot
unfolding read_stored
load_tts_session now book s = elim (session_key book) [
  | none ↦ (s, none)
  | some key ↦ elim (JsMap.get key s.storage) [
    | none ↦ (s, none)
    | some item ↦ read_stored now key item s
  ]
]

-- `clearTTSSession`
unfoldable pub clear_tts_session : Option String → Session → Session
clear_tts_session book s = elim (session_key book) [
  | none ↦ s
  | some key ↦ record s {
    timer = none;
    pending = none;
    last_write = none;
    storage = JsMap.delete key s.storage;
  }
]

pub data Event (s : Session) : Session → Type 0 where
  saves :
      (flush : Bool) (now : ℕ) (writes : Bool) (book cfi : Option String) (mark : Option ℕ)
      (settings : ℕ)
      → Event s (save_tts_session flush now writes book cfi mark settings s)
  fires :
      (due now : ℕ) (writes : Bool)
      → s.timer ≡ some due
      → due ≤ now
      → Event s (write_pending now writes s)
  leaves : (now : ℕ) (writes : Bool) → Event s (write_pending now writes s)
  loads : (now : ℕ) (book : Option String) → Event s (load_tts_session now book s).0
  clears : (book : Option String) → Event s (clear_tts_session book s)

pub data Reach : Session → Type 0 where
  start :
      (m : JsMap Stored)
      → Reach (record { pending = none; timer = none; last_write = none; storage = m })
  next : {s t : Session} → Reach s → Event s t → Reach t
