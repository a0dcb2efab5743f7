-- ===== src/Tts/Session/Kept.antt =====
-- What the stored session of the narration (frontend/src/hooks/useTTSSession.ts) keeps.
use z_reader.Prelude.{
  ℕ, ◌+◌, ◌≤◌, ◌≡◌, inl, inr, refl, ap, ◌∙◌, arith, String, str_eq, eq_iff, Bool, true, false, not,
  ◌||◌, Option, none, some, leb, is_some, Bool-cases, Option-cases,
}
use z_reader.JsMap
use z_reader.JsMap.{JsMap}
use z_reader.JsMap.Laws.{get-set}
use z_reader.Tts.Session.{
  TtsSessionSnapshot, Stored, snapshot, garbage, Session, session_ttl, write_interval, session_key,
  write_pending, due_after, schedule, save_snapshot, save_tts_session, is_expired, read_stored,
  load_tts_session, clear_tts_session, Event, saves, fires, leaves, loads, clears, Reach, start,
  next,
}

-- What waits to be written has a time-out, which is due two seconds after the last write.
pub record IsValid (s : Session) : Type 0 where
  pub scheduled : is_some s.pending ≡ true → is_some s.timer ≡ true
  pub due :
      (t : ℕ) → s.timer ≡ some t → (w : ℕ) × (s.last_write ≡ some w) × (t ≡ w + write_interval)

write_pending-IsValid :
    (now : ℕ) (writes : Bool) (s : Session) → IsValid (write_pending now writes s)
unfolding write_pending
write_pending-IsValid now writes s = record {
  scheduled = λ h. absurd (ground (arith, h));
  due = λ t h. absurd (ground (arith, h));
}

due_lem :
    (last : Option ℕ) (now d : ℕ)
    → due_after last now ≡ some d
    → (w : ℕ) × (last ≡ some w) × (d ≡ w + write_interval)
due_lem none now d h = absurd (ground (arith, h))
due_lem (some w) now d h = elim (Bool-cases (leb (w + write_interval) now)) [
  | inl passed ↦ absurd (ground (arith, passed, h))
  | inr early ↦ (w, refl, ground (arith, early, h))
]

schedule-due :
    (s : Session) (now : ℕ) (timer : Option ℕ)
    → s.timer ≡ timer
    → IsValid s
    → (t : ℕ) → schedule timer (due_after s.last_write now) ≡ some t
    → (w : ℕ) × (s.last_write ≡ some w) × (t ≡ w + write_interval)
schedule-due s now none e v t h = due_lem s.last_write now t h
schedule-due s now (some u) e v t h = v.due t (e ∙ h)

schedule_some : (timer due : Option ℕ) → is_some due ≡ true → is_some (schedule timer due) ≡ true
schedule_some none due h = h
schedule_some (some t) due h = refl

save_snapshot-IsValid :
    (flush : Bool) (now : ℕ) (writes : Bool) (key : String) (x : TtsSessionSnapshot) (s : Session)
    → IsValid s
    → IsValid (save_snapshot flush now writes key x s)
unfolding save_snapshot
save_snapshot-IsValid flush now writes key x s v =
    elim (Bool-cases (flush || not (is_some (due_after s.last_write now)))) [
      | inl at_once ↦
          rw (at_once, save_snapshot)
            (write_pending-IsValid now writes (record s { pending = some (key, x) }))
      | inr later ↦
          rw (later, save_snapshot)
            (record {
              scheduled =
                  λ h. schedule_some s.timer (due_after s.last_write now) (ground (arith, later));
              due = schedule-due s now s.timer refl v;
            })
    ]

save-IsValid :
    (flush : Bool) (now : ℕ) (writes : Bool) (key cfi : Option String) (mark : Option ℕ)
    (settings : ℕ) (s : Session)
    → IsValid s
    → IsValid (save_tts_session flush now writes key cfi mark settings s)
unfolding save_tts_session
save-IsValid flush now writes book cfi mark settings s v = elim (Option-cases (session_key book)) [
  | inl nobook ↦ rw (nobook, save_tts_session) v
  | inr (key, this) ↦ elim (Option-cases cfi) [
    | inl nowhere ↦ rw (this, nowhere, save_tts_session) v
    | inr (place, here) ↦ elim (Bool-cases (str_eq place "")) [
      | inl empty ↦ rw (this, here, empty, save_tts_session) v
      | inr full ↦
          rw (this, here, full, save_tts_session)
            (save_snapshot-IsValid flush now writes key
              (record { cfi = place; mark = mark; timestamp = now; settings = settings }) s v)
    ]
  ]
]

-- Reading keeps what waits.
read_stored-IsValid :
    (now : ℕ) (key : String) (item : Stored) (s : Session)
    → IsValid s
    → IsValid (read_stored now key item s).0
unfolding read_stored
read_stored-IsValid now key garbage s v = v
read_stored-IsValid now key (snapshot x) s v = elim (Bool-cases (is_expired now x)) [
  | inl old ↦ rw (old, read_stored) (record { scheduled = v.scheduled; due = v.due })
  | inr fresh ↦ rw (fresh, read_stored) v
]

load-IsValid :
    (now : ℕ) (book : Option String) (s : Session)
    → IsValid s
    → IsValid (load_tts_session now book s).0
unfolding load_tts_session
load-IsValid now book s v = elim (Option-cases (session_key book)) [
  | inl nobook ↦ rw (nobook, load_tts_session) v
  | inr (key, this) ↦ elim (Option-cases (JsMap.get key s.storage)) [
    | inl nothing ↦ rw (this, nothing, load_tts_session) v
    | inr (item, found) ↦ rw (this, found, load_tts_session) (read_stored-IsValid now key item s v)
  ]
]

clear-IsValid :
    (book : Option String) (s : Session) → IsValid s → IsValid (clear_tts_session book s)
unfolding clear_tts_session
clear-IsValid book s v = elim (Option-cases (session_key book)) [
  | inl nobook ↦ rw (nobook, clear_tts_session) v
  | inr (key, this) ↦
      rw (this, clear_tts_session)
        (record {
          scheduled = λ h. absurd (ground (arith, h));
          due = λ t h. absurd (ground (arith, h));
        })
]

Event-IsValid : {s t : Session} → Event s t → IsValid s → IsValid t
Event-IsValid {s = s} (saves flush now writes book cfi mark settings) v =
    save-IsValid flush now writes book cfi mark settings s v
Event-IsValid {s = s} (fires due now writes on passed) v = write_pending-IsValid now writes s
Event-IsValid {s = s} (leaves now writes) v = write_pending-IsValid now writes s
Event-IsValid {s = s} (loads now book) v = load-IsValid now book s v
Event-IsValid {s = s} (clears book) v = clear-IsValid book s v

Reach-IsKept : {s : Session} → Reach s → IsValid s
Reach-IsKept (start m) = record {
  scheduled = λ h. absurd (ground (arith, h));
  due = λ t h. absurd (ground (arith, h));
}
Reach-IsKept (next before e) = Event-IsValid e (Reach-IsKept before)

-- In whatever order sessions are saved, loaded and cleared, time-outs fire and a book is left: a snapshot
-- that waits is never forgotten, for then a time-out is set, and it is due two seconds after the last
-- write.
pub pending_is_scheduled :
    {s : Session}
    → Reach s
    → is_some s.pending ≡ true
    → (w : ℕ) × (s.last_write ≡ some w) × (s.timer ≡ some (w + write_interval))
pending_is_scheduled {s = s} r h =
    let v = Reach-IsKept r in
    elim (Option-cases s.timer) [
      | inl none_ ↦ absurd (ground (arith, v.scheduled h, none_))
      | inr (t, set) ↦ let (w, last, due) = v.due t set in (w, last, set ∙ ap (λ n. some n) due)
    ]

read_back :
    (later then_ : ℕ) (id : String) (x : TtsSessionSnapshot) (s : Session)
    → str_eq id "" ≡ false
    → is_expired then_ x ≡ false
    → JsMap.get id s.storage ≡ some (snapshot x)
    → (load_tts_session then_ (some id) s).1 ≡ some x
unfolding load_tts_session read_stored
read_back later then_ id x s named fresh found =
    rw (named, found, fresh, load_tts_session, read_stored) refl

saved :
    (flush : Bool) (now later : ℕ) (key : String) (x : TtsSessionSnapshot) (s : Session)
    → JsMap.get key (write_pending later true (save_snapshot flush now true key x s)).storage
      ≡ some (snapshot x)
unfolding save_snapshot write_pending
saved flush now later key x s =
    elim (Bool-cases (flush || not (is_some (due_after s.last_write now)))) [
      | inl at_once ↦
          rw (at_once, save_snapshot)
            (ground (arith, get-set key key (snapshot x) s.storage, eq_iff key key))
      | inr wait ↦
          rw (wait, save_snapshot)
            (ground (arith, get-set key key (snapshot x) s.storage, eq_iff key key))
    ]

-- A place of the narration that is saved, with or without a flush, is what is loaded within a week after
-- the next time-out or the leaving of the book, if the storage takes the writes.
pub save-load_tts_session :
    (flush : Bool) (now later then_ : ℕ) (id place : String) (mark : Option ℕ) (settings : ℕ)
    (s : Session)
    → str_eq id "" ≡ false
    → str_eq place "" ≡ false
    → then_ ≤ now + session_ttl
    → (load_tts_session then_ (some id) (
        write_pending later true
          (save_tts_session flush now true (some id) (some place) mark settings s))).1
      ≡ some (record { cfi = place; mark = mark; timestamp = now; settings = settings })
unfolding save_tts_session
save-load_tts_session flush now later then_ id place mark settings s named full soon =
    let x : TtsSessionSnapshot = record {
      cfi = place;
      mark = mark;
      timestamp = now;
      settings = settings;
    } in
    let fresh : is_expired then_ x ≡ false = ground (arith, full, soon) in
    rw (named, full, save_tts_session)
      (read_back later then_ id x (write_pending later true (save_snapshot flush now true id x s))
        named fresh (saved flush now later id x s))
