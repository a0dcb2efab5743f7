-- ===== src/Progress/Sync/Losses.antt =====
-- What a synchronisation of frontend/src/hooks/useProgress.ts removes and what it keeps.
use z_reader.Prelude.{
  ℕ, ◌≡◌, ◌≢◌, ◌⊎◌, inl, inr, refl, sym, ap, ◌∙◌, String, str_eq, eq_iff, true, false, Option, none,
  some, List, [], ◌∷◌, is_some, any, arith, Bool-cases, Option-cases,
}
use z_reader.Progress.{Snapshot, Storage, Device, Reader, Position, end_save, unreachable}
use z_reader.Progress.Saving.{queued, IsDistinct, end_save_unreachable}
use z_reader.Progress.Sync.{
  SyncAnswer, accepted, rejected, no_connection, forget, splice, sync_loop, write_queue,
  sync_offline_progress_queue,
}

any-splice_other :
    (id b : String) (q : List String)
    → str_eq id b ≡ false
    → any (λ c. str_eq c b) (splice id q) ≡ any (λ c. str_eq c b) q
unfolding splice
any-splice_other id b [] h = refl
any-splice_other id b (c ∷ q) h =
    ground (arith, h, eq_iff c id, eq_iff c b, eq_iff id b, any-splice_other id b q h)

any-splice_le :
    (id b : String) (q : List String)
    → any (λ c. str_eq c b) q ≡ false
    → any (λ c. str_eq c b) (splice id q) ≡ false
unfolding splice
any-splice_le id b [] h = refl
any-splice_le id b (c ∷ q) h = ground (arith, any-splice_le id b q)

any-splice_self :
    (b : String) (q : List String) → IsDistinct q → any (λ c. str_eq c b) (splice b q) ≡ false
unfolding splice
any-splice_self b [] u = refl
any-splice_self b (c ∷ q) u = ground (arith, eq_iff c b, any-splice_self b q u.1)

splice-IsDistinct : (id : String) (q : List String) → IsDistinct q → IsDistinct (splice id q)
unfolding splice
splice-IsDistinct id [] u = tt
splice-IsDistinct id (c ∷ q) u =
    ground (arith, any-splice_le id c q u.0, splice-IsDistinct id q u.1)

data Answers : SyncAnswer → Type 0 where
  settled : {a : SyncAnswer} → (a ≡ accepted) ⊎ (a ≡ rejected) → Answers a
  lost : {a : SyncAnswer} → a ≡ no_connection → Answers a

answers : (a : SyncAnswer) → Answers a
answers accepted = settled (inl refl)
answers rejected = settled (inr refl)
answers no_connection = lost refl

data Queue (q : Option (List String)) : Type 0 where
  idle : (q ≡ none) ⊎ (q ≡ some []) → Queue q
  busy : (id : String) (ids : List String) → q ≡ some (id ∷ ids) → Queue q

Queue-cases : (q : Option (List String)) → Queue q
Queue-cases none = idle (inl refl)
Queue-cases (some []) = idle (inr refl)
Queue-cases (some (id ∷ ids)) = busy id ids refl

module _ (server : String → Snapshot → SyncAnswer)
    (meanwhile : List String → Storage → Storage) where
  -- While the request of another book is awaited, nothing is stored for book `b` or removed.
  abbrev pub LeavesAlone : String → Type 0
  LeavesAlone b =
      (id : String) (ids : List String) (st : Storage)
      → str_eq id b ≡ false
      → (meanwhile (id ∷ ids) st).offline b ≡ st.offline b

  forget_other :
      (b id : String) (ids : List String) (st : Storage)
      → LeavesAlone b
      → str_eq id b ≡ false
      → (forget id (meanwhile (id ∷ ids) st)).offline b ≡ st.offline b
  forget_other b id ids st l other =
      ground (arith, other, eq_iff id b, eq_iff b id, l id ids st other)

  -- A book without a stored position is never given one.
  sync_loop-none :
      (b : String) (ids : List String) (st : Storage) (next : List String)
      → LeavesAlone b
      → st.offline b ≡ none
      → (sync_loop server meanwhile ids st next).0.offline b ≡ none
  unfolding sync_loop
  sync_loop-none b [] st next l h = h
  sync_loop-none b (id ∷ ids) st next l h = elim (Option-cases (st.offline id)) [
    | inl miss ↦ rw (miss, sync_loop) (sync_loop-none b ids st (splice id next) l h)
    | inr (s, hit) ↦ elim (Bool-cases (str_eq id b)) [
      | inl same ↦ absurd (ground (arith, h, hit, ap st.offline ((eq_iff id b).0 same)))
      | inr other ↦
          let kept : (forget id (meanwhile (id ∷ ids) st)).offline b ≡ none =
            forget_other b id ids st l other ∙ h in
          let rest =
            sync_loop-none b ids (forget id (meanwhile (id ∷ ids) st)) (splice id next) l kept in
          elim (answers (server id s)) [
            | lost e ↦ rw (hit, e, sync_loop) (l id ids st other ∙ h)
            | settled (inl e) ↦ rw (hit, e, sync_loop) rest
            | settled (inr e) ↦ rw (hit, e, sync_loop) rest
          ]
    ]
  ]

  -- A book that the copy of the queue lacks is never put into it.
  sync_loop_fresh :
      (b : String) (ids : List String) (st : Storage) (next : List String)
      → any (λ c. str_eq c b) next ≡ false
      → any (λ c. str_eq c b) (sync_loop server meanwhile ids st next).1 ≡ false
  unfolding sync_loop
  sync_loop_fresh b [] st next h = h
  sync_loop_fresh b (id ∷ ids) st next h =
      let h' = any-splice_le id b next h in
      elim (Option-cases (st.offline id)) [
        | inl miss ↦ rw (miss, sync_loop) (sync_loop_fresh b ids st (splice id next) h')
        | inr (s, hit) ↦
            let rest =
              sync_loop_fresh b ids (forget id (meanwhile (id ∷ ids) st)) (splice id next) h' in
            elim (answers (server id s)) [
              | lost e ↦ rw (hit, e, sync_loop) h
              | settled (inl e) ↦ rw (hit, e, sync_loop) rest
              | settled (inr e) ↦ rw (hit, e, sync_loop) rest
            ]
      ]

  sync_loop_removes :
      (b : String) (s : Snapshot) (ids : List String) (st : Storage) (next : List String)
      → LeavesAlone b
      → ((ids : List String) (st : Storage)
          → is_some (st.offline b) ≡ true
          → is_some ((meanwhile ids st).offline b) ≡ true)
      → st.offline b ≡ some s
      → (sync_loop server meanwhile ids st next).0.offline b ≡ none
      → server b s ≢ no_connection
  unfolding sync_loop
  sync_loop_removes b s [] st next l k h gone = absurd (ground (arith, h, gone))
  sync_loop_removes b s (id ∷ ids) st next l k h gone = elim (Bool-cases (str_eq id b)) [
    | inl same ↦
        let e : id ≡ b = (eq_iff id b).0 same in
        let hit : st.offline id ≡ some s = ap st.offline e ∙ h in
        λ out.
          let out' : server id s ≡ no_connection = ap (λ c. server c s) e ∙ out in
          let left = rw (hit, out', sync_loop) at gone in
          absurd (ground (arith, left, k (id ∷ ids) st (ground (arith, h))))
    | inr other ↦
        let on = forget_other b id ids st l other ∙ h in
        let next_store = forget id (meanwhile (id ∷ ids) st) in
        elim (Option-cases (st.offline id)) [
          | inl miss ↦
              sync_loop_removes b s ids st (splice id next) l k h (rw (miss, sync_loop) at gone)
          | inr (t, hit) ↦ elim (answers (server id t)) [
            | lost e ↦ absurd (ground (arith, rw (hit, e, sync_loop) at gone, l id ids st other, h))
            | settled (inl e) ↦
                sync_loop_removes b s ids next_store (splice id next) l k on
                  (rw (hit, e, sync_loop) at gone)
            | settled (inr e) ↦
                sync_loop_removes b s ids next_store (splice id next) l k on
                  (rw (hit, e, sync_loop) at gone)
          ]
        ]
  ]

  sync_loop_waits :
      (b : String) (ids : List String) (st : Storage) (next : List String)
      → LeavesAlone b
      → any (λ c. str_eq c b) next ≡ true
      → is_some ((sync_loop server meanwhile ids st next).0.offline b) ≡ true
      → any (λ c. str_eq c b) (sync_loop server meanwhile ids st next).1 ≡ true
  unfolding sync_loop
  sync_loop_waits b [] st next l w has = w
  sync_loop_waits b (id ∷ ids) st next l w has =
      let next_store = forget id (meanwhile (id ∷ ids) st) in
      elim (Bool-cases (str_eq id b)) [
        | inl same ↦
            let e : id ≡ b = (eq_iff id b).0 same in
            let removed : next_store.offline b ≡ none = ground (arith, eq_iff b id, e) in
            let gone = sync_loop-none b ids next_store (splice id next) l removed in
            elim (Option-cases (st.offline id)) [
              | inl miss ↦
                  let none_left =
                    sync_loop-none b ids st (splice id next) l (ap st.offline (sym e) ∙ miss) in
                  absurd (ground (arith, none_left, rw (miss, sync_loop) at has))
              | inr (s, hit) ↦ elim (answers (server id s)) [
                | lost a ↦ rw (hit, a, sync_loop) w
                | settled (inl a) ↦ absurd (ground (arith, gone, rw (hit, a, sync_loop) at has))
                | settled (inr a) ↦ absurd (ground (arith, gone, rw (hit, a, sync_loop) at has))
              ]
            ]
        | inr other ↦
            let w' = any-splice_other id b next other ∙ w in
            elim (Option-cases (st.offline id)) [
              | inl miss ↦
                  rw (miss, sync_loop)
                    (sync_loop_waits b ids st (splice id next) l w' (rw (miss, sync_loop) at has))
              | inr (s, hit) ↦ elim (answers (server id s)) [
                | lost a ↦ rw (hit, a, sync_loop) w
                | settled (inl a) ↦
                    rw (hit, a, sync_loop)
                      (sync_loop_waits b ids next_store (splice id next) l w'
                        (rw (hit, a, sync_loop) at has))
                | settled (inr a) ↦
                    rw (hit, a, sync_loop)
                      (sync_loop_waits b ids next_store (splice id next) l w'
                        (rw (hit, a, sync_loop) at has))
              ]
            ]
      ]

  sync_loop_all :
      (b : String) (ids : List String) (st : Storage) (next : List String)
      → LeavesAlone b
      → ((id : String) (s : Snapshot) → server id s ≢ no_connection)
      → IsDistinct next
      → any (λ c. str_eq c b) ids ≡ true
      → ((sync_loop server meanwhile ids st next).0.offline b ≡ none)
        × (any (λ c. str_eq c b) (sync_loop server meanwhile ids st next).1 ≡ false)
  unfolding sync_loop
  sync_loop_all b [] st next l up u h = absurd (ground (arith, h))
  sync_loop_all b (id ∷ ids) st next l up u h =
      let next_store = forget id (meanwhile (id ∷ ids) st) in
      let u' = splice-IsDistinct id next u in
      elim (Bool-cases (str_eq id b)) [
        | inr other ↦
            let rest : any (λ c. str_eq c b) ids ≡ true = ground (arith, h, other) in
            elim (Option-cases (st.offline id)) [
              | inl miss ↦
                  rw (miss, sync_loop) (sync_loop_all b ids st (splice id next) l up u' rest)
              | inr (s, hit) ↦ elim (answers (server id s)) [
                | lost e ↦ absurd (up id s e)
                | settled (inl e) ↦
                    rw (hit, e, sync_loop)
                      (sync_loop_all b ids next_store (splice id next) l up u' rest)
                | settled (inr e) ↦
                    rw (hit, e, sync_loop)
                      (sync_loop_all b ids next_store (splice id next) l up u' rest)
              ]
            ]
        | inl same ↦
            let e : id ≡ b = (eq_iff id b).0 same in
            let out : any (λ c. str_eq c b) (splice id next) ≡ false =
              rw e (any-splice_self b next u) in
            let removed : next_store.offline b ≡ none = ground (arith, eq_iff b id, e) in
            let gone = sync_loop-none b ids next_store (splice id next) l removed in
            let fresh = sync_loop_fresh b ids next_store (splice id next) out in
            elim (Option-cases (st.offline id)) [
              | inl miss ↦
                  rw (miss, sync_loop)
                    (
                      sync_loop-none b ids st (splice id next) l (ap st.offline (sym e) ∙ miss),
                      sync_loop_fresh b ids st (splice id next) out,
                    )
              | inr (s, hit) ↦ elim (answers (server id s)) [
                | lost a ↦ absurd (up id s a)
                | settled (inl a) ↦ rw (hit, a, sync_loop) (gone, fresh)
                | settled (inr a) ↦ rw (hit, a, sync_loop) (gone, fresh)
              ]
            ]
      ]

  -- A position that a synchronisation found stored for a book and that is gone afterwards was
  -- sent, and the server had answered it: without a connection nothing is removed. While its own
  -- request is awaited other handlers may store a newer position for the book but do not remove
  -- it, and while other requests are awaited they leave the book alone; what they do to other
  -- books and to the queue does not matter.
  pub sync_removes_answered :
      (b : String) (s : Snapshot) (st : Storage)
      → LeavesAlone b
      → ((ids : List String) (st : Storage)
          → is_some (st.offline b) ≡ true
          → is_some ((meanwhile ids st).offline b) ≡ true)
      → st.offline b ≡ some s
      → (sync_offline_progress_queue server meanwhile st).offline b ≡ none
      → server b s ≢ no_connection
  unfolding sync_offline_progress_queue
  sync_removes_answered b s st l k h gone = elim (Queue-cases st.queue) [
    | idle (inl e) ↦ absurd (ground (arith, h, rw (e, sync_offline_progress_queue) at gone))
    | idle (inr e) ↦ absurd (ground (arith, h, rw (e, sync_offline_progress_queue) at gone))
    | busy id ids e ↦
        sync_loop_removes b s (id ∷ ids) st (id ∷ ids) l k h
          (rw (e, sync_offline_progress_queue) at gone)
  ]

  -- A book that waited and still has a stored position after a synchronisation still waits,
  -- whatever is stored for it while its own request is awaited, if other handlers leave it alone
  -- while other requests are.
  pub sync_still_queued :
      (b : String) (st : Storage)
      → LeavesAlone b
      → queued b st.queue ≡ true
      → is_some ((sync_offline_progress_queue server meanwhile st).offline b) ≡ true
      → queued b (sync_offline_progress_queue server meanwhile st).queue ≡ true
  unfolding sync_offline_progress_queue
  sync_still_queued b st l h has = elim (Queue-cases st.queue) [
    | idle (inl e) ↦ absurd (ground (arith, h, e))
    | idle (inr e) ↦ absurd (ground (arith, h, e))
    | busy id ids e ↦
        rw (e, sync_offline_progress_queue)
          (sync_loop_waits b (id ∷ ids) st (id ∷ ids) l (rw e at h)
            (rw (e, sync_offline_progress_queue) at has))
  ]

  -- With a connection throughout, no book twice in the queue, and other handlers that leave a book
  -- of it alone while requests of other books are awaited, a synchronisation leaves no stored
  -- position of this book, and the book waits no longer: also a newer position that was stored
  -- while its own request was awaited, and never sent, is removed.
  pub sync_all :
      (b : String) (q : List String) (st : Storage)
      → st.queue ≡ some q
      → IsDistinct q
      → LeavesAlone b
      → any (λ c. str_eq c b) q ≡ true
      → ((id : String) (s : Snapshot) → server id s ≢ no_connection)
      → ((sync_offline_progress_queue server meanwhile st).offline b ≡ none)
        × (queued b (sync_offline_progress_queue server meanwhile st).queue ≡ false)
  unfolding sync_offline_progress_queue
  sync_all b [] st e u l h up = absurd (ground (arith, h))
  sync_all b (id ∷ ids) st e u l h up =
      rw (e, sync_offline_progress_queue) (sync_loop_all b (id ∷ ids) st (id ∷ ids) l up u h)

  -- A position that `saveProgress` stores without a connection, for a book that the synchronisation
  -- at work did not read in the queue, is lost to later synchronisations: when that one ends it
  -- writes its own copy of the queue, and the stored position waits for nothing. The storage of the
  -- device had taken the snapshot and the queue.
  pub sync_drops_enqueued :
      (q : List String) (st : Storage) (d : Device) (p : Position) (now : ℕ) (other : String)
      (r : Reader)
      → other ≢ r.book_id
      → any (λ c. str_eq c r.book_id) q ≡ false
      → d.takes_snapshot ≡ true
      → d.reads_queue ≡ true
      → d.takes_queue ≡ true
      → (queued r.book_id (end_save d p unreachable now r).storage.queue ≡ true)
        × (queued r.book_id
              (write_queue
                (sync_loop server meanwhile q st q).1
                (end_save d p unreachable now r).storage).queue
            ≡ false)
        × (is_some (
              (write_queue
                  (sync_loop server meanwhile q st q).1
                  (end_save d p unreachable now r).storage).offline
                r.book_id)
            ≡ true)
  sync_drops_enqueued q st d p now other r ne absent a b c =
      let u = end_save_unreachable d p now other r ne in
      (
        ground (arith, u.2, a, b, c),
        sync_loop_fresh r.book_id q st q absent,
        ground (arith, u.0.1, a),
      )
