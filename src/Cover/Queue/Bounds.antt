-- ===== src/Cover/Queue/Bounds.antt =====
-- The invariant of the cover queue (frontend/src/hooks/useCoverUrl.ts).
use z_reader.Prelude.{
  ℕ, suc, ◌+◌, ◌≤◌, ◌<◌, ◌≡◌, ◌⊎◌, inl, inr, refl, true, false, List, [], ◌∷◌, ◌++◌, ltb, ◌==◌,
  length, arith, length-append, All, All-append, Bool-cases,
}
use z_reader.Prelude.{All-map}
use z_reader.Cover.Queue.{
  Scheduler, initial, is_cancelled, run_job, process, process_queue, schedule_cover_fetch,
  remove_first, cancel, finish, Event, schedules, cancels, finishes, Reach, start, next,
  max_concurrent,
}

-- Job numbers from `n` on, in the order in which they were given out.
abbrev pub Increasing : ℕ → List ℕ → Type 0
Increasing n [] = Unit
Increasing n (j ∷ js) = (n ≤ j) × Increasing (suc j) js

pub record IsValid (s : Scheduler) : Type 0 where
  pub counted : s.active_count ≡ length s.running
  pub limited : s.active_count ≤ max_concurrent
  -- no slot is free while a job waits
  pub busy : (s.pending_queue ≡ []) ⊎ (s.active_count ≡ max_concurrent)
  -- a waiting job is not cancelled, and the jobs wait in the order in which they came
  pub live : All (λ j. is_cancelled j s.cancelled ≡ false) s.pending_queue
  pub ordered : Increasing 0 s.pending_queue
  pub queued_known : All (λ j. j < s.next_job) s.pending_queue
  pub cancelled_known : All (λ j. j < s.next_job) s.cancelled

-- What holds before the loop of `processQueue`, where a slot may be free, for the queue `q`.
pub record IsReady (q : List ℕ) (s : Scheduler) : Type 0 where
  pub counted : s.active_count ≡ length s.running
  pub limited : s.active_count ≤ max_concurrent
  pub live : All (λ j. is_cancelled j s.cancelled ≡ false) q
  pub ordered : Increasing 0 q
  pub queued_known : All (λ j. j < s.next_job) q
  pub cancelled_known : All (λ j. j < s.next_job) s.cancelled

Increasing-weaken : (n m : ℕ) (js : List ℕ) → n ≤ m → Increasing m js → Increasing n js
Increasing-weaken n m [] h i = tt
Increasing-weaken n m (j ∷ js) h i = (omega arith, i.1)

process-IsValid : (q : List ℕ) (s : Scheduler) → IsReady q s → IsValid (process q s)
unfolding process run_job
process-IsValid [] s r = record {
  counted = r.counted;
  limited = r.limited;
  busy = inl refl;
  live = tt;
  ordered = tt;
  queued_known = tt;
  cancelled_known = r.cancelled_known;
}
process-IsValid (j ∷ js) s r = elim (Bool-cases (ltb s.active_count max_concurrent)) [
  | inl free ↦
      rw (free, r.live.0, process, run_job)
        (process-IsValid js
          (record s { active_count = s.active_count + 1; running = s.running ++ j ∷ [] })
          (record {
            counted = omega (arith, r.counted, length-append s.running (j ∷ []));
            limited = ground (arith, r.limited);
            live = r.live.1;
            ordered = Increasing-weaken 0 (suc j) js (omega arith) r.ordered.1;
            queued_known = r.queued_known.1;
            cancelled_known = r.cancelled_known;
          }))
  | inr full ↦
      rw (full, process)
        (record {
          counted = r.counted;
          limited = r.limited;
          busy = inr (ground (arith, r.limited));
          live = r.live;
          ordered = r.ordered;
          queued_known = r.queued_known;
          cancelled_known = r.cancelled_known;
        })
]

length-remove_first :
    (j : ℕ) (js : List ℕ) → is_cancelled j js ≡ true → length (remove_first j js) + 1 ≡ length js
unfolding remove_first
length-remove_first j [] h = ground arith
length-remove_first j (i ∷ is) h = ground (arith, length-remove_first j is)

All-remove_first {κ} : (P : ℕ → Type κ) (j : ℕ) (js : List ℕ) → All P js → All P (remove_first j js)
unfolding remove_first
All-remove_first P j [] h = tt
All-remove_first P j (i ∷ is) h = ground (arith, All-remove_first P j is h.1)

Increasing-remove_first :
    (n j : ℕ) (js : List ℕ) → Increasing n js → Increasing n (remove_first j js)
unfolding remove_first
Increasing-remove_first n j [] h = tt
Increasing-remove_first n j (i ∷ is) h =
    ground (arith, Increasing-remove_first (suc i) j is h.1, Increasing-weaken n (suc i) is)

Increasing-append :
    (n k : ℕ) (js : List ℕ)
    → n ≤ k
    → Increasing n js
    → All (λ j. j < k) js
    → Increasing n (js ++ k ∷ [])
Increasing-append n k [] h i a = (h, tt)
Increasing-append n k (j ∷ js) h i a = (i.0, Increasing-append (suc j) k js a.0 i.1 a.1)

not_cancelled : (k : ℕ) (cs : List ℕ) → All (λ j. j < k) cs → is_cancelled k cs ≡ false
not_cancelled k [] h = refl
not_cancelled k (c ∷ cs) h = ground (arith, not_cancelled k cs h.1)

All-lt-suc : (k : ℕ) (js : List ℕ) → All (λ j. j < k) js → All (λ j. j < k + 1) js
All-lt-suc k js h = All-map (λ j. j < k) (λ j. j < k + 1) js (λ j p. omega arith) h

-- The flag of another job is as it was; the job itself has left the queue.
live-cancel :
    (n j : ℕ) (js cs : List ℕ)
    → Increasing n js
    → All (λ i. is_cancelled i cs ≡ false) js
    → All (λ i. is_cancelled i (j ∷ cs) ≡ false) (remove_first j js)
unfolding remove_first
live-cancel n j [] cs i h = tt
live-cancel n j (k ∷ ks) cs i h = elim (Bool-cases (k == j)) [
  | inl same ↦ rw (same, remove_first) (live_above j (suc k) ks cs (ground arith) i.1 h.1)
  | inr other ↦ rw (other, remove_first) (ground (arith, h.0), live-cancel (suc k) j ks cs i.1 h.1)
]
  where
    live_above :
        (j n : ℕ) (js cs : List ℕ)
        → j < n
        → Increasing n js
        → All (λ i. is_cancelled i cs ≡ false) js
        → All (λ i. is_cancelled i (j ∷ cs) ≡ false) js
    live_above j n [] cs l i h = tt
    live_above j n (k ∷ ks) cs l i h =
        (ground (arith, h.0), live_above j (suc k) ks cs (omega (arith, i.0)) i.1 h.1)

initial-IsValid : IsValid initial
unfolding initial
initial-IsValid = record {
  counted = refl;
  limited = omega arith;
  busy = inl refl;
  live = tt;
  ordered = tt;
  queued_known = tt;
  cancelled_known = tt;
}

-- Every event keeps the invariant.
pub Event-IsValid : {s t : Scheduler} → Event s t → IsValid s → IsValid t
unfolding schedule_cover_fetch process_queue cancel finish
Event-IsValid {s} schedules v = process-IsValid (s.pending_queue ++ s.next_job ∷ []) _ (record {
  counted = v.counted;
  limited = v.limited;
  live =
      All-append _ s.pending_queue (s.next_job ∷ []) v.live
        (not_cancelled s.next_job s.cancelled v.cancelled_known, tt);
  ordered = Increasing-append 0 s.next_job s.pending_queue (omega arith) v.ordered v.queued_known;
  queued_known =
      All-append (λ j. j < s.next_job + 1) s.pending_queue (s.next_job ∷ [])
        (All-lt-suc s.next_job s.pending_queue v.queued_known) (omega arith, tt);
  cancelled_known = All-lt-suc s.next_job s.cancelled v.cancelled_known;
})
Event-IsValid {s} (cancels j h) v = record {
  counted = v.counted;
  limited = v.limited;
  busy = ground (arith, v.busy);
  live = live-cancel 0 j s.pending_queue s.cancelled v.ordered v.live;
  ordered = Increasing-remove_first 0 j s.pending_queue v.ordered;
  queued_known = All-remove_first _ j s.pending_queue v.queued_known;
  cancelled_known = (h, v.cancelled_known);
}
Event-IsValid {s} (finishes j h) v = process-IsValid s.pending_queue _ (record {
  counted = omega (arith, v.counted, length-remove_first j s.running h);
  limited = omega (arith, v.limited);
  live = v.live;
  ordered = v.ordered;
  queued_known = v.queued_known;
  cancelled_known = v.cancelled_known;
})

-- In every state that can be reached at most six fetches run, the counter says how many, no slot
-- is free while a job waits, no waiting job is cancelled, and the jobs wait in the order in which
-- they were scheduled.
pub Reach-IsValid : {s : Scheduler} → Reach s → IsValid s
Reach-IsValid start = initial-IsValid
Reach-IsValid (next r e) = Event-IsValid e (Reach-IsValid r)
