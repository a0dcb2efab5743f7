-- ===== src/Cover/Queue/Order.antt =====
-- The order of the cover queue (frontend/src/hooks/useCoverUrl.ts): free slots and cancelled jobs.
use z_reader.Prelude.{
  ℕ, ◌+◌, ◌-◌, ◌≡◌, inl, inr, refl, ap, ◌∙◌, true, false, List, [], ◌∷◌, ◌++◌, arith, All,
  Bool-cases,
}
use z_reader.Cover.Queue.{
  Scheduler, is_cancelled, run_job, process, process_queue, schedule_cover_fetch, remove_first,
  cancel, finish, Event, schedules, cancels, finishes, max_concurrent,
}
use z_reader.Cover.Queue.Bounds.{IsValid}

process_full :
    (q : List ℕ) (s : Scheduler)
    → s.active_count ≡ max_concurrent
    → process q s ≡ record s { pending_queue = q }
unfolding process
process_full [] s h = refl
process_full (j ∷ js) s h = ground arith

process_one :
    (p : ℕ) (ps : List ℕ) (s : Scheduler)
    → s.active_count + 1 ≡ max_concurrent
    → is_cancelled p s.cancelled ≡ false
    → process (p ∷ ps) s ≡ record s {
      pending_queue = ps;
      active_count = s.active_count + 1;
      running = s.running ++ p ∷ [];
    }
unfolding process run_job
process_one p ps s h live = ground (arith, live, process_full ps (run_job p s))

-- On a valid state with a waiting job, the end of a fetch in flight hands its slot to the job that has waited
-- longest and to no other: that job joins the fetches in flight, the rest waits on in order, and
-- all slots are taken.
pub finish_hands_over :
    (j p : ℕ) (ps : List ℕ) (s : Scheduler)
    → IsValid s
    → s.pending_queue ≡ p ∷ ps
    → is_cancelled j s.running ≡ true
    → ((finish j s).running ≡ remove_first j s.running ++ p ∷ [])
      × ((finish j s).pending_queue ≡ ps)
      × ((finish j s).active_count ≡ max_concurrent)
unfolding finish process_queue
finish_hands_over j p ps s v e h =
    let freed = record s {
      active_count = s.active_count - 1;
      running = remove_first j s.running;
    } in
    let live : All (λ i. is_cancelled i s.cancelled ≡ false) (p ∷ ps) = rw e at v.live in
    let full : s.active_count ≡ max_concurrent = ground (arith, v.busy, e) in
    let q : process s.pending_queue freed ≡ process (p ∷ ps) freed = ap (λ l. process l freed) e in
    let one = process_one p ps freed (omega (arith, full)) live.0 in
    (
      ap (λ (x : Scheduler). x.running) (q ∙ one),
      ap (λ (x : Scheduler). x.pending_queue) (q ∙ one),
      ap (λ (x : Scheduler). x.active_count) (q ∙ one) ∙ omega (arith, full),
    )

any-append :
    (j : ℕ) (is js : List ℕ)
    → is_cancelled j is ≡ false
    → is_cancelled j js ≡ false
    → is_cancelled j (is ++ js) ≡ false
any-append j [] js h k = k
any-append j (i ∷ is) js h k = ground (arith, any-append j is js)

any-remove_first :
    (j i : ℕ) (js : List ℕ) → is_cancelled j js ≡ false → is_cancelled j (remove_first i js) ≡ false
unfolding remove_first
any-remove_first j i [] h = refl
any-remove_first j i (k ∷ ks) h = ground (arith, any-remove_first j i ks)

-- A job that was cancelled and is not in flight.
abbrev pub IsDead : ℕ → Scheduler → Type 0
IsDead j s = (is_cancelled j s.cancelled ≡ true) × (is_cancelled j s.running ≡ false)

process-IsDead : (j : ℕ) (q : List ℕ) (s : Scheduler) → IsDead j s → IsDead j (process q s)
unfolding process run_job
process-IsDead j [] s d = d
process-IsDead j (i ∷ is) s d = elim (Bool-cases (is_cancelled i s.cancelled)) [
  | inl gone ↦ ground (arith, gone, process-IsDead j is s d)
  | inr live ↦
      ground
        (arith, live, process-IsDead j is (run_job i s), any-append j s.running (i ∷ []) d.1, d.0)
]

Event-IsDead : (j : ℕ) {s t : Scheduler} → Event s t → IsDead j s → IsDead j t
unfolding schedule_cover_fetch process_queue cancel finish
Event-IsDead j {s} schedules d = process-IsDead j (s.pending_queue ++ s.next_job ∷ []) _ d
Event-IsDead j {s} (cancels i h) d = ground arith
Event-IsDead j {s} (finishes i h) d =
    process-IsDead j s.pending_queue _ (d.0, any-remove_first j i s.running d.1)

-- Any events from a state on.
pub data Later (s : Scheduler) : Scheduler → Type 0 where
  now : Later s s
  then_on : {t u : Scheduler} → Later s t → Event t u → Later s u

-- A job that is cancelled while its fetch is not in flight is not fetched afterwards either.
pub Later-cancel :
    (j : ℕ) (s : Scheduler) {t : Scheduler}
    → is_cancelled j s.running ≡ false
    → Later (cancel j s) t
    → is_cancelled j t.running ≡ false
unfolding cancel
Later-cancel j s h l = (go l).1
  where
    go : {t : Scheduler} → Later (cancel j s) t → IsDead j t
    go now = (ground arith, h)
    go (then_on l e) = Event-IsDead j e (go l)
