-- ===== src/Cover/Queue.antt =====
-- `scheduleCoverFetch`, the cancel function that it returns, and `processQueue` of
-- frontend/src/hooks/useCoverUrl.ts. A job object is named by a number; `cancelled` holds the jobs
-- whose flag is set and whose signal is aborted, `running` those whose fetch is in flight.
pub mod Bounds
pub mod Order
use z_reader.Prelude.{
  ℕ, ◌+◌, ◌-◌, ◌<◌, ◌≡◌, Bool, true, false, List, [], ◌∷◌, ◌++◌, if◌then◌else◌, ltb, ◌==◌, not,
  filter, any, length,
}

abbrev pub max_concurrent : ℕ
max_concurrent = 6

pub record Scheduler : Type 0 where
  pub pending_queue : List ℕ
  pub active_count : ℕ
  pub cancelled : List ℕ
  pub running : List ℕ
  pub next_job : ℕ

unfoldable pub initial : Scheduler
initial = record {
  pending_queue = [];
  active_count = 0;
  cancelled = [];
  running = [];
  next_job = 0;
}

abbrev pub is_cancelled : ℕ → List ℕ → Bool
is_cancelled j js = any (λ i. i == j) js

-- `job.run()`
unfoldable pub run_job : ℕ → Scheduler → Scheduler
run_job j s =
    if is_cancelled j s.cancelled
    then s
    else record s { active_count = s.active_count + 1; running = s.running ++ j ∷ [] }

-- The loop of `processQueue` over the queue, which is then what is left of it.
unfoldable pub process : List ℕ → Scheduler → Scheduler
unfolding run_job
process [] s = record s { pending_queue = [] }
process (j ∷ js) s =
    let skipped = process js s in
    let started = process js (run_job j s) in
    if ltb s.active_count max_concurrent
    then if is_cancelled j s.cancelled then skipped else started
    else record s { pending_queue = j ∷ js }

unfoldable pub process_queue : Scheduler → Scheduler
unfolding process
process_queue s = process s.pending_queue s

unfoldable pub schedule_cover_fetch : Scheduler → Scheduler × ℕ
unfolding process_queue
schedule_cover_fetch s = (
  process_queue
      (record s { pending_queue = s.pending_queue ++ s.next_job ∷ []; next_job = s.next_job + 1 }),
  s.next_job,
)

-- `pendingQueue.splice(index, 1)` at the first place of the job, if it is there
unfoldable pub remove_first : ℕ → List ℕ → List ℕ
remove_first j [] = []
remove_first j (i ∷ is) = if i == j then is else i ∷ remove_first j is

-- The function that `scheduleCoverFetch` returns.
unfoldable pub cancel : ℕ → Scheduler → Scheduler
unfolding remove_first
cancel j s = record s {
  cancelled = j ∷ s.cancelled;
  pending_queue = remove_first j s.pending_queue;
}

-- The `finally` of a fetch in flight, whatever its outcome.
unfoldable pub finish : ℕ → Scheduler → Scheduler
unfolding process_queue remove_first
finish j s =
    process_queue
      (record s { active_count = s.active_count - 1; running = remove_first j s.running })

-- What can happen: a job is scheduled, a scheduled job is cancelled (at any time, also again), or
-- a fetch in flight ends.
pub data Event (s : Scheduler) : Scheduler → Type 0 where
  schedules : Event s (schedule_cover_fetch s).0
  cancels : (j : ℕ) → j < s.next_job → Event s (cancel j s)
  finishes : (j : ℕ) → is_cancelled j s.running ≡ true → Event s (finish j s)

pub data Reach : Scheduler → Type 0 where
  start : Reach initial
  next : {s t : Scheduler} → Reach s → Event s t → Reach t
