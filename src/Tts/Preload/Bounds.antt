-- ===== src/Tts/Preload/Bounds.antt =====
-- The invariant of the preloads of `BackendTTS` (frontend/src/lib/tts.ts).
use z_reader.Prelude.{
  ℕ, ◌+◌, ◌-◌, ◌≤◌, ◌<◌, ◌≡◌, ◌⊎◌, inl, inr, refl, ap, ◌∙◌, String, str_eq, Bool, not, ◌||◌, Option,
  none, some, List, [], ◌∷◌, ◌++◌, ltb, ◌==◌, length, filter, any, length-append, length-filter-le,
  arith, Bool-cases, Option-cases,
}
use z_reader.JsMap
use z_reader.Tts.Preload.{
  preload_each, preload_multiple, to_preload, Task, PreloadedAudio, Run, Preloads, initial,
  is_preloaded, start_task, pump, pump_preload_queue, preload, trim_preload_queue, finish_task,
  settle, cancel_preload, cancel_all_preloads, clear_preload_queue, cancel_each,
  cleanup_irrelevant_preloads, max_preload_count, max_preload_concurrency, take_preloaded, resolve,
  ssmls_of, max_backend_ssml_bytes,
}

pub record IsValid (s : Preloads) : Type 0 where
  pub counted : s.active_preload_count ≡ length s.running
  pub limited : s.active_preload_count ≤ max_preload_concurrency
  pub busy : (s.pending_preload_tasks ≡ []) ⊎ (s.active_preload_count ≡ max_preload_concurrency)
  pub short : length s.preloaded_queue ≤ max_preload_count

-- What the pump needs: a slot may be free.
abbrev IsReady : Preloads → Type 0
IsReady s =
    (s.active_preload_count ≡ length s.running)
    × (s.active_preload_count ≤ max_preload_concurrency)
    × (length s.preloaded_queue ≤ max_preload_count)

start_task-counts :
    (cached : String → Bool) (t : Task) (s : Preloads)
    → ((start_task cached t s).active_preload_count ≡ s.active_preload_count + 1)
      × (length (start_task cached t s).running ≡ length s.running + 1)
      × ((start_task cached t s).preloaded_queue ≡ s.preloaded_queue)
unfolding start_task
start_task-counts cached t s =
    elim (Bool-cases (cached t.ssml || is_preloaded t.ssml s.preloaded_queue)) [
      | inl there ↦
          rw (there, start_task)
            (
              refl,
              omega
                  (arith, length-append s.running ((record { task = t; controller = none }) ∷ [])),
              refl,
            )
      | inr absent ↦
          rw (absent, start_task)
            (
              refl,
              omega (
                arith,
                length-append s.running
                    ((record { task = t; controller = some s.next_controller }) ∷ []),
              ),
              refl,
            )
    ]

pump-IsValid :
    (cached : String → Bool) (ts : List Task) (s : Preloads)
    → IsReady s
    → IsValid (pump cached ts s)
unfolding pump
pump-IsValid cached [] s r = record { counted = r.0; limited = r.1; busy = inl refl; short = r.2 }
pump-IsValid cached (t ∷ ts) s r =
    elim (Bool-cases (ltb s.active_preload_count max_preload_concurrency)) [
      | inr full ↦
          rw (full, pump)
            (record {
              counted = r.0;
              limited = r.1;
              busy = inr (ground (arith, full, r.1));
              short = r.2;
            })
      | inl free ↦
          let (count, runs, queue) = start_task-counts cached t s in
          let room : s.active_preload_count < max_preload_concurrency = ground (arith, free) in
          rw (free, pump)
            (pump-IsValid cached ts (start_task cached t s) (
              omega (arith, r.0, count, runs),
              omega (arith, room, count),
              omega (arith, r.2, ap (λ (q : List PreloadedAudio). length q) queue),
            ))
    ]

length-trim : (ps : List PreloadedAudio) → length (trim_preload_queue ps) ≤ max_preload_count
unfolding trim_preload_queue
length-trim [] = omega arith
length-trim (p ∷ ps) = ground (arith, length-trim ps)

finish_task-keeps :
    (r : Run) (blob : Option ℕ) (s : Preloads)
    → length s.preloaded_queue ≤ max_preload_count
    → ((finish_task r blob s).active_preload_count ≡ s.active_preload_count)
      × (length (finish_task r blob s).preloaded_queue ≤ max_preload_count)
unfolding finish_task
finish_task-keeps r blob s h = elim (Option-cases r.controller) [
  | inl early ↦ rw (early, finish_task) (refl, h)
  | inr (c, own) ↦ elim (Option-cases blob) [
    | inl failed ↦ rw (own, failed, finish_task) (refl, h)
    | inr (b, came) ↦ elim (Bool-cases (any (λ d. d == c) s.aborted)) [
      | inl gone ↦ rw (own, came, gone, finish_task) (refl, h)
      | inr live ↦
          rw (own, came, live, finish_task)
            (
              refl,
              length-trim (
                  s.preloaded_queue
                  ++ (record { blob = b; ssml = r.task.ssml; marks = r.task.marks }) ∷ []),
            )
    ]
  ]
]

-- The events: a preload is asked for, a started task ends with or without audio, and the calls
-- that cancel.
pub data Event (s : Preloads) : Preloads → Type 0 where
  preloads :
      (bytes : String → ℕ) (cached : String → Bool) (ssml : String) (marks : Option ℕ)
      → Event s (preload bytes cached ssml marks s)
  preloads_multiple :
      (bytes : String → ℕ) (cached : String → Bool) (xs : List String)
      → Event s (preload_multiple bytes cached xs s)
  settles :
      (cached : String → Bool) (before : List Run) (r : Run) (after : List Run) (blob : Option ℕ)
      → s.running ≡ before ++ r ∷ after
      → Event s (settle cached before r after blob s)
  cancels : (ssml : String) → Event s (cancel_preload ssml s)
  cancels_all : Event s (cancel_all_preloads s)
  clears : Event s (clear_preload_queue s)
  cleans_up : (relevant : String → Bool) → Event s (cleanup_irrelevant_preloads relevant s)
  takes :
      (ssml : String)
      → Event s (record s { preloaded_queue = (take_preloaded ssml s.preloaded_queue).0 })

pub data Reach : Preloads → Type 0 where
  start : Reach initial
  next : {s t : Preloads} → Reach s → Event s t → Reach t

drop-busy :
    (keep : Task → Bool) (ts : List Task) (n : ℕ)
    → (ts ≡ []) ⊎ (n ≡ max_preload_concurrency)
    → (filter keep ts ≡ []) ⊎ (n ≡ max_preload_concurrency)
drop-busy keep ts n (inl none_wait) = inl (ap (λ x. filter keep x) none_wait)
drop-busy keep ts n (inr all_busy) = inr all_busy

cancel_preload-IsValid :
    (ssml : String) (s : Preloads) → IsValid s → IsValid (cancel_preload ssml s)
unfolding cancel_preload
cancel_preload-IsValid ssml s v =
    let busy =
      drop-busy (λ t. not (str_eq t.ssml ssml)) s.pending_preload_tasks s.active_preload_count
        v.busy in
    elim (Option-cases (JsMap.get ssml s.preload_abort_controllers)) [
      | inl idle ↦
          rw (idle, cancel_preload)
            (record { counted = v.counted; limited = v.limited; busy = busy; short = v.short })
      | inr (c, running) ↦
          rw (running, cancel_preload)
            (record { counted = v.counted; limited = v.limited; busy = busy; short = v.short })
    ]

cancel_each-IsValid : (xs : List String) (s : Preloads) → IsValid s → IsValid (cancel_each xs s)
unfolding cancel_each
cancel_each-IsValid [] s v = v
cancel_each-IsValid (x ∷ xs) s v =
    cancel_each-IsValid xs (cancel_preload x s) (cancel_preload-IsValid x s v)

cleanup-IsValid :
    (relevant : String → Bool) (s : Preloads)
    → IsValid s
    → IsValid (cleanup_irrelevant_preloads relevant s)
unfolding cleanup_irrelevant_preloads
cleanup-IsValid relevant s v =
    let kept = filter (λ (p : PreloadedAudio). relevant p.ssml) s.preloaded_queue in
    let short : length kept ≤ max_preload_count = omega (
      arith,
      v.short,
      length-filter-le (λ (p : PreloadedAudio). relevant p.ssml) s.preloaded_queue,
    ) in
    let removed =
      ssmls_of (filter (λ (p : PreloadedAudio). not (relevant p.ssml)) s.preloaded_queue) in
    let u =
      cancel_each-IsValid removed (record s { preloaded_queue = kept })
        (record { counted = v.counted; limited = v.limited; busy = v.busy; short = short }) in
    let s' = cancel_each removed (record s { preloaded_queue = kept }) in
    record {
      counted = u.counted;
      limited = u.limited;
      busy =
          drop-busy (λ t. relevant t.ssml) s'.pending_preload_tasks s'.active_preload_count u.busy;
      short = u.short;
    }

settle-IsValid :
    (cached : String → Bool) (before : List Run) (r : Run) (after : List Run) (blob : Option ℕ)
    (s : Preloads)
    → s.running ≡ before ++ r ∷ after
    → IsValid s
    → IsValid (settle cached before r after blob s)
unfolding settle pump_preload_queue
settle-IsValid cached before r after blob s place v =
    let s' = finish_task r blob s in
    let (same, short) = finish_task-keeps r blob s v.short in
    let u : Preloads = record s' {
      active_preload_count = s'.active_preload_count - 1;
      running = before ++ after;
      preload_promises = resolve r.task s'.preload_promises;
    } in
    let size : length s.running ≡ length before + length (r ∷ after) =
      ap (λ (q : List Run). length q) place ∙ length-append before (r ∷ after) in
    pump-IsValid cached s'.pending_preload_tasks u (
      omega (arith, same, v.counted, size, length-append before after),
      omega (arith, same, v.limited),
      short,
    )

preload-IsValid :
    (bytes : String → ℕ) (cached : String → Bool) (ssml : String) (marks : Option ℕ) (s : Preloads)
    → IsValid s
    → IsValid (preload bytes cached ssml marks s)
unfolding preload pump_preload_queue
preload-IsValid bytes cached ssml marks s v =
    elim (Bool-cases (str_eq ssml "" || ltb max_backend_ssml_bytes (bytes ssml))) [
      | inl bad ↦ rw (bad, preload) v
      | inr fit ↦ elim (Bool-cases (cached ssml || is_preloaded ssml s.preloaded_queue)) [
        | inl there ↦ rw (fit, there, preload) v
        | inr absent ↦ elim (Bool-cases (JsMap.has ssml s.preload_promises)) [
          | inl asked ↦ rw (fit, absent, asked, preload) v
          | inr fresh ↦
              let ts =
                s.pending_preload_tasks
                ++ (record { ssml = ssml; marks = marks; promise = s.next_promise }) ∷ [] in
              let u =
                pump-IsValid cached ts
                  (record s { pending_preload_tasks = ts; next_promise = s.next_promise + 1 })
                  (v.counted, v.limited, v.short) in
              rw (fit, absent, fresh, preload)
                (record {
                  counted = u.counted;
                  limited = u.limited;
                  busy = u.busy;
                  short = u.short;
                })
        ]
      ]
    ]

preload_each-IsValid :
    (bytes : String → ℕ) (cached : String → Bool) (xs : List String) (s : Preloads)
    → IsValid s
    → IsValid (preload_each bytes cached xs s)
unfolding preload_each
preload_each-IsValid bytes cached [] s v = v
preload_each-IsValid bytes cached (x ∷ xs) s v =
    preload_each-IsValid bytes cached xs (preload bytes cached x none s)
      (preload-IsValid bytes cached x none s v)

length-take_preloaded :
    (ssml : String) (q : List PreloadedAudio) → length (take_preloaded ssml q).0 ≤ length q
unfolding take_preloaded
length-take_preloaded ssml [] = omega arith
length-take_preloaded ssml (p ∷ ps) = elim (Bool-cases (str_eq p.ssml ssml)) [
  | inl found ↦ rw (found, take_preloaded) (omega arith)
  | inr other ↦ rw (other, take_preloaded) (omega (arith, length-take_preloaded ssml ps))
]

Event-IsValid : {s t : Preloads} → Event s t → IsValid s → IsValid t
unfolding cancel_all_preloads clear_preload_queue preload_multiple
Event-IsValid {s = s} (preloads bytes cached ssml marks) v =
    preload-IsValid bytes cached ssml marks s v
Event-IsValid {s = s} (preloads_multiple bytes cached xs) v =
    preload_each-IsValid bytes cached (to_preload cached xs s) s v
Event-IsValid {s = s} (settles cached before r after blob place) v =
    settle-IsValid cached before r after blob s place v
Event-IsValid {s = s} (cancels ssml) v = cancel_preload-IsValid ssml s v
Event-IsValid cancels_all v = record {
  counted = v.counted;
  limited = v.limited;
  busy = inl refl;
  short = v.short;
}
Event-IsValid clears v = record {
  counted = v.counted;
  limited = v.limited;
  busy = inl refl;
  short = omega arith;
}
Event-IsValid {s = s} (cleans_up relevant) v = cleanup-IsValid relevant s v
Event-IsValid {s = s} (takes ssml) v = record {
  counted = v.counted;
  limited = v.limited;
  busy = v.busy;
  short = omega (arith, v.short, length-take_preloaded ssml s.preloaded_queue);
}

-- In every state that the events of the preloads lead to, the count of active preloads is the
-- number of tasks that run, it is at most two, at most six texts have their audio ready, and a
-- task waits only while two others run.
pub preloads_stay_bounded : {s : Preloads} → Reach s → IsValid s
unfolding initial
preloads_stay_bounded start = record {
  counted = refl;
  limited = omega arith;
  busy = inl refl;
  short = omega arith;
}
preloads_stay_bounded (next before e) = Event-IsValid e (preloads_stay_bounded before)
