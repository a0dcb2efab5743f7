-- ===== src/Tts/Preload.antt =====
-- The preloads of `BackendTTS` in frontend/src/lib/tts.ts: the tasks that wait, the requests in
-- flight and the audio that is ready. Audio data, marks and controllers are named by numbers; the
-- size of an SSML text in bytes is an argument. What a task does after its `await` and in its
-- `finally` is one step; so is a promise that resolves and leaves `preloadPromises`.
pub mod Bounds
use z_reader.Prelude.{
  take, ◌&&◌, ◌-◌, not, ℕ, zero, suc, ◌+◌, ◌*◌, String, str_eq, Bool, true, false, ◌||◌, Option,
  none, some, List, [], ◌∷◌, ◌++◌, if◌then◌else◌, ltb, leb, ◌==◌, length, filter, any, is_some,
}
use z_reader.JsMap
use z_reader.JsMap.{JsMap}

pub record Task : Type 0 where
  pub ssml : String
  pub marks : Option ℕ
  pub promise : ℕ

pub record PreloadedAudio : Type 0 where
  pub blob : ℕ
  pub ssml : String
  pub marks : Option ℕ

-- A task that was started. `none` is the controller of one that returned at once, since its audio
-- was there.
pub record Run : Type 0 where
  pub task : Task
  pub controller : Option ℕ

pub record Preloads : Type 0 where
  pub preloaded_queue : List PreloadedAudio
  pub active_preload_count : ℕ
  pub pending_preload_tasks : List Task
  pub preload_abort_controllers : JsMap ℕ
  pub preload_promises : JsMap ℕ
  pub running : List Run
  pub aborted : List ℕ
  pub next_controller : ℕ
  pub next_promise : ℕ

abbrev pub max_preload_count : ℕ
max_preload_count = 6

abbrev pub max_preload_concurrency : ℕ
max_preload_concurrency = 2

abbrev pub max_backend_ssml_bytes : ℕ
max_backend_ssml_bytes = 32 * 1024

abbrev pub is_preloaded : String → List PreloadedAudio → Bool
is_preloaded ssml q = any (λ p. str_eq p.ssml ssml) q

unfoldable pub initial : Preloads
initial = record {
  preloaded_queue = [];
  active_preload_count = 0;
  pending_preload_tasks = [];
  preload_abort_controllers = [];
  preload_promises = [];
  running = [];
  aborted = [];
  next_controller = 0;
  next_promise = 0;
}

abbrev pub is_number : Option ℕ → ℕ → Bool
is_number none c = false
is_number (some d) c = d == c

-- `task.resolve()`: the promise leaves the map if it is still the one under its key.
abbrev pub resolve : Task → JsMap ℕ → JsMap ℕ
resolve t ps = if is_number (JsMap.get t.ssml ps) t.promise then JsMap.delete t.ssml ps else ps

abbrev pub resolve_all : List Task → JsMap ℕ → JsMap ℕ
resolve_all [] ps = ps
resolve_all (t ∷ ts) ps = resolve_all ts (resolve t ps)

-- The start of `runPreloadTask`, with the audio cache as the test `cached`.
unfoldable pub start_task : (String → Bool) → Task → Preloads → Preloads
start_task cached t s =
    let s' = record s { active_preload_count = s.active_preload_count + 1 } in
    if cached t.ssml || is_preloaded t.ssml s.preloaded_queue
    then record s' { running = s.running ++ (record { task = t; controller = none }) ∷ [] }
    else record s' {
      running = s.running ++ (record { task = t; controller = some s.next_controller }) ∷ [];
      preload_abort_controllers = JsMap.set t.ssml s.next_controller s.preload_abort_controllers;
      next_controller = s.next_controller + 1;
    }

-- The loop of `pumpPreloadQueue` over the tasks that wait.
unfoldable pub pump : (String → Bool) → List Task → Preloads → Preloads
unfolding start_task
pump cached [] s = record s { pending_preload_tasks = [] }
pump cached (t ∷ ts) s =
    let rest = pump cached ts (start_task cached t s) in
    if ltb s.active_preload_count max_preload_concurrency
    then rest
    else record s { pending_preload_tasks = t ∷ ts }

unfoldable pub pump_preload_queue : (String → Bool) → Preloads → Preloads
unfolding pump
pump_preload_queue cached s = pump cached s.pending_preload_tasks s

unfoldable pub preload : (String → ℕ) → (String → Bool) → String → Option ℕ → Preloads → Preloads
unfolding pump_preload_queue
preload bytes cached ssml marks s =
    if str_eq ssml "" || ltb max_backend_ssml_bytes (bytes ssml)
    then s
    else if cached ssml || is_preloaded ssml s.preloaded_queue
    then s
    else if JsMap.has ssml s.preload_promises
    then s
    else let s' = pump_preload_queue cached (record s {
      pending_preload_tasks =
          s.pending_preload_tasks
          ++ (record { ssml = ssml; marks = marks; promise = s.next_promise }) ∷ [];
      next_promise = s.next_promise + 1;
    }) in
      record s' { preload_promises = JsMap.set ssml s.next_promise s'.preload_promises }

unfoldable pub preload_each : (String → ℕ) → (String → Bool) → List String → Preloads → Preloads
unfolding preload
preload_each bytes cached [] s = s
preload_each bytes cached (x ∷ xs) s = preload_each bytes cached xs (preload bytes cached x none s)

-- `validList.slice(…)`
abbrev pub to_preload : (String → Bool) → List String → Preloads → List String
to_preload cached xs s =
    take (max_preload_count - length s.preloaded_queue)
      (filter (λ x. not (str_eq x "") && not (cached x || is_preloaded x s.preloaded_queue)) xs)

-- `preloadMultiple`
unfoldable pub preload_multiple : (String → ℕ) → (String → Bool) → List String → Preloads → Preloads
unfolding preload_each
preload_multiple bytes cached xs s = preload_each bytes cached (to_preload cached xs s) s

-- `trimPreloadQueue`: the oldest go until at most six are left.
unfoldable pub trim_preload_queue : List PreloadedAudio → List PreloadedAudio
trim_preload_queue [] = []
trim_preload_queue (p ∷ ps) =
    let rest = trim_preload_queue ps in
    if ltb max_preload_count (length (p ∷ ps)) then rest else p ∷ ps

abbrev pub is_aborted : ℕ → List ℕ → Bool
is_aborted c cs = any (λ d. d == c) cs

-- The rest of `runPreloadTask` with the audio that came, `none` if the request failed.
unfoldable pub finish_task : Run → Option ℕ → Preloads → Preloads
unfolding trim_preload_queue
finish_task r blob s = elim r.controller [
  | none ↦ s
  | some c ↦
      let controllers =
        if is_number (JsMap.get r.task.ssml s.preload_abort_controllers) c
        then JsMap.delete r.task.ssml s.preload_abort_controllers
        else s.preload_abort_controllers in
      let ready : List PreloadedAudio = elim blob [
        | none ↦ s.preloaded_queue
        | some b ↦
            if is_aborted c s.aborted
            then s.preloaded_queue
            else trim_preload_queue (
                s.preloaded_queue
                ++ (record { blob = b; ssml = r.task.ssml; marks = r.task.marks }) ∷ [])
      ] in
      record s { preloaded_queue = ready; preload_abort_controllers = controllers }
]

-- A started task ends, and its `finally` runs: the runs before and after it in the list stay.
unfoldable pub settle : (String → Bool) → List Run → Run → List Run → Option ℕ → Preloads → Preloads
unfolding finish_task pump_preload_queue
settle cached before r after blob s =
    let s' = finish_task r blob s in
    pump_preload_queue cached (record s' {
      active_preload_count = s'.active_preload_count - 1;
      running = before ++ after;
      preload_promises = resolve r.task s'.preload_promises;
    })

-- `cancelPreload`
unfoldable pub cancel_preload : String → Preloads → Preloads
cancel_preload ssml s =
    let kept = filter (λ (t : Task). not (str_eq t.ssml ssml)) s.pending_preload_tasks in
    let dropped = filter (λ (t : Task). str_eq t.ssml ssml) s.pending_preload_tasks in
    let promises = resolve_all dropped s.preload_promises in
    elim (JsMap.get ssml s.preload_abort_controllers) [
      | none ↦ record s { pending_preload_tasks = kept; preload_promises = promises }
      | some c ↦ record s {
        pending_preload_tasks = kept;
        preload_promises = promises;
        aborted = c ∷ s.aborted;
        preload_abort_controllers = JsMap.delete ssml s.preload_abort_controllers;
      }
    ]

-- `cancelAllPreloads`
unfoldable pub cancel_all_preloads : Preloads → Preloads
cancel_all_preloads s = record s {
  aborted = JsMap.values s.preload_abort_controllers ++ s.aborted;
  preload_abort_controllers = [];
  preload_promises = [];
  pending_preload_tasks = [];
}

-- `clearPreloadQueue` and `clearPreloadQueueOnly`
unfoldable pub clear_preload_queue : Preloads → Preloads
unfolding cancel_all_preloads
clear_preload_queue s = record (cancel_all_preloads s) { preloaded_queue = [] }

unfoldable pub cancel_each : List String → Preloads → Preloads
unfolding cancel_preload
cancel_each [] s = s
cancel_each (x ∷ xs) s = cancel_each xs (cancel_preload x s)

abbrev pub ssmls_of : List PreloadedAudio → List String
ssmls_of [] = []
ssmls_of (p ∷ ps) = p.ssml ∷ ssmls_of ps

-- `cleanupIrrelevantPreloads`
unfoldable pub cleanup_irrelevant_preloads : (String → Bool) → Preloads → Preloads
unfolding cancel_each
cleanup_irrelevant_preloads relevant s =
    let removed =
      ssmls_of (filter (λ (p : PreloadedAudio). not (relevant p.ssml)) s.preloaded_queue) in
    let s' = cancel_each removed (record s {
      preloaded_queue = filter (λ (p : PreloadedAudio). relevant p.ssml) s.preloaded_queue;
    }) in
    let dropped = filter (λ (t : Task). not (relevant t.ssml)) s'.pending_preload_tasks in
    record s' {
      pending_preload_tasks = filter (λ (t : Task). relevant t.ssml) s'.pending_preload_tasks;
      preload_promises = resolve_all dropped s'.preload_promises;
    }

-- `speak` takes the audio of its SSML out of the queue.
unfoldable pub take_preloaded :
    String → List PreloadedAudio → List PreloadedAudio × Option PreloadedAudio
take_preloaded ssml [] = ([], none)
take_preloaded ssml (p ∷ ps) =
    let (rest, found) = take_preloaded ssml ps in
    if str_eq p.ssml ssml then (ps, some p) else (p ∷ rest, found)
