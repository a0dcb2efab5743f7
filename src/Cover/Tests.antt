-- ===== src/Cover/Tests.antt =====
-- The cover queue and the cover cache on concrete calls.
use z_reader.Prelude.{◌+◌, ◌≡◌, str_eq, [], ◌∷◌, if◌then◌else◌, arith}
use z_reader.JsMap
use z_reader.JsMap.Laws.{IsUnique}
use z_reader.Cover.Queue.{
  Scheduler, initial, schedule_cover_fetch, cancel, start, next, schedules, cancels,
}
use z_reader.Cover.Queue.Bounds.{IsValid, Reach-IsValid}
use z_reader.Cover.UrlCache.{Urls, set_cached_cover_url}
use z_reader.Cover.UrlCache.Laws.{count, held, set_cached_revokes}

abbrev two_scheduled : Scheduler
two_scheduled = (schedule_cover_fetch (schedule_cover_fetch initial).0).0

Reach-IsValid_example : IsValid (cancel 1 two_scheduled)
unfolding schedule_cover_fetch initial
Reach-IsValid_example =
    Reach-IsValid (next (next (next start schedules) schedules) (cancels 1 (omega arith)))

-- Six fetches run and two jobs wait.
abbrev crowded : Scheduler
crowded = record {
  pending_queue = 6 ∷ 7 ∷ [];
  active_count = 6;
  cancelled = [];
  running = 0 ∷ 1 ∷ 2 ∷ 3 ∷ 4 ∷ 5 ∷ [];
  next_job = 8;
}

crowded-IsValid : IsValid crowded
crowded-IsValid = ground arith

abbrev covers : Urls
covers = ("b1:old", "blob:1") ∷ ("b2:x", "blob:2") ∷ []

covers-IsUnique : IsUnique covers
unfolding JsMap.get
covers-IsUnique = ground arith

set_cached_revokes_example :
    held "blob:1" (set_cached_cover_url "b1" "b1:new" "blob:3" covers).0
      + count "blob:1" (set_cached_cover_url "b1" "b1:new" "blob:3" covers).1
    ≡ held "blob:1" covers + (if str_eq "blob:3" "blob:1" then 1 else 0)
unfolding JsMap.get
set_cached_revokes_example =
    set_cached_revokes "b1" "b1:new" "blob:3" covers covers-IsUnique "blob:1" (λ e. ground arith)
      (λ e. ground arith)
