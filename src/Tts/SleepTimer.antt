-- ===== src/Tts/SleepTimer.antt =====
-- frontend/src/hooks/useTTSSleepTimer.ts: the sleep timer and the time-outs of the browser, which
-- are named by numbers. Times are in milliseconds.
use z_reader.Prelude.{
  ℕ, ◌+◌, ◌*◌, ◌≡◌, refl, true, not, Option, none, some, List, [], ◌∷◌, ◌++◌, ◌==◌, filter, any,
  arith, Option-cases, inl, inr, ap,
}

pub data TtsSleepTimer : Type 0 where
  off : TtsSleepTimer
  minutes : ℕ → ℕ → TtsSleepTimer

-- The refs of the hook, the time-outs that are set, and how often `onExpire` was called.
pub record SleepTimer : Type 0 where
  pub sleep_timer : TtsSleepTimer
  pub timeout : Option ℕ
  pub scheduled : List ℕ
  pub next_timeout : ℕ
  pub expired : ℕ

unfoldable pub initial : SleepTimer
initial = record {
  sleep_timer = off;
  timeout = none;
  scheduled = [];
  next_timeout = 0;
  expired = 0;
}

-- `window.clearTimeout`
abbrev pub clear_timeout : ℕ → List ℕ → List ℕ
clear_timeout t ts = filter (λ u. not (u == t)) ts

unfoldable pub clear_sleep_timer_timeout : SleepTimer → SleepTimer
clear_sleep_timer_timeout s = elim s.timeout [
  | none ↦ s
  | some t ↦ record s { timeout = none; scheduled = clear_timeout t s.scheduled }
]

unfoldable pub clear_sleep_timer : SleepTimer → SleepTimer
unfolding clear_sleep_timer_timeout
clear_sleep_timer s = record (clear_sleep_timer_timeout s) { sleep_timer = off }

unfoldable pub set_sleep_timer_for_minutes : ℕ → ℕ → SleepTimer → SleepTimer
unfolding clear_sleep_timer_timeout
set_sleep_timer_for_minutes n now s =
    let s' = clear_sleep_timer_timeout s in
    record s' {
      sleep_timer = minutes n (now + n * 60 * 1000);
      timeout = some s'.next_timeout;
      scheduled = s'.scheduled ++ s'.next_timeout ∷ [];
      next_timeout = s'.next_timeout + 1;
    }

-- The callback of a time-out, which the browser has taken off its list.
unfoldable pub fire : ℕ → SleepTimer → SleepTimer
unfolding clear_sleep_timer
fire t s =
    let s' = clear_sleep_timer (record s { scheduled = clear_timeout t s.scheduled }) in
    record s' { expired = s'.expired + 1 }

pub data Event (s : SleepTimer) : SleepTimer → Type 0 where
  sets : (n now : ℕ) → Event s (set_sleep_timer_for_minutes n now s)
  clears : Event s (clear_sleep_timer s)
  leaves : Event s (clear_sleep_timer_timeout s)
  fires : (t : ℕ) → any (λ u. u == t) s.scheduled ≡ true → Event s (fire t s)

pub data Reach : SleepTimer → Type 0 where
  start : Reach initial
  next : {s t : SleepTimer} → Reach s → Event s t → Reach t

abbrev pub to_list : Option ℕ → List ℕ
to_list none = []
to_list (some t) = t ∷ []

cleared_scheduled :
    (s : SleepTimer)
    → s.scheduled ≡ to_list s.timeout
    → ((clear_sleep_timer_timeout s).scheduled ≡ [])
      × ((clear_sleep_timer_timeout s).timeout ≡ none)
unfolding clear_sleep_timer_timeout
cleared_scheduled s h = elim (Option-cases s.timeout) [
  | inl idle ↦ ground (arith, idle, h)
  | inr (t, set_) ↦ ground (arith, set_, h)
]

cleared_fired :
    (t : ℕ) (s : SleepTimer)
    → s.scheduled ≡ to_list s.timeout
    → any (λ u. u == t) s.scheduled ≡ true
    → ((fire t s).scheduled ≡ []) × ((fire t s).timeout ≡ none)
unfolding fire clear_sleep_timer clear_sleep_timer_timeout
cleared_fired t s h due = elim (Option-cases s.timeout) [
  | inl idle ↦ ground (arith, idle, h)
  | inr (u, set_) ↦ ground (arith, set_, h)
]

-- In every state that the calls and the time-outs lead to, the browser has exactly the time-out that
-- the hook remembers, so that a timer that was replaced or cleared never stops the reading.
pub one_timeout : {s : SleepTimer} → Reach s → s.scheduled ≡ to_list s.timeout
unfolding initial set_sleep_timer_for_minutes clear_sleep_timer
one_timeout start = refl
one_timeout (next {s = s} before (sets n now)) =
    let c = cleared_scheduled s (one_timeout before) in
    ap (λ (l : List ℕ). l ++ (clear_sleep_timer_timeout s).next_timeout ∷ []) c.0
one_timeout (next {s = s} before clears) =
    let c = cleared_scheduled s (one_timeout before) in rw (c.0, c.1) refl
one_timeout (next {s = s} before leaves) =
    let c = cleared_scheduled s (one_timeout before) in rw (c.0, c.1) refl
one_timeout (next {s = s} before (fires t due)) =
    let c = cleared_fired t s (one_timeout before) due in rw (c.0, c.1) refl
