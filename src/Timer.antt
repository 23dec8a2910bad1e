-- ===== src/Timer.antt =====
-- codechiev/net/Timer.cpp and Timer.hpp: timers, the queue of timed tasks, and the scheduler.
-- Times are milliseconds as integers; the differences that the code takes are assumed to fit an
-- int64_t. A task is a number, and running it appends it to `ran`. The tests `.001 * millis` are
-- truncated to whole seconds when they are stored, so they are divisions by 1000.
pub mod Clock
pub mod Schedule
pub mod Sorted
pub mod Expire
pub mod Alarm
pub mod Keeps
pub mod Race
pub mod Threads
pub mod System
pub mod Refine
use codechiev.Common.{
  ℕ, zero, suc, ◌+◌, Bool, true, false, Option, none, some, List, [], ◌∷◌, ◌++◌, ℤ, pos, negsuc,
  ◌-ℤ◌, ltb_ℤ, if◌then◌else◌,
}

-- TIMER_ACCURACY
abbrev pub timer_accuracy : ℤ
timer_accuracy = pos 30

-- The timer's descriptor: when it will expire, and whether an expiration waits to be read.
pub record Timer : Type 0 where
  pub alarm : Option ℤ
  pub fired : Bool

-- Timer::expireAt. `timerfd_settime` disarms the timer at 0 and refuses a negative time; setting it
-- drops an expiration that nobody has read.
unfoldable pub expire_at : ℤ → Timer → Timer
expire_at (pos zero) t = record { alarm = none; fired = false }
expire_at (pos (suc n)) t = record { alarm = some (pos (suc n)); fired = false }
expire_at (negsuc n) t = t

-- std::multimap<int64_t, timer_cb>: entries in the order of their keys.
abbrev pub Tasks : Type 0
Tasks = List (ℤ × ℕ)

-- An entry goes behind those of the same key.
unfoldable pub insert : ℤ → ℕ → Tasks → Tasks
insert k v [] = (k, v) ∷ []
insert k v ((j, w) ∷ m) = if ltb_ℤ k j then (k, v) ∷ ((j, w) ∷ m) else (j, w) ∷ insert k v m

pub record TimerQueue : Type 0 where
  pub timer : Timer
  pub tasks : Tasks
  pub ran : List ℕ

unfoldable pub new : TimerQueue
new = record { timer = record { alarm = none; fired = false }; tasks = []; ran = [] }

-- The first task is not due much later than `expired`, so the timer is set early enough.
unfoldable pub covered : ℤ → Tasks → Bool
covered expired [] = false
covered expired ((first, _) ∷ _) = ltb_ℤ (first -ℤ expired) timer_accuracy

-- TimerQueue::addTask, at the time `now`, when no other thread runs between its look at the first task
-- and its lock (Timer/Threads has them apart).
unfoldable pub add_task : ℤ → ℤ → ℕ → TimerQueue → TimerQueue
add_task now expired task q =
    if covered expired q.tasks
    then record q { tasks = insert expired task q.tasks }
    else (if ltb_ℤ (expired -ℤ now) timer_accuracy
        then record q { ran = q.ran ++ (task ∷ []) }
        else record q { tasks = insert expired task q.tasks; timer = expire_at expired q.timer })

-- The loop of TimerQueue::expire. `now i` is what the i-th call of Time::Now answers. The tasks that
-- are taken, those that stay, and the time for which the timer is set anew.
pub record Split : Type 0 where
  pub due : List ℕ
  pub left : Tasks
  pub next : Option ℤ

unfoldable pub take_due : (ℕ → ℤ) → ℕ → Tasks → Split
take_due now i [] = record { due = []; left = []; next = none }
take_due now i ((t, task) ∷ m) =
    let rest = take_due now (i + 1) m in
    if ltb_ℤ (t -ℤ now i) timer_accuracy
    then record rest { due = task ∷ rest.due }
    else record { due = []; left = (t, task) ∷ m; next = some t }

unfoldable pub rearm : Option ℤ → Timer → Timer
rearm none t = t
rearm (some at) t = expire_at at t

unfoldable pub expire : (ℕ → ℤ) → TimerQueue → TimerQueue
expire now q =
    let split = take_due now 0 q.tasks in
    record { timer = rearm split.next q.timer; tasks = split.left; ran = q.ran ++ split.due }

-- What happens to a queue, one after the other: a call of addTask, the timer running out, and the scheduler reading the
-- expiration and calling `expire`.
pub data Event : Type 0 where
  adds : (now expired : ℤ) (task : ℕ) → Event
  runs_out : Event
  expires : (now : ℕ → ℤ) → Event

unfoldable pub run_out : Timer → Timer
run_out t = elim t.alarm [ none ↦ t | some _ ↦ record { alarm = none; fired = true } ]

-- The scheduler calls `expire` only if it can read an expiration.
unfoldable pub read_timer : (ℕ → ℤ) → TimerQueue → TimerQueue
read_timer now q =
    if q.timer.fired
    then expire now (record q { timer = record { alarm = q.timer.alarm; fired = false } })
    else q

unfoldable pub step : TimerQueue → Event → TimerQueue
step q (adds now expired task) = add_task now expired task q
step q runs_out = record q { timer = run_out q.timer }
step q (expires now) = read_timer now q

unfoldable pub run : TimerQueue → List Event → TimerQueue
run q [] = q
run q (e ∷ es) = run (step q e) es
