-- ===== src/Timer/Race.antt =====
-- codechiev/net/Timer.cpp: TimerQueue::addTask looks at the first task before it takes the mutex, so that other
-- threads can run in between.
use codechiev.Common.{
  ℕ, ◌+◌, ◌≡◌, refl, Bool, true, false, none, [], ◌∷◌, ◌++◌, ℤ, ◌-ℤ◌, ltb_ℤ, if◌then◌else◌,
}
use codechiev.Timer.{
  Tasks, TimerQueue, timer_accuracy, covered, insert, expire_at, add_task, take_due, expire, rearm,
  read_timer,
}

-- What is left to do of addTask when the first task has been looked at.
unfoldable pub add_looked : Bool → ℤ → ℤ → ℕ → TimerQueue → TimerQueue
add_looked is_covered now expired task q =
    if is_covered
    then record q { tasks = insert expired task q.tasks }
    else (if ltb_ℤ (expired -ℤ now) timer_accuracy
        then record q { ran = q.ran ++ (task ∷ []) }
        else record q { tasks = insert expired task q.tasks; timer = expire_at expired q.timer })

-- Without another thread in between, this is addTask.
pub add_looked-covered :
    (now expired : ℤ) (task : ℕ) (q : TimerQueue)
    → add_looked (covered expired q.tasks) now expired task q ≡ add_task now expired task q
unfolding add_looked add_task
add_looked-covered now expired task q = refl

-- All tasks are due when `expire` looks at them.
abbrev pub AllDue : (ℕ → ℤ) → ℕ → Tasks → Type 0
AllDue now i [] = Unit {0}
AllDue now i ((t, task) ∷ m) = (ltb_ℤ (t -ℤ now i) timer_accuracy ≡ true) × AllDue now (i + 1) m

take_due-all :
    (now : ℕ → ℤ) (i : ℕ) (m : Tasks)
    → AllDue now i m
    → ((take_due now i m).left ≡ []) × ((take_due now i m).next ≡ none)
unfolding take_due
take_due-all now i [] due = (refl, refl)
take_due-all now i ((t, task) ∷ m) due = rw (due.0) (take_due-all now (i + 1) m due.1)

-- When addTask has seen that the first task of a timer queue is due early enough, and before it
-- takes the mutex the expiration is read and all tasks are due, the new task waits alone, and the
-- timer is not set and has no expiration to read.
pub add_looked-strands :
    (clock : ℕ → ℤ) (now expired : ℤ) (task : ℕ) (q : TimerQueue)
    → covered expired q.tasks ≡ true
    → q.timer ≡ record { alarm = none; fired = true }
    → AllDue clock 0 q.tasks
    → let after = add_looked (covered expired q.tasks) now expired task (read_timer clock q) in
      (after.tasks ≡ (expired, task) ∷ []) × (after.timer ≡ record { alarm = none; fired = false })
unfolding add_looked read_timer expire rearm insert
add_looked-strands clock now expired task q early out due =
    let (left, next) = take_due-all clock 0 q.tasks due in rw (early, out, left, next) (refl, refl)
