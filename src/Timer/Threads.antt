-- ===== src/Timer/Threads.antt =====
-- codechiev/net/Timer.cpp: a timer queue among threads. A call of addTask looks at the first task before it
-- takes the mutex, and the scheduler reads the expiration before `expire` takes it, so that others can
-- run in between. What is done under the mutex is one step.
pub mod Keeps
use codechiev.Common.{
  ℕ, zero, suc, Bool, true, false, Option, none, some, List, [], ◌∷◌, ℤ, if◌then◌else◌,
}
use codechiev.Timer.{TimerQueue, covered, expire, run_out}
use codechiev.Timer
use codechiev.Timer.Race.{add_looked}

-- A call of addTask that has looked at the first task.
pub record Look : Type 0 where
  pub is_covered : Bool
  pub expired : ℤ
  pub task : ℕ

pub record Threads : Type 0 where
  pub queue : TimerQueue
  pub looks : List Look
  pub expiring : Bool

unfoldable pub new : Threads
new = record { queue = Timer.new; looks = []; expiring = false }

-- The i-th of the calls, and the others.
unfoldable pub take_out : ℕ → List Look → Option (Look × List Look)
take_out i [] = none
take_out zero (l ∷ ls) = some (l, ls)
take_out (suc i) (l ∷ ls) = elim (take_out i ls) [
  | none ↦ none
  | some (found, rest) ↦ some (found, l ∷ rest)
]

pub data Event : Type 0 where
  looks_first : (expired : ℤ) (task : ℕ) → Event
  goes_on : (i : ℕ) (now : ℤ) → Event
  runs_out reads : Event
  expires : (now : ℕ → ℤ) → Event

-- The rest of a call of addTask.
abbrev pub go_on : ℤ → Threads → Option (Look × List Look) → Threads
go_on now s none = s
go_on now s (some (l, rest)) = record s {
  queue = add_looked l.is_covered now l.expired l.task s.queue;
  looks = rest;
}

unfoldable pub step : Threads → Event → Threads
step s (looks_first expired task) =
    let look : Look = record {
      is_covered = covered expired s.queue.tasks;
      expired = expired;
      task = task;
    } in
    record s { looks = look ∷ s.looks }
step s (goes_on i now) = go_on now s (take_out i s.looks)
step s runs_out = record s { queue = record s.queue { timer = run_out s.queue.timer } }
step s reads =
    if s.queue.timer.fired
    then record s {
      queue = record s.queue { timer = record { alarm = s.queue.timer.alarm; fired = false } };
      expiring = true;
    }
    else s
step s (expires now) =
    if s.expiring then record s { queue = expire now s.queue; expiring = false } else s

unfoldable pub run : Threads → List Event → Threads
run s [] = s
run s (e ∷ es) = run (step s e) es
