-- ===== src/BlockingQueue.antt =====
-- codechiev/base/BlockingQueue.hpp: a queue of jobs and the threads that run them.
-- A step is what one thread does while it holds the mutex, or between two times of holding it. A job is
-- a number. `notify` wakes one of the threads that wait, whichever, if there is one; a thread can
-- also wake without being notified.
pub mod Workers
pub mod Order
pub mod Wakeup
pub mod Stop
use codechiev.Common.{
  ℕ, ◌≡◌, Bool, true, false, not, ◌&&◌, Option, none, some, List, [], ◌∷◌, ◌++◌, map, replicate,
  if◌then◌else◌,
}
use Workers.{Worker, idle, waiting, runs, ended, Moves, Notified, wake}

pub record State : Type 0 where
  pub jobs : List ℕ
  pub running : Bool
  pub workers : List Worker

unfoldable pub new : State
new = record { jobs = []; running = false; workers = [] }

abbrev pub is_empty : List ℕ → Bool
is_empty [] = true
is_empty (_ ∷ _) = false

-- One pass of takeJob with the mutex: it waits, it throws QueueBreak, or it returns a job (0 is
-- `none`) with what is left, and notifies if that is not empty.
pub data Taken : Type 0 where
  sleeps breaks : Taken
  takes : Option ℕ → List ℕ → Taken

abbrev pub pop : List ℕ → Taken
pop [] = takes none []
pop (job ∷ jobs) = takes (some job) jobs

unfoldable pub take_job : State → Taken
take_job s =
    if is_empty s.jobs && s.running then sleeps else (if not s.running then breaks else pop s.jobs)

-- `if(queue_.size()) cond_.notify()`
abbrev pub NotifiedIf : Bool → List Worker → List Worker → Type 0
NotifiedIf true ws ws' = Notified ws ws'
NotifiedIf false ws ws' = ws' ≡ ws

unfoldable pub add_job : State → ℕ → List Worker → State
add_job s job woken = record s { jobs = s.jobs ++ (job ∷ []); workers = woken }

-- A job of 0 is not run.
abbrev pub next : Option ℕ → Worker
next none = idle
next (some job) = runs job

unfoldable pub commence : ℕ → State → State
commence thread_num s =
    if s.running
    then s
    else record s { running = true; workers = s.workers ++ replicate thread_num idle }

unfoldable pub stop : State → State
stop s = if s.running then record s { running = false; workers = map wake s.workers } else s

pub data Event : Type 0 where
  added : ℕ → Event
  taken : Option ℕ → Event
  silent : Event

pub data Step (s : State) : Event → State → Type 0 where
  adds :
      {ws : List Worker} (job : ℕ) → Notified s.workers ws → Step s (added job) (add_job s job ws)
  -- runInThread: one pass of takeJob
  waits :
      {ws : List Worker}
      → take_job s ≡ sleeps
      → Moves idle waiting s.workers ws
      → Step s silent (record s { workers = ws })
  quits :
      {ws : List Worker}
      → take_job s ≡ breaks
      → Moves idle ended s.workers ws
      → Step s silent (record s { workers = ws })
  gets :
      {ws ws' : List Worker} {job : Option ℕ} {jobs : List ℕ}
      → take_job s ≡ takes job jobs
      → Moves idle (next job) s.workers ws
      → NotifiedIf (not (is_empty jobs)) ws ws'
      → Step s (taken job) (record s { jobs = jobs; workers = ws' })
  -- The job returns or throws; a QueueBreak of the job's own ends the thread.
  finishes :
      {ws : List Worker} {job : ℕ}
      → Moves (runs job) idle s.workers ws
      → Step s silent (record s { workers = ws })
  throws :
      {ws : List Worker} {job : ℕ}
      → Moves (runs job) ended s.workers ws
      → Step s silent (record s { workers = ws })
  wakes :
      {ws : List Worker}
      → Moves waiting idle s.workers ws
      → Step s silent (record s { workers = ws })
  commences : (thread_num : ℕ) → Step s silent (commence thread_num s)
  stops : Step s silent (stop s)

pub data Run : State → List Event → State → Type 0 where
  done : {s : State} → Run s [] s
  goes :
      {s s' s'' : State} {e : Event} {es : List Event}
      → Step s e s'
      → Run s' es s''
      → Run s (e ∷ es) s''
