-- ===== src/Threads.antt =====
-- codechiev/base/Thread.cpp and Mutex.cpp: threads and the sections that a MutexGuard guards. A step is a
-- call of one thread. `pthread_create` and `pthread_join` succeed (otherwise the process exits),
-- `pthread_mutex_lock` waits until the mutex is free, and `pthread_join` until the thread has ended.
-- A thread that `pthread_exit` or `pthread_cancel` ends leaves its blocks first: its guard is closed.
-- A thread is named by a number, and its guards are of one mutex.
pub mod Exclusion
use codechiev.Common.{
  ℕ, ◌≡◌, Bool, true, false, not, Option, none, some, List, [], ◌∷◌, ◌==◌, if◌then◌else◌, guard,
  ◌>>=◌, ◌>>◌,
}

-- A Thread object: not started, in its function, in a guarded section of it, past pthread_exit, and
-- joined.
pub data Phase : Type 0 where
  created running guarded over joined : Phase

pub record Process : Type 0 where
  -- the thread that holds the mutex
  pub owner : Option ℕ
  pub phases : ℕ → Phase

unfoldable pub new : Process
new = record { owner = none; phases = λ _. created }

abbrev pub set_phase : ℕ → Phase → (ℕ → Phase) → ℕ → Phase
set_phase i phase phases j = if i == j then phase else phases j

-- Mutex::lock, which waits while another thread holds the mutex, and Mutex::unlock.
unfoldable pub mutex_lock : ℕ → Process → Option Process
mutex_lock i p = elim p.owner [ none ↦ some (record p { owner = some i }) | some j ↦ none ]

unfoldable pub mutex_unlock : Process → Process
mutex_unlock p = record p { owner = none }

-- MutexGuard(), and ~MutexGuard().
unfoldable pub open_guard : ℕ → Process → Option Process
open_guard i p = do
  locked ← mutex_lock i p
  some (record locked { phases = set_phase i guarded locked.phases })

unfoldable pub close_guard : ℕ → Process → Process
close_guard i p =
    let left = mutex_unlock p in record left { phases = set_phase i running left.phases }

-- Thread::cancel, by the thread itself or by another, when the thread ends.
unfoldable pub cancel : ℕ → Process → Process
cancel i p = elim (p.phases i) [
  | created ↦ p
  | running ↦ record p { phases = set_phase i over p.phases }
  | guarded ↦ let left = close_guard i p in record left { phases = set_phase i over left.phases }
  | over ↦ p
  | joined ↦ p
]

pub data Event : Type 0 where
  starts locks unlocks ends cancels joins : ℕ → Event

-- A thread that has started and has not ended.
abbrev pub IsActive : Phase → Type 0
IsActive created = ⊥
IsActive running = Unit {0}
IsActive guarded = Unit {0}
IsActive over = ⊥
IsActive joined = ⊥

pub data Step (p : Process) : Event → Process → Type 0 where
  -- Thread::start
  start :
      (i : ℕ)
      → p.phases i ≡ created
      → Step p (starts i) (record p { phases = set_phase i running p.phases })
  lock :
      {p' : Process} (i : ℕ) → p.phases i ≡ running → open_guard i p ≡ some p' → Step p (locks i) p'
  unlock : (i : ℕ) → p.phases i ≡ guarded → Step p (unlocks i) (close_guard i p)
  -- The function of Thread::run returns, and pthread_exit is called.
  end :
      (i : ℕ)
      → p.phases i ≡ running
      → Step p (ends i) (record p { phases = set_phase i over p.phases })
  cancelled : (i : ℕ) → IsActive (p.phases i) → Step p (cancels i) (cancel i p)
  -- Thread::join
  join :
      (i : ℕ)
      → p.phases i ≡ over
      → Step p (joins i) (record p { phases = set_phase i joined p.phases })

pub data Run : Process → List Event → Process → Type 0 where
  done : {p : Process} → Run p [] p
  goes :
      {p p' p'' : Process} {e : Event} {es : List Event}
      → Step p e p'
      → Run p' es p''
      → Run p (e ∷ es) p''

-- gThreadData, which every thread has for itself
unfoldable pub run : Option (List ℕ) → List ℕ → Option (Option (List ℕ))
run none name = some (some name)
run (some other) name = none

-- "thread-???"
abbrev pub unknown : List ℕ
unknown = 116 ∷ 104 ∷ 114 ∷ 101 ∷ 97 ∷ 100 ∷ 45 ∷ 63 ∷ 63 ∷ 63 ∷ []

unfoldable pub thread_name : Option (List ℕ) → List ℕ
thread_name none = unknown
thread_name (some name) = name
