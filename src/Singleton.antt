-- ===== src/Singleton.antt =====
-- codechiev/base/Singleton.h as it is compiled on Linux: one object for the process, and one object
-- for each thread (Singleton/Threads.antt). An object is the number of those constructed before it,
-- and a null pointer is `none`. `pthread_once` runs its routine once, and the other threads that call
-- it wait until the routine has returned; `exit` runs the handlers of `atexit`.
pub mod Sharing
pub mod Threads
use codechiev.Common.{ℕ, zero, suc, ◌-◌, ◌≡◌, Option, none, some, List, [], ◌∷◌}

-- PTHREAD_ONCE_INIT, while a thread runs the routine, and after it.
pub data Once : Type 0 where
  fresh running over : Once

pub record Single : Type 0 where
  pub object : Option ℕ
  pub once : Once
  pub made : ℕ
  pub handlers : ℕ
  pub freed : List ℕ

unfoldable pub new : Single
new = record { object = none; once = fresh; made = 0; handlers = 0; freed = [] }

unfoldable pub init_routine : Single → Single
init_routine s = record s { object = some s.made; made = suc s.made; handlers = suc s.handlers }

-- `delete` of a null pointer does nothing.
abbrev pub delete : Option ℕ → List ℕ → List ℕ
delete none freed = freed
delete (some o) freed = o ∷ freed

unfoldable pub destructor : Single → Single
destructor s = record s { object = none; freed = delete s.object s.freed }

pub data Event : Type 0 where
  silent exited : Event
  got : Option ℕ → Event

pub data Step (s : Single) : Event → Single → Type 0 where
  -- get: the first call of pthread_once, the routine, and its return
  begins : s.once ≡ fresh → Step s silent (record s { once = running })
  inits : s.once ≡ running → Step s silent (record (init_routine s) { once = over })
  -- get: pthread_once returns at once
  gets : s.once ≡ over → Step s (got s.object) s
  exits : {n : ℕ} → s.handlers ≡ suc n → Step s exited (record (destructor s) { handlers = n })

pub data Run : Single → List Event → Single → Type 0 where
  done : {s : Single} → Run s [] s
  goes :
      {s s' s'' : Single} {e : Event} {es : List Event}
      → Step s e s'
      → Run s' es s''
      → Run s (e ∷ es) s''
