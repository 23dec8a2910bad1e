-- ===== src/Singleton/Threads.antt =====
-- codechiev/base/Singleton.h: ThreadSingleton, one object for each thread. `own` is `t_`, which every
-- thread has for itself, and `specific` what pthread_setspecific has stored under `key_`; a thread
-- without an entry has a null pointer there. `key_once_` is not in the state: a call of
-- `get` passes pthread_once only when the key exists.
pub mod Ownership
pub mod Again
use codechiev.Common.{ℕ, suc, ◌≡◌, Option, none, some, List, [], ◌∷◌, ◌==◌, if◌then◌else◌}
use codechiev.Common.Assoc.{lookup, insert, erase}

pub record PerThread : Type 0 where
  pub own : List (ℕ × ℕ)
  pub specific : List (ℕ × ℕ)
  pub made : ℕ
  pub freed : List ℕ

unfoldable pub new : PerThread
new = record { own = []; specific = []; made = 0; freed = [] }

-- `t_ == NULL`: construct the object and store it, or else keep what was stored.
abbrev pub get_from : Option ℕ → ℕ → PerThread → ℕ × PerThread
get_from none i s = (
  s.made,
  record s {
    own = insert i s.made s.own;
    specific = insert i s.made s.specific;
    made = suc s.made;
  },
)
get_from (some o) i s = (o, record s { own = insert i o s.own })

unfoldable pub get : ℕ → PerThread → ℕ × PerThread
get i s = get_from (lookup i s.specific) i s

-- `if(t_) delete t_;`
abbrev pub delete_own : Option ℕ → PerThread → PerThread
delete_own none s = s
delete_own (some o) s = record s { freed = o ∷ s.freed }

unfoldable pub destructor : ℕ → PerThread → PerThread
destructor i s = delete_own (lookup i s.own) s

-- The end of a thread: pthread clears what is stored and calls `destructor`, if it was not null;
-- the thread's own variables go.
abbrev pub leave_with : Option ℕ → ℕ → PerThread → PerThread
leave_with none i s = record s { own = erase i s.own }
leave_with (some _) i s =
    let s' = destructor i (record s { specific = erase i s.specific }) in
    record s' { own = erase i s'.own }

unfoldable pub leave : ℕ → PerThread → PerThread
leave i s = leave_with (lookup i s.specific) i s

pub data Call : Type 0 where
  gets leaves : ℕ → Call

-- The calls of the threads one after the other, in whatever order they come.
abbrev pub calls : List Call → PerThread → PerThread
calls [] s = s
calls (gets i ∷ cs) s = calls cs (get i s).1
calls (leaves i ∷ cs) s = calls cs (leave i s)
