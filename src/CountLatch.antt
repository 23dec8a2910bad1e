-- ===== src/CountLatch.antt =====
-- codechiev/base/Condition.hpp and Condition.cpp: CountLatch, a count on which threads wait.
-- A step is what one thread does while it holds the mutex, or a wakeup. Of the threads of
-- BlockingQueue.Workers, an `idle` one is about to test the loop of `latch`, and `latch` of an `ended`
-- one has returned. Overflow of the count is undefined in C++, so no step makes it.
pub mod Safety
pub mod Wakeup
use codechiev.Common.{
  ℕ, ◌^◌, ◌≡◌, Bool, true, false, Option, none, some, List, [], ◌∷◌, ◌++◌, ◌&&◌, guard, ◌>>=◌, ◌>>◌,
  ℤ, pos, negsuc, ◌-ℤ◌, ltb_ℤ, leb_ℤ, ◌-◌,
}
use codechiev.BlockingQueue.Workers.{Worker, idle, waiting, ended, Moves, Notified}

pub record Latch : Type 0 where
  pub count : ℤ
  pub threads : List Worker

unfoldable pub new : ℤ → Latch
new c = record { count = c; threads = [] }

abbrev pub in_int : ℤ → Bool
in_int n = leb_ℤ (negsuc (2 ^ 31 - 1)) n && ltb_ℤ n (pos (2 ^ 31))

-- The test of the loop.
unfoldable pub blocks : Latch → Bool
blocks s = ltb_ℤ (pos 0) s.count

-- `count_ -= val`; the threads are those after `notify`.
unfoldable pub reduce : ℤ → Latch → List Worker → Option Latch
reduce val s woken =
    let left = s.count -ℤ val in
    do guard (in_int left); some (record { count = left; threads = woken })

pub data Event : Type 0 where
  called passed asleep woken : Event
  reduced : ℤ → Event

pub data Step (s : Latch) : Event → Latch → Type 0 where
  calls : Step s called (record s { threads = s.threads ++ (idle ∷ []) })
  passes :
      {ws : List Worker}
      → blocks s ≡ false
      → Moves idle ended s.threads ws
      → Step s passed (record s { threads = ws })
  sleeps :
      {ws : List Worker}
      → blocks s ≡ true
      → Moves idle waiting s.threads ws
      → Step s asleep (record s { threads = ws })
  -- A wakeup that nobody asked for.
  wakes :
      {ws : List Worker}
      → Moves waiting idle s.threads ws
      → Step s woken (record s { threads = ws })
  reduces :
      {ws : List Worker} {s' : Latch} (val : ℤ)
      → Notified s.threads ws
      → reduce val s ws ≡ some s'
      → Step s (reduced val) s'

pub data Run : Latch → List Event → Latch → Type 0 where
  done : {s : Latch} → Run s [] s
  goes :
      {s s' s'' : Latch} {e : Event} {es : List Event}
      → Step s e s'
      → Run s' es s''
      → Run s (e ∷ es) s''
