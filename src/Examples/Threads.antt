-- ===== src/Examples/Threads.antt =====
-- Threads at a CountLatch and at a Singleton.
use codechiev.Common.{
  ℕ, ◌≤◌, ◌+◌, ◌≡◌, refl, true, false, some, none, Option, List, [], ◌∷◌, ◌++◌, length, ℤ, pos,
  negsuc, ◌-ℤ◌, arith,
}
use codechiev.BlockingQueue.Workers.{waiting, ended, here, somebody, waits_count}
use codechiev.CountLatch
use codechiev.CountLatch.{
  Latch, Event, called, passed, asleep, woken, reduced, calls, passes, sleeps, wakes, reduces,
  blocks, reduce,
}
use codechiev.CountLatch.Safety.{Reached, Run-Reached}
use codechiev.CountLatch.Wakeup.{IsOpen, wakeups, Run-IsOpen, Run-waits}
use codechiev.Singleton
use codechiev.Singleton.{
  Single, silent, exited, got, begins, inits, gets, exits, init_routine, destructor,
}
use codechiev.Singleton.Threads
use codechiev.Singleton.Threads.{Call}
use codechiev.Singleton.Threads.Ownership.{IsOwned, calls-IsOwned}
use codechiev.Singleton.Sharing.{OneObject, Run-OneObject}

abbrev counted : Latch
counted = record { count = pos 1; threads = [] }

abbrev one_waits : Latch
one_waits = record { count = pos 1; threads = waiting ∷ [] }

abbrev opened : Latch
opened = record { count = pos 0; threads = ended ∷ [] }

abbrev one_event : List Event
one_event = called ∷ asleep ∷ reduced (pos 1) ∷ passed ∷ []

one_thread : CountLatch.Run counted one_event opened
unfolding blocks reduce codechiev.Common.◌-ℤ◌
one_thread = CountLatch.goes calls (
    CountLatch.goes (sleeps refl here) (
      CountLatch.goes (reduces (pos 1) (somebody here) refl)
        (CountLatch.goes (passes refl here) CountLatch.done)))

Run-Reached_example : Reached (pos 1) one_event
Run-Reached_example = Run-Reached one_thread refl (omega arith)

Run-IsOpen_example : IsOpen opened
Run-IsOpen_example = Run-IsOpen one_thread (omega arith) (λ h. absurd (omega (arith, h)))

-- Two threads wait, and one call of `reduce` uses up the count.
abbrev two_wait : Latch
two_wait = record { count = pos 1; threads = waiting ∷ waiting ∷ [] }

abbrev one_left : Latch
one_left = record { count = pos 0; threads = ended ∷ waiting ∷ [] }

one_stays : CountLatch.Run two_wait (reduced (pos 1) ∷ passed ∷ []) one_left
unfolding blocks reduce codechiev.Common.◌-ℤ◌
one_stays =
    CountLatch.goes (reduces (pos 1) (somebody here) refl)
      (CountLatch.goes (passes refl here) CountLatch.done)

Run-waits_example :
    waits_count two_wait.threads
    ≤ waits_count one_left.threads + wakeups (reduced (pos 1) ∷ passed ∷ [])
Run-waits_example = Run-waits one_stays

abbrev gone : Single
gone = record { object = none; once = Singleton.over; made = 1; handlers = 0; freed = 0 ∷ [] }

abbrev asked : List Singleton.Event
asked = silent ∷ silent ∷ got (some 0) ∷ got (some 0) ∷ exited ∷ got none ∷ []

asked_in_turn : Singleton.Run Singleton.new asked gone
unfolding Singleton.new init_routine destructor
asked_in_turn = Singleton.goes (begins refl) (
    Singleton.goes (inits refl) (
      Singleton.goes (gets refl) (
        Singleton.goes (gets refl)
          (Singleton.goes (exits refl) (Singleton.goes (gets refl) Singleton.done)))))

Run-OneObject_example : OneObject asked gone
Run-OneObject_example = Run-OneObject asked_in_turn

abbrev turns : List Call
turns = Call.gets 1 ∷ Call.gets 2 ∷ Call.gets 1 ∷ Call.leaves 1 ∷ Call.gets 3 ∷ []

calls-IsOwned_example : IsOwned (Threads.calls turns Threads.new)
calls-IsOwned_example = calls-IsOwned turns
