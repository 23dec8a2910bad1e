-- ===== src/Examples/Races.antt =====
-- Two calls of addTask that are interrupted between their look and their lock.
use mathlib.Core.List.{Perm}
use codechiev.Common.{
  ℕ, ◌≡◌, ◌≢◌, refl, inl, inr, true, false, Option, some, none, List, [], ◌∷◌, ℤ, pos, arith,
}
use codechiev.Timer.{covered, insert, expire_at, run_out}
use codechiev.Timer.Race.{add_looked}
use codechiev.Timer.Threads
use codechiev.Timer.Threads.{
  Threads, Event, looks_first, goes_on, runs_out, reads, expires, take_out, run,
}
use codechiev.Timer.Threads.Keeps.{all_known, run-all_known}
use codechiev.Timer.Alarm.{IsArmed, FindsTasks, run-IsArmed}

abbrev begun : Threads
begun = record {
  queue = record { timer = record { alarm = none; fired = false }; tasks = []; ran = [] };
  looks = [];
  expiring = false;
}

-- The third task is inserted when the expiration has been read and `expire` has not begun.
abbrev events : List Event
events =
    looks_first (pos 1500) 1
    ∷ goes_on 0 (pos 1000)
    ∷ looks_first (pos 1490) 2
    ∷ looks_first (pos 3000) 3
    ∷ goes_on 1 (pos 1000)
    ∷ runs_out
    ∷ reads
    ∷ goes_on 0 (pos 1400)
    ∷ expires (λ _. pos 1990)
    ∷ []

finds : FindsTasks begun events
unfolding Threads.step take_out covered add_looked insert expire_at run_out codechiev.Common.◌-ℤ◌
finds = ((λ e. cc), ((λ e. λ f. cc), ((λ e. λ f. cc), tt)))

run-IsArmed_example : IsArmed (run begun events)
run-IsArmed_example =
    run-IsArmed begun events
      (
        tt,
        (
          omega arith,
          (tt, (tt, (omega arith, (tt, (tt, (omega arith, ((λ _. omega arith), tt))))))),
        ),
      )
      finds (inl refl)

run-all_known_example : Perm (all_known (run begun events)) (1 ∷ 2 ∷ 3 ∷ [])
run-all_known_example = run-all_known begun events
