-- ===== src/Examples/Tasks.antt =====
-- Two tasks, of which the one that is added last is due first.
use codechiev.Common.{◌>>=◌, true, ℕ, ◌≡◌, refl, inl, false, none, List, [], ◌∷◌, ◌++◌, pos, arith}
use codechiev.Timer.{covered, read_timer}
use codechiev.Timer.Race.{AllDue, add_looked, add_looked-strands}
use codechiev.Timer.{TimerQueue, Event, adds, runs_out, expires, rearm, expire}
use codechiev.Timer.Expire.{Parted, first_time, expire-Parted}
use codechiev.Common.Assoc
use codechiev.Channel
use codechiev.Endpoint.{epollin}
use codechiev.Timer
use codechiev.Timer.System.{System, Turn, calls_add_task, timer_runs_out, polls}

abbrev events : List Event
events =
    adds (pos 1000) (pos 2000) 1
    ∷ adds (pos 1000) (pos 1500) 2
    ∷ runs_out
    ∷ expires (λ _. pos 1990)
    ∷ []

abbrev start : TimerQueue
start = record { timer = record { alarm = none; fired = false }; tasks = []; ran = [] }

abbrev waiting : TimerQueue
waiting = record start { tasks = (pos 1500, 2) ∷ (pos 2000, 1) ∷ [] }

expire-Parted_example :
    (due : List ℕ) × Parted
      (pos 1500)
      waiting.tasks
      due
      (expire (λ _. pos 1500) waiting).tasks
      (first_time (expire (λ _. pos 1500) waiting).tasks)
    × ((expire (λ _. pos 1500) waiting).ran ≡ [] ++ due)
    × ((expire (λ _. pos 1500) waiting).timer
        ≡ rearm (first_time (expire (λ _. pos 1500) waiting).tasks) start.timer)
expire-Parted_example = expire-Parted (pos 1500) waiting ((omega arith, tt), (tt, tt))

-- The scheduler's loop with the same tasks, and a timer whose descriptor is 7.
abbrev happened : List Turn
happened =
    calls_add_task (pos 1000) (pos 2000) 1
    ∷ calls_add_task (pos 1000) (pos 1500) 2
    ∷ timer_runs_out
    ∷ polls (pos 1) ((7, epollin) ∷ []) (λ _. pos 1990)
    ∷ []

abbrev constructed : System
constructed = record {
  fd = 7;
  queue = start;
  scheduler = record {
    timers = [];
    poll = record { channels = (7, Channel.new 7) ∷ []; calls = [] };
  };
}

-- The timer of the first task has run out, and nobody has read it.
abbrev out : TimerQueue
out = record { timer = record { alarm = none; fired = true }; tasks = (pos 1000, 1) ∷ []; ran = [] }

looked : covered (pos 990) out.tasks ≡ true
unfolding covered codechiev.Common.◌-ℤ◌
looked = refl

first_due : AllDue (λ _. pos 1000) 0 out.tasks
unfolding codechiev.Common.◌-ℤ◌
first_due = (refl, tt)

add_looked-strands_example :
    let after =
      add_looked
        (covered (pos 990) out.tasks)
        (pos 1000)
        (pos 990)
        2
        (read_timer (λ _. pos 1000) out) in
    (after.tasks ≡ (pos 990, 2) ∷ []) × (after.timer ≡ record { alarm = none; fired = false })
add_looked-strands_example =
    add_looked-strands (λ _. pos 1000) (pos 1000) (pos 990) 2 out looked refl first_due
