-- ===== src/Examples/Jobs.antt =====
-- A queue with two threads.
use codechiev.Common.{◌<◌, ◌≡◌, refl, ◌⊎◌, inr, true, false, some, [], ◌∷◌, ◌++◌, arith}
use codechiev.BlockingQueue.{
  State, added, taken, silent, Step, adds, gets, quits, Run, done, goes, stop, add_job, take_job,
}
use codechiev.BlockingQueue.Workers.{idle, waiting, runs, ended, here, somebody}
use codechiev.BlockingQueue.Order.{jobs_added, jobs_taken, Run-order}
use codechiev.BlockingQueue.Wakeup.{IsAwake, Run-IsAwake}
use codechiev.BlockingQueue.Stop.{all_steps, Ends, Step-all_steps, stop-Ends}

abbrev asleep : State
asleep = record { jobs = []; running = true; workers = waiting ∷ idle ∷ [] }

abbrev working : State
working = record { jobs = []; running = true; workers = runs 7 ∷ idle ∷ [] }

-- A job is added, the thread that waits is woken, and it takes the job.
one_job : Run asleep (added 7 ∷ taken (some 7) ∷ []) working
unfolding add_job take_job
one_job = goes (adds 7 (somebody here)) (goes (gets refl here refl) done)

asleep-IsAwake : IsAwake asleep
asleep-IsAwake = ((λ _ _. inr (omega arith)), (λ (e : true ≡ false). ground (arith, e)))

Run-order_example :
    [] ++ jobs_added (added 7 ∷ taken (some 7) ∷ [])
    ≡ jobs_taken (added 7 ∷ taken (some 7) ∷ []) ++ []
Run-order_example = Run-order one_job

Run-IsAwake_example : IsAwake working
Run-IsAwake_example = Run-IsAwake one_job asleep-IsAwake

stop-Ends_example : Ends (stop asleep)
stop-Ends_example = stop-Ends asleep asleep-IsAwake

abbrev stopped : State
stopped = record { jobs = 7 ∷ []; running = false; workers = idle ∷ [] }

abbrev gone : State
gone = record { jobs = 7 ∷ []; running = false; workers = ended ∷ [] }

one_quits : Step stopped silent gone
unfolding take_job
one_quits = quits refl here

Step-all_steps_example :
    (gone.workers ≡ stopped.workers) ⊎ (all_steps gone.workers < all_steps stopped.workers)
Step-all_steps_example = Step-all_steps one_quits (refl, refl) refl
