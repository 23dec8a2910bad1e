-- ===== src/BlockingQueue/Wakeup.antt =====
-- No wakeup of a BlockingQueue is lost.
use codechiev.Common.{
  ℕ, ◌≤◌, ◌<◌, ◌≡◌, refl, sym, ◌⊎◌, inl, inr, Bool, true, false, not, Option, List, [], ◌∷◌, ◌++◌,
  replicate, map, arith, length, if◌then◌else◌, ◌&&◌, Bool-cases, if-true, if-false,
}
use mathlib.Core.Path.{subst}
use codechiev.BlockingQueue.{
  State, Taken, sleeps, breaks, takes, pop, take_job, add_job, is_empty, NotifiedIf, commence, stop,
  Event, Step, adds, waits, quits, gets, finishes, throws, wakes, commences, stops, Run, done, goes,
}
use codechiev.BlockingQueue.Workers.{
  idle_one, waiting_one, Worker, idle, Moves, Notified, nobody, somebody, wake, idles, waits_count,
  Moves-idles, Moves-waits, wake-waits, more_idles,
}

-- No thread waits, or some thread is about to look at the queue.
abbrev pub SomeoneLooks : List Worker → Type 0
SomeoneLooks ws = (waits_count ws ≡ 0) ⊎ (0 < idles ws)

-- While the queue runs and has jobs, and when it does not run.
abbrev pub IsAwake : State → Type 0
IsAwake s =
    (s.running ≡ true → 0 < length s.jobs → SomeoneLooks s.workers)
    × (s.running ≡ false → waits_count s.workers ≡ 0)

Notified-SomeoneLooks : {ws ws' : List Worker} → Notified ws ws' → SomeoneLooks ws'
Notified-SomeoneLooks (nobody h) = inl h
Notified-SomeoneLooks (somebody m) = inr (omega (arith, Moves-idles m))

Notified-waits : {ws ws' : List Worker} → Notified ws ws' → waits_count ws' ≤ waits_count ws
Notified-waits (nobody h) = omega arith
Notified-waits (somebody m) = omega (arith, Moves-waits m)

Moves-SomeoneLooks :
    {w w' : Worker} {ws ws' : List Worker}
    → Moves w w' ws ws'
    → waiting_one w' ≤ waiting_one w
    → idle_one w ≤ idle_one w'
    → SomeoneLooks ws
    → SomeoneLooks ws'
Moves-SomeoneLooks m h k (inl none_waits) = inl (omega (arith, Moves-waits m))
Moves-SomeoneLooks m h k (inr looks) = inr (omega (arith, Moves-idles m))

pass : List ℕ → Bool → Taken
pass all running =
    if is_empty all && running then sleeps else (if not running then breaks else pop all)

sleeps-empty :
    (all : List ℕ) (running : Bool)
    → pass all running ≡ sleeps
    → (running ≡ true) × (length all ≡ 0)
unfolding pass
sleeps-empty [] true e = (refl, refl)
sleeps-empty [] false e = ground (arith, e)
sleeps-empty (j ∷ js) true e = ground (arith, e)
sleeps-empty (j ∷ js) false e = ground (arith, e)

breaks-stopped : (all : List ℕ) (running : Bool) → pass all running ≡ breaks → running ≡ false
unfolding pass
breaks-stopped [] true e = ground (arith, e)
breaks-stopped [] false e = refl
breaks-stopped (j ∷ js) true e = ground (arith, e)
breaks-stopped (j ∷ js) false e = refl

takes-running :
    (all : List ℕ) (running : Bool) (job : Option ℕ) (jobs : List ℕ)
    → pass all running ≡ takes job jobs
    → running ≡ true
unfolding pass
takes-running all true job jobs e = refl
takes-running [] false job jobs e = ground (arith, e)
takes-running (j ∷ js) false job jobs e = ground (arith, e)

pub take_job-cases :
    (s : State)
    → (take_job s ≡ sleeps → (s.running ≡ true) × (length s.jobs ≡ 0))
      × (take_job s ≡ breaks → s.running ≡ false)
      × ((job : Option ℕ) (jobs : List ℕ) → take_job s ≡ takes job jobs → s.running ≡ true)
unfolding take_job pass
take_job-cases s =
    (sleeps-empty s.jobs s.running, breaks-stopped s.jobs s.running, takes-running s.jobs s.running)

pub both : {b : Bool} → b ≡ true → b ≡ false → ⊥
both t f = cc

Moves-IsAwake :
    {w w' : Worker} {ws : List Worker} (s : State)
    → Moves w w' s.workers ws
    → waiting_one w' ≤ waiting_one w
    → idle_one w ≤ idle_one w'
    → IsAwake s
    → IsAwake (record s { workers = ws })
Moves-IsAwake s m h k a =
    ((λ r j. Moves-SomeoneLooks m h k (a.0 r j)), (λ f. omega (arith, Moves-waits m, a.1 f)))

commence-IsAwake : (n : ℕ) (s : State) → IsAwake s → IsAwake (commence n s)
unfolding commence
commence-IsAwake n s a = elim (Bool-cases s.running) [
  | inl r ↦ subst IsAwake (sym (if-true _ _ r)) a
  | inr f ↦
      subst IsAwake
        (sym (if-false s (record s { running = true; workers = s.workers ++ replicate n idle }) f))
        (
          (λ _ _. inl (omega (arith, more_idles n s.workers, a.1 f))),
          (λ (e : true ≡ false). absurd (both refl e)),
        )
]

pub stop-IsAwake : (s : State) → IsAwake s → IsAwake (stop s)
unfolding stop
stop-IsAwake s a = elim (Bool-cases s.running) [
  | inl r ↦
      subst IsAwake (sym (if-true (record s { running = false; workers = map wake s.workers }) s r))
        ((λ (e : false ≡ true). absurd (both e refl)), (λ _. wake-waits s.workers))
  | inr f ↦ subst IsAwake (sym (if-false _ _ f)) a
]

left-SomeoneLooks :
    (ws ws' : List Worker) (jobs : List ℕ)
    → NotifiedIf (not (is_empty jobs)) ws ws'
    → 0 < length jobs
    → SomeoneLooks ws'
left-SomeoneLooks ws ws' [] n some_job = absurd (omega arith)
left-SomeoneLooks ws ws' (j ∷ js) n some_job = Notified-SomeoneLooks n

Step-IsAwake : {s s' : State} {e : Event} → Step s e s' → IsAwake s → IsAwake s'
unfolding add_job
Step-IsAwake (adds job n) a =
    ((λ _ _. Notified-SomeoneLooks n), (λ f. omega (arith, Notified-waits n, a.1 f)))
Step-IsAwake {s = s} (waits t m) a =
    let (r, empty) = (take_job-cases s).0 t in
    ((λ _ j. absurd (omega (arith, j, empty))), (λ f. absurd (both r f)))
Step-IsAwake {s = s} (quits t m) a =
    let f = (take_job-cases s).1 t in
    ((λ r _. absurd (both r f)), (λ _. omega (arith, Moves-waits m, a.1 f)))
Step-IsAwake {s = s} (gets {ws = ws} {ws' = ws'} {job = job} {jobs = jobs} t m n) a =
    let r = (take_job-cases s).2 job jobs t in
    ((λ _ j. left-SomeoneLooks ws ws' jobs n j), (λ f. absurd (both r f)))
Step-IsAwake {s = s} (finishes m) a = Moves-IsAwake s m (omega arith) (omega arith) a
Step-IsAwake {s = s} (throws m) a = Moves-IsAwake s m (omega arith) (omega arith) a
Step-IsAwake {s = s} (wakes m) a = Moves-IsAwake s m (omega arith) (omega arith) a
Step-IsAwake {s = s} (commences n) a = commence-IsAwake n s a
Step-IsAwake {s = s} stops a = stop-IsAwake s a

-- Whatever the threads of a blocking queue do, this is preserved: while the queue runs and has
-- jobs, no thread waits or some thread is about to look at the queue, so that no wakeup is lost;
-- and when the queue does not run, no thread waits.
pub Run-IsAwake : {s s' : State} {es : List Event} → Run s es s' → IsAwake s → IsAwake s'
Run-IsAwake done a = a
Run-IsAwake (goes step run) a = Run-IsAwake run (Step-IsAwake step a)
