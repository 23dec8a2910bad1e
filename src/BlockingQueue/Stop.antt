-- ===== src/BlockingQueue/Stop.antt =====
-- After `stop`, the threads of a BlockingQueue end: what the joins of its destructor wait for.
use codechiev.Common.{
  ℕ, zero, suc, ◌+◌, ◌≤◌, ◌<◌, ◌≡◌, refl, ap, ◌∙◌, ◌⊎◌, inl, inr, true, false, List, [], ◌∷◌, ◌++◌,
  All, arith, if-false, if-true, replicate, Bool-cases,
}
use native.Mathlib.Decide.{dec_lt}
use codechiev.BlockingQueue.{
  State, breaks, take_job, add_job, is_empty, commence, stop, Event, silent, Step, adds, waits,
  quits, gets, finishes, throws, wakes, commences, stops, Run, done, goes,
}
use codechiev.BlockingQueue.Workers.{
  Worker, idle, waiting, runs, ended, Moves, here, there, Notified, nobody, somebody, waits_count,
  Moves-waits,
}
use codechiev.BlockingQueue.Wakeup.{IsAwake, stop-IsAwake, take_job-cases, both}

-- How many steps a thread has before it ends: a job, and one look at the queue.
abbrev pub steps_left : Worker → ℕ
steps_left idle = 1
steps_left waiting = 0
steps_left ended = 0
steps_left (runs _) = 2

abbrev pub all_steps : List Worker → ℕ
all_steps [] = 0
all_steps (w ∷ ws) = steps_left w + all_steps ws

abbrev pub IsStopped : State → Type 0
IsStopped s = (s.running ≡ false) × (waits_count s.workers ≡ 0)

Moves-all_steps :
    {w w' : Worker} {ws ws' : List Worker}
    → Moves w w' ws ws'
    → all_steps ws' + steps_left w ≡ all_steps ws + steps_left w'
Moves-all_steps here = omega arith
Moves-all_steps (there m) = omega (arith, Moves-all_steps m)

nobody_waits : {ws ws' : List Worker} → waits_count ws ≡ 0 → Notified ws ws' → ws' ≡ ws
nobody_waits h (nobody none_waits) = refl
nobody_waits h (somebody m) = absurd (omega (arith, Moves-waits m))

-- In a stopped queue in which no thread waits, a step that does not start the queue again leaves
-- the threads as they are or lessens what they have to do until they end.
pub Step-all_steps :
    {s s' : State} {e : Event}
    → Step s e s'
    → IsStopped s
    → s'.running ≡ false
    → (s'.workers ≡ s.workers) ⊎ (all_steps s'.workers < all_steps s.workers)
unfolding add_job commence stop
Step-all_steps (adds job n) h f = inl (nobody_waits h.1 n)
Step-all_steps {s = s} (waits t m) h f = absurd (both ((take_job-cases s).0 t).0 h.0)
Step-all_steps (quits t m) h f = inr (omega (arith, Moves-all_steps m))
Step-all_steps {s = s} (gets t m n) h f = absurd (both ((take_job-cases s).2 _ _ t) h.0)
Step-all_steps (finishes m) h f = inr (omega (arith, Moves-all_steps m))
Step-all_steps (throws m) h f = inr (omega (arith, Moves-all_steps m))
Step-all_steps (wakes m) h f = absurd (omega (arith, Moves-waits m, h.1))
Step-all_steps {s = s} (commences n) h f = absurd (
    both
      (ap (λ (t : State). t.running)
        (if-false s (record s { running = true; workers = s.workers ++ replicate n idle }) h.0))
      f)
Step-all_steps {s = s} stops h f = inl (ap (λ (t : State). t.workers) (if-false _ _ h.0))

-- A thread that has not ended can go on.
busy :
    (ws : List Worker)
    → waits_count ws ≡ 0
    → 0 < all_steps ws
    → (ws' : List Worker) × (Moves idle ended ws ws' ⊎ ((job : ℕ) × Moves (runs job) idle ws ws'))
busy [] h k = absurd (omega arith)
busy (idle ∷ ws) h k = (ended ∷ ws, inl here)
busy (waiting ∷ ws) h k = absurd (omega (arith, h))
busy (runs job ∷ ws) h k = (idle ∷ ws, inr (job, here))
busy (ended ∷ ws) h k =
    let (ws', move) = busy ws (omega (arith, h)) (omega (arith, k)) in
    elim move [ inl m ↦ (ended ∷ ws', inl (there m)) | inr m ↦ (ended ∷ ws', inr (m.0, there m.1)) ]

stopped_takes : (s : State) → s.running ≡ false → take_job s ≡ breaks
unfolding take_job
stopped_takes s f = elim (Bool-cases (is_empty s.jobs)) [
  | inl e ↦ rw (e, f) refl
  | inr e ↦ rw (e, f) refl
]

-- A thread's own step: a look at the queue that ends it, or the end of its job. No thread is woken.
abbrev pub IsOwn : {s s' : State} {e : Event} → Step s e s' → Type 0
IsOwn (quits _ _) = Unit {0}
IsOwn (finishes _) = Unit {0}
IsOwn (adds _ _) = ⊥
IsOwn (waits _ _) = ⊥
IsOwn (gets _ _ _) = ⊥
IsOwn (throws _) = ⊥
IsOwn (wakes _) = ⊥
IsOwn (commences _) = ⊥
IsOwn stops = ⊥

abbrev pub AllOwn : {s s' : State} {es : List Event} → Run s es s' → Type 0
AllOwn done = Unit {0}
AllOwn (goes step run) = IsOwn step × AllOwn run

abbrev pub AllEnded : List Worker → Type 0
AllEnded ws = All (λ w. w ≡ ended) ws

-- A run that ends every thread by their own steps, and leaves the jobs of the queue as they are.
abbrev pub Ends : State → Type 0
Ends s =
    (es : List Event) × (s' : State) × (run : Run s es s') × AllOwn run
    × AllEnded s'.workers
    × (s'.jobs ≡ s.jobs)

-- Threads that do not wait and have nothing left to do have ended.
all_steps-AllEnded : (ws : List Worker) → waits_count ws ≡ 0 → all_steps ws ≡ 0 → AllEnded ws
all_steps-AllEnded [] h k = tt
all_steps-AllEnded (idle ∷ ws) h k = absurd (omega (arith, k))
all_steps-AllEnded (waiting ∷ ws) h k = absurd (omega (arith, h))
all_steps-AllEnded (runs job ∷ ws) h k = absurd (omega (arith, k))
all_steps-AllEnded (ended ∷ ws) h k =
    (refl, all_steps-AllEnded ws (omega (arith, h)) (omega (arith, k)))

Step-Ends :
    {s s' : State} (step : Step s silent s') → IsOwn step → s'.jobs ≡ s.jobs → Ends s' → Ends s
Step-Ends step own same (es, s'', run, all_own, over, jobs) =
    (silent ∷ es, s'', goes step run, (own, all_own), over, jobs ∙ same)

IsStopped-Ends : (n : ℕ) (s : State) → IsStopped s → all_steps s.workers ≤ n → Ends s
IsStopped-Ends zero s h k =
    ([], s, done, tt, all_steps-AllEnded s.workers h.1 (omega (arith, k)), refl)
IsStopped-Ends (suc n) s h k = elim (dec_lt 0 (all_steps s.workers)) [
  | no none_left ↦ ([], s, done, tt, all_steps-AllEnded s.workers h.1 (omega arith), refl)
  | yes some_left ↦
      let (ws', move) = busy s.workers h.1 some_left in
      let s' = record s { workers = ws' } in
      elim move [
        | inl m ↦ Step-Ends (quits (stopped_takes s h.0) m) tt refl (
            IsStopped-Ends n s' (h.0, omega (arith, Moves-waits m, h.1))
              (omega (arith, Moves-all_steps m)))
        | inr m ↦ Step-Ends (finishes m.1) tt refl (
            IsStopped-Ends n s' (h.0, omega (arith, Moves-waits m.1, h.1))
              (omega (arith, Moves-all_steps m.1)))
      ]
]

stop-IsStopped : (s : State) → IsAwake s → IsStopped (stop s)
unfolding stop
stop-IsStopped s a = elim (Bool-cases s.running) [
  | inl r ↦
      let f : (stop s).running ≡ false = ap (λ (t : State). t.running) (if-true _ _ r) in
      (f, (stop-IsAwake s a).1 f)
  | inr r ↦
      let f : (stop s).running ≡ false = ap (λ (t : State). t.running) (if-false _ _ r) ∙ r in
      (f, (stop-IsAwake s a).1 f)
]

-- After `stop`, from a state in which no wakeup was lost, all threads of a blocking queue can end
-- by their own steps: each returns from its job, if it has one, looks at the queue and ends. Nobody
-- has to be woken, with or without a notification, and the waiting jobs are left as they are.
pub stop-Ends : (s : State) → IsAwake s → Ends (stop s)
stop-Ends s a =
    IsStopped-Ends (all_steps (stop s).workers) (stop s) (stop-IsStopped s a) (omega arith)
