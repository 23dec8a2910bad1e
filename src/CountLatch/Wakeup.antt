-- ===== src/CountLatch/Wakeup.antt =====
-- Which of the threads that wait on a CountLatch are woken.
use codechiev.Common.{
  ℕ, suc, ◌+◌, ◌≤◌, ◌≡◌, refl, ap, ◌∙◌, List, [], ◌∷◌, ◌++◌, length, length-append, pos, ◌≤ℤ◌,
  arith, ltb→<ℤ,
}
use codechiev.BlockingQueue.Workers.{
  Worker, idle, Moves, here, there, Notified, nobody, somebody, waits_count, waiting_one,
  Moves-waits,
}
use codechiev.CountLatch.{
  Latch, blocks, Event, called, passed, asleep, woken, reduced, Step, calls, passes, sleeps, wakes,
  reduces, Run, done, goes,
}
use codechiev.CountLatch.Safety.{reduce-count}

-- The calls of `reduce`, and the wakeups that nobody asked for.
abbrev pub wakeups : List Event → ℕ
wakeups [] = 0
wakeups (reduced _ ∷ es) = suc (wakeups es)
wakeups (woken ∷ es) = suc (wakeups es)
wakeups (called ∷ es) = wakeups es
wakeups (passed ∷ es) = wakeups es
wakeups (asleep ∷ es) = wakeups es

called-waits : (ws : List Worker) → waits_count (ws ++ (idle ∷ [])) ≡ waits_count ws
called-waits [] = refl
called-waits (w ∷ ws) = omega (arith, called-waits ws)

Notified-waits : {ws ws' : List Worker} → Notified ws ws' → waits_count ws ≤ suc (waits_count ws')
Notified-waits (nobody h) = omega arith
Notified-waits (somebody m) = omega (arith, Moves-waits m)

Step-waits :
    {s s' : Latch} {e : Event}
    → Step s e s'
    → waits_count s.threads ≤ waits_count s'.threads + wakeups (e ∷ [])
Step-waits {s = s} calls = omega (arith, called-waits s.threads)
Step-waits (passes b m) = omega (arith, Moves-waits m)
Step-waits (sleeps b m) = omega (arith, Moves-waits m)
Step-waits (wakes m) = omega (arith, Moves-waits m)
Step-waits {s = s} {s' = s'} (reduces {ws = ws} val n e) =
    omega (arith, Notified-waits n, ap waits_count (reduce-count val s s' ws e).1)

wakeups-cons : (e : Event) (es : List Event) → wakeups (e ∷ es) ≡ wakeups (e ∷ []) + wakeups es
wakeups-cons (reduced v) es = omega arith
wakeups-cons woken es = omega arith
wakeups-cons called es = omega arith
wakeups-cons passed es = omega arith
wakeups-cons asleep es = omega arith

-- Each call of `reduce` wakes at most one of the threads that wait on a CountLatch: of the threads
-- that wait, all but as many as there are calls and wakeups that nobody asked for still wait,
-- whatever the count has become.
pub Run-waits :
    {s s' : Latch} {es : List Event}
    → Run s es s'
    → waits_count s.threads ≤ waits_count s'.threads + wakeups es
Run-waits done = omega arith
Run-waits (goes {e = e} {es = es} step run) =
    omega (arith, Step-waits step, Run-waits run, wakeups-cons e es)

-- When the count is used up, no thread waits.
abbrev pub IsOpen : Latch → Type 0
IsOpen s = s.count ≤ℤ pos 0 → waits_count s.threads ≡ 0

Moves-length : {w w' : Worker} {ws ws' : List Worker} → Moves w w' ws ws' → length ws' ≡ length ws
Moves-length here = refl
Moves-length (there m) = ap suc (Moves-length m)

Notified-length : {ws ws' : List Worker} → Notified ws ws' → length ws' ≡ length ws
Notified-length (nobody h) = refl
Notified-length (somebody m) = Moves-length m

Step-length : {s s' : Latch} {e : Event} → Step s e s' → length s.threads ≤ length s'.threads
Step-length {s = s} calls = omega (arith, length-append s.threads (idle ∷ []))
Step-length (passes b m) = omega (arith, Moves-length m)
Step-length (sleeps b m) = omega (arith, Moves-length m)
Step-length (wakes m) = omega (arith, Moves-length m)
Step-length {s = s} {s' = s'} (reduces {ws = ws} val n e) =
    omega (arith, Notified-length n, ap length (reduce-count val s s' ws e).1)

Run-length : {s s' : Latch} {es : List Event} → Run s es s' → length s.threads ≤ length s'.threads
Run-length done = omega arith
Run-length (goes step run) = omega (arith, Step-length step, Run-length run)

waits-length : (ws : List Worker) → waits_count ws ≤ length ws
waits-length [] = omega arith
waits-length (w ∷ ws) = omega (arith, waits-length ws, at_most_one w)
  where
    at_most_one : (w : Worker) → waiting_one w ≤ 1
    at_most_one w = ground arith

Step-IsOpen : {s s' : Latch} {e : Event} → Step s e s' → length s.threads ≤ 1 → IsOpen s → IsOpen s'
unfolding blocks
Step-IsOpen {s = s} calls one o h = called-waits s.threads ∙ o h
Step-IsOpen (passes b m) one o h = omega (arith, Moves-waits m, o h)
Step-IsOpen {s = s} (sleeps b m) one o h = absurd (omega (arith, h, ltb→<ℤ (pos 0) s.count b))
Step-IsOpen (wakes m) one o h = omega (arith, Moves-waits m, o h)
Step-IsOpen {s = s} {s' = s'} (reduces {ws = ws} val (nobody none_waits) e) one o h =
    ap waits_count (reduce-count val s s' ws e).1 ∙ none_waits
Step-IsOpen {s = s} {s' = s'} (reduces {ws = ws} val (somebody m) e) one o h = omega (
  arith,
  ap waits_count (reduce-count val s s' ws e).1,
  Moves-waits m,
  waits-length s.threads,
  one,
)

-- One thread that waits on a CountLatch does not wait for nothing: in every run in which at most
-- one thread calls `latch`, no thread waits once the count is at most 0.
pub Run-IsOpen :
    {s s' : Latch} {es : List Event} → Run s es s' → length s'.threads ≤ 1 → IsOpen s → IsOpen s'
Run-IsOpen done one o = o
Run-IsOpen (goes step run) one o =
    Run-IsOpen run one (Step-IsOpen step (omega (arith, Step-length step, Run-length run)) o)
