-- ===== src/CountLatch/Safety.antt =====
-- No thread passes a CountLatch early.
use codechiev.Common.{
  ℕ, ◌+◌, ◌<◌, ◌≡◌, refl, sym, ap, ◌∙◌, ◌⊎◌, inl, inr, some, List, [], ◌∷◌, ◌++◌, ℤ, pos, ◌+ℤ◌,
  ◌-ℤ◌, ◌≤ℤ◌, arith, +ℤ_parts, -ℤ_parts, ltb→≥ℤ, pos_part, neg_part, Bool-cases, some-injective,
}
use codechiev.BlockingQueue.Workers.{
  Worker, idle, waiting, ended, runs, Moves, here, there, Notified, nobody, somebody,
}
use codechiev.CountLatch.{
  Latch, blocks, reduce, in_int, Event, called, passed, asleep, woken, reduced, Step, calls, passes,
  sleeps, wakes, reduces, Run, done, goes,
}

-- The sum of what `reduce` was given.
unfoldable pub total : List Event → ℤ
total [] = pos 0
total (reduced val ∷ es) = val +ℤ total es
total (called ∷ es) = total es
total (passed ∷ es) = total es
total (asleep ∷ es) = total es
total (woken ∷ es) = total es

abbrev pub ended_one : Worker → ℕ
ended_one idle = 0
ended_one waiting = 0
ended_one ended = 1
ended_one (runs _) = 0

abbrev pub passed_count : List Worker → ℕ
passed_count [] = 0
passed_count (w ∷ ws) = ended_one w + passed_count ws

-- At some time the sum was at least `c`.
abbrev pub Reached : ℤ → List Event → Type 0
Reached c es =
    (before : List Event) × (after : List Event) × (es ≡ before ++ after) × (c ≤ℤ total before)

pub reduce-count :
    (val : ℤ) (s s' : Latch) (ws : List Worker)
    → reduce val s ws ≡ some s'
    → (s'.count ≡ s.count -ℤ val) × (s'.threads ≡ ws)
unfolding reduce
reduce-count val s s' ws e = elim (Bool-cases (in_int (s.count -ℤ val))) [
  | inl r ↦
      let same = some-injective (rw (r) at e) in
      (sym (ap (λ (t : Latch). t.count) same), sym (ap (λ (t : Latch). t.threads) same))
  | inr r ↦ let never = rw (r) at e in cc
]

Moves-passed :
    {w w' : Worker} {ws ws' : List Worker}
    → Moves w w' ws ws'
    → passed_count ws' + ended_one w ≡ passed_count ws + ended_one w'
Moves-passed here = omega arith
Moves-passed (there m) = omega (arith, Moves-passed m)

Notified-passed : {ws ws' : List Worker} → Notified ws ws' → passed_count ws' ≡ passed_count ws
Notified-passed (nobody h) = refl
Notified-passed (somebody m) = omega (arith, Moves-passed m)

called-passed : (ws : List Worker) → passed_count (ws ++ (idle ∷ [])) ≡ passed_count ws
called-passed [] = refl
called-passed (w ∷ ws) = omega (arith, called-passed ws)

-- A step lets a thread through, and then the count is at most 0, or it lets none through and
-- takes from the count what `reduce` was given.
abbrev StepIsSafe : Latch → Event → Latch → Type 0
StepIsSafe s e s' =
    (s.count ≤ℤ pos 0)
    ⊎ ((passed_count s'.threads ≡ passed_count s.threads)
        × ((before : List Event) → s'.count ≤ℤ total before → s.count ≤ℤ total (e ∷ before)))

Step-IsSafe : {s s' : Latch} {e : Event} → Step s e s' → StepIsSafe s e s'
unfolding blocks total
Step-IsSafe {s = s} calls = inr (called-passed s.threads, (λ before h. h))
Step-IsSafe {s = s} (passes open_now m) = inl (ltb→≥ℤ (pos 0) s.count open_now)
Step-IsSafe (sleeps b m) = inr (omega (arith, Moves-passed m), (λ before h. h))
Step-IsSafe (wakes m) = inr (omega (arith, Moves-passed m), (λ before h. h))
Step-IsSafe {s = s} {s' = s'} (reduces {ws = ws} val n e) =
    let (count, threads) = reduce-count val s s' ws e in
    inr (
      ap passed_count threads ∙ Notified-passed n,
      (λ before h. omega (
        arith,
        h,
        -ℤ_parts s.count val,
        +ℤ_parts val (total before),
        ap pos_part count,
        ap neg_part count,
      )),
    )

-- No thread returns from `latch` of a CountLatch before what `reduce` was given adds up to the
-- count.
pub Run-Reached :
    {s s' : Latch} {es : List Event}
    → Run s es s'
    → passed_count s.threads ≡ 0
    → 0 < passed_count s'.threads
    → Reached s.count es
unfolding total
Run-Reached done none_yet some_now = absurd (omega (arith, none_yet))
Run-Reached {s = s} (goes {e = e} {es = es} step run) none_yet some_now = elim (Step-IsSafe step) [
  | inl open_now ↦ ([], e ∷ es, refl, open_now)
  | inr go ↦
      let (before, after, split, enough) = Run-Reached run (omega (arith, go.0)) some_now in
      (e ∷ before, after, ap (◌∷◌ e) split, go.1 before enough)
]
