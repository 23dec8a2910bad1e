-- ===== src/Timer/Sorted.antt =====
-- The tasks stay in the order of their times.
use codechiev.Common.{
  ℕ, ◌+◌, inl, inr, Bool-cases, List, [], ◌∷◌, ℤ, ◌-ℤ◌, ltb_ℤ, ◌≤ℤ◌, ltb→<ℤ, ltb→≥ℤ, arith,
}
use codechiev.Timer.{
  Tasks, timer_accuracy, TimerQueue, Event, adds, runs_out, expires, insert, add_task, take_due,
  expire, read_timer, step, run,
}

-- Every time is at least `k`.
abbrev pub From : ℤ → Tasks → Type 0
From k [] = Unit {0}
From k ((t, _) ∷ m) = (k ≤ℤ t) × From k m

abbrev pub IsSorted : Tasks → Type 0
IsSorted [] = Unit {0}
IsSorted ((t, _) ∷ m) = From t m × IsSorted m

From-weaken : (j k : ℤ) (m : Tasks) → j ≤ℤ k → From k m → From j m
From-weaken j k [] h f = tt
From-weaken j k ((t, w) ∷ m) h f = (omega (arith, h, f.0), From-weaken j k m h f.1)

From-insert : (j k : ℤ) (v : ℕ) (m : Tasks) → j ≤ℤ k → From j m → From j (insert k v m)
unfolding insert
From-insert j k v [] h f = (h, tt)
From-insert j k v ((t, w) ∷ m) h f = elim (Bool-cases (ltb_ℤ k t)) [
  | inl lt ↦ rw lt (h, f)
  | inr ge ↦ rw ge (f.0, From-insert j k v m h f.1)
]

pub insert-IsSorted : (k : ℤ) (v : ℕ) (m : Tasks) → IsSorted m → IsSorted (insert k v m)
unfolding insert
insert-IsSorted k v [] s = (tt, tt)
insert-IsSorted k v ((t, w) ∷ m) s = elim (Bool-cases (ltb_ℤ k t)) [
  | inl lt ↦
      rw lt
        ((omega (arith, ltb→<ℤ k t lt), From-weaken k t m (omega (arith, ltb→<ℤ k t lt)) s.0), s)
  | inr ge ↦ rw ge (From-insert t k v m (ltb→≥ℤ k t ge) s.0, insert-IsSorted k v m s.1)
]

left-IsSorted : (now : ℕ → ℤ) (i : ℕ) (m : Tasks) → IsSorted m → IsSorted (take_due now i m).left
unfolding take_due
left-IsSorted now i [] s = tt
left-IsSorted now i ((t, w) ∷ m) s = elim (Bool-cases (ltb_ℤ (t -ℤ now i) timer_accuracy)) [
  | inl due ↦ rw due (left-IsSorted now (i + 1) m s.1)
  | inr later ↦ rw later s
]

add_task-IsSorted :
    (now expired : ℤ) (task : ℕ) (q : TimerQueue)
    → IsSorted q.tasks
    → IsSorted (add_task now expired task q).tasks
unfolding add_task
add_task-IsSorted now expired task q s = ground (arith, s, insert-IsSorted expired task q.tasks s)

step-IsSorted : (q : TimerQueue) (e : Event) → IsSorted q.tasks → IsSorted (step q e).tasks
unfolding step read_timer expire
step-IsSorted q (adds now expired task) s = add_task-IsSorted now expired task q s
step-IsSorted q runs_out s = s
step-IsSorted q (expires now) s = elim (Bool-cases q.timer.fired) [
  | inl fired ↦ rw fired (left-IsSorted now 0 q.tasks s)
  | inr quiet ↦ rw quiet s
]

-- Whatever happens to a timer queue, its tasks stay sorted by time.
pub run-IsSorted : (q : TimerQueue) (es : List Event) → IsSorted q.tasks → IsSorted (run q es).tasks
unfolding run
run-IsSorted q [] s = s
run-IsSorted q (e ∷ es) s = run-IsSorted (step q e) es (step-IsSorted q e s)
