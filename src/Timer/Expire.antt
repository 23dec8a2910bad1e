-- ===== src/Timer/Expire.antt =====
-- Which tasks `expire` runs.
use codechiev.Common.{
  ℕ, ◌+◌, ◌≡◌, refl, ap, inl, inr, Bool-cases, Option, none, some, List, [], ◌∷◌, ◌++◌, ℤ, ◌-ℤ◌,
  ltb_ℤ, ◌<ℤ◌, ltb→<ℤ, ltb→≥ℤ, -ℤ_parts, arith,
}
use codechiev.Timer.{Tasks, TimerQueue, timer_accuracy, take_due, expire, rearm}
use codechiev.Timer.Sorted.{IsSorted, From}

-- Less than TIMER_ACCURACY after `now`, or not.
abbrev pub IsDue : ℤ → ℤ → Type 0
IsDue now t = (t -ℤ now) <ℤ timer_accuracy

abbrev pub AllDue : ℤ → Tasks → Type 0
AllDue now [] = Unit {0}
AllDue now ((t, _) ∷ m) = IsDue now t × AllDue now m

abbrev pub NoneDue : ℤ → Tasks → Type 0
NoneDue now [] = Unit {0}
NoneDue now ((t, _) ∷ m) = (¬ IsDue now t) × NoneDue now m

abbrev pub first_time : Tasks → Option ℤ
first_time [] = none
first_time ((t, _) ∷ m) = some t

abbrev pub names : Tasks → List ℕ
names [] = []
names ((_, task) ∷ m) = task ∷ names m

NoneDue-From : (now k : ℤ) (m : Tasks) → ¬ IsDue now k → From k m → NoneDue now m
NoneDue-From now k [] h f = tt
NoneDue-From now k ((t, w) ∷ m) h f =
    ((λ d. h (omega (arith, d, f.0, -ℤ_parts t now, -ℤ_parts k now))), NoneDue-From now k m h f.1)

pub record Parted (now : ℤ) (m : Tasks) (due : List ℕ) (left : Tasks) (next : Option ℤ)
    : Type 0 where
  pub front : Tasks
  pub whole : m ≡ front ++ left
  pub is_due : AllDue now front
  pub not_due : NoneDue now left
  pub due_names : due ≡ names front
  pub next_is : next ≡ first_time left

take_due-Parted :
    (now : ℤ) (i : ℕ) (m : Tasks)
    → IsSorted m
    → let r = take_due (λ _. now) i m in Parted now m r.due r.left r.next
unfolding take_due
take_due-Parted now i [] s = record {
  front = [];
  whole = refl;
  is_due = tt;
  not_due = tt;
  due_names = refl;
  next_is = refl;
}
take_due-Parted now i ((t, w) ∷ m) s = elim (Bool-cases (ltb_ℤ (t -ℤ now) timer_accuracy)) [
  | inl due ↦
      let p = take_due-Parted now (i + 1) m s.1 in
      rw due (record {
        front = (t, w) ∷ p.front;
        whole = ap (◌∷◌ (t, w)) p.whole;
        is_due = (ltb→<ℤ (t -ℤ now) timer_accuracy due, p.is_due);
        not_due = p.not_due;
        due_names = ap (◌∷◌ w) p.due_names;
        next_is = p.next_is;
      })
  | inr later ↦
      let not_yet : ¬ IsDue now t = λ d. omega (arith, d, ltb→≥ℤ (t -ℤ now) timer_accuracy later) in
      rw later (record {
        front = [];
        whole = refl;
        is_due = tt;
        not_due = (not_yet, NoneDue-From now t m not_yet s.0);
        due_names = refl;
        next_is = refl;
      })
]

-- For tasks sorted by time, and a clock that stands still, `expire` runs exactly the tasks that are
-- due (less than 30 ms ahead), in the order of their times, keeps the others, and sets the timer
-- for the first of them, if any.
pub expire-Parted :
    (now : ℤ) (q : TimerQueue)
    → IsSorted q.tasks
    → let q' = expire (λ _. now) q in
      (due : List ℕ) × Parted now q.tasks due q'.tasks (first_time q'.tasks)
      × (q'.ran ≡ q.ran ++ due)
      × (q'.timer ≡ rearm (first_time q'.tasks) q.timer)
unfolding expire
expire-Parted now q s =
    let p = take_due-Parted now 0 q.tasks s in
    (
      _,
      record {
        front = p.front;
        whole = p.whole;
        is_due = p.is_due;
        not_due = p.not_due;
        due_names = p.due_names;
        next_is = refl;
      },
      refl,
      ap (λ (o : Option ℤ). rearm o q.timer) p.next_is,
    )
