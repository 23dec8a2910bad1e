-- ===== src/Timer/Alarm.antt =====
-- When a timer queue among threads has a timer or an `expire` to come for its tasks.
use mathlib.Core.Path.{subst}
use codechiev.Common.{
  ◌≢◌, Option, Option-cases, none, false, if-true, if-false, ℕ, zero, suc, ◌+◌, ◌≡◌, refl, sym, ◌⊎◌,
  inl, inr, true, false, Bool-cases, some, List, [], ◌∷◌, ℤ, pos, negsuc, ◌-ℤ◌, ltb_ℤ, ◌≤ℤ◌, ltb→≥ℤ,
  -ℤ_parts, arith, All,
}
use codechiev.Timer.{
  Tasks, Timer, TimerQueue, timer_accuracy, take_due, expire, rearm, expire_at, run_out,
}
use codechiev.Timer.Race.{add_looked}
use codechiev.Timer.Threads.{
  Look, Threads, Event, looks_first, goes_on, runs_out, reads, expires, take_out, go_on, step, run,
}

abbrev pub WillExpire : Timer → Type 0
WillExpire t = (t.fired ≡ true) ⊎ ((at : ℤ) × (t.alarm ≡ some at))

-- There are no tasks, or the timer is set or has run out, or `expire` has been called.
abbrev pub IsArmed : Threads → Type 0
IsArmed s = (s.queue.tasks ≡ []) ⊎ (WillExpire s.queue.timer ⊎ (s.expiring ≡ true))

-- The clock never answers a negative time.
abbrev pub IsTimed : Event → Type 0
IsTimed (looks_first _ _) = Unit {0}
IsTimed (goes_on _ now) = pos 0 ≤ℤ now
IsTimed runs_out = Unit {0}
IsTimed reads = Unit {0}
IsTimed (expires now) = (i : ℕ) → pos 0 ≤ℤ now i

-- A call of addTask that has seen a first task which is due early enough still finds some task.
abbrev pub FindsTask : Threads → Option (Look × List Look) → Type 0
FindsTask s none = Unit {0}
FindsTask s (some (l, _)) = l.is_covered ≡ true → s.queue.tasks ≢ []

abbrev pub FindsTasks : Threads → List Event → Type 0
FindsTasks s [] = Unit {0}
FindsTasks s (goes_on i now ∷ es) =
    FindsTask s (take_out i s.looks) × FindsTasks (step s (goes_on i now)) es
FindsTasks s (e ∷ es) = FindsTasks (step s e) es

expire_at-WillExpire : (at : ℤ) (t : Timer) → pos 1 ≤ℤ at → WillExpire (expire_at at t)
unfolding expire_at
expire_at-WillExpire (pos zero) t h = absurd (omega arith)
expire_at-WillExpire (pos (suc n)) t h = inr (pos (suc n), refl)
expire_at-WillExpire (negsuc n) t h = absurd (omega arith)

-- A time that is not due at a time that is not negative is positive.
later-pos : (t now : ℤ) → pos 0 ≤ℤ now → ltb_ℤ (t -ℤ now) timer_accuracy ≡ false → pos 1 ≤ℤ t
later-pos t now h f = omega (arith, h, ltb→≥ℤ (t -ℤ now) timer_accuracy f, -ℤ_parts t now)

run_out-WillExpire : (t : Timer) → WillExpire t → WillExpire (run_out t)
unfolding run_out
run_out-WillExpire t w = ground (arith, w)

take_due-next :
    (now : ℕ → ℤ) (i : ℕ) (m : Tasks)
    → ((j : ℕ) → pos 0 ≤ℤ now j)
    → let r = take_due now i m in (r.left ≡ []) ⊎ ((at : ℤ) × (r.next ≡ some at) × (pos 1 ≤ℤ at))
unfolding take_due
take_due-next now i [] h = inl refl
take_due-next now i ((t, w) ∷ m) h = elim (Bool-cases (ltb_ℤ (t -ℤ now i) timer_accuracy)) [
  | inl due ↦ rw due (take_due-next now (i + 1) m h)
  | inr later ↦ rw later (inr (t, refl, later-pos t (now i) (h i) later))
]

expire-WillExpire :
    (now : ℕ → ℤ) (q : TimerQueue)
    → ((j : ℕ) → pos 0 ≤ℤ now j)
    → ((expire now q).tasks ≡ []) ⊎ WillExpire (expire now q).timer
unfolding expire rearm
expire-WillExpire now q h = elim (take_due-next now 0 q.tasks h) [
  | inl none_left ↦ inl none_left
  | inr (at, next, positive) ↦ inr (rw next (expire_at-WillExpire at q.timer positive))
]

go_on-IsArmed :
    (now : ℤ) (s : Threads) (l : Look) (rest : List Look)
    → pos 0 ≤ℤ now
    → FindsTask s (some (l, rest))
    → IsArmed s
    → IsArmed (go_on now s (some (l, rest)))
unfolding add_looked
go_on-IsArmed now s l rest h finds armed = elim (Bool-cases l.is_covered) [
  | inl early ↦ rw early (elim armed [ inl empty ↦ absurd (finds early empty) | inr set ↦ inr set ])
  | inr late ↦ rw late (elim (Bool-cases (ltb_ℤ (l.expired -ℤ now) timer_accuracy)) [
    | inl due ↦ rw due armed
    | inr later ↦
        rw later (
          inr
            (inl (expire_at-WillExpire l.expired s.queue.timer (later-pos l.expired now h later))))
  ])
]

step-IsArmed :
    (s : Threads) (e : Event) → IsTimed e → FindsTasks s (e ∷ []) → IsArmed s → IsArmed (step s e)
unfolding step
step-IsArmed s (looks_first expired task) h finds a = a
step-IsArmed s (goes_on i now) h finds a = elim (Option-cases (take_out i s.looks)) [
  | inl gone ↦ rw gone a
  | inr ((l, rest), found) ↦
      subst (λ m. IsArmed (go_on now s m)) (sym found)
        (go_on-IsArmed now s l rest h (subst (FindsTask s) found finds.0) a)
]
step-IsArmed s runs_out h finds (inl empty) = inl empty
step-IsArmed s runs_out h finds (inr (inl set)) = inr (inl (run_out-WillExpire s.queue.timer set))
step-IsArmed s runs_out h finds (inr (inr called)) = inr (inr called)
step-IsArmed s reads h finds a = elim (Bool-cases s.queue.timer.fired) [
  | inl fired ↦ subst IsArmed (sym (if-true _ _ fired)) (inr (inr refl))
  | inr quiet ↦ subst IsArmed (sym (if-false _ _ quiet)) a
]
step-IsArmed s (expires now) h finds a = elim (Bool-cases s.expiring) [
  | inl called ↦ subst IsArmed (sym (if-true _ _ called)) (elim (expire-WillExpire now s.queue h) [
    | inl none_left ↦ inl none_left
    | inr set ↦ inr (inl set)
  ])
  | inr uncalled ↦ subst IsArmed (sym (if-false _ _ uncalled)) a
]

FindsTasks-first :
    (s : Threads) (e : Event) (es : List Event)
    → FindsTasks s (e ∷ es)
    → FindsTasks s (e ∷ []) × FindsTasks (step s e) es
FindsTasks-first s (looks_first expired task) es f = (tt, f)
FindsTasks-first s (goes_on i now) es f = ((f.0, tt), f.1)
FindsTasks-first s runs_out es f = (tt, f)
FindsTasks-first s reads es f = (tt, f)
FindsTasks-first s (expires now) es f = (tt, f)

-- In a timer queue among threads, whose calls of addTask look at the first task before they lock
-- and whose scheduler reads the expiration before `expire` locks, if the clock answers no negative
-- time and each call of addTask that has seen a first task which is due early enough still finds
-- some task when it has the lock: whatever the threads do and however they are interleaved, a queue
-- that had no tasks, or whose timer was set or had run out, or whose `expire` had been called, is
-- so again. No task waits without a timer or an `expire` to come.
pub run-IsArmed :
    (s : Threads) (es : List Event)
    → All IsTimed es
    → FindsTasks s es
    → IsArmed s
    → IsArmed (run s es)
unfolding run
run-IsArmed s [] h finds a = a
run-IsArmed s (e ∷ es) h finds a =
    let (first, rest) = FindsTasks-first s e es finds in
    run-IsArmed (step s e) es h.1 rest (step-IsArmed s e h.0 first a)
