-- ===== src/Timer/Keeps.antt =====
-- Every task that is added is waiting or has run, once.
use mathlib.Core.Path.{subst}
use mathlib.Core.List.{Perm, perm_append_singleton, perm_append_comm}
use mathlib.Core.List.Perm
use codechiev.Common.{
  ℕ, ◌+◌, ◌≡◌, refl, sym, ap, ◌∙◌, inl, inr, Bool, Bool-cases, List, [], ◌∷◌, ◌++◌, ℤ, ◌-ℤ◌, ltb_ℤ,
  append_assoc,
}
use codechiev.Timer.{
  Tasks, TimerQueue, Event, adds, runs_out, expires, timer_accuracy, insert, take_due, expire,
}
use codechiev.Timer.Expire.{names}
use codechiev.Timer.Race.{add_looked}

abbrev pub added : List Event → List ℕ
added [] = []
added (adds _ _ task ∷ es) = task ∷ added es
added (runs_out ∷ es) = added es
added (expires _ ∷ es) = added es

abbrev pub known : TimerQueue → List ℕ
known q = names q.tasks ++ q.ran

perm_of_eq : {l m : List ℕ} → l ≡ m → Perm l m
perm_of_eq {l = l} e = subst (Perm l) e (Perm.refl l)

insert-perm : (k : ℤ) (v : ℕ) (m : Tasks) → Perm (names (insert k v m)) (v ∷ names m)
unfolding insert
insert-perm k v [] = Perm.refl (v ∷ [])
insert-perm k v ((t, w) ∷ m) = elim (Bool-cases (ltb_ℤ k t)) [
  | inl lt ↦ rw lt (Perm.refl (v ∷ w ∷ names m))
  | inr ge ↦ rw ge (Perm.trans (Perm.cons w (insert-perm k v m)) (Perm.swap v w (names m)))
]

take_due-split :
    (now : ℕ → ℤ) (i : ℕ) (m : Tasks) → let r = take_due now i m in r.due ++ names r.left ≡ names m
unfolding take_due
take_due-split now i [] = refl
take_due-split now i ((t, w) ∷ m) = elim (Bool-cases (ltb_ℤ (t -ℤ now i) timer_accuracy)) [
  | inl due ↦ rw due (ap (◌∷◌ w) (take_due-split now (i + 1) m))
  | inr later ↦ rw later refl
]

pub add_looked-perm :
    (is_covered : Bool) (now expired : ℤ) (task : ℕ) (q : TimerQueue)
    → Perm (known (add_looked is_covered now expired task q)) (task ∷ known q)
unfolding add_looked
add_looked-perm is_covered now expired task q = elim (Bool-cases is_covered) [
  | inl early ↦ rw early stored
  | inr late ↦ rw late (elim (Bool-cases (ltb_ℤ (expired -ℤ now) timer_accuracy)) [
    | inl due ↦ rw due (
        subst (λ l. Perm l (task ∷ known q)) (append_assoc (names q.tasks) q.ran (task ∷ []))
          (perm_append_singleton task (known q)))
    | inr later ↦ rw later stored
  ])
]
  where
    stored : Perm (names (insert expired task q.tasks) ++ q.ran) (task ∷ (names q.tasks ++ q.ran))
    stored = Perm.append_right q.ran (insert-perm expired task q.tasks)

pub expire-perm : (now : ℕ → ℤ) (q : TimerQueue) → Perm (known (expire now q)) (known q)
unfolding expire
expire-perm now q =
    let r = take_due now 0 q.tasks in
    subst (λ l. Perm l (known q)) (append_assoc (names r.left) q.ran r.due)
      (Perm.trans (perm_append_comm (names r.left ++ q.ran) r.due) (
        perm_of_eq (
          sym (append_assoc r.due (names r.left) q.ran)
          ∙ ap (λ l. l ++ q.ran) (take_due-split now 0 q.tasks))))
