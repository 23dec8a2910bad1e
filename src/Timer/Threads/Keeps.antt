-- ===== src/Timer/Threads/Keeps.antt =====
-- No task is lost or runs twice, also where threads run in between.
use mathlib.Core.Path.{subst}
use mathlib.Core.List.{Perm, perm_middle, perm_append_comm}
use mathlib.Core.List.Perm
use codechiev.Common.{
  ℕ, zero, suc, ◌≡◌, sym, refl, inl, inr, Bool-cases, Option-cases, some, some-injective, if-true,
  if-false, List, [], ◌∷◌, ◌++◌, ℤ, append_assoc,
}
use codechiev.Timer.Keeps.{known, add_looked-perm, expire-perm}
use codechiev.Timer.Threads.{
  Look, Threads, Event, looks_first, goes_on, runs_out, reads, expires, take_out, go_on, step, run,
}

-- The tasks of the calls of addTask that have only looked.
abbrev pub under_way : List Look → List ℕ
under_way [] = []
under_way (l ∷ ls) = l.task ∷ under_way ls

-- All tasks that were handed to addTask.
abbrev pub all_known : Threads → List ℕ
all_known s = under_way s.looks ++ known s.queue

abbrev pub handed : List Event → List ℕ
handed [] = []
handed (looks_first _ task ∷ es) = task ∷ handed es
handed (goes_on _ _ ∷ es) = handed es
handed (runs_out ∷ es) = handed es
handed (reads ∷ es) = handed es
handed (expires _ ∷ es) = handed es

take_out-perm :
    (i : ℕ) (ls : List Look) (l : Look) (rest : List Look)
    → take_out i ls ≡ some (l, rest)
    → Perm (l.task ∷ under_way rest) (under_way ls)
unfolding take_out
take_out-perm i [] l rest e = cc
take_out-perm zero (k ∷ ls) l rest e =
    subst (λ (p : Look × List Look). Perm (p.0.task ∷ under_way p.1) (k.task ∷ under_way ls))
      (some-injective e) (Perm.refl (k.task ∷ under_way ls))
take_out-perm (suc i) (k ∷ ls) l rest e = elim (Option-cases (take_out i ls)) [
  | inl nothing ↦ let never = rw (nothing, take_out) at e in cc
  | inr ((m, left), found) ↦
      let same : some (m, k ∷ left) ≡ some (l, rest) = rw (found, take_out) at e in
      subst (λ (p : Look × List Look). Perm (p.0.task ∷ under_way p.1) (k.task ∷ under_way ls))
        (some-injective same)
        (Perm.trans (Perm.swap k.task m.task (under_way left))
          (Perm.cons k.task (take_out-perm i ls m left found)))
]

go_on-perm :
    (i : ℕ) (now : ℤ) (s : Threads) (l : Look) (rest : List Look)
    → take_out i s.looks ≡ some (l, rest)
    → Perm (all_known (go_on now s (some (l, rest)))) (all_known s)
go_on-perm i now s l rest found =
    Perm.trans
      (Perm.append_left (under_way rest)
        (add_looked-perm l.is_covered now l.expired l.task s.queue))
      (Perm.trans (perm_middle (under_way rest) (known s.queue))
        (Perm.append_right (known s.queue) (take_out-perm i s.looks l rest found)))

step-perm : (s : Threads) (e : Event) → Perm (all_known (step s e)) (handed (e ∷ []) ++ all_known s)
unfolding step
step-perm s (looks_first expired task) = Perm.refl (task ∷ all_known s)
step-perm s (goes_on i now) = elim (Option-cases (take_out i s.looks)) [
  | inl gone ↦ rw gone (Perm.refl (all_known s))
  | inr ((l, rest), found) ↦
      subst (λ m. Perm (all_known (go_on now s m)) (all_known s)) (sym found)
        (go_on-perm i now s l rest found)
]
step-perm s runs_out = Perm.refl (all_known s)
step-perm s reads = elim (Bool-cases s.queue.timer.fired) [
  | inl fired ↦
      subst (λ t. Perm (all_known t) (all_known s)) (sym (if-true _ _ fired))
        (Perm.refl (all_known s))
  | inr quiet ↦
      subst (λ t. Perm (all_known t) (all_known s)) (sym (if-false _ _ quiet))
        (Perm.refl (all_known s))
]
step-perm s (expires now) = elim (Bool-cases s.expiring) [
  | inl called ↦
      subst (λ t. Perm (all_known t) (all_known s)) (sym (if-true _ _ called))
        (Perm.append_left (under_way s.looks) (expire-perm now s.queue))
  | inr uncalled ↦
      subst (λ t. Perm (all_known t) (all_known s)) (sym (if-false _ _ uncalled))
        (Perm.refl (all_known s))
]

handed-first : (e : Event) (es : List Event) → handed (e ∷ es) ≡ handed (e ∷ []) ++ handed es
handed-first (looks_first _ _) es = refl
handed-first (goes_on _ _) es = refl
handed-first runs_out es = refl
handed-first reads es = refl
handed-first (expires _) es = refl

-- Whatever threads do with a timer queue and however they are interleaved, also between an
-- addTask's look at the first task and its lock, and between the reading of the expiration and
-- `expire`: the tasks of the calls of addTask that have only looked, those that wait and those that
-- have run are, up to their order, those that were known before and those that have been handed to
-- addTask. No task is lost and none runs twice.
pub run-all_known :
    (s : Threads) (es : List Event) → Perm (all_known (run s es)) (handed es ++ all_known s)
unfolding run
run-all_known s [] = Perm.refl (all_known s)
run-all_known s (e ∷ es) =
    subst (λ l. Perm (all_known (run (step s e) es)) (l ++ all_known s)) (sym (handed-first e es))
      (Perm.trans (run-all_known (step s e) es) (
        Perm.trans (Perm.append_left (handed es) (step-perm s e)) (
          subst (λ l. Perm l ((handed (e ∷ []) ++ handed es) ++ all_known s))
            (append_assoc (handed es) (handed (e ∷ [])) (all_known s))
            (Perm.append_right (all_known s) (perm_append_comm (handed es) (handed (e ∷ [])))))))
