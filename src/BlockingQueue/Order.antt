-- ===== src/BlockingQueue/Order.antt =====
-- In which order the jobs of a BlockingQueue are taken.
use codechiev.Common.{
  ℕ, ◌≡◌, refl, sym, ap, ◌∙◌, Bool, true, false, Option, none, some, List, [], ◌∷◌, ◌++◌,
  append_assoc, append-nil, if◌then◌else◌, not, ◌&&◌, Bool-cases, if-true, if-false, inl, inr,
  arith,
}
use codechiev.BlockingQueue.{
  State, is_empty, sleeps, breaks, takes, pop, take_job, add_job, commence, stop, Event, added,
  taken, silent, Step, adds, waits, quits, gets, finishes, throws, wakes, commences, stops, Run,
  done, goes,
}

abbrev pub jobs_added : List Event → List ℕ
jobs_added [] = []
jobs_added (added job ∷ es) = job ∷ jobs_added es
jobs_added (taken _ ∷ es) = jobs_added es
jobs_added (silent ∷ es) = jobs_added es

abbrev pub jobs_taken : List Event → List ℕ
jobs_taken [] = []
jobs_taken (added _ ∷ es) = jobs_taken es
jobs_taken (taken none ∷ es) = jobs_taken es
jobs_taken (taken (some job) ∷ es) = job ∷ jobs_taken es
jobs_taken (silent ∷ es) = jobs_taken es

-- A job that is taken is the first one.
pop-jobs :
    (running : Bool) (all : List ℕ) (job : Option ℕ) (jobs : List ℕ)
    → (if is_empty all && running then sleeps else (if not running then breaks else pop all))
      ≡ takes job jobs
    → (first : ℕ) × (job ≡ some first) × (all ≡ first ∷ jobs)
pop-jobs true [] job jobs e = ground (arith, e)
pop-jobs false [] job jobs e = ground (arith, e)
pop-jobs true (j ∷ js) job jobs e = (j, cc, cc)
pop-jobs false (j ∷ js) job jobs e = ground (arith, e)

pub take_job-jobs :
    (s : State) {job : Option ℕ} {jobs : List ℕ}
    → take_job s ≡ takes job jobs
    → (first : ℕ) × (job ≡ some first) × (s.jobs ≡ first ∷ jobs)
unfolding take_job
take_job-jobs s {job = job} {jobs = jobs} e = pop-jobs s.running s.jobs job jobs e

commence-jobs : (n : ℕ) (s : State) → (commence n s).jobs ≡ s.jobs
unfolding commence
commence-jobs n s = elim (Bool-cases s.running) [
  | inl r ↦ ap (λ (t : State). t.jobs) (if-true _ _ r)
  | inr r ↦ ap (λ (t : State). t.jobs) (if-false _ _ r)
]

stop-jobs : (s : State) → (stop s).jobs ≡ s.jobs
unfolding stop
stop-jobs s = elim (Bool-cases s.running) [
  | inl r ↦ ap (λ (t : State). t.jobs) (if-true _ _ r)
  | inr r ↦ ap (λ (t : State). t.jobs) (if-false _ _ r)
]

Step-order :
    {s s' : State} {e : Event}
    → Step s e s'
    → s.jobs ++ jobs_added (e ∷ []) ≡ jobs_taken (e ∷ []) ++ s'.jobs
unfolding add_job
Step-order (adds job n) = refl
Step-order {s = s} (waits t m) = append-nil s.jobs
Step-order {s = s} (quits t m) = append-nil s.jobs
Step-order {s = s} (gets t m n) =
    let (first, is_first, all) = take_job-jobs s t in rw (is_first, append-nil s.jobs) all
Step-order {s = s} (finishes m) = append-nil s.jobs
Step-order {s = s} (throws m) = append-nil s.jobs
Step-order {s = s} (wakes m) = append-nil s.jobs
Step-order {s = s} (commences n) = append-nil s.jobs ∙ sym (commence-jobs n s)
Step-order {s = s} stops = append-nil s.jobs ∙ sym (stop-jobs s)

added-cons :
    (e : Event) (es : List Event) → jobs_added (e ∷ es) ≡ jobs_added (e ∷ []) ++ jobs_added es
added-cons (added job) es = refl
added-cons (taken job) es = refl
added-cons silent es = refl

taken-cons :
    (e : Event) (es : List Event) → jobs_taken (e ∷ es) ≡ jobs_taken (e ∷ []) ++ jobs_taken es
taken-cons (added job) es = refl
taken-cons (taken none) es = refl
taken-cons (taken (some job)) es = refl
taken-cons silent es = refl

-- Whatever the threads do and in whatever order, the jobs that are taken and then those that still
-- wait are the jobs that waited at first and then those that were added: a job is taken once at
-- most, and jobs are taken in the order in which they were added.
pub Run-order :
    {s s' : State} {es : List Event}
    → Run s es s'
    → s.jobs ++ jobs_added es ≡ jobs_taken es ++ s'.jobs
Run-order {s = s} done = append-nil s.jobs
Run-order {s = s} {s' = s''} (goes {s' = s'} {e = e} {es = es} step run) =
    ap (λ l. s.jobs ++ l) (added-cons e es)
    ∙ sym (append_assoc s.jobs (jobs_added (e ∷ [])) (jobs_added es))
    ∙ ap (λ l. l ++ jobs_added es) (Step-order step)
    ∙ append_assoc (jobs_taken (e ∷ [])) s'.jobs (jobs_added es)
    ∙ ap (λ l. jobs_taken (e ∷ []) ++ l) (Run-order run)
    ∙ sym (append_assoc (jobs_taken (e ∷ [])) (jobs_taken es) s''.jobs)
    ∙ ap (λ l. l ++ s''.jobs) (sym (taken-cons e es))
