-- ===== src/Singleton/Sharing.antt =====
-- Singleton::get: one object, whoever asks first.
use codechiev.Common.{
  ℕ, suc, ◌≤◌, ◌≡◌, refl, sym, ap, ◌∙◌, ◌≢◌, Option, none, some, List, [], ◌∷◌, replicate, arith,
}
use codechiev.Singleton.{
  fresh, running, over, Single, new, init_routine, destructor, Event, silent, exited, got, begins,
  inits, gets, exits, Run, done, goes,
}

-- Each call of `get` returns `current` until the process exits, and a null pointer from then on.
abbrev pub Answers : Option ℕ → List Event → Type 0
Answers current [] = Unit {0}
Answers current (silent ∷ es) = Answers current es
Answers current (exited ∷ es) = Answers none es
Answers current (got o ∷ es) = (o ≡ current) × Answers current es

abbrev pub exit_count : List Event → ℕ
exit_count [] = 0
exit_count (silent ∷ es) = exit_count es
exit_count (exited ∷ es) = suc (exit_count es)
exit_count (got _ ∷ es) = exit_count es

-- The object until the process exits, and null pointers then; one object at most is constructed, and
-- it is destroyed by the exit, which happens once at most.
abbrev pub OneObject : List Event → Single → Type 0
OneObject es s =
    Answers (some 0) es
    × (s.made ≤ 1)
    × (exit_count es ≤ 1)
    × (s.freed ≡ replicate (exit_count es) 0)

-- After the exit.
abbrev IsGone : Single → Type 0
IsGone s = (s.once ≡ over) × (s.object ≡ none) × (s.handlers ≡ 0)

gone-stays :
    {s s' : Single} {es : List Event}
    → Run s es s'
    → IsGone s
    → Answers none es × (exit_count es ≡ 0) × (s' ≡ s)
gone-stays done g = (tt, refl, refl)
gone-stays (goes (begins f) run) g = let e = sym f ∙ g.0 in cc
gone-stays (goes (inits f) run) g = let e = sym f ∙ g.0 in cc
gone-stays (goes (exits h) run) g = absurd (omega (arith, h, g.2))
gone-stays (goes (gets o) run) g =
    let (all, none_left, same) = gone-stays run g in ((g.1, all), none_left, same)

-- While the process runs with its object.
abbrev IsShared : Single → Type 0
IsShared s =
    (s.once ≡ over) × (s.object ≡ some 0) × (s.handlers ≡ 1) × (s.made ≡ 1) × (s.freed ≡ [])

exit-IsGone :
    (s : Single) (n : ℕ)
    → IsShared s
    → s.handlers ≡ suc n
    → IsGone (record (destructor s) { handlers = n })
unfolding destructor
exit-IsGone s n sh h = (sh.0, refl, omega (arith, h, sh.2))

exit-freed : (s : Single) → IsShared s → ((destructor s).freed ≡ 0 ∷ []) × ((destructor s).made ≡ 1)
unfolding destructor
exit-freed s sh = (rw (sh.1, sh.4) refl, sh.3)

shared-OneObject : {s s' : Single} {es : List Event} → Run s es s' → IsShared s → OneObject es s'
shared-OneObject done sh = (tt, omega (arith, sh.3), omega arith, sh.4)
shared-OneObject (goes (begins f) run) sh = let e = sym f ∙ sh.0 in cc
shared-OneObject (goes (inits f) run) sh = let e = sym f ∙ sh.0 in cc
shared-OneObject (goes (gets o) run) sh =
    let (all, made, once, freed) = shared-OneObject run sh in ((sh.1, all), made, once, freed)
shared-OneObject {s = s} {s' = s'} (goes {es = es} (exits {n = n} h) run) sh =
    let (all, no_more, same) = gone-stays run (exit-IsGone s n sh h) in
    let (freed, made) = exit-freed s sh in
    (
      all,
      omega (arith, ap (λ (t : Single). t.made) same, made),
      omega (arith, no_more),
      ap (λ (t : Single). t.freed) same ∙ rw (no_more) freed,
    )

-- Before the routine has run.
abbrev IsFresh : Single → Type 0
IsFresh s = (s.once ≢ over) × (s.object ≡ none) × (s.handlers ≡ 0) × (s.made ≡ 0) × (s.freed ≡ [])

init-IsShared : (s : Single) → IsFresh s → IsShared (record (init_routine s) { once = over })
unfolding init_routine
init-IsShared s f = (refl, ap some f.3, ap suc f.2, ap suc f.3, f.4)

fresh-OneObject : {s s' : Single} {es : List Event} → Run s es s' → IsFresh s → OneObject es s'
fresh-OneObject done f = (tt, omega (arith, f.3), omega arith, f.4)
fresh-OneObject (goes (begins _) run) f =
    fresh-OneObject run ((λ (e : running ≡ over). cc), f.1, f.2, f.3, f.4)
fresh-OneObject {s = s} (goes (inits _) run) f = shared-OneObject run (init-IsShared s f)
fresh-OneObject (goes (gets o) run) f = absurd (f.0 o)
fresh-OneObject (goes (exits h) run) f = absurd (omega (arith, h, f.2))

-- Whatever the threads do and in whatever order, one object at most is constructed for the process:
-- each call of `get` of a Singleton returns it until the process exits, and each call after the
-- exit returns a null pointer; the exit destroys the object, once, and nothing is destroyed before.
pub Run-OneObject : {s : Single} {es : List Event} → Run new es s → OneObject es s
unfolding new
Run-OneObject run = fresh-OneObject run ((λ (e : fresh ≡ over). cc), refl, refl, refl, refl)
