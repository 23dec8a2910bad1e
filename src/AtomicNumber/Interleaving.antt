-- ===== src/AtomicNumber/Interleaving.antt =====
-- No change of an AtomicNumber is lost, in whatever order the calls of the threads come.
use native.Mathlib.Nat.{mod-add-mod, mod-eq_of_lt, mod-lt}
use codechiev.Common.{ℕ, ◌+◌, ◌-◌, ◌%◌, ◌^◌, ◌<◌, ◌≡◌, refl, ap, ◌∙◌, List, [], ◌∷◌, All, arith}
use codechiev.AtomicNumber.{
  Call, fetch_and_add, add_and_fetch, fetch_and_sub, sub_and_fetch, set, plus, minus, perform,
  perform_all,
}

-- The next call of one of the threads.
pub data Takes (c : Call) : List (List Call) → List (List Call) → Type 0 where
  here : {cs : List Call} {css : List (List Call)} → Takes c ((c ∷ cs) ∷ css) (cs ∷ css)
  there :
      {ds : List Call} {css rest : List (List Call)}
      → Takes c css rest
      → Takes c (ds ∷ css) (ds ∷ rest)

-- An order of the calls that any number of threads make.
pub data Interleaves : List (List Call) → List Call → Type 0 where
  all_done : Interleaves [] []
  thread_done :
      {css : List (List Call)} {es : List Call} → Interleaves css es → Interleaves ([] ∷ css) es
  next :
      {c : Call} {css rest : List (List Call)} {es : List Call}
      → Takes c css rest
      → Interleaves rest es
      → Interleaves css (c ∷ es)

abbrev pub IsChange : Call → Type 0
IsChange (fetch_and_add n) = Unit {0}
IsChange (add_and_fetch n) = Unit {0}
IsChange (fetch_and_sub n) = Unit {0}
IsChange (sub_and_fetch n) = Unit {0}
IsChange (set n) = ⊥

abbrev pub AllChange : List Call → Type 0
AllChange cs = All IsChange cs

taken-AllChange :
    {c : Call} {css rest : List (List Call)}
    → Takes c css rest
    → All AllChange css
    → IsChange c × All AllChange rest
taken-AllChange here h = (h.0.0, (h.0.1, h.1))
taken-AllChange (there t) h = let (one, others) = taken-AllChange t h.1 in (one, (h.0, others))

interleaved-All :
    {css : List (List Call)} {es : List Call}
    → Interleaves css es
    → All AllChange css
    → AllChange es
interleaved-All all_done h = tt
interleaved-All (thread_done i) h = interleaved-All i h.1
interleaved-All (next t i) h =
    let (one, others) = taken-AllChange t h in (one, interleaved-All i others)

module _ (width : ℕ) where
  -- What a call adds, as a word.
  abbrev pub change : Call → ℕ
  change (fetch_and_add n) = n
  change (add_and_fetch n) = n
  change (fetch_and_sub n) = 2 ^ width - n % 2 ^ width
  change (sub_and_fetch n) = 2 ^ width - n % 2 ^ width
  change (set n) = 0

  abbrev pub total : List Call → ℕ
  total [] = 0
  total (c ∷ cs) = change c + total cs

  step-total :
      (num n : ℕ) (cs : List Call)
      → perform_all width cs ((num + n) % 2 ^ width)
        ≡ ((num + n) % 2 ^ width + total cs) % 2 ^ width
      → perform_all width cs ((num + n) % 2 ^ width) ≡ (num + (n + total cs)) % 2 ^ width
  step-total num n cs e =
      e ∙ mod-add-mod (num + n) (2 ^ width) (total cs) ∙ ap (λ (k : ℕ). k % 2 ^ width) (omega arith)

  perform_all-total :
      (cs : List Call) (num : ℕ)
      → All IsChange cs
      → num < 2 ^ width
      → perform_all width cs num ≡ (num + total cs) % 2 ^ width
  unfolding perform_all perform plus minus
  perform_all-total [] num h below =
      let sum : num + 0 ≡ num = omega arith in rw (sum, mod-eq_of_lt below) refl
  perform_all-total (fetch_and_add n ∷ cs) num h below =
      step-total num n cs
        (perform_all-total cs ((num + n) % 2 ^ width) h.1 (mod-lt _ (omega (arith, below))))
  perform_all-total (add_and_fetch n ∷ cs) num h below =
      step-total num n cs
        (perform_all-total cs ((num + n) % 2 ^ width) h.1 (mod-lt _ (omega (arith, below))))
  perform_all-total (fetch_and_sub n ∷ cs) num h below =
      step-total num (change (fetch_and_sub n)) cs (
        perform_all-total cs ((num + change (fetch_and_sub n)) % 2 ^ width) h.1
          (mod-lt _ (omega (arith, below))))
  perform_all-total (sub_and_fetch n ∷ cs) num h below =
      step-total num (change (sub_and_fetch n)) cs (
        perform_all-total cs ((num + change (sub_and_fetch n)) % 2 ^ width) h.1
          (mod-lt _ (omega (arith, below))))
  perform_all-total (set n ∷ cs) num h below = absurd h.0

  -- What all threads add.
  abbrev pub sum : List (List Call) → ℕ
  sum [] = 0
  sum (cs ∷ css) = total cs + sum css

  taken-sum :
      {c : Call} {css rest : List (List Call)} → Takes c css rest → sum css ≡ change c + sum rest
  taken-sum here = omega arith
  taken-sum (there t) = omega (arith, taken-sum t)

  interleaved-sum :
      {css : List (List Call)} {es : List Call} → Interleaves css es → total es ≡ sum css
  interleaved-sum all_done = omega arith
  interleaved-sum (thread_done i) = omega (arith, interleaved-sum i)
  interleaved-sum (next t i) = omega (arith, interleaved-sum i, taken-sum t)

  -- Whatever the order in which the threads' calls reach an AtomicNumber, the number is afterwards
  -- what it was and all that was added, less all that was subtracted, modulo 2 ^ width: no change
  -- is lost. The threads do not call `set`.
  pub perform_all-interleaved :
      {css : List (List Call)} {es : List Call} (num : ℕ)
      → Interleaves css es
      → All AllChange css
      → num < 2 ^ width
      → perform_all width es num ≡ (num + sum css) % 2 ^ width
  perform_all-interleaved {es = es} num i h below =
      perform_all-total es num (interleaved-All i h) below
      ∙ ap (λ (t : ℕ). (num + t) % 2 ^ width) (interleaved-sum i)
