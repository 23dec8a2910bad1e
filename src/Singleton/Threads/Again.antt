-- ===== src/Singleton/Threads/Again.antt =====
-- ThreadSingleton::get, called again by a thread.
use codechiev.Common.{
  ℕ, ◌≡◌, refl, sym, ◌∙◌, some, List, [], ◌∷◌, Option-cases, ◌==◌, false, Bool-cases, inl, inr,
  ==_iff,
}
use codechiev.Common.Assoc.{lookup, lookup-insert_self, lookup-insert_other}
use codechiev.Singleton.Threads.{PerThread, get, destructor, leave, Call, gets, leaves, calls}
use codechiev.Singleton.Threads.Ownership.{lookup-erase_other}

get-stores : (i : ℕ) (s : PerThread) → lookup i (get i s).1.specific ≡ some (get i s).0
unfolding get
get-stores i s = elim (Option-cases (lookup i s.specific)) [
  | inl missing ↦ rw (missing) (lookup-insert_self i s.made s.specific)
  | inr found ↦ rw (found.1) (found.1)
]

-- The thread does not end.
abbrev pub Stays : ℕ → List Call → Type 0
Stays i [] = Unit
Stays i (gets j ∷ cs) = Stays i cs
Stays i (leaves j ∷ cs) = ((i == j) ≡ false) × Stays i cs

get-keeps :
    (i j o : ℕ) (s : PerThread)
    → lookup i s.specific ≡ some o
    → lookup i (get j s).1.specific ≡ some o
unfolding get
get-keeps i j o s e = elim (Option-cases (lookup j s.specific)) [
  | inr found ↦ rw (found.1) e
  | inl missing ↦ elim (Bool-cases (i == j)) [
    | inl same ↦
        let at_j : lookup j s.specific ≡ some o = rw ((==_iff i j).0 same) at e in
        let never = sym missing ∙ at_j in cc
    | inr other ↦ rw (missing) (lookup-insert_other j i s.made s.specific other ∙ e)
  ]
]

leave-keeps :
    (i j o : ℕ) (s : PerThread)
    → (i == j) ≡ false
    → lookup i s.specific ≡ some o
    → lookup i (leave j s).specific ≡ some o
unfolding leave destructor
leave-keeps i j o s other e = elim (Option-cases (lookup j s.specific)) [
  | inl missing ↦ rw (missing) e
  | inr found ↦ elim (Option-cases (lookup j s.own)) [
    | inl none_own ↦ rw (found.1, none_own) (lookup-erase_other j i s.specific other ∙ e)
    | inr own ↦ rw (found.1, own.1) (lookup-erase_other j i s.specific other ∙ e)
  ]
]

calls-keep :
    (i o : ℕ) (cs : List Call) (s : PerThread)
    → Stays i cs
    → lookup i s.specific ≡ some o
    → lookup i (calls cs s).specific ≡ some o
calls-keep i o [] s stays e = e
calls-keep i o (gets j ∷ cs) s stays e = calls-keep i o cs (get j s).1 stays (get-keeps i j o s e)
calls-keep i o (leaves j ∷ cs) s stays e =
    calls-keep i o cs (leave j s) stays.1 (leave-keeps i j o s stays.0 e)

get-found : (i o : ℕ) (s : PerThread) → lookup i s.specific ≡ some o → (get i s).0 ≡ o
unfolding get
get-found i o s e = rw (e) refl

-- A thread that calls `get` of a ThreadSingleton again, before it ends, gets the same object, whatever
-- calls of `get` it and other threads make in between and whichever other threads end.
pub get-again :
    (i : ℕ) (cs : List Call) (s : PerThread)
    → Stays i cs
    → (get i (calls cs (get i s).1)).0 ≡ (get i s).0
get-again i cs s stays =
    get-found i (get i s).0 (calls cs (get i s).1)
      (calls-keep i (get i s).0 cs (get i s).1 stays (get-stores i s))
