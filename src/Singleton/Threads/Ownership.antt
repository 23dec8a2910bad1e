-- ===== src/Singleton/Threads/Ownership.antt =====
-- Whose the objects of a ThreadSingleton are.
use codechiev.Common.{
  ℕ, suc, ◌<◌, ◌≡◌, ◌≢◌, ◌⊎◌, refl, sym, ap, ◌∙◌, none, some, List, [], ◌∷◌, All, arith,
  Option-cases, ◌==◌, some-injective, false, Bool-cases, inl, inr, ==_iff,
}
use codechiev.Common.Assoc.{
  lookup, insert, erase, lookup-insert_self, lookup-insert_other, lookup-erase_self,
}
use codechiev.Singleton.Threads.{
  PerThread, new, get, get_from, destructor, leave, Call, gets, leaves, calls,
}

abbrev pub NotAmong : ℕ → List ℕ → Type 0
NotAmong o freed = All (λ (f : ℕ). o ≢ f) freed

abbrev pub AllOnce : List ℕ → Type 0
AllOnce [] = Unit
AllOnce (o ∷ freed) = NotAmong o freed × AllOnce freed

-- Each thread's object has been constructed, is the one it keeps for itself, is not destroyed, and is
-- no other thread's; no object is destroyed twice.
abbrev pub IsOwned : PerThread → Type 0
IsOwned s =
    ((i o : ℕ)
      → lookup i s.specific ≡ some o
      → (o < s.made) × (lookup i s.own ≡ some o) × NotAmong o s.freed)
    × ((i j o : ℕ) → lookup i s.specific ≡ some o → lookup j s.specific ≡ some o → i ≡ j)
    × All (λ (f : ℕ). f < s.made) s.freed
    × AllOnce s.freed

pub lookup-erase_other :
    (k other : ℕ) (m : List (ℕ × ℕ))
    → (other == k) ≡ false
    → lookup other (erase k m) ≡ lookup other m
unfolding lookup erase
lookup-erase_other k other [] h = refl
lookup-erase_other k other ((i, w) ∷ m) h = ground (arith, h, lookup-erase_other k other m h)

All-below : (n : ℕ) (freed : List ℕ) → All (λ (f : ℕ). f < n) freed → NotAmong n freed
All-below n [] h = tt
All-below n (f ∷ freed) h = ((λ (e : n ≡ f). omega (arith, e, h.0)), All-below n freed h.1)

All-suc : (n : ℕ) (freed : List ℕ) → All (λ (f : ℕ). f < n) freed → All (λ (f : ℕ). f < suc n) freed
All-suc n [] h = tt
All-suc n (f ∷ freed) h = (omega (arith, h.0), All-suc n freed h.1)

-- An entry behind an insertion is the new one or an old one.
insert-cases :
    (k v j o : ℕ) (m : List (ℕ × ℕ))
    → lookup j (insert k v m) ≡ some o
    → ((j ≡ k) × (o ≡ v)) ⊎ (((j == k) ≡ false) × (lookup j m ≡ some o))
insert-cases k v j o m e = elim (Bool-cases (j == k)) [
  | inl same ↦
      let jk = (==_iff j k).0 same in
      let there : lookup k (insert k v m) ≡ some o = rw (jk) at e in
      inl (jk, sym (some-injective (sym (lookup-insert_self k v m) ∙ there)))
  | inr other ↦ inr (other, sym (lookup-insert_other k j v m other) ∙ e)
]

erase-cases :
    (k j o : ℕ) (m : List (ℕ × ℕ))
    → lookup j (erase k m) ≡ some o
    → ((j == k) ≡ false) × (lookup j m ≡ some o)
erase-cases k j o m e = elim (Bool-cases (j == k)) [
  | inl same ↦
      let there : lookup k (erase k m) ≡ some o = rw ((==_iff j k).0 same) at e in
      let never = sym (lookup-erase_self k m) ∙ there in cc
  | inr other ↦ (other, sym (lookup-erase_other k j m other) ∙ e)
]

-- `get` of a thread that has its object.
keeps-IsOwned :
    (i o : ℕ) (s : PerThread)
    → lookup i s.specific ≡ some o
    → IsOwned s
    → IsOwned (record s { own = insert i o s.own })
keeps-IsOwned i o s found h = ((λ j p e. ((h.0 j p e).0, own j p e, (h.0 j p e).2)), h.1, h.2, h.3)
  where
    own : (j p : ℕ) → lookup j s.specific ≡ some p → lookup j (insert i o s.own) ≡ some p
    own j p e = elim (Bool-cases (j == i)) [
      | inl same ↦
          let ji = (==_iff j i).0 same in
          let at_i : lookup i s.specific ≡ some p = rw (ji) at e in
          rw (ji) (lookup-insert_self i o s.own ∙ sym found ∙ at_i)
      | inr other ↦ lookup-insert_other i j o s.own other ∙ (h.0 j p e).1
    ]

-- `get` of a thread that has none.
makes-IsOwned : (i : ℕ) (s : PerThread) → IsOwned s → IsOwned (get_from none i s).1
makes-IsOwned i s h = (each, apart, All-suc s.made s.freed h.2, h.3)
  where
    each :
        (j o : ℕ)
        → lookup j (insert i s.made s.specific) ≡ some o
        → (o < suc s.made) × (lookup j (insert i s.made s.own) ≡ some o) × NotAmong o s.freed
    each j o e = elim (insert-cases i s.made j o s.specific e) [
      | inl newest ↦ (
        omega (arith, newest.1),
        rw (newest.0, newest.1) (lookup-insert_self i s.made s.own),
        rw (newest.1) (All-below s.made s.freed h.2),
      )
      | inr older ↦
          let (below, own, live) = h.0 j o older.1 in
          (omega (arith, below), lookup-insert_other i j s.made s.own older.0 ∙ own, live)
    ]

    apart :
        (j k o : ℕ)
        → lookup j (insert i s.made s.specific) ≡ some o
        → lookup k (insert i s.made s.specific) ≡ some o
        → j ≡ k
    apart j k o e f = elim (insert-cases i s.made j o s.specific e) [
      | inl a ↦ elim (insert-cases i s.made k o s.specific f) [
        | inl b ↦ a.0 ∙ sym b.0
        | inr b ↦ absurd (omega (arith, a.1, (h.0 k o b.1).0))
      ]
      | inr a ↦ elim (insert-cases i s.made k o s.specific f) [
        | inl b ↦ absurd (omega (arith, b.1, (h.0 j o a.1).0))
        | inr b ↦ h.1 j k o a.1 b.1
      ]
    ]

pub get-IsOwned : (i : ℕ) (s : PerThread) → IsOwned s → IsOwned (get i s).1
unfolding get
get-IsOwned i s h = elim (Option-cases (lookup i s.specific)) [
  | inl missing ↦ rw (missing) (makes-IsOwned i s h)
  | inr found ↦ rw (found.1) (keeps-IsOwned i found.0 s found.1 h)
]

-- A thread without an object ends.
leaves-IsOwned :
    (i : ℕ) (s : PerThread)
    → lookup i s.specific ≡ none
    → IsOwned s
    → IsOwned (record s { own = erase i s.own })
leaves-IsOwned i s missing h = ((λ j p e. ((h.0 j p e).0, own j p e, (h.0 j p e).2)), h.1, h.2, h.3)
  where
    own : (j p : ℕ) → lookup j s.specific ≡ some p → lookup j (erase i s.own) ≡ some p
    own j p e = elim (Bool-cases (j == i)) [
      | inl same ↦
          let at_i : lookup i s.specific ≡ some p = rw ((==_iff j i).0 same) at e in
          let never = sym missing ∙ at_i in cc
      | inr other ↦ lookup-erase_other i j s.own other ∙ (h.0 j p e).1
    ]

-- A thread ends and its object is destroyed.
frees-IsOwned :
    (i o : ℕ) (s : PerThread)
    → lookup i s.specific ≡ some o
    → IsOwned s
    → IsOwned (record s { own = erase i s.own; specific = erase i s.specific; freed = o ∷ s.freed })
frees-IsOwned i o s found h = (each, apart, ((h.0 i o found).0, h.2), ((h.0 i o found).2, h.3))
  where
    each :
        (j p : ℕ)
        → lookup j (erase i s.specific) ≡ some p
        → (p < s.made) × (lookup j (erase i s.own) ≡ some p) × NotAmong p (o ∷ s.freed)
    each j p e =
        let (other, was) = erase-cases i j p s.specific e in
        let (below, own, live) = h.0 j p was in
        (
          below,
          lookup-erase_other i j s.own other ∙ own,
          ((λ (same : p ≡ o). no_other j p other was same), live),
        )
      where
        no_other : (j p : ℕ) → (j == i) ≡ false → lookup j s.specific ≡ some p → p ≢ o
        no_other j p other was same =
            let ji = h.1 j i p was (found ∙ ap some (sym same)) in ground (arith, ji, other)

    apart :
        (j k p : ℕ)
        → lookup j (erase i s.specific) ≡ some p
        → lookup k (erase i s.specific) ≡ some p
        → j ≡ k
    apart j k p e f =
        h.1 j k p (erase-cases i j p s.specific e).1 (erase-cases i k p s.specific f).1

pub leave-IsOwned : (i : ℕ) (s : PerThread) → IsOwned s → IsOwned (leave i s)
unfolding leave destructor
leave-IsOwned i s h = elim (Option-cases (lookup i s.specific)) [
  | inl missing ↦ rw (missing) (leaves-IsOwned i s missing h)
  | inr found ↦ rw (found.1, (h.0 i found.0 found.1).1) (frees-IsOwned i found.0 s found.1 h)
]

-- In whatever order the threads of a process call `get` of a ThreadSingleton and end, each thread's
-- object has been constructed, is the one that the thread keeps in `t_`, is not destroyed, and is
-- no other thread's; and no object is destroyed twice.
pub calls-IsOwned : (cs : List Call) → IsOwned (calls cs new)
unfolding new lookup
calls-IsOwned cs =
    go cs new ((λ i o (e : none ≡ some o). cc), (λ i j o (e : none ≡ some o) f. cc), tt, tt)
  where
    go : (cs : List Call) (s : PerThread) → IsOwned s → IsOwned (calls cs s)
    go [] s h = h
    go (gets i ∷ cs) s h = go cs (get i s).1 (get-IsOwned i s h)
    go (leaves i ∷ cs) s h = go cs (leave i s) (leave-IsOwned i s h)
