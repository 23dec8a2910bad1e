-- ===== src/Database/Lending.antt =====
-- codechiev/db/SqlManager.h: the connections of a DBManager among the threads that ask for them. A step is
-- one call with the mutex, or a statement of a thread on the connection that it holds; `held` has an
-- entry for each connection that was given and has not been returned.
use codechiev.Common.{
  ℕ, zero, suc, ◌≡◌, ◌≢◌, refl, sym, ap, ◌∙◌, true, false, none, some, List, [], ◌∷◌, All,
  some-injective, inl, inr, guard, >>=-eq-some,
}
use codechiev.Database.{Psql, Manager, Request, at, set_used, take_free, return_db, exec}
use codechiev.Database.Pool.{LendsOne, take_free-LendsOne}

pub record Lending : Type 0 where
  pub manager : Manager
  pub held : List ℕ

-- One entry less.
pub data Removes (i : ℕ) : List ℕ → List ℕ → Type 0 where
  here : {js : List ℕ} → Removes i (i ∷ js) js
  there : {j : ℕ} {js ks : List ℕ} → Removes i js ks → Removes i (j ∷ js) (j ∷ ks)

pub data Step (s : Lending) : Lending → Type 0 where
  gets :
      {i : ℕ} {dbs : List Psql}
      → take_free s.manager.dbs ≡ some (i, dbs)
      → Step s (record { manager = record s.manager { dbs = dbs }; held = i ∷ s.held })
  finds_none : take_free s.manager.dbs ≡ none → Step s s
  executes :
      {i : ℕ} {rest : List ℕ} {m : Manager} (request : Request)
      → Removes i s.held rest
      → exec i request s.manager ≡ some m
      → Step s (record s { manager = m })
  returns :
      {i : ℕ} {rest : List ℕ}
      → Removes i s.held rest
      → Step s (record { manager = return_db i s.manager; held = rest })

pub data Run : Lending → Lending → Type 0 where
  done : {s : Lending} → Run s s
  goes : {s s' s'' : Lending} → Step s s' → Run s' s'' → Run s s''

abbrev pub IsUsed : List Psql → ℕ → Type 0
IsUsed dbs i = (db : Psql) × (at i dbs ≡ some db) × (db.in_use ≡ true)

abbrev pub NoneIs : ℕ → List ℕ → Type 0
NoneIs i js = All (λ (j : ℕ). i ≢ j) js

abbrev pub AllOnce : List ℕ → Type 0
AllOnce [] = Unit {0}
AllOnce (i ∷ js) = NoneIs i js × AllOnce js

-- What is held is in use, and is held once.
abbrev pub IsLent : Lending → Type 0
IsLent s = All (IsUsed s.manager.dbs) s.held × AllOnce s.held

set_used-kept : (i j : ℕ) (dbs : List Psql) → IsUsed dbs j → IsUsed (set_used true i dbs) j
set_used-kept i j [] u = u
set_used-kept zero zero (db ∷ dbs) u = (record db { in_use = true }, refl, refl)
set_used-kept zero (suc j) (db ∷ dbs) u = u
set_used-kept (suc i) zero (db ∷ dbs) u = u
set_used-kept (suc i) (suc j) (db ∷ dbs) u = set_used-kept i j dbs u

set_used-others :
    (i j : ℕ) (dbs : List Psql) → i ≢ j → IsUsed dbs j → IsUsed (set_used false i dbs) j
set_used-others i j [] d u = u
set_used-others zero zero (db ∷ dbs) d u = absurd (d refl)
set_used-others zero (suc j) (db ∷ dbs) d u = u
set_used-others (suc i) zero (db ∷ dbs) d u = u
set_used-others (suc i) (suc j) (db ∷ dbs) d u =
    set_used-others i j dbs (λ (e : i ≡ j). d (ap suc e)) u

All-map : {P Q : ℕ → Type 0} (js : List ℕ) → ((j : ℕ) → P j → Q j) → All P js → All Q js
All-map [] f h = tt
All-map (j ∷ js) f h = (f j h.0, All-map js f h.1)

-- A connection that was free is not held.
free-NoneIs :
    (i : ℕ) (dbs : List Psql) (db : Psql) (js : List ℕ)
    → at i dbs ≡ some db
    → db.in_use ≡ false
    → All (IsUsed dbs) js
    → NoneIs i js
free-NoneIs i dbs db js found free h = All-map js apart h
  where
    apart : (j : ℕ) → IsUsed dbs j → i ≢ j
    apart j u same =
        let e : some db ≡ some u.0 = sym found ∙ ap (λ (k : ℕ). at k dbs) same ∙ u.1 in
        let never : false ≡ true =
          sym free ∙ ap (λ (d : Psql). d.in_use) (some-injective e) ∙ u.2 in
        cc

module _ (P : ℕ → Type 0) where
  Removes-All : {i : ℕ} {js ks : List ℕ} → Removes i js ks → All P js → P i × All P ks
  Removes-All here h = h
  Removes-All (there r) h = let (at_i, others) = Removes-All r h.1 in (at_i, (h.0, others))

Removes-AllOnce : {i : ℕ} {js ks : List ℕ} → Removes i js ks → AllOnce js → AllOnce ks × NoneIs i ks
Removes-AllOnce here h = (h.1, h.0)
Removes-AllOnce {i = i} (there {j = j} r) h =
    let (j_not_i, others) = Removes-All (λ (k : ℕ). j ≢ k) r h.0 in
    let (once, none_left) = Removes-AllOnce r h.1 in
    ((others, once), ((λ (e : i ≡ j). j_not_i (sym e)), none_left))

gets-IsLent :
    (s : Lending) (i : ℕ) (dbs : List Psql)
    → take_free s.manager.dbs ≡ some (i, dbs)
    → IsLent s
    → IsLent (record { manager = record s.manager { dbs = dbs }; held = i ∷ s.held })
gets-IsLent s i dbs found h = go (take_free-LendsOne s.manager.dbs)
  where
    go :
        LendsOne s.manager.dbs
        → IsLent (record { manager = record s.manager { dbs = dbs }; held = i ∷ s.held })
    go (inl full) = let never = sym full.0 ∙ found in cc
    go (inr (k, taken, is_taken, l)) =
        let same = some-injective (sym is_taken ∙ found) in
        let ki : k ≡ i = ap (λ (p : ℕ × List Psql). p.0) same in
        let lent = rw (ki) at l.taken in
        let new : dbs ≡ set_used true i s.manager.dbs =
          sym (ap (λ (p : ℕ × List Psql). p.1) same) ∙ lent in
        let used : IsUsed dbs i = (
          record l.db { in_use = true },
          ap (λ (p : ℕ × List Psql). at p.0 p.1) (sym same) ∙ l.is_used,
          refl,
        ) in
        let apart : NoneIs i s.held =
          free-NoneIs i s.manager.dbs (record l.db { in_use = false }) s.held
            (ap (λ (n : ℕ). at n s.manager.dbs) (sym ki) ∙ l.was_free) refl h.0 in
        (
          (used, All-map s.held (λ j u. rw (new) (set_used-kept i j s.manager.dbs u)) h.0),
          (apart, h.1),
        )

returns-IsLent :
    (s : Lending) (i : ℕ) (rest : List ℕ)
    → Removes i s.held rest
    → IsLent s
    → IsLent (record { manager = return_db i s.manager; held = rest })
unfolding return_db
returns-IsLent s i rest r h =
    let (once, apart) = Removes-AllOnce r h.1 in
    (still rest (Removes-All (IsUsed s.manager.dbs) r h.0).1 apart, once)
  where
    still :
        (js : List ℕ)
        → All (IsUsed s.manager.dbs) js
        → NoneIs i js
        → All (IsUsed (set_used false i s.manager.dbs)) js
    still [] u d = tt
    still (j ∷ js) u d = (set_used-others i j s.manager.dbs d.0 u.0, still js u.1 d.1)

exec-dbs :
    (i : ℕ) (request : Request) (m m' : Manager) → exec i request m ≡ some m' → m'.dbs ≡ m.dbs
unfolding exec
exec-dbs i request m m' e =
    let (db, found, rest) = >>=-eq-some (at i m.dbs) _ e in
    let (_, opened, made) = >>=-eq-some (guard db.connected) _ rest in
    ap (λ (n : Manager). n.dbs) (sym (some-injective made))

Step-IsLent : {s s' : Lending} → Step s s' → IsLent s → IsLent s'
Step-IsLent {s = s} (gets {i = i} {dbs = dbs} found) h = gets-IsLent s i dbs found h
Step-IsLent (finds_none full) h = h
Step-IsLent {s = s} (executes {i = i} {m = m} request r e) h =
    (rw (exec-dbs i request s.manager m e) (h.0), h.1)
Step-IsLent {s = s} (returns {i = i} {rest = rest} r) h = returns-IsLent s i rest r h

-- Whatever the threads do that ask a DBManager for connections, use them and return them, and in
-- whatever order: if the connections that are held were in use and were held by one thread each,
-- then so they are afterwards, and no connection is given to two threads at once.
pub Run-IsLent : {s s' : Lending} → Run s s' → IsLent s → IsLent s'
Run-IsLent done h = h
Run-IsLent (goes step run) h = Run-IsLent run (Step-IsLent step h)
