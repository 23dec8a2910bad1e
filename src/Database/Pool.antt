-- ===== src/Database/Pool.antt =====
-- Taking a connection of a DBManager and returning it.
use codechiev.Common.{
  ℕ, zero, suc, ◌+◌, ◌≡◌, refl, sym, ap, ◌∙◌, Bool, true, false, none, some, List, [], ◌∷◌,
  if◌then◌else◌, arith, inl, inr, some-injective, ◌⊎◌,
}
use codechiev.Database.{Psql, at, set_used, take_free}

abbrev pub free_count : List Psql → ℕ
free_count [] = 0
free_count (db ∷ dbs) = (if db.in_use then 0 else 1) + free_count dbs

-- What `getDB` gives: a connection that was free and is in use now, the others as they were.
pub record Lends (dbs : List Psql) (i : ℕ) (dbs' : List Psql) : Type 0 where
  pub db : Psql
  pub was_free : at i dbs ≡ some (record db { in_use = false })
  pub is_used : at i dbs' ≡ some (record db { in_use = true })
  pub taken : dbs' ≡ set_used true i dbs
  pub returned : set_used false i dbs' ≡ dbs
  pub one_less : free_count dbs ≡ suc (free_count dbs')

abbrev pub LendsOne : List Psql → Type 0
LendsOne dbs =
    ((take_free dbs ≡ none) × (free_count dbs ≡ 0))
    ⊎ ((i : ℕ) × (dbs' : List Psql) × (take_free dbs ≡ some (i, dbs')) × Lends dbs i dbs')

cons-LendsOne :
    (c u : Bool) (dbs : List Psql)
    → LendsOne dbs
    → LendsOne (record { connected = c; in_use = u } ∷ dbs)
unfolding take_free
cons-LendsOne c false dbs rest = inr (
  0,
  record { connected = c; in_use = true } ∷ dbs,
  refl,
  record {
    db = record { connected = c; in_use = true };
    was_free = refl;
    is_used = refl;
    taken = refl;
    returned = refl;
    one_less = omega arith;
  },
)
cons-LendsOne c true dbs (inl (full, count)) = inl (rw full refl, omega (arith, count))
cons-LendsOne c true dbs (inr (i, dbs', found, l)) =
    let db : Psql = record { connected = c; in_use = true } in
    inr (
      suc i,
      db ∷ dbs',
      rw found refl,
      record {
        db = l.db;
        was_free = l.was_free;
        is_used = l.is_used;
        taken = ap (◌∷◌ db) l.taken;
        returned = ap (◌∷◌ db) l.returned;
        one_less = omega (arith, l.one_less);
      },
    )

-- `getDB` gives none only if every connection is in use; otherwise it gives a free one, which is in
-- use then, one less is free, and `returnDB` brings the pool back to what it was.
pub take_free-LendsOne : (dbs : List Psql) → LendsOne dbs
unfolding take_free
take_free-LendsOne [] = inl (refl, refl)
take_free-LendsOne (db ∷ dbs) = cons-LendsOne db.connected db.in_use dbs (take_free-LendsOne dbs)

abbrev pub AllOpen : List Psql → Type 0
AllOpen [] = Unit {0}
AllOpen (db ∷ dbs) = (db.connected ≡ true) × AllOpen dbs

-- A connection that is found among open ones is open.
pub at-AllOpen :
    (i : ℕ) (dbs : List Psql) (db : Psql) → at i dbs ≡ some db → AllOpen dbs → db.connected ≡ true
at-AllOpen i [] db e h = ground (arith, e)
at-AllOpen zero (d ∷ dbs) db e h = ap (λ (x : Psql). x.connected) (sym (some-injective e)) ∙ h.0
at-AllOpen (suc i) (d ∷ dbs) db e h = at-AllOpen i dbs db e h.1

pub set_used-AllOpen :
    (used : Bool) (i : ℕ) (dbs : List Psql) → AllOpen dbs → AllOpen (set_used used i dbs)
set_used-AllOpen used i [] h = tt
set_used-AllOpen used zero (db ∷ dbs) h = h
set_used-AllOpen used (suc i) (db ∷ dbs) h = (h.0, set_used-AllOpen used i dbs h.1)
