-- ===== src/Database/Statements.antt =====
-- What a statement does with the connection that it takes from the pool.
use codechiev.Common.{
  ℕ, ◌<◌, ◌≡◌, refl, true, false, some, List, ◌∷◌, if◌then◌else◌, arith, inl, inr,
}
use codechiev.Internet.Bytes.{Endian}
use codechiev.Database.{
  Psql, Manager, Request, begin, end, exec_params, Status, command_ok, tuples_ok, failure,
  is_tuples_ok, is_command_ok, Result, freed, holds, take_free, exec, free_all, query, select,
  query_by_id, select_by_id, id_value, return_db, close_db, set_closed,
}
use codechiev.Database.Pool.{free_count, Lends, take_free-LendsOne, AllOpen, at-AllOpen}

-- A connection can be taken, and the statement can use it.
pub record Takes (m : Manager) : Type 0 where
  pub index : ℕ
  pub dbs : List Psql
  pub found : take_free m.dbs ≡ some (index, dbs)
  pub lends : Lends m.dbs index dbs
  pub is_open : lends.db.connected ≡ true

pub AllOpen-Takes : (m : Manager) → AllOpen m.dbs → 0 < free_count m.dbs → Takes m
AllOpen-Takes m all_open some_free = elim (take_free-LendsOne m.dbs) [
  | inl (full, count) ↦ absurd (omega arith)
  | inr (i, dbs', found, l) ↦ record {
    index = i;
    dbs = dbs';
    found = found;
    lends = l;
    is_open = at-AllOpen i m.dbs _ l.was_free all_open;
  }
]

-- The requests of a statement between BEGIN and END, newest first.
abbrev pub transaction : ℕ → List ℕ → List (List ℕ) → Manager → Manager
transaction i sql values m = record m {
  requests = (i, end) ∷ (i, exec_params sql values) ∷ (i, begin) ∷ m.requests;
}

abbrev pub selected : Status → Result
selected status = if is_tuples_ok status then holds status else freed

module _ (m : Manager) (t : Takes m) where
  exec-lent :
      (request : Request) (requests : List (ℕ × Request))
      → exec t.index request (record { dbs = t.dbs; requests = requests })
        ≡ some (record { dbs = t.dbs; requests = (t.index, request) ∷ requests })
  unfolding exec
  exec-lent request requests = rw (t.lends.is_used, t.is_open) refl

  pub select-transaction :
      (status : Status) (sql : List ℕ) (values : List (List ℕ)) (result : Result)
      → select status sql values result m ≡ some (selected status, transaction t.index sql values m)
  unfolding select return_db free_all
  select-transaction tuples_ok sql values result =
      rw (t.found, exec-lent, exec-lent, exec-lent, t.lends.returned, select) refl
  select-transaction command_ok sql values result =
      rw (t.found, exec-lent, exec-lent, exec-lent, t.lends.returned, select) refl
  select-transaction failure sql values result =
      rw (t.found, exec-lent, exec-lent, exec-lent, t.lends.returned, select) refl

  query-transaction :
      (sql : List ℕ) (values : List (List ℕ)) (result : Result)
      → query command_ok sql values result m
        ≡ some (holds command_ok, transaction t.index sql values m)
  unfolding query return_db
  query-transaction sql values result =
      rw (t.found, exec-lent, exec-lent, exec-lent, t.lends.returned, query) refl

  -- A selectById makes one request, without a transaction.
  abbrev pub asked : ℕ → List ℕ → List (List ℕ) → Manager
  asked i sql values = record m { requests = (i, exec_params sql values) ∷ m.requests }

  pub select_by_id-asked :
      (sql : List ℕ) (e : Endian) (id : ℕ) (result : Result)
      → select_by_id tuples_ok sql e id result m
        ≡ some (holds tuples_ok, asked t.index sql (id_value tuples_ok sql e id))
  unfolding select_by_id return_db
  select_by_id-asked sql e id result = rw (t.found, exec-lent, t.lends.returned, select_by_id) refl

  -- A statement that fails leaves the connection as it was lent, within the transaction.
  abbrev pub unfinished : List ℕ → List (List ℕ) → Manager
  unfinished sql values = record {
    dbs = t.dbs;
    requests = (t.index, exec_params sql values) ∷ (t.index, begin) ∷ m.requests;
  }

  pub query-unfinished :
      (status : Status) (sql : List ℕ) (values : List (List ℕ)) (result : Result)
      → is_command_ok status ≡ false
      → query status sql values result m ≡ some (freed, unfinished sql values)
  unfolding query free_all
  query-unfinished status sql values result bad =
      rw (t.found, exec-lent, exec-lent, bad, query) refl

  pub query_by_id-unfinished :
      (status : Status) (sql : List ℕ) (e : Endian) (id : ℕ) (result : Result)
      → is_command_ok status ≡ false
      → query_by_id status sql e id result m
        ≡ some (
          freed,
          record (unfinished sql (id_value status sql e id)) { dbs = set_closed t.index t.dbs },
        )
  unfolding query_by_id free_all close_db
  query_by_id-unfinished status sql e id result bad =
      rw (t.found, exec-lent, exec-lent, bad, t.lends.is_used, t.is_open, query_by_id) refl

  pub select_by_id-closed :
      (status : Status) (sql : List ℕ) (e : Endian) (id : ℕ) (result : Result)
      → is_tuples_ok status ≡ false
      → select_by_id status sql e id result m
        ≡ some (
          freed,
          record (asked t.index sql (id_value status sql e id)) { dbs = set_closed t.index t.dbs },
        )
  unfolding select_by_id free_all close_db
  select_by_id-closed status sql e id result bad =
      rw (t.found, exec-lent, bad, t.lends.is_used, t.is_open, select_by_id) refl

-- If all connections are open and one is free, `select` makes its three requests on one connection
-- and returns it, whether the statement succeeds or not, and the pool is as it was.
pub select-returns :
    (m : Manager) (status : Status) (sql : List ℕ) (values : List (List ℕ)) (result : Result)
    → AllOpen m.dbs
    → 0 < free_count m.dbs
    → (i : ℕ) × (select status sql values result m
        ≡ some (selected status, transaction i sql values m))
select-returns m status sql values result all_open some_free =
    let t = AllOpen-Takes m all_open some_free in
    (t.index, select-transaction m t status sql values result)

-- If all connections are open and one is free, a `query` whose statement succeeds makes its three
-- requests on one connection and returns it, and the pool is as it was.
pub query-returns :
    (m : Manager) (sql : List ℕ) (values : List (List ℕ)) (result : Result)
    → AllOpen m.dbs
    → 0 < free_count m.dbs
    → (i : ℕ) × (query command_ok sql values result m
        ≡ some (holds command_ok, transaction i sql values m))
query-returns m sql values result all_open some_free =
    let t = AllOpen-Takes m all_open some_free in (t.index, query-transaction m t sql values result)

-- When every connection is in use, each of the four statements does nothing, and its result is what
-- it was.
pub statements_exhausted :
    (m : Manager) (status : Status) (sql : List ℕ) (values : List (List ℕ)) (e : Endian) (id : ℕ)
    (result : Result)
    → free_count m.dbs ≡ 0
    → (query status sql values result m ≡ some (result, m))
      × (select status sql values result m ≡ some (result, m))
      × (query_by_id status sql e id result m ≡ some (result, m))
      × (select_by_id status sql e id result m ≡ some (result, m))
unfolding query select query_by_id select_by_id
statements_exhausted m status sql values e id result full = elim (take_free-LendsOne m.dbs) [
  | inl (found, _) ↦ (
    rw (found, query) refl,
    rw (found, select) refl,
    rw (found, query_by_id) refl,
    rw (found, select_by_id) refl,
  )
  | inr (i, dbs', found, l) ↦ absurd (omega (arith, l.one_less, full))
]
