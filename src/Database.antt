-- ===== src/Database.antt =====
-- codechiev/db/SqlManager.h, Psql.cpp and orm-psql.h: the pool of connections, the statements that go
-- through it, and the calls of a mapped table.
-- `connected` is a connection that `PQfinish` has not freed. `none` is a use of freed memory: a
-- connection behind PQfinish, or a result behind PQclear. What the server answers to a statement is
-- the argument `status`; nothing depends on what it answers to BEGIN and END.
pub mod Pool
pub mod Statements
pub mod Failures
pub mod Fields
pub mod Rows
pub mod Lending
pub mod Objects
use codechiev.Common.{
  ℕ, zero, suc, Bool, true, false, Option, none, some, List, [], ◌∷◌, ◌++◌, guard, ◌>>=◌, ◌>>◌,
  if◌then◌else◌,
}
use codechiev.Internet.Bytes.{Endian, in_memory}
use codechiev.Internet.{host_to_network64}

pub record Psql : Type 0 where
  pub connected : Bool
  pub in_use : Bool

pub data Request : Type 0 where
  begin end : Request
  -- PQexecParams: the text and the values of its parameters
  exec_params : (sql : List ℕ) (values : List (List ℕ)) → Request

pub data Status : Type 0 where
  command_ok tuples_ok failure : Status

-- The pool, and the requests with the connection that each was made on, newest first.
pub record Manager : Type 0 where
  pub dbs : List Psql
  pub requests : List (ℕ × Request)

-- PSql::Result: a null pointer, a result, or a pointer to one that is freed.
pub data Result : Type 0 where
  null freed : Result
  holds : Status → Result

abbrev pub is_command_ok : Status → Bool
is_command_ok command_ok = true
is_command_ok tuples_ok = false
is_command_ok failure = false

abbrev pub is_tuples_ok : Status → Bool
is_tuples_ok command_ok = false
is_tuples_ok tuples_ok = true
is_tuples_ok failure = false

abbrev pub at : ℕ → List Psql → Option Psql
at i [] = none
at zero (db ∷ dbs) = some db
at (suc i) (db ∷ dbs) = at i dbs

abbrev pub set_used : Bool → ℕ → List Psql → List Psql
set_used used i [] = []
set_used used zero (db ∷ dbs) = record db { in_use = used } ∷ dbs
set_used used (suc i) (db ∷ dbs) = db ∷ set_used used i dbs

abbrev pub set_closed : ℕ → List Psql → List Psql
set_closed i [] = []
set_closed zero (db ∷ dbs) = record db { connected = false } ∷ dbs
set_closed (suc i) (db ∷ dbs) = db ∷ set_closed i dbs

-- DBManager::init: whether each `connect` succeeds. The result of `connect` is not looked at.
unfoldable pub init : List Bool → Manager → Manager
init [] m = m
init (connects ∷ more) m =
    init more (record m { dbs = m.dbs ++ (record { connected = connects; in_use = false } ∷ []) })

-- DBManager::close
unfoldable pub close_all : List Psql → Option (List Psql)
close_all [] = some []
close_all (db ∷ dbs) = do
  guard db.connected
  dbs' ← close_all dbs
  some (record db { connected = false } ∷ dbs')

unfoldable pub close : Manager → Option Manager
close m = do dbs ← close_all m.dbs; some (record m { dbs = dbs })

-- DBManager::getDB: the first connection that is not in use.
unfoldable pub take_free : List Psql → Option (ℕ × List Psql)
take_free [] = none
take_free (db ∷ dbs) =
    let rest = take_free dbs in
    if db.in_use
    then elim rest [ none ↦ none | some (i, dbs') ↦ some (suc i, db ∷ dbs') ]
    else some (0, record db { in_use = true } ∷ dbs)

-- DBManager::returnDB
unfoldable pub return_db : ℕ → Manager → Manager
return_db i m = record m { dbs = set_used false i m.dbs }

-- PQexec and PQexecParams on a connection
unfoldable pub exec : ℕ → Request → Manager → Option Manager
exec i request m = do
  db ← at i m.dbs
  guard db.connected
  some (record m { requests = (i, request) ∷ m.requests })

-- PSql::close
unfoldable pub close_db : ℕ → Manager → Option Manager
close_db i m = do db ← at i m.dbs; guard db.connected; some (record m { dbs = set_closed i m.dbs })

unfoldable pub free_all : Result → Option Result
free_all null = some null
free_all freed = none
free_all (holds _) = some freed

module _ (status : Status) (sql : List ℕ) where
  unfoldable pub query : List (List ℕ) → Result → Manager → Option (Result × Manager)
  query values result m = elim (take_free m.dbs) [
    | none ↦ some (result, m)
    | some (i, dbs) ↦ (do
      m₁ ← exec i begin (record m { dbs = dbs })
      m₂ ← exec i (exec_params sql values) m₁
      if is_command_ok status
          then (do m₃ ← exec i end m₂; some (holds status, return_db i m₃))
          else (do result' ← free_all (holds status); some (result', m₂)))
  ]

  unfoldable pub select : List (List ℕ) → Result → Manager → Option (Result × Manager)
  select values result m = elim (take_free m.dbs) [
    | none ↦ some (result, m)
    | some (i, dbs) ↦ (do
      m₁ ← exec i begin (record m { dbs = dbs })
      m₂ ← exec i (exec_params sql values) m₁
      result' ← if is_tuples_ok status then some (holds status) else free_all (holds status)
      m₃ ← exec i end m₂
      some (result', return_db i m₃))
  ]

  module _ (e : Endian) (id : ℕ) where
    -- The identifier goes as eight bytes in network order.
    abbrev pub id_value : List (List ℕ)
    id_value = in_memory e 8 (host_to_network64 e id) ∷ []

    unfoldable pub query_by_id : Result → Manager → Option (Result × Manager)
    query_by_id result m = elim (take_free m.dbs) [
      | none ↦ some (result, m)
      | some (i, dbs) ↦ (do
        m₁ ← exec i begin (record m { dbs = dbs })
        m₂ ← exec i (exec_params sql id_value) m₁
        if is_command_ok status
            then (do m₃ ← exec i end m₂; some (holds status, return_db i m₃))
            else (do result' ← free_all (holds status); m₃ ← close_db i m₂; some (result', m₃)))
    ]

    unfoldable pub select_by_id : Result → Manager → Option (Result × Manager)
    select_by_id result m = elim (take_free m.dbs) [
      | none ↦ some (result, m)
      | some (i, dbs) ↦ (do
        m₁ ← exec i (exec_params sql id_value) (record m { dbs = dbs })
        if is_tuples_ok status
            then some (holds status, return_db i m₁)
            else (do result' ← free_all (holds status); m₂ ← close_db i m₁; some (result', m₂)))
    ]

    -- DECLEAR_PSQL_TABLE: DeleteById
    unfoldable pub delete_by_id : Manager → Option Manager
    delete_by_id m = do (result, m') ← query_by_id null m; _ ← free_all result; some m'

  -- DECLEAR_PSQL_TABLE: update, with the values of the fields
  unfoldable pub update : List (List ℕ) → Manager → Option Manager
  update values m = do (result, m') ← query values null m; _ ← free_all result; some m'
