-- ===== src/Database/Objects/Faults.antt =====
-- The calls of a mapped table when the server refuses their statements, or when no connection is free.
use Prim.Native.String.{String}
use codechiev.Common.{ℕ, ◌<◌, ◌≡◌, refl, false, Option, none, some, List, ◌>>=◌}
use codechiev.Internet.Bytes.{Endian}
use codechiev.Database.{Manager, Status, null, freed, is_command_ok, is_tuples_ok, free_all}
use codechiev.Database.Pool.{free_count, AllOpen}
use codechiev.Database.Statements.{AllOpen-Takes, select-transaction, select_by_id-closed}
use codechiev.Database.Failures.{update-frees_twice}
use codechiev.Database.Fields.{to_uint64}
use codechiev.Database.Rows.{Tuples, Object, insert_sql, insert_values, update_sql, update_values}
use codechiev.Database.Objects.{
  sql_text, select_sql, delete_sql, read_column, assign_members, insert, update, select_object,
  delete_object,
}

then-none :
    {A B : Type 0} (x : Option A) → (x >>= λ (a : A). let gone : Option B = none in gone) ≡ none
then-none none = refl
then-none (some a) = refl

module _ (e : Endian) (table : String) (names : List String) (o : Object) (m : Manager)
    (all_open : AllOpen m.dbs) (some_free : 0 < free_count m.dbs) where
  insert-fault :
      (status : Status) (answer : Tuples)
      → is_tuples_ok status ≡ false
      → insert e table names status answer o m ≡ none
  unfolding insert read_column
  insert-fault status answer bad =
      rw
        (
          select-transaction m (AllOpen-Takes m all_open some_free) status
              (sql_text (insert_sql table names)) (insert_values e o) null,
          bad,
        )
        refl

  select_object-fault :
      (status : Status) (answer : Tuples)
      → is_tuples_ok status ≡ false
      → select_object e table names status answer o m ≡ none
  unfolding select_object free_all
  select_object-fault status answer bad =
      rw
        (select_by_id-closed m (AllOpen-Takes m all_open some_free) status
          (sql_text (select_sql table)) e (to_uint64 o.id.value) null bad)
        (then-none (assign_members e table names answer freed names o.fields))

  -- If all connections are open and one is free, each call of a mapped object uses freed memory
  -- when the server refuses its statement: `insert` and `selectById` read or clear the result that
  -- `select` or `selectById` of PSql has cleared, and `update` and `DeleteById` clear it again.
  pub refused_calls-fault :
      (status status' : Status) (answer : Tuples) (id : ℕ)
      → is_tuples_ok status ≡ false
      → is_command_ok status' ≡ false
      → (insert e table names status answer o m ≡ none)
        × (select_object e table names status answer o m ≡ none)
        × (update e table names status' o m ≡ none)
        × (delete_object e table names status' id m ≡ none)
  unfolding update delete_object
  refused_calls-fault status status' answer id bad bad' =
      let refused =
        update-frees_twice m status' (sql_text (update_sql table names)) (update_values e o) e id
          all_open some_free bad' in
      let deleted =
        update-frees_twice m status' (sql_text (delete_sql table)) (update_values e o) e id all_open
          some_free bad' in
      (
        insert-fault status answer bad,
        select_object-fault status answer bad,
        rw (refused.0) refl,
        deleted.1,
      )
