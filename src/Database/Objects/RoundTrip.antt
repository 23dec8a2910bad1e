-- ===== src/Database/Objects/RoundTrip.antt =====
-- What one object inserts, another one selects.
use Prim.Native.String.{String}
use codechiev.Common.{ℕ, ◌<◌, ◌≡◌, refl, sym, ap, ◌∙◌, Option, some, List, [], ◌∷◌, map, ℤ, lt→ltb}
use codechiev.Internet.Bytes.{Endian, in_memory}
use codechiev.Internet.{host_to_network64, network_to_host64}
use codechiev.Internet.Order.{network64_bytes}
use codechiev.Database.{Manager, exec_params, tuples_ok, null, holds, free_all}
use codechiev.Database.Pool.{free_count, AllOpen}
use codechiev.Database.Statements.{
  Takes, AllOpen-Takes, transaction, asked, select-transaction, select_by_id-asked,
}
use codechiev.Database.Fields.{
  IntField, IsInt64, get_net_value64, to_field64, field64_round_trip, to_uint64, uint64-lt,
}
use codechiev.Database.Rows.{
  Field, Kind, Tuples, get_field_val_of_row, Object, new, assign_row, insert_sql, insert_values,
  blank,
}
use codechiev.Database.Rows.Assemble.{AreShown, SameValues, assign_row-SameValues}
use codechiev.Database.Objects.{
  sql_text, select_sql, with_net_value, read_column, assign_members, insert, select_object,
}

module _ (e : Endian) (table : String) (names : List String) where
  -- The members of a result with rows are those of its first row.
  assign_members-assign_row :
      (answer : Tuples) (more : List String) (fields : List Field)
      → assign_members e table names answer (holds tuples_ok) more fields
        ≡ some (assign_row e answer 0 more fields)
  unfolding assign_members assign_row read_column
  assign_members-assign_row answer [] fields = refl
  assign_members-assign_row answer (name ∷ more) [] = refl
  assign_members-assign_row answer (name ∷ more) (f ∷ fields) =
      rw (assign_members-assign_row answer more fields) refl

  insert-answers :
      (answer : Tuples) (o : Object) (m : Manager) (t : Takes m)
      → insert e table names tuples_ok answer o m
        ≡ some (
          record {
            id = to_field64 e (get_field_val_of_row answer "id" 0) o.id;
            fields = map (with_net_value e) o.fields;
          },
          transaction t.index (sql_text (insert_sql table names)) (insert_values e o) m,
        )
  unfolding insert read_column free_all
  insert-answers answer o m t =
      rw
        (select-transaction m t tuples_ok (sql_text (insert_sql table names)) (insert_values e o)
          null)
        refl

  select_object-answers :
      (answer : Tuples) (o : Object) (m : Manager) (t : Takes m)
      → select_object e table names tuples_ok answer o m
        ≡ some (
          record o { fields = assign_row e answer 0 names o.fields },
          asked m t t.index
              (sql_text (select_sql table))
              (in_memory e 8 (host_to_network64 e (to_uint64 o.id.value)) ∷ []),
        )
  unfolding select_object free_all
  select_object-answers answer o m t =
      rw
        (
          select_by_id-asked m t (sql_text (select_sql table)) e (to_uint64 o.id.value) null,
          assign_members-assign_row answer names o.fields,
        )
        refl

-- The bytes of an identifier, on hosts of either byte order.
id_bytes :
    (e e' : Endian) (id other : IntField)
    → IsInt64 id.value
    → other.value ≡ id.value
    → in_memory e' 8 (host_to_network64 e' (to_uint64 other.value)) ≡ (get_net_value64 e id).0
unfolding get_net_value64 network_to_host64 host_to_network64
id_bytes e e' id other in_range same =
    ap (λ (v : ℤ). in_memory e' 8 (host_to_network64 e' (to_uint64 v))) same
    ∙ network64_bytes e' e (to_uint64 id.value) (uint64-lt id.value)
    ∙ sym (network64_bytes e e (to_uint64 id.value) (uint64-lt id.value))

-- An object is inserted, and a new one with its identifier is selected.
pub record Stored (e e' : Endian) (table : String) (names : List String) (kinds : List Kind)
    (inserted selected : Tuples) (id : IntField) (o : Object) (m : Manager) : Type 0 where
  pub after : Object
  pub found : Object
  pub first : ℕ
  pub second : ℕ
  pub between : Manager
  pub last : Manager
  pub inserts : insert e table names tuples_ok inserted o m ≡ some (after, between)
  pub same_id : after.id.value ≡ id.value
  pub requests :
      between ≡ transaction first (sql_text (insert_sql table names)) (insert_values e o) m
  pub selects :
      select_object e' table names tuples_ok selected (record (new kinds) { id = after.id }) between
      ≡ some (found, last)
  pub asks :
      last.requests
      ≡ (second, exec_params (sql_text (select_sql table)) ((get_net_value64 e id).0 ∷ []))
        ∷ between.requests
  pub same_pool : last.dbs ≡ m.dbs
  pub found_id : found.id ≡ after.id
  pub same_values : SameValues found.fields o.fields

-- If all connections are open and one is free, the server answers to the statement of `insert` with
-- an identifier, and to that of `selectById` with a row that has, under the names of the columns,
-- what the fields of the inserted object give as network bytes (numbers in the range of their
-- kinds, texts without 0 bytes): then `insert` sends the values of the fields and sets the object's
-- identifier to the one in the answer, `selectById` of a new object with this identifier, also on a
-- host of another byte order, asks for the bytes of the answered identifier and sets the members to
-- the values of the inserted object, and the pool is as it was.
pub insert-select :
    (e e' : Endian) (table : String) (names : List String) (kinds : List Kind)
    (inserted selected : Tuples) (id : IntField) (o : Object) (m : Manager)
    → AllOpen m.dbs
    → 0 < free_count m.dbs
    → 0 < inserted.ntuples
    → inserted.getvalue 0 (inserted.fnumber "id") ≡ some (get_net_value64 e id).0
    → IsInt64 id.value
    → 0 < selected.ntuples
    → AreShown e e' selected 0 names kinds o.fields
    → Stored e e' table names kinds inserted selected id o m
unfolding get_field_val_of_row
insert-select e e' table names kinds inserted selected id o m all_open some_free one_id gives_id
      in_range one_row shown =
    let t : Takes m = AllOpen-Takes m all_open some_free in
    let m₁ : Manager =
      transaction t.index (sql_text (insert_sql table names)) (insert_values e o) m in
    let t₁ : Takes m₁ = AllOpen-Takes m₁ all_open some_free in
    let id₁ : IntField = to_field64 e (get_field_val_of_row inserted "id" 0) o.id in
    let blank_one : Object = record (new kinds) { id = id₁ } in
    let same : id₁.value ≡ id.value =
      ap (λ (bytes : Option (List ℕ)). (to_field64 e bytes o.id).value)
        (rw (lt→ltb 0 inserted.ntuples one_id) gives_id)
      ∙ field64_round_trip e e id o.id in_range in
    record {
      after = record { id = id₁; fields = map (with_net_value e) o.fields };
      found = record blank_one { fields = assign_row e' selected 0 names (map blank kinds) };
      first = t.index;
      second = t₁.index;
      between = m₁;
      last = _;
      inserts = insert-answers e table names inserted o m t;
      same_id = same;
      requests = refl;
      selects = select_object-answers e' table names selected blank_one m₁ t₁;
      asks =
          ap
            (λ (bytes : List ℕ).
              (t₁.index, exec_params (sql_text (select_sql table)) (bytes ∷ [])) ∷ m₁.requests)
            (id_bytes e e' id id₁ in_range same);
      same_pool = refl;
      found_id = refl;
      same_values = assign_row-SameValues e e' selected 0 names kinds o.fields one_row shown;
    }
