-- ===== src/Database/Objects.antt =====
-- codechiev/db/orm-psql.h: the four calls of a mapped table with any columns, as methods of its object. What
-- the server answers to the call's statement is an argument: a status, and the rows.
pub mod RoundTrip
pub mod Faults
use Prim.Native.String
use Prim.Native.String.{String}
use Prim.Native.Char.{code}
use codechiev.Common.{
  ℕ, zero, suc, ◌+◌, ◌/◌, ◌%◌, ◌≡◌, refl, Option, none, some, List, [], ◌∷◌, ◌++◌, map, ltb,
  if◌then◌else◌, ◌>>=◌,
}
use codechiev.Internet.Bytes.{Endian}
use codechiev.Database
use codechiev.Database.{Manager, Status, Result, null, freed, holds, free_all, select, select_by_id}
use codechiev.Database.Fields.{IntField, get_net_value64, get_net_value32, to_field64, to_uint64}
use codechiev.Database.Rows.{
  Field, int64, int32, string, to_field, Tuples, get_field_val_of_row, Object, Token, words, column,
  placeholder, insert_sql, update_sql, insert_values, update_values,
}

abbrev pub codes : String → List ℕ
codes String.[] = []
codes (String.◌∷◌ c s) = code c ∷ codes s

-- The digits of a number; as many rounds as the number is are enough.
unfoldable pub digits : ℕ → ℕ → List ℕ
digits zero n = (48 + n) ∷ []
digits (suc fuel) n =
    let front = digits fuel (n / 10) in
    if ltb n 10 then (48 + n) ∷ [] else front ++ ((48 + n % 10) ∷ [])

-- The text that the preprocessor puts together.
unfoldable pub sql_text : List Token → List ℕ
unfolding digits
sql_text [] = []
sql_text (words s ∷ tokens) = codes s ++ sql_text tokens
sql_text (column s ∷ tokens) = codes s ++ sql_text tokens
sql_text (placeholder n ∷ tokens) = 36 ∷ digits n n ++ sql_text tokens

unfoldable pub select_sql : String → List Token
select_sql table =
    words "SELECT * FROM "
    ∷ words table
    ∷ words " WHERE id = "
    ∷ placeholder 1
    ∷ words "::bigint"
    ∷ []

unfoldable pub delete_sql : String → List Token
delete_sql table =
    words "delete from " ∷ words table ∷ words " where id=" ∷ placeholder 1 ∷ words "::bigint" ∷ []

-- A field after getNetValue, which keeps the network bytes of a number.
unfoldable pub with_net_value : Endian → Field → Field
with_net_value e (int64 f) = int64 (get_net_value64 e f).1
with_net_value e (int32 f) = int32 (get_net_value32 e f).1
with_net_value e (string t) = string t

-- getFieldValOfRow of a result: null has no rows, and what is freed cannot be read.
unfoldable pub read_column : Tuples → String → Result → Option (Option (List ℕ))
read_column answer name null = some none
read_column answer name freed = none
read_column answer name (holds _) = some (get_field_val_of_row answer name 0)

module _ (e : Endian) (table : String) (names : List String) where
  -- TABLE_ASSIGN for each member
  unfoldable pub assign_members : Tuples → Result → List String → List Field → Option (List Field)
  assign_members answer result [] fields = some []
  assign_members answer result (name ∷ more) [] = some []
  assign_members answer result (name ∷ more) (f ∷ fields) = do
    bytes ← read_column answer name result
    rest ← assign_members answer result more fields
    some (to_field e bytes f ∷ rest)

  unfoldable pub insert : Status → Tuples → Object → Manager → Option (Object × Manager)
  insert status answer o m = do
    (result, m') ← select status (sql_text (insert_sql table names)) (insert_values e o) null m
    bytes ← read_column answer "id" result
    _ ← free_all result
    some (record { id = to_field64 e bytes o.id; fields = map (with_net_value e) o.fields }, m')

  unfoldable pub update : Status → Object → Manager → Option (Object × Manager)
  update status o m = do
    m' ← Database.update status (sql_text (update_sql table names)) (update_values e o) m
    some (record { id = (get_net_value64 e o.id).1; fields = map (with_net_value e) o.fields }, m')

  -- selectById: the members are assigned, and the identifier is not.
  unfoldable pub select_object : Status → Tuples → Object → Manager → Option (Object × Manager)
  select_object status answer o m = do
    (result, m') ← select_by_id status (sql_text (select_sql table)) e (to_uint64 o.id.value) null m
    fields ← assign_members answer result names o.fields
    _ ← free_all result
    some (record o { fields = fields }, m')

  -- DeleteById
  unfoldable pub delete_object : Status → ℕ → Manager → Option Manager
  delete_object status id m = Database.delete_by_id status (sql_text (delete_sql table)) e id m
