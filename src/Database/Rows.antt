-- ===== src/Database/Rows.antt =====
-- codechiev/db/orm-psql.h and orm.h: the members of a mapped table, their statements and the objects that
-- are made of a result. A table's columns are lists of names and of kinds of fields; `id` is apart. What
-- libpq answers about a result is an argument.
pub mod Assemble
pub mod Placeholders
use Prim.Native.String.{String}
use codechiev.Common.{
  ℕ, zero, suc, ◌+◌, Option, none, some, List, [], ◌∷◌, ◌++◌, map, length, take, ℤ, pos, ltb,
  if◌then◌else◌,
}
use codechiev.Internet.Bytes.{Endian}
use codechiev.Database.Fields.{
  IntField, get_net_value64, to_field64, get_net_value32, to_field32, get_net_value_string,
  to_field_string,
}

-- Field<int64_t>, Field<int32_t> and Field<std::string>
pub data Field : Type 0 where
  int64 int32 : IntField → Field
  string : List ℕ → Field

pub data Kind : Type 0 where
  int64_kind int32_kind string_kind : Kind

abbrev pub zero_field : IntField
zero_field = record { value = pos 0; netval = 0 }

-- A new Field of a kind.
abbrev pub blank : Kind → Field
blank int64_kind = int64 zero_field
blank int32_kind = int32 zero_field
blank string_kind = string []

unfoldable pub to_field : Endian → Option (List ℕ) → Field → Field
to_field e bytes (int64 f) = int64 (to_field64 e bytes f)
to_field e bytes (int32 f) = int32 (to_field32 e bytes f)
to_field e bytes (string t) = string (to_field_string bytes t)

-- What can be read at the pointer of getNetValue.
unfoldable pub net_value : Endian → Field → List ℕ
net_value e (int64 f) = (get_net_value64 e f).0
net_value e (int32 f) = (get_net_value32 e f).0
net_value e (string t) = get_net_value_string t

abbrev pub get_sizeof : Field → ℕ
get_sizeof (int64 f) = 8
get_sizeof (int32 f) = 4
get_sizeof (string t) = length t

-- PSQL_ASSIGN: the bytes that `val[i]` and `len[i]` give.
unfoldable pub assign : Endian → Field → List ℕ
assign e f = take (get_sizeof f) (net_value e f)

-- A PGresult: PQntuples, PQfnumber and PQgetvalue
pub record Tuples : Type 0 where
  pub ntuples : ℕ
  pub fnumber : String → ℤ
  pub getvalue : ℕ → ℤ → Option (List ℕ)

-- PSql::Result::getFieldValOfRow
unfoldable pub get_field_val_of_row : Tuples → String → ℕ → Option (List ℕ)
get_field_val_of_row res field row =
    let fnum = res.fnumber field in if ltb row res.ntuples then res.getvalue row fnum else none

-- An object of a mapped table.
pub record Object : Type 0 where
  pub id : IntField
  pub fields : List Field

abbrev pub new : List Kind → Object
new kinds = record { id = zero_field; fields = map blank kinds }

module _ (e : Endian) (res : Tuples) where
  -- TABLE_ROW_ASSIGN for each member
  unfoldable pub assign_row : ℕ → List String → List Field → List Field
  assign_row row [] fields = []
  assign_row row (name ∷ names) [] = []
  assign_row row (name ∷ names) (f ∷ fields) =
      to_field e (get_field_val_of_row res name row) f ∷ assign_row row names fields

  unfoldable pub assemble_row : ℕ → List String → Object → Object
  assemble_row row names o = record {
    id = to_field64 e (get_field_val_of_row res "id" row) o.id;
    fields = assign_row row names o.fields;
  }

  -- assemble
  unfoldable pub assemble : List String → Object → Object
  assemble names o = assemble_row 0 names o

  -- The loop of assembleVector with `left` rows to go.
  unfoldable pub assemble_from : ℕ → ℕ → List String → List Kind → List Object
  assemble_from row zero names kinds = []
  assemble_from row (suc left) names kinds =
      assemble_row row names (new kinds) ∷ assemble_from (suc row) left names kinds

  unfoldable pub assemble_vector : List String → List Kind → List Object
  assemble_vector names kinds = assemble_from 0 res.ntuples names kinds

-- A statement's text: what stands in it as it is, the name of a column, and a placeholder `$n`.
pub data Token : Type 0 where
  words column : String → Token
  placeholder : ℕ → Token

-- PSQL_INSERT for the members from the i-th on
unfoldable pub insert_params : ℕ → List String → List Token
insert_params i [] = []
insert_params i (name ∷ names) = words "," ∷ placeholder (1 + i) ∷ insert_params (suc i) names

unfoldable pub insert_sql : String → List String → List Token
insert_sql table names =
    (words "insert into "
      ∷ words table
      ∷ words " values (nextval('"
      ∷ words table
      ∷ words "_id_seq')"
      ∷ [])
    ++ (insert_params 0 names ++ (words ") returning id" ∷ []))

-- PSQL_UPDATE for the members from the i-th on
unfoldable pub update_params : ℕ → List String → List Token
update_params i [] = []
update_params i (name ∷ names) =
    words ", " ∷ column name ∷ words "=" ∷ placeholder (1 + i) ∷ update_params (suc i) names

unfoldable pub update_sql : String → List String → List Token
update_sql table names =
    (words "update " ∷ words table ∷ words " set id=id " ∷ [])
    ++ (update_params 0 names
        ++ (words " where "
            ∷ column "id"
            ∷ words "="
            ∷ placeholder (1 + length names)
            ∷ words "::bigint"
            ∷ []))

-- The values of the parameters of `insert` and of `update`.
unfoldable pub insert_values : Endian → Object → List (List ℕ)
insert_values e o = map (assign e) o.fields

unfoldable pub update_values : Endian → Object → List (List ℕ)
update_values e o = map (assign e) o.fields ++ (assign e (int64 o.id) ∷ [])
