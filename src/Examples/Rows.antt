-- ===== src/Examples/Rows.antt =====
-- A table with a number and a text.
use Prim.Native.String.{String}
use codechiev.Common.{
  ℕ, zero, suc, true, false, ◌≡◌, refl, Option, some, none, List, [], ◌∷◌, ℤ, pos, negsuc, arith,
  if◌then◌else◌,
}
use text.Mathlib.Text.{◌==◌ as str_eq}
use codechiev.Internet.Bytes.{little, big}
use codechiev.Database.Fields.{IntField, get_net_value64}
use codechiev.Database.Rows.{
  int32, string, Kind, int32_kind, string_kind, net_value, Tuples, Object, assemble_vector,
  update_sql, insert_sql,
}
use codechiev.Database.{Manager, failure}
use codechiev.Database.Objects.{
  codes, digits, sql_text, insert, update, select_object, delete_object,
}
use codechiev.Database.Objects.RoundTrip.{Stored, insert-select}
use codechiev.Database.Objects.Faults.{refused_calls-fault}
use codechiev.Database.Rows.{insert_params, update_params}
use codechiev.Database.Rows.Assemble.{SameObjects, assemble_vector-SameObjects}

abbrev number : ℤ → IntField
number v = record { value = v; netval = 0 }

-- Identifier 7, -2 and "ok".
abbrev row : Object
row = record {
  id = number (pos 7);
  fields = int32 (number (negsuc 1)) ∷ string (111 ∷ 107 ∷ []) ∷ [];
}

abbrev names : List String
names = "level" ∷ "name" ∷ []

abbrev kinds : List Kind
kinds = int32_kind ∷ string_kind ∷ []

abbrev column_of : String → ℤ
column_of name = if str_eq name "id" then pos 0 else (if str_eq name "level" then pos 1 else pos 2)

abbrev shown : ℕ → ℤ → Option (List ℕ)
shown r (pos zero) = some (get_net_value64 big row.id).0
shown r (pos (suc zero)) = some (net_value big (int32 (number (negsuc 1))))
shown r (pos (suc (suc n))) = some (net_value big (string (111 ∷ 107 ∷ [])))
shown r (negsuc n) = none

abbrev one_row : Tuples
one_row = record { ntuples = 1; fnumber = column_of; getvalue = shown }

assemble_vector-SameObjects_example :
    SameObjects (assemble_vector little one_row names kinds) (row ∷ [])
assemble_vector-SameObjects_example =
    assemble_vector-SameObjects big little one_row names kinds (row ∷ []) refl (
      (
        refl,
        (omega arith, omega arith),
        ((refl, (omega arith, omega arith)), ((refl, (omega arith, (omega arith, tt))), tt)),
      ),
      tt,
    )

abbrev pool : Manager
pool = record { dbs = record { connected = true; in_use = false } ∷ []; requests = [] }

-- The row before it has an identifier.
abbrev new_row : Object
new_row = record row { id = number (pos 0) }

insert-select_example : Stored big little "player" names kinds one_row one_row row.id new_row pool
insert-select_example =
    insert-select big little "player" names kinds one_row one_row row.id new_row pool (refl, tt)
      (omega arith) (omega arith) refl (omega arith, omega arith) (omega arith)
      ((refl, (omega arith, omega arith)), ((refl, (omega arith, (omega arith, tt))), tt))

refused_calls-fault_example :
    (insert little "player" names failure one_row row pool ≡ none)
    × (select_object little "player" names failure one_row row pool ≡ none)
    × (update little "player" names failure row pool ≡ none)
    × (delete_object little "player" names failure 7 pool ≡ none)
refused_calls-fault_example =
    refused_calls-fault little "player" names row pool (refl, tt) (omega arith) failure failure
      one_row 7 refl refl

-- "update player set id=id , level=$1, name=$2 where id=$3::bigint"
update_text :
    sql_text (update_sql "player" names)
    ≡ codes "update player set id=id , level=$1, name=$2 where id=$3::bigint"
unfolding sql_text update_sql update_params digits
update_text = refl

insert_text :
    sql_text (insert_sql "player" names)
    ≡ codes "insert into player values (nextval('player_id_seq'),$1,$2) returning id"
unfolding sql_text insert_sql insert_params digits
insert_text = refl
