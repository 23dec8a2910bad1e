-- ===== src/Database/Rows/Placeholders.antt =====
-- Which value each column gets in the statements of a mapped table.
use Prim.Native.String.{String}
use codechiev.Common.{
  ℕ, zero, suc, ◌+◌, ◌≡◌, refl, ap, ◌∙◌, Option, none, some, List, [], ◌∷◌, ◌++◌, length, map,
  arith, length-append, append_assoc, append-nil,
}
use codechiev.Internet.Bytes.{Endian}
use codechiev.Database.Rows.{
  Field, int64, Object, assign, Token, words, column, placeholder, insert_params, insert_sql,
  update_params, update_sql, insert_values, update_values,
}

-- `$k` stands for the k-th value.
abbrev pub value_at : List (List ℕ) → ℕ → Option (List ℕ)
value_at values zero = none
value_at [] (suc k) = none
value_at (v ∷ values) (suc zero) = some v
value_at (v ∷ values) (suc (suc k)) = value_at values (suc k)

-- The placeholders, each with the column in front of it, if there is one.
abbrev pub assigned : Option String → List Token → List (Option String × ℕ)
assigned name [] = []
assigned name (words w ∷ ts) = assigned name ts
assigned name (column c ∷ ts) = assigned (some c) ts
assigned name (placeholder k ∷ ts) = (name, k) ∷ assigned none ts

-- What a statement assigns when the values are those.
abbrev pub gives : List (List ℕ) → List (Option String × ℕ) → List (Option String × Option (List ℕ))
gives values [] = []
gives values ((name, k) ∷ ps) = (name, value_at values k) ∷ gives values ps

abbrev pub columns_with : Endian → List String → List Field → List (Option String × Option (List ℕ))
columns_with e [] fields = []
columns_with e (name ∷ names) [] = []
columns_with e (name ∷ names) (f ∷ fields) =
    (some name, some (assign e f)) ∷ columns_with e names fields

abbrev pub values_of : Endian → List Field → List (Option String × Option (List ℕ))
values_of e [] = []
values_of e (f ∷ fields) = (none, some (assign e f)) ∷ values_of e fields

value_at-append :
    (before more : List (List ℕ)) (v : List ℕ)
    → value_at (before ++ (v ∷ more)) (suc (length before)) ≡ some v
value_at-append [] more v = refl
value_at-append (b ∷ before) more v = value_at-append before more v

module _ (e : Endian) where
  update_params-gives :
      (before : List (List ℕ)) (names : List String) (fields : List Field) (more : List (List ℕ))
      (rest : List Token)
      → length names ≡ length fields
      → gives
          (before ++ (map (assign e) fields ++ more))
          (assigned none (update_params (length before) names ++ rest))
        ≡ columns_with e names fields
          ++ gives (before ++ (map (assign e) fields ++ more)) (assigned none rest)
  unfolding update_params
  update_params-gives before [] [] more rest n = refl
  update_params-gives before (name ∷ names) (f ∷ fields) more rest n =
      let v : List ℕ = assign e f in
      let tail : List (List ℕ) = map (assign e) fields ++ more in
      let next : 1 + length before ≡ suc (length before) = omega arith in
      let len : length (before ++ (v ∷ [])) ≡ suc (length before) =
        omega (arith, length-append before (v ∷ [])) in
      let others =
        rw (append_assoc before (v ∷ []) tail, len) at
          (update_params-gives (before ++ (v ∷ [])) names fields more rest (omega (arith, n))) in
      rw (next, value_at-append before tail v) (ap (◌∷◌ (some name, some v)) others)
  update_params-gives before [] (f ∷ fields) more rest n = absurd (omega (arith, n))
  update_params-gives before (name ∷ names) [] more rest n = absurd (omega (arith, n))

  insert_params-gives :
      (before : List (List ℕ)) (names : List String) (fields : List Field) (rest : List Token)
      → length names ≡ length fields
      → gives
          (before ++ map (assign e) fields)
          (assigned none (insert_params (length before) names ++ rest))
        ≡ values_of e fields ++ gives (before ++ map (assign e) fields) (assigned none rest)
  unfolding insert_params
  insert_params-gives before [] [] rest n = refl
  insert_params-gives before (name ∷ names) (f ∷ fields) rest n =
      let v : List ℕ = assign e f in
      let tail : List (List ℕ) = map (assign e) fields in
      let next : 1 + length before ≡ suc (length before) = omega arith in
      let len : length (before ++ (v ∷ [])) ≡ suc (length before) =
        omega (arith, length-append before (v ∷ [])) in
      let others =
        rw (append_assoc before (v ∷ []) tail, len) at
          (insert_params-gives (before ++ (v ∷ [])) names fields rest (omega (arith, n))) in
      rw (next, value_at-append before tail v) (ap (◌∷◌ (none, some v)) others)
  insert_params-gives before [] (f ∷ fields) rest n = absurd (omega (arith, n))
  insert_params-gives before (name ∷ names) [] rest n = absurd (omega (arith, n))

  last_value :
      (fields : List Field) (last : List ℕ) (n : ℕ)
      → n ≡ length fields
      → value_at (map (assign e) fields ++ (last ∷ [])) (1 + n) ≡ some last
  last_value fields last n same =
      let len : 1 + n ≡ suc (length (map (assign e) fields)) =
        omega (arith, same, length-map fields) in
      rw (len) (value_at-append (map (assign e) fields) [] last)
    where
      length-map : (fs : List Field) → length (map (assign e) fs) ≡ length fs
      length-map [] = refl
      length-map (f ∷ fs) = ap suc (length-map fs)

  -- If an object has a field for each column: the statement of `update` assigns to each column the
  -- bytes of its field, and compares `id` with the bytes of the object's; and the placeholders of
  -- the statement of `insert` stand for the bytes of the fields, in the order of the columns.
  pub statements-give :
      (table : String) (names : List String) (o : Object)
      → length names ≡ length o.fields
      → (gives (update_values e o) (assigned none (update_sql table names))
          ≡ columns_with e names o.fields ++ ((some "id", some (assign e (int64 o.id))) ∷ []))
        × (gives (insert_values e o) (assigned none (insert_sql table names))
            ≡ values_of e o.fields)
  unfolding update_sql insert_sql update_values insert_values
  statements-give table names o n = (
    update_params-gives [] names o.fields (assign e (int64 o.id) ∷ []) _ n
        ∙ ap (λ v. columns_with e names o.fields ++ ((some "id", v) ∷ []))
            (last_value o.fields (assign e (int64 o.id)) (length names) n),
    insert_params-gives [] names o.fields _ n ∙ append-nil (values_of e o.fields),
  )
