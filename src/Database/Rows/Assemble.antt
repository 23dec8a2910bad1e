-- ===== src/Database/Rows/Assemble.antt =====
-- What is assembled from rows is what was stored in them.
use Prim.Native.String.{String}
use codechiev.Common.{
  ℕ, zero, suc, ◌+◌, ◌<◌, ◌≡◌, some, List, [], ◌∷◌, length, map, All, arith, lt→ltb,
}
use codechiev.Internet.Bytes.{Endian}
use codechiev.Database.Fields.{
  IsInt64, IsInt32, get_net_value64, field64_round_trip, field32_round_trip,
  field_string_round_trip,
}
use codechiev.Database.Rows.{
  Field, int64, int32, string, Kind, int64_kind, int32_kind, string_kind, zero_field, blank,
  to_field, net_value, Tuples, get_field_val_of_row, Object, assign_row, assemble_row,
  assemble_from, assemble_vector,
}

abbrev pub IsField : Kind → Field → Type 0
IsField int64_kind (int64 f) = IsInt64 f.value
IsField int32_kind (int32 f) = IsInt32 f.value
IsField string_kind (string t) = All (λ (c : ℕ). 0 < c) t
IsField int64_kind (int32 f) = ⊥
IsField int64_kind (string t) = ⊥
IsField int32_kind (int64 f) = ⊥
IsField int32_kind (string t) = ⊥
IsField string_kind (int64 f) = ⊥
IsField string_kind (int32 f) = ⊥

-- The same value; `netval_` is left out.
abbrev pub SameValue : Field → Field → Type 0
SameValue (int64 f) (int64 g) = f.value ≡ g.value
SameValue (int32 f) (int32 g) = f.value ≡ g.value
SameValue (string t) (string u) = t ≡ u
SameValue (int64 f) (int32 g) = ⊥
SameValue (int64 f) (string u) = ⊥
SameValue (int32 f) (int64 g) = ⊥
SameValue (int32 f) (string u) = ⊥
SameValue (string t) (int64 g) = ⊥
SameValue (string t) (int32 g) = ⊥

abbrev pub SameValues : List Field → List Field → Type 0
SameValues [] [] = Unit {0}
SameValues (f ∷ fs) (g ∷ gs) = SameValue f g × SameValues fs gs
SameValues [] (g ∷ gs) = ⊥
SameValues (f ∷ fs) [] = ⊥

abbrev pub SameObject : Object → Object → Type 0
SameObject o p = (o.id.value ≡ p.id.value) × SameValues o.fields p.fields

abbrev pub SameObjects : List Object → List Object → Type 0
SameObjects [] [] = Unit {0}
SameObjects (o ∷ os) (p ∷ ps) = SameObject o p × SameObjects os ps
SameObjects [] (p ∷ ps) = ⊥
SameObjects (o ∷ os) [] = ⊥

field_round_trip :
    (e e' : Endian) (kind : Kind) (f : Field)
    → IsField kind f
    → SameValue (to_field e' (some (net_value e f)) (blank kind)) f
unfolding to_field net_value
field_round_trip e e' int64_kind (int64 f) h = field64_round_trip e e' f zero_field h
field_round_trip e e' int32_kind (int32 f) h = field32_round_trip e e' f zero_field h
field_round_trip e e' string_kind (string t) h = field_string_round_trip t [] h
field_round_trip e e' int64_kind (int32 f) h = absurd h
field_round_trip e e' int64_kind (string t) h = absurd h
field_round_trip e e' int32_kind (int64 f) h = absurd h
field_round_trip e e' int32_kind (string t) h = absurd h
field_round_trip e e' string_kind (int64 f) h = absurd h
field_round_trip e e' string_kind (int32 f) h = absurd h

module _ (e e' : Endian) (res : Tuples) where
  -- The result has the network bytes of a row's fields, under the names of their columns.
  abbrev pub AreShown : ℕ → List String → List Kind → List Field → Type 0
  AreShown row [] [] [] = Unit {0}
  AreShown row (name ∷ names) (kind ∷ kinds) (f ∷ fs) =
      ((res.getvalue row (res.fnumber name) ≡ some (net_value e f)) × IsField kind f)
      × AreShown row names kinds fs
  AreShown row [] [] (f ∷ fs) = ⊥
  AreShown row [] (kind ∷ kinds) fs = ⊥
  AreShown row (name ∷ names) [] fs = ⊥
  AreShown row (name ∷ names) (kind ∷ kinds) [] = ⊥

  abbrev pub IsShown : ℕ → List String → List Kind → Object → Type 0
  IsShown row names kinds o =
      (res.getvalue row (res.fnumber "id") ≡ some (get_net_value64 e o.id).0)
      × IsInt64 o.id.value
      × AreShown row names kinds o.fields

  abbrev pub AllShown : ℕ → List String → List Kind → List Object → Type 0
  AllShown row names kinds [] = Unit {0}
  AllShown row names kinds (o ∷ os) = IsShown row names kinds o × AllShown (suc row) names kinds os

  pub assign_row-SameValues :
      (row : ℕ) (names : List String) (kinds : List Kind) (fs : List Field)
      → row < res.ntuples
      → AreShown row names kinds fs
      → SameValues (assign_row e' res row names (map blank kinds)) fs
  unfolding assign_row get_field_val_of_row
  assign_row-SameValues row [] [] [] here shown = tt
  assign_row-SameValues row (name ∷ names) (kind ∷ kinds) (f ∷ fs) here shown = (
    rw (lt→ltb row res.ntuples here, shown.0.0) (field_round_trip e e' kind f shown.0.1),
    assign_row-SameValues row names kinds fs here shown.1,
  )
  assign_row-SameValues row [] [] (f ∷ fs) here shown = absurd shown
  assign_row-SameValues row [] (kind ∷ kinds) fs here shown = absurd shown
  assign_row-SameValues row (name ∷ names) [] fs here shown = absurd shown
  assign_row-SameValues row (name ∷ names) (kind ∷ kinds) [] here shown = absurd shown

  assemble_from-SameObjects :
      (row left : ℕ) (names : List String) (kinds : List Kind) (os : List Object)
      → left ≡ length os
      → row + left ≡ res.ntuples
      → AllShown row names kinds os
      → SameObjects (assemble_from e' res row left names kinds) os
  unfolding assemble_from assemble_row get_field_val_of_row
  assemble_from-SameObjects row zero names kinds [] n all shown = tt
  assemble_from-SameObjects row (suc left) names kinds (o ∷ os) n all shown = (
    (
      rw (lt→ltb row res.ntuples (omega (arith, all)), shown.0.0)
          (field64_round_trip e e' o.id zero_field shown.0.1),
      assign_row-SameValues row names kinds o.fields (omega (arith, all)) shown.0.2,
    ),
    assemble_from-SameObjects (suc row) left names kinds os (omega (arith, n)) (omega (arith, all))
        shown.1,
  )
  assemble_from-SameObjects row zero names kinds (o ∷ os) n all shown = absurd (omega (arith, n))
  assemble_from-SameObjects row (suc left) names kinds [] n all shown = absurd (omega (arith, n))

  -- If a result has a row for each of some objects, and in it, under the names of the columns, what
  -- the fields give as network bytes, and the numbers are in the range of their kinds and the texts
  -- have no 0 byte, then assembleVector makes objects with the same values, in order, whatever the
  -- byte orders of the two hosts.
  pub assemble_vector-SameObjects :
      (names : List String) (kinds : List Kind) (os : List Object)
      → res.ntuples ≡ length os
      → AllShown 0 names kinds os
      → SameObjects (assemble_vector e' res names kinds) os
  unfolding assemble_vector
  assemble_vector-SameObjects names kinds os n shown =
      assemble_from-SameObjects 0 res.ntuples names kinds os n (omega arith) shown
