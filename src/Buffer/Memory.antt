-- ===== src/Buffer/Memory.antt =====
-- Reads and writes in an array at an offset that may lie outside of it.
use codechiev.Common.{
  ℕ, ◌+◌, ◌≤◌, ◌<◌, ◌≡◌, refl, sym, ◌∙◌, Option, none, some, List, [], ◌∷◌, ◌++◌, length, take,
  drop, leb, if◌then◌else◌, ℤ, pos, negsuc, ◌==◌, arith, le→leb, length-append, take-length_append,
  drop-length_append, drop-append_add, All,
}

-- `len` bytes from the offset on
unfoldable pub load : List ℕ → ℤ → ℤ → Option (List ℕ)
load cells (pos at) (pos len) =
    if leb (at + len) (length cells) then some (take len (drop at cells)) else none
load cells _ _ = none

-- all bytes from the offset to the end of the array
unfoldable pub load_from : List ℕ → ℤ → Option (List ℕ)
load_from cells (pos at) = if leb at (length cells) then some (drop at cells) else none
load_from cells (negsuc _) = none

unfoldable pub store : List ℕ → ℤ → List ℕ → Option (List ℕ)
store cells (pos at) bytes =
    if leb (at + length bytes) (length cells)
    then some (take at cells ++ (bytes ++ drop (at + length bytes) cells))
    else none
store cells (negsuc _) bytes = none

-- what `strlen` counts: the bytes in front of the first 0
unfoldable pub c_str : List ℕ → List ℕ
c_str [] = []
c_str (c ∷ cs) = if c == 0 then [] else c ∷ c_str cs

-- Loading and storing at the seam of an array that is given in parts.
module _ (left right cells : List ℕ) (at : ℕ) where
  pub load-append :
      (xs : List ℕ) (len : ℕ)
      → cells ≡ left ++ (xs ++ right)
      → at ≡ length left
      → len ≡ length xs
      → load cells (pos at) (pos len) ≡ some xs
  unfolding load
  load-append xs len c a e =
      rw
        (
          c,
          a,
          le→leb (length left + len) (length (left ++ (xs ++ right)))
              (omega (arith, length-append left (xs ++ right), length-append xs right)),
          drop-length_append left (xs ++ right) (length left) refl,
          take-length_append xs right len e,
        )
        refl

  pub store-append :
      (old bytes : List ℕ)
      → cells ≡ left ++ (old ++ right)
      → at ≡ length left
      → length old ≡ length bytes
      → store cells (pos at) bytes ≡ some (left ++ (bytes ++ right))
  unfolding store
  store-append old bytes c a e =
      rw
        (
          c,
          a,
          le→leb (length left + length bytes) (length (left ++ (old ++ right)))
              (omega (arith, length-append left (old ++ right), length-append old right)),
          take-length_append left (old ++ right) (length left) refl,
          skip,
        )
        refl
    where
      skip : drop (length left + length bytes) (left ++ (old ++ right)) ≡ right
      skip =
          drop-append_add left (old ++ right) (length bytes)
          ∙ drop-length_append old right (length bytes) (sym e)

-- Loading the first `n` bytes of a source.
pub load-take :
    (source : List ℕ) (n : ℕ)
    → n ≤ length source
    → load source (pos 0) (pos n) ≡ some (take n source)
unfolding load
load-take source n h = rw (le→leb (0 + n) (length source) (omega arith)) refl

pub length-c_str : (cs : List ℕ) → length (c_str cs) ≤ length cs
unfolding c_str
length-c_str [] = omega arith
length-c_str (c ∷ cs) = ground (arith, length-c_str cs)

-- A text without a 0 is kept whole, whatever follows its 0.
pub c_str-nonzero : (cs rest : List ℕ) → All (λ c. 0 < c) cs → c_str (cs ++ (0 ∷ rest)) ≡ cs
unfolding c_str
c_str-nonzero [] rest h = refl
c_str-nonzero (c ∷ cs) rest h = ground (arith, c_str-nonzero cs rest h.1)
