-- ===== src/Http/Search.antt =====
-- Where the empty line behind a message is found.
use codechiev.Common.{
  ℕ, suc, ◌≡◌, refl, ◌∙◌, Bool, true, false, Option, none, some, List, [], ◌∷◌, ◌++◌, length,
  if◌then◌else◌, arith, Bool-cases, inl, inr, ◌==◌,
}
use codechiev.Http.{empty_line, starts_with, strstr}

-- A message that can be told from its end: the text up to the last character of the empty line holds
-- no empty line.
abbrev pub IsMessage : List ℕ → Type 0
IsMessage m = strstr empty_line (m ++ (13 ∷ 10 ∷ 13 ∷ [])) ≡ none

-- The first four characters decide.
starts_early :
    (c : ℕ) (m rest : List ℕ)
    → starts_with empty_line ((c ∷ m) ++ (empty_line ++ rest))
      ≡ starts_with empty_line ((c ∷ m) ++ (13 ∷ 10 ∷ 13 ∷ []))
unfolding starts_with
starts_early c [] rest = refl
starts_early c (x ∷ []) rest = refl
starts_early c (x ∷ y ∷ []) rest = refl
starts_early c (x ∷ y ∷ z ∷ m) rest = refl

not_here :
    (b : Bool) (o : Option ℕ)
    → (if b then some 0 else elim o [ none ↦ none | some n ↦ some (suc n) ]) ≡ none
    → (b ≡ false) × (o ≡ none)
not_here true o e = ground (arith, e)
not_here false none e = (refl, refl)
not_here false (some n) e = ground (arith, e)

not_first :
    (c : ℕ) (m : List ℕ)
    → IsMessage (c ∷ m)
    → (starts_with empty_line ((c ∷ m) ++ (13 ∷ 10 ∷ 13 ∷ [])) ≡ false) × IsMessage m
unfolding strstr
not_first c m h =
    not_here (starts_with empty_line ((c ∷ m) ++ (13 ∷ 10 ∷ 13 ∷ [])))
      (strstr empty_line (m ++ (13 ∷ 10 ∷ 13 ∷ []))) h

pub strstr-message :
    (m rest : List ℕ)
    → IsMessage m
    → strstr empty_line (m ++ (empty_line ++ rest)) ≡ some (length m)
unfolding strstr starts_with
strstr-message [] rest h = refl
strstr-message (c ∷ m) rest h =
    let (first, later) = not_first c m h in
    rw (starts_early c m rest ∙ first, strstr-message m rest later, strstr) refl

starts_with-append :
    (pattern xs ys : List ℕ)
    → starts_with pattern (xs ++ ys) ≡ false
    → starts_with pattern xs ≡ false
unfolding starts_with
starts_with-append [] xs ys h = h
starts_with-append (p ∷ ps) [] ys h = refl
starts_with-append (p ∷ ps) (x ∷ xs) ys h = elim (Bool-cases (p == x)) [
  | inl same ↦ rw same (starts_with-append ps xs ys (rw same at h))
  | inr other ↦ rw other refl
]

-- A front part of a text without an empty line has none.
pub strstr-front :
    (xs ys : List ℕ) → strstr empty_line (xs ++ ys) ≡ none → strstr empty_line xs ≡ none
unfolding strstr starts_with
strstr-front [] ys h = refl
strstr-front (x ∷ xs) ys h =
    let (first, later) =
      not_here (starts_with empty_line ((x ∷ xs) ++ ys)) (strstr empty_line (xs ++ ys)) h in
    rw (starts_with-append empty_line (x ∷ xs) ys first, strstr-front xs ys later, strstr) refl
