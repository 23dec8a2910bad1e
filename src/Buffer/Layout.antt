-- ===== src/Buffer/Layout.antt =====
-- A buffer seen as three parts: `pre` is read already, `xs` can be read, and behind the closing 0
-- stands the free room `post`.
use codechiev.Common.{
  ℕ, suc, ◌+◌, ◌≡◌, refl, some, List, [], ◌∷◌, ◌++◌, length, replicate, pos, ◌-ℤ◌, arith,
  length-append, le→leb, drop-length_append,
}
use codechiev.Buffer.{Buffer, new, readable, writable, str}
use codechiev.Buffer.Memory.{load_from}

abbrev pub layout : List ℕ → List ℕ → List ℕ → Buffer
layout pre xs post = record {
  writer = pos (length pre + length xs);
  reader = pos (length pre);
  cells = pre ++ (xs ++ (0 ∷ post));
}

-- The parts fill the array.
abbrev pub Fills : ℕ → List ℕ → List ℕ → List ℕ → Type 0
Fills size pre xs post = length pre + length xs + length post + 1 ≡ size

module _ (pre xs post : List ℕ) where
  pub readable-layout : readable (layout pre xs post) ≡ some (pos (length xs))
  unfolding readable ◌-ℤ◌
  readable-layout = ground arith

  pub writable-layout :
      (size : ℕ)
      → Fills size pre xs post
      → writable size (layout pre xs post) ≡ some (pos (length post))
  unfolding writable ◌-ℤ◌
  writable-layout size e = ground arith

  pub str-layout : str (layout pre xs post) ≡ some (xs ++ (0 ∷ post))
  unfolding str load_from
  str-layout = rw (
    le→leb (length pre) (length (pre ++ (xs ++ (0 ∷ post))))
        (omega (arith, length-append pre (xs ++ (0 ∷ post)))),
    drop-length_append pre (xs ++ (0 ∷ post)) (length pre) refl,
  )

pub new-layout : (n : ℕ) → new (suc n) ≡ layout [] [] (replicate n 0)
unfolding new
new-layout n = refl
