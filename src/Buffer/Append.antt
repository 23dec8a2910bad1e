-- ===== src/Buffer/Append.antt =====
-- What `append` writes.
use codechiev.Common.{
  ℕ, zero, suc, ◌+◌, ◌≤◌, ◌<◌, ◌≡◌, refl, sym, ap, ◌∙◌, none, some, List, [], ◌∷◌, ◌++◌, length,
  take, drop, min, pos, arith, pos-+ℤ, lt→ltb, ge→ltb, gt→leb, length-append, length-take,
  append_assoc, append-nil, take-length_append,
}
use native.Mathlib.Decide.{dec_lt}
use codechiev.Buffer.{write, copy_in, append}
use codechiev.Buffer.Memory.{load, load-take, store-append}
use codechiev.Buffer.Layout.{layout, Fills, writable-layout}

-- The `n` cells to write, and the one behind them.
split-room :
    (n a : ℕ) (post : List ℕ)
    → n ≤ length post
    → (old : List ℕ) × (o : ℕ) × ((a ∷ post) ≡ old ++ ((o ∷ []) ++ drop n post)) × (length old ≡ n)
split-room zero a post h = ([], a, refl, refl)
split-room (suc n) a [] h = absurd (omega arith)
split-room (suc n) a (x ∷ post) h =
    let (old, o, e, l) = split-room n x post (omega arith) in (a ∷ old, o, ap (◌∷◌ a) e, ap suc l)

module _ (size : ℕ) (pre xs post : List ℕ) (full : Fills size pre xs post) where
  -- The branch that copies `ys`.
  copy_in-layout :
      (source ys : List ℕ) (n : ℕ)
      → n ≡ length ys
      → length ys ≤ length post
      → load source (pos 0) (pos n) ≡ some ys
      → copy_in size (layout pre xs post) source (pos n)
        ≡ some (pos n, layout pre (xs ++ ys) (drop n post))
  unfolding copy_in write
  copy_in-layout source ys n en h l =
      let (old, o, e, len) = split-room n 0 post (omega arith) in
      let w : ℕ = length pre + length xs in
      let left : List ℕ = pre ++ xs in
      let rest : List ℕ = drop n post in
      let first =
        store-append left ((o ∷ []) ++ rest) (pre ++ (xs ++ (0 ∷ post))) w old ys
          (rw e (sym (append_assoc pre xs (old ++ ((o ∷ []) ++ rest)))))
          (sym (length-append pre xs)) (len ∙ en) in
      let second =
        store-append (left ++ ys) rest (left ++ (ys ++ ((o ∷ []) ++ rest))) (w + n) (o ∷ [])
          (0 ∷ []) (sym (append_assoc left ys ((o ∷ []) ++ rest)))
          (omega (arith, length-append left ys, length-append pre xs)) refl in
      rw (l, first, pos-+ℤ w n, lt→ltb (w + n + 0) (size + 0) (omega arith), second)
        (λ i.
          some
            (pos n, record { writer = pos (ends i); reader = pos (length pre); cells = regroup i }))
    where
      ends : length pre + length xs + n ≡ length pre + length (xs ++ ys)
      ends = omega (arith, length-append xs ys)

      regroup : ((pre ++ xs) ++ ys) ++ (0 ∷ drop n post) ≡ pre ++ ((xs ++ ys) ++ (0 ∷ drop n post))
      regroup = simp append_assoc

  -- `append` stores as many bytes as there is room for and returns their number.
  pub append-layout :
      (source : List ℕ) (len : ℕ)
      → len ≤ length source
      → (0 < len → 0 < length post)
      → append size (layout pre xs post) source (pos len)
        ≡ some (
          pos (min len (length post)),
          layout pre
              (xs ++ take (min len (length post)) source)
              (drop (min len (length post)) post),
        )
  unfolding append
  append-layout source zero h room =
      let n : min 0 (length post) ≡ 0 = omega arith in rw (n, append-nil xs) refl
  append-layout source (suc k) h room =
      rw (gt→leb (suc k + 0) 0 (omega arith), writable-layout pre xs post size full)
        (elim (dec_lt (suc k) (length post)) [
          | yes fits ↦
              let all : min (suc k) (length post) ≡ suc k = omega arith in
              rw (lt→ltb (suc k + 0) (length post + 0) (omega arith), all)
                (copy_in-layout source (take (suc k) source) (suc k)
                  (omega (arith, length-take (suc k) source))
                  (omega (arith, length-take (suc k) source)) (load-take source (suc k) h))
          | no cut ↦
              let part : min (suc k) (length post) ≡ length post = omega arith in
              rw
                (
                  ge→ltb (suc k + 0) (length post + 0) (omega arith),
                  lt→ltb (0 + 0) (length post + 0) (omega arith),
                  part,
                )
                (copy_in-layout source (take (length post) source) (length post)
                  (omega (arith, length-take (length post) source))
                  (omega (arith, length-take (length post) source))
                  (load-take source (length post) (omega arith)))
        ])

  pub append_full :
      (source : List ℕ) (len : ℕ)
      → post ≡ []
      → 0 < len
      → append size (layout pre xs post) source (pos len) ≡ none
  unfolding append
  append_full source zero e h = absurd (omega arith)
  append_full source (suc k) e h =
      rw
        (
          gt→leb (suc k + 0) 0 (omega arith),
          writable-layout pre xs post size full,
          e,
          ge→ltb (suc k + 0) 0 (omega arith),
        )
        refl

  -- A piece that fits is stored whole, whatever stands behind it in the source.
  pub append_whole :
      (piece more : List ℕ) (len : ℕ)
      → len ≡ length piece
      → length piece ≤ length post
      → append size (layout pre xs post) (piece ++ more) (pos len)
        ≡ some (pos len, layout pre (xs ++ piece) (drop len post))
  append_whole piece more len e fits =
      append-layout (piece ++ more) len (omega (arith, length-append piece more))
        (λ h. omega (arith, h))
      ∙ ap (λ (n : ℕ). some (pos n, layout pre (xs ++ take n (piece ++ more)) (drop n post)))
          (let all : min len (length post) ≡ len = omega arith in all)
      ∙ ap (λ (ys : List ℕ). some (pos len, layout pre (xs ++ ys) (drop len post)))
          (take-length_append piece more len e)
