-- ===== src/Buffer/Consume.antt =====
-- What `read`, `move` and `readall` leave.
use codechiev.Common.{
  ℕ, zero, suc, ◌+◌, ◌<◌, ◌≡◌, refl, sym, ap, ◌∙◌, some, List, [], ◌∷◌, ◌++◌, length, take, drop,
  pos, arith, pos-+ℤ, length-append, length-drop, length-take, append_assoc, take-append-drop,
}
use codechiev.Buffer.{read, move}
use codechiev.Buffer.Memory.{load-append, store-append}
use codechiev.Buffer.Layout.{layout, readable-layout}

pub read-layout :
    (pre ys xs post : List ℕ)
    → read (layout pre (ys ++ xs) post) (pos (length ys)) ≡ layout (pre ++ ys) xs post
unfolding read
read-layout pre ys xs post = rw (pos-+ℤ (length pre) (length ys)) λ i. record {
  writer = pos (ends i);
  reader = pos (sym (length-append pre ys) i);
  cells = regroup i;
}
  where
    ends : length pre + length (ys ++ xs) ≡ length (pre ++ ys) + length xs
    ends = omega (arith, length-append ys xs, length-append pre ys)

    regroup : pre ++ ((ys ++ xs) ++ (0 ∷ post)) ≡ (pre ++ ys) ++ (xs ++ (0 ∷ post))
    regroup = simp append_assoc

-- The cells behind the bytes and the closing 0 once the bytes stand at the front.
abbrev pub tail_room : List ℕ → List ℕ → List ℕ → List ℕ
tail_room pre xs post = drop (length xs + 1) (pre ++ (xs ++ (0 ∷ post)))

pub length-tail_room :
    (pre xs post : List ℕ) → length (tail_room pre xs post) ≡ length pre + length post
length-tail_room pre xs post = omega (
  arith,
  length-drop (length xs + 1) (pre ++ (xs ++ (0 ∷ post))),
  length-append pre (xs ++ (0 ∷ post)),
  length-append xs (0 ∷ post),
)

-- A cell is left behind the bytes.
split-cell :
    (n : ℕ) (cells : List ℕ)
    → n < length cells
    → (o : ℕ) × (drop n cells ≡ (o ∷ []) ++ drop (n + 1) cells)
split-cell n [] h = absurd (omega arith)
split-cell zero (c ∷ cells) h = (c, refl)
split-cell (suc n) (c ∷ cells) h =
    let (o, e) = split-cell n cells (omega arith) in
    (
      o,
      e
          ∙ ap (λ (k : ℕ). (o ∷ []) ++ drop k (c ∷ cells))
              (let q : suc (n + 1) ≡ suc n + 1 = omega arith in q),
    )

-- `move` brings the readable bytes to the front: all that was read becomes room.
pub move-layout :
    (pre xs post : List ℕ) → move (layout pre xs post) ≡ some (layout [] xs (tail_room pre xs post))
unfolding move
move-layout pre xs post =
    let cells : List ℕ = pre ++ (xs ++ (0 ∷ post)) in
    let n : ℕ = length xs in
    let (o, e) =
      split-cell n cells
        (omega (arith, length-append pre (xs ++ (0 ∷ post)), length-append xs (0 ∷ post))) in
    let rest : List ℕ = drop (n + 1) cells in
    let bytes = load-append pre (0 ∷ post) cells (length pre) xs n refl refl refl in
    let moved =
      store-append [] (drop n cells) cells 0 (take n cells) xs (sym (take-append-drop n cells)) refl
        (omega (
          arith,
          length-take n cells,
          length-append pre (xs ++ (0 ∷ post)),
          length-append xs (0 ∷ post),
        )) in
    let closed = store-append xs rest (xs ++ drop n cells) n (o ∷ []) (0 ∷ []) (rw e) refl refl in
    rw (readable-layout pre xs post, bytes, moved, closed)
      (ap (λ (w : ℕ). some (record { writer = pos w; reader = pos 0; cells = xs ++ (0 ∷ rest) }))
        (omega arith))
