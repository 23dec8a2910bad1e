-- ===== src/Logger/Lines.antt =====
-- What a chain of operator<< puts into a logger's buffer.
use codechiev.Common.{
  ℕ, ◌+◌, ◌≤◌, ◌<◌, min, ◌≡◌, refl, sym, ap, ◌∙◌, none, some, List, [], ◌∷◌, ◌++◌, length, take,
  drop, All, arith, ◌>>=◌, length-append, length-eq_zero, Option-cases, inl, inr, length-drop,
  length-take, append_assoc, append-nil, take-all, drop-drop,
}
use native.Mathlib.Decide.{dec_lt}
use codechiev.Buffer
use codechiev.Buffer.{Buffer, append}
use codechiev.Buffer.Memory.{c_str-nonzero}
use codechiev.Buffer.Layout.{layout, Fills}
use codechiev.Buffer.Append.{append-layout, append_full}
use codechiev.Logger.{put, put_all, buffer_size}

abbrev pub IsText : List ℕ → Type 0
IsText str = All (λ (c : ℕ). 0 < c) str

abbrev pub joined : List (List ℕ) → List ℕ
joined [] = []
joined (str ∷ strs) = str ++ joined strs

take-min : (n : ℕ) (xs : List ℕ) → take (min (length xs) n) xs ≡ take n xs
take-min n xs = elim (dec_lt (length xs) n) [
  | yes few ↦
      let all : min (length xs) n ≡ length xs = omega arith in
      rw (all) (take-all (length xs) xs (omega arith) ∙ sym (take-all n xs (omega arith)))
  | no many ↦ ap (λ (k : ℕ). take k xs) (omega arith)
]

drop-min : (n : ℕ) (xs : List ℕ) → drop (min n (length xs)) xs ≡ drop n xs
drop-min n xs = elim (dec_lt n (length xs)) [
  | yes few ↦ ap (λ (k : ℕ). drop k xs) (omega arith)
  | no many ↦
      length-eq_zero (drop (min n (length xs)) xs)
        (omega (arith, length-drop (min n (length xs)) xs))
      ∙ sym (length-eq_zero (drop n xs) (omega (arith, length-drop n xs)))
]

module _ (xs post : List ℕ) (fills : Fills buffer_size [] xs post) (str : List ℕ)
    (is_text : IsText str) where
  -- As much of the text as there is room for.
  pub put-layout :
      (0 < length str → 0 < length post)
      → put str (layout [] xs post)
        ≡ some (layout [] (xs ++ take (length post) str) (drop (length str) post))
  unfolding put Buffer.append_str
  put-layout room =
      rw
        (
          c_str-nonzero str [] is_text,
          append-layout buffer_size [] xs post fills str (length str) (omega arith) room,
          take-min (length post) str,
          drop-min (length str) post,
        )
        refl

  pub put_full : post ≡ [] → 0 < length str → put str (layout [] xs post) ≡ none
  unfolding put Buffer.append_str
  put_full e some_byte =
      rw
        (
          c_str-nonzero str [] is_text,
          append_full buffer_size [] xs post fills str (length str) e some_byte,
        )
        refl

-- What fits is put whole.
pub put_all-layout :
    (strs : List (List ℕ)) (xs post : List ℕ)
    → Fills buffer_size [] xs post
    → All IsText strs
    → length (joined strs) ≤ length post
    → put_all strs (layout [] xs post)
      ≡ some (layout [] (xs ++ joined strs) (drop (length (joined strs)) post))
unfolding put_all
put_all-layout [] xs post fills texts fits = rw (append-nil xs) refl
put_all-layout (str ∷ strs) xs post fills texts fits =
    rw
      (
        put-layout xs post fills str texts.0 (λ h. omega (arith, h, sum, fits)),
        take-all (length post) str (omega (arith, sum, fits)),
      )
      (put_all-layout strs (xs ++ str) (drop (length str) post)
          (omega (arith, fills, sum, fits, length-append xs str, length-drop (length str) post))
          texts.1 (omega (arith, fits, sum, length-drop (length str) post))
        ∙ rw
            (
              append_assoc xs str (joined strs),
              drop-drop (length (joined strs)) (length str) post,
              sum,
            )
            refl)
  where
    sum : length (str ++ joined strs) ≡ length str + length (joined strs)
    sum = length-append str (joined strs)

-- A text that comes when the texts before it have filled the buffer.
pub put_all_full :
    (strs : List (List ℕ)) (last xs post : List ℕ)
    → Fills buffer_size [] xs post
    → All IsText strs
    → IsText last
    → 0 < length last
    → length post ≤ length (joined strs)
    → put_all (strs ++ (last ∷ [])) (layout [] xs post) ≡ none
unfolding put_all
put_all_full [] last xs post fills texts is_text some_byte full =
    rw (put_full xs post fills last is_text (length-eq_zero post (omega (arith, full))) some_byte)
      refl
put_all_full (str ∷ strs) last xs post fills texts is_text some_byte full =
    elim (dec_lt 0 (length post)) [
      | yes room ↦ rw (put-layout xs post fills str texts.0 (λ _. room)) (
          put_all_full strs last (xs ++ take (length post) str) (drop (length str) post)
            (omega (
              arith,
              fills,
              length-append xs (take (length post) str),
              length-take (length post) str,
              length-drop (length str) post,
            ))
            texts.1 is_text some_byte
            (omega (arith, full, length-append str (joined strs), length-drop (length str) post)))
      | no no_room ↦ elim (dec_lt 0 (length str)) [
        | yes more ↦
            rw (put_full xs post fills str texts.0 (length-eq_zero post (omega arith)) more) refl
        | no empty ↦ rw (put-layout xs post fills str texts.0 (λ h. absurd (omega arith))) (
            put_all_full strs last (xs ++ take (length post) str) (drop (length str) post)
              (omega (
                arith,
                fills,
                length-append xs (take (length post) str),
                length-take (length post) str,
                length-drop (length str) post,
              ))
              texts.1 is_text some_byte (omega (arith, no_room, length-drop (length str) post)))
      ]
    ]

pub put_all-append :
    (strs more : List (List ℕ)) (b : Buffer)
    → put_all (strs ++ more) b ≡ (put_all strs b >>= put_all more)
unfolding put_all
put_all-append [] more b = refl
put_all-append (str ∷ strs) more b = elim (Option-cases (put str b)) [
  | inl fault ↦ rw (fault) refl
  | inr next ↦ rw (next.1) (put_all-append strs more next.0)
]
