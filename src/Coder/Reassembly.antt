-- ===== src/Coder/Reassembly.antt =====
-- Whatever the pieces in which a stream of frames arrives, its messages come out, in order.
use mathlib.Core.Path.{subst}
use codechiev.Common.{
  ℕ, zero, suc, ◌+◌, ◌-◌, ◌^◌, ◌≤◌, ◌<◌, ◌≡◌, refl, sym, ap, ◌∙◌, some, List, [], ◌∷◌, ◌++◌, length,
  drop, All, pos, arith, length-append, append_assoc, append-nil, length-drop, replicate,
  length-replicate,
}
use codechiev.Internet.Bytes.{Endian}
use codechiev.Buffer.{Buffer, append, readable, new}
use codechiev.Buffer.Layout.{layout, new-layout, readable-layout}
use codechiev.Buffer.Append.{append_whole}
use codechiev.Coder.Decode.{frame, length-frame}
use codechiev.Coder.Stream.{frames, receive, first_size, drain-Drained}

abbrev pub joined : List (List ℕ) → List ℕ
joined [] = []
joined (c ∷ cs) = c ++ joined cs

All-right : (P : List ℕ → Type 0) (xs ys : List (List ℕ)) → All P (xs ++ ys) → All P ys
All-right P [] ys h = h
All-right P (x ∷ xs) ys h = All-right P xs ys h.1

All-weaken :
    {P Q : List ℕ → Type 0}
    → ((m : List ℕ) → P m → Q m)
    → (xs : List (List ℕ)) → All P xs
    → All Q xs
All-weaken f [] h = tt
All-weaken f (x ∷ xs) h = (f x h.0, All-weaken f xs h.1)

-- At the end of the stream nothing is left.
nothing_left :
    (e : Endian) (p : List ℕ) (ms : List (List ℕ))
    → p ≡ frames ms
    → length p < first_size ms
    → (ms ≡ []) × (p ≡ [])
nothing_left e p [] all short = (refl, all)
nothing_left e p (m ∷ ms) all short = absurd (
    omega
      (arith, short, ap length all, length-append (frame m) (frames ms), length-frame e [] [] m))

room_for :
    (size limit : ℕ) (p : List ℕ) (ms : List (List ℕ))
    → limit < size
    → All (λ m. length m + 4 + limit ≤ size) ms
    → length p < first_size ms
    → length p + limit + 1 ≤ size
room_for size limit p [] below small short = omega (arith, short)
room_for size limit p (m ∷ ms) below small short = omega (arith, short, small.0)

receive_from :
    (e : Endian) (size limit : ℕ) (pieces ms : List (List ℕ)) (p post : List ℕ)
    → size + 4 < 2 ^ 31
    → limit < size
    → All (λ m. length m + 4 + limit ≤ size) ms
    → All (λ c. length c ≤ limit) pieces
    → length p + length post + 1 ≡ size
    → length p < first_size ms
    → p ++ joined pieces ≡ frames ms
    → (post' : List ℕ) × (receive e size size (layout [] p post) pieces
        ≡ some (ms, layout [] [] post'))
unfolding receive
receive_from e size limit [] ms p post top below small cut full short all =
    let (no_message, no_byte) = nothing_left e p ms (sym (append-nil p) ∙ all) short in
    (post, rw (no_message, no_byte) refl)
receive_from e size limit (c ∷ cs) ms p post top below small cut full short all =
    let free : length p + limit + 1 ≤ size = room_for size limit p ms below small short in
    let total : length (p ++ c) ≡ length p + length c = length-append p c in
    let kept : length (drop (length c) post) ≡ length post - length c =
      length-drop (length c) post in
    let d =
      drain-Drained e size ms (p ++ c) (drop (length c) post) (joined cs)
        (omega (arith, total, free, cut.0)) (omega (arith, total, kept, free, cut.0, full))
        (All-weaken (λ m h. omega (arith, h)) ms small) (append_assoc p c (joined cs) ∙ all) in
    let small' : All (λ m. length m + 4 + limit ≤ size) d.left =
      All-right (λ m. length m + 4 + limit ≤ size) d.done d.left
        (subst (All (λ m. length m + 4 + limit ≤ size)) d.all small) in
    let (post', later) =
      receive_from e size limit cs d.left d.rest d.post top below small' cut.1
        (omega (arith, d.space, total, kept, full, free, cut.0)) d.short d.ahead in
    (
      post',
      rw
          (
            subst
                (λ (ys : List ℕ).
                  append size (layout [] p post) ys (pos (length c))
                  ≡ some (pos (length c), layout [] (p ++ c) (drop (length c) post)))
                (append-nil c)
                (append_whole size [] p post (omega (arith, full)) c [] (length c) refl
                  (omega (arith, free, cut.0, full))),
            d.result,
            later,
          )
          (ap (λ (xs : List (List ℕ)). some (xs, layout [] [] post')) (sym d.all)),
    )

-- A stream of messages, each behind its length, is put together again: whatever the pieces (of at
-- most `limit` bytes) in which it arrives, appending each to a new buffer and decoding gives the
-- messages in order and leaves nothing to read, if `limit < size`, `size + 4 < 2 ^ 31` and each
-- message with its header and `limit` more bytes fits in `size`. As many rounds as the buffer has
-- bytes are enough.
pub receive-frames :
    (e : Endian) (size limit : ℕ) (ms pieces : List (List ℕ))
    → size + 4 < 2 ^ 31
    → limit < size
    → All (λ m. length m + 4 + limit ≤ size) ms
    → All (λ c. length c ≤ limit) pieces
    → joined pieces ≡ frames ms
    → (b : Buffer) × (receive e size size (new size) pieces ≡ some (ms, b))
      × (readable b ≡ some (pos 0))
receive-frames e zero limit ms pieces top below small cut all = absurd (omega arith)
receive-frames e (suc n) limit ms pieces top below small cut all =
    let start = replicate n (let z : ℕ = 0 in z) in
    let (post, r) =
      receive_from e (suc n) limit pieces ms [] start top below small cut
        (omega (arith, length-replicate n (let z : ℕ = 0 in z))) (first ms) all in
    (layout [] [] post, rw (new-layout n) r, readable-layout [] [] post)
  where
    first : (ms : List (List ℕ)) → 0 < first_size ms
    first [] = omega arith
    first (m ∷ ms) = omega arith
