-- ===== src/Coder/Total.antt =====
-- The loop of onData on any bytes that a peer sends: it ends, and where it faults.
use codechiev.Common.{
  ℕ, zero, suc, ◌+◌, ◌^◌, ◌≤◌, ◌<◌, ◌≡◌, sym, ap, ◌∙◌, ◌⊎◌, ◌↔◌, inl, inr, none, List, [], ◌∷◌,
  ◌++◌, length, All, arith, length-append, append_assoc,
}
use codechiev.Internet.Bytes.{Endian, little, be_bytes, IsByte}
use codechiev.Buffer.Layout.{layout}
use codechiev.Buffer.Consume.{tail_room, length-tail_room}
use codechiev.Coder.{drain}
use codechiev.Coder.Decode.{frame, length-frame, decode-frame, decode-overflow}
use codechiev.Coder.Stream.{frames}
use codechiev.Coder.Outcome.{Stops, drain-fault, drain-go_fault, drain-Outcome}

-- The loop faults at a header with which the size wraps.
drain-wraps :
    (e : Endian) (fuel : ℕ) (pre post : List ℕ) (msgs : List (List ℕ)) (n : ℕ) (body : List ℕ)
    → 2 ^ 32 ≤ n + 4
    → n < 2 ^ 32
    → length pre + length (frames msgs ++ (be_bytes 4 n ++ body)) + length post + 9 < 2 ^ 31
    → length msgs < fuel
    → drain e fuel (layout pre (frames msgs ++ (be_bytes 4 n ++ body)) post) ≡ none
drain-wraps e zero pre post msgs n body wraps small fits enough = absurd (omega arith)
drain-wraps e (suc fuel) pre post [] n body wraps small fits enough =
    drain-fault e fuel (layout pre (be_bytes 4 n ++ body) post) (
      decode-overflow e pre post n body [] wraps small
        (omega (arith, fits, length-append (be_bytes 4 n) body)))
drain-wraps e (suc fuel) pre post (m ∷ msgs) n body wraps small fits enough =
    let rest : List ℕ = frames msgs ++ (be_bytes 4 n ++ body) in
    let shape : (frame m ++ frames msgs) ++ (be_bytes 4 n ++ body) ≡ frame m ++ rest =
      append_assoc (frame m) (frames msgs) (be_bytes 4 n ++ body) in
    let sizes : length ((frame m ++ frames msgs) ++ (be_bytes 4 n ++ body))
        ≡ length m + 4 + length rest =
      omega (arith, ap length shape, length-append (frame m) rest, length-frame e pre post m) in
    let post' : List ℕ = tail_room (pre ++ frame m) rest post in
    ap (λ (ys : List ℕ). drain e (suc fuel) (layout pre ys post)) shape
    ∙ drain-go_fault e fuel (layout pre (frame m ++ rest) post) (layout [] rest post') m
        (decode-frame e pre post m rest [] (omega (arith, fits, sizes)))
        (drain-wraps e fuel [] post' msgs n body wraps small
          (omega (
            arith,
            fits,
            sizes,
            length-tail_room (pre ++ frame m) rest post,
            length-append pre (frame m),
            length-frame e pre post m,
          ))
          (omega (arith, enough)))

length-frames : (msgs : List (List ℕ)) → length msgs ≤ length (frames msgs)
length-frames [] = omega arith
length-frames (m ∷ msgs) =
    omega (
      arith,
      length-frames msgs,
      length-append (frame m) (frames msgs),
      length-frame little [] [] m,
    )

-- Behind whole messages stands a header whose length wraps with its own.
abbrev pub HasWrap : List ℕ → Type 0
HasWrap xs =
    (msgs : List (List ℕ)) × (n : ℕ) × (body : List ℕ) × (xs
      ≡ frames msgs ++ (be_bytes 4 n ++ body))
    × (2 ^ 32 ≤ n + 4)
    × (n < 2 ^ 32)

-- Whatever bytes a peer sends to a buffer of less than 2 ^ 31, the loop of onData ends, in as many
-- rounds as there are bytes and one more: either it hands on the whole messages that the bytes
-- begin with, in order, and leaves a part of a message in the buffer, or it faults; and it faults
-- exactly if the bytes have, behind whole messages, a header that announces a length which wraps
-- with the header's.
pub drain-ends :
    (e : Endian) (fuel : ℕ) (pre xs post : List ℕ)
    → All IsByte xs
    → length pre + length xs + length post + 9 < 2 ^ 31
    → length xs < fuel
    → (Stops e fuel (layout pre xs post) xs ⊎ (drain e fuel (layout pre xs post) ≡ none))
      × ((drain e fuel (layout pre xs post) ≡ none) ↔ HasWrap xs)
drain-ends e fuel pre xs post bytes fits enough =
    elim (drain-Outcome e fuel pre xs post bytes fits enough) [
      | inl s ↦ (inl s, ((λ fault. let never = sym s.result ∙ fault in cc), faults))
      | inr f ↦ (
        inr f.result,
        ((λ fault. (f.msgs, f.length_read, f.body, f.whole, f.wraps, f.fits)), faults),
      )
    ]
  where
    faults : HasWrap xs → drain e fuel (layout pre xs post) ≡ none
    faults (msgs, n, body, shape, wraps, small) =
        ap (λ (ys : List ℕ). drain e fuel (layout pre ys post)) shape
        ∙ drain-wraps e fuel pre post msgs n body wraps small (omega (arith, fits, ap length shape))
            (omega (
              arith,
              enough,
              length-frames msgs,
              ap length shape,
              length-append (frames msgs) (be_bytes 4 n ++ body),
            ))
