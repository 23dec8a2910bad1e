-- ===== src/Coder/Outcome.antt =====
-- What the loop of onData makes of any bytes that a peer sends.
use mathlib.Core.List.{reverse}
use mathlib.Core.Path.{subst}
use native.Mathlib.Decide.{dec_lt}
use codechiev.Common.{
  ℕ, zero, suc, ◌+◌, ◌^◌, ◌≤◌, ◌<◌, ◌≡◌, refl, sym, ap, ◌∙◌, ◌⊎◌, inl, inr, true, false, none, some,
  List, [], ◌∷◌, ◌++◌, length, take, drop, All, arith, length-append, append_assoc,
  take-append-drop, length-take, length-drop,
}
use codechiev.Internet.Bytes.{Endian, be_bytes, of_le, IsByte, le_bytes-of_le, of_le-lt}
use codechiev.Buffer.{Buffer}
use codechiev.Buffer.Layout.{layout}
use codechiev.Buffer.Consume.{tail_room, length-tail_room}
use codechiev.Coder.{decode_buffer, drain}
use codechiev.Coder.Decode.{
  frame, length-frame, split-frame, decode-short, decode-partial, decode-frame, decode-overflow,
}
use codechiev.Coder.Stream.{frames, drain-stop, drain-go}

-- Less than a whole message: no header, or fewer bytes behind it than it announces.
abbrev pub IsPartial : List ℕ → Type 0
IsPartial rest =
    (length rest < 4)
    ⊎ ((n : ℕ) × (body : List ℕ) × (rest ≡ be_bytes 4 n ++ body)
        × (n + 4 < 2 ^ 32)
        × (length body < n))

-- The messages are handed on, and a part of a message is left.
pub record Stops (e : Endian) (fuel : ℕ) (b : Buffer) (xs : List ℕ) : Type 0 where
  pub msgs : List (List ℕ)
  pub rest : List ℕ
  pub pre : List ℕ
  pub post : List ℕ
  pub whole : xs ≡ frames msgs ++ rest
  pub partial : IsPartial rest
  pub result : drain e fuel b ≡ some (msgs, layout pre rest post)

-- Behind some messages, a header announces a length with which the size wraps, and there the loop faults.
pub record Faults (e : Endian) (fuel : ℕ) (b : Buffer) (xs : List ℕ) : Type 0 where
  pub msgs : List (List ℕ)
  pub length_read : ℕ
  pub body : List ℕ
  pub whole : xs ≡ frames msgs ++ (be_bytes 4 length_read ++ body)
  pub wraps : 2 ^ 32 ≤ length_read + 4
  pub fits : length_read < 2 ^ 32
  pub result : drain e fuel b ≡ none

abbrev pub Outcome : Endian → ℕ → Buffer → List ℕ → Type 0
Outcome e fuel b xs = Stops e fuel b xs ⊎ Faults e fuel b xs

pub drain-fault :
    (e : Endian) (fuel : ℕ) (b : Buffer)
    → decode_buffer e 4 b [] ≡ none
    → drain e (suc fuel) b ≡ none
unfolding drain
drain-fault e fuel b fault = rw (fault, drain) refl

pub drain-go_fault :
    (e : Endian) (fuel : ℕ) (b b' : Buffer) (msg : List ℕ)
    → decode_buffer e 4 b [] ≡ some (true, msg, b')
    → drain e fuel b' ≡ none
    → drain e (suc fuel) b ≡ none
unfolding drain
drain-go_fault e fuel b b' msg go later = rw (go, drain, later) refl

-- Any four bytes are the header of some length.
header_of :
    (a b c d : ℕ)
    → All IsByte (a ∷ b ∷ c ∷ d ∷ [])
    → (n : ℕ) × (n < 2 ^ 32) × (be_bytes 4 n ≡ a ∷ b ∷ c ∷ d ∷ [])
header_of a b c d h =
    let low_first : List ℕ = d ∷ c ∷ b ∷ a ∷ [] in
    let bytes : All IsByte low_first = (h.1.1.1.0, (h.1.1.0, (h.1.0, (h.0, tt)))) in
    (of_le low_first, of_le-lt low_first bytes, ap reverse (le_bytes-of_le low_first bytes))

All-drop : (n : ℕ) (bs : List ℕ) → All IsByte bs → All IsByte (drop n bs)
All-drop zero bs h = h
All-drop (suc n) [] h = tt
All-drop (suc n) (b ∷ bs) h = All-drop n bs h.1

stops_at :
    (e : Endian) (fuel : ℕ) (pre xs post : List ℕ)
    → IsPartial xs
    → decode_buffer e 4 (layout pre xs post) [] ≡ some (false, [], layout pre xs post)
    → Outcome e (suc fuel) (layout pre xs post) xs
stops_at e fuel pre xs post partial stop = inl (record {
  msgs = [];
  rest = xs;
  pre = pre;
  post = post;
  whole = refl;
  partial = partial;
  result = drain-stop e fuel (layout pre xs post) (layout pre xs post) [] stop;
})

-- After a message, the outcome is that of the bytes behind it.
goes_on :
    (e : Endian) (fuel : ℕ) (b b' : Buffer) (m rest : List ℕ)
    → decode_buffer e 4 b [] ≡ some (true, m, b')
    → Outcome e fuel b' rest
    → Outcome e (suc fuel) b (frame m ++ rest)
goes_on e fuel b b' m rest go (inl s) = inl (record {
  msgs = m ∷ s.msgs;
  rest = s.rest;
  pre = s.pre;
  post = s.post;
  whole =
      ap (λ (ys : List ℕ). frame m ++ ys) s.whole
      ∙ sym (append_assoc (frame m) (frames s.msgs) s.rest);
  partial = s.partial;
  result = drain-go e fuel b b' (layout s.pre s.rest s.post) m s.msgs go s.result;
})
goes_on e fuel b b' m rest go (inr f) = inr (record {
  msgs = m ∷ f.msgs;
  length_read = f.length_read;
  body = f.body;
  whole =
      ap (λ (ys : List ℕ). frame m ++ ys) f.whole
      ∙ sym (append_assoc (frame m) (frames f.msgs) (be_bytes 4 f.length_read ++ f.body));
  wraps = f.wraps;
  fits = f.fits;
  result = drain-go_fault e fuel b b' m go f.result;
})

module _ (e : Endian) (fuel : ℕ) (pre post : List ℕ) (n : ℕ) (body : List ℕ) where
  abbrev xs : List ℕ
  xs = be_bytes 4 n ++ body

  -- Behind a header.
  headed :
      n < 2 ^ 32
      → length pre + length body + length post + 9 < 2 ^ 31
      → ((post' : List ℕ)
          → length post' ≡ length pre + 4 + n + length post
          → n ≤ length body
          → Outcome e fuel (layout [] (drop n body) post') (drop n body))
      → Outcome e (suc fuel) (layout pre xs post) xs
  headed small fits later = elim (dec_lt (n + 4) (2 ^ 32)) [
    | no wraps ↦ inr (record {
      msgs = [];
      length_read = n;
      body = body;
      whole = refl;
      wraps = omega (arith, wraps);
      fits = small;
      result =
          drain-fault e fuel (layout pre xs post)
            (decode-overflow e pre post n body [] (omega (arith, wraps)) small fits);
    })
    | yes no_wrap ↦ elim (dec_lt (length body) n) [
      | yes more ↦
          stops_at e fuel pre xs post (inr (n, body, refl, no_wrap, more))
            (decode-partial e pre post n body [] no_wrap (omega (arith, fits)) more)
      | no enough ↦
          let m : List ℕ = take n body in
          let rest : List ℕ = drop n body in
          let size : length m ≡ n = omega (arith, length-take n body, enough) in
          let shape : frame m ++ rest ≡ xs =
            split-frame e pre post m rest
            ∙ ap (λ (k : ℕ). be_bytes 4 k ++ (m ++ rest)) size
            ∙ ap (λ (ys : List ℕ). be_bytes 4 n ++ ys) (take-append-drop n body) in
          let post' : List ℕ = tail_room (pre ++ frame m) rest post in
          subst (λ (ys : List ℕ). Outcome e (suc fuel) (layout pre ys post) ys) shape
            (goes_on e fuel (layout pre (frame m ++ rest) post) (layout [] rest post') m rest
              (decode-frame e pre post m rest []
                (omega (arith, size, length-drop n body, fits, enough)))
              (later post'
                (omega (
                  arith,
                  length-tail_room (pre ++ frame m) rest post,
                  length-append pre (frame m),
                  length-frame e pre post m,
                  size,
                ))
                (omega (arith, enough))))
    ]
  ]

pub drain-Outcome :
    (e : Endian) (fuel : ℕ) (pre xs post : List ℕ)
    → All IsByte xs
    → length pre + length xs + length post + 9 < 2 ^ 31
    → length xs < fuel
    → Outcome e fuel (layout pre xs post) xs
drain-Outcome e zero pre xs post bytes fits enough = absurd (omega arith)
drain-Outcome e (suc fuel) pre [] post bytes fits enough =
    stops_at e fuel pre [] post (inl (omega arith)) (decode-short e pre post [] [] (omega arith))
drain-Outcome e (suc fuel) pre (a ∷ []) post bytes fits enough =
    stops_at e fuel pre (a ∷ []) post (inl (omega arith))
      (decode-short e pre post (a ∷ []) [] (omega arith))
drain-Outcome e (suc fuel) pre (a ∷ b ∷ []) post bytes fits enough =
    stops_at e fuel pre (a ∷ b ∷ []) post (inl (omega arith))
      (decode-short e pre post (a ∷ b ∷ []) [] (omega arith))
drain-Outcome e (suc fuel) pre (a ∷ b ∷ c ∷ []) post bytes fits enough =
    stops_at e fuel pre (a ∷ b ∷ c ∷ []) post (inl (omega arith))
      (decode-short e pre post (a ∷ b ∷ c ∷ []) [] (omega arith))
drain-Outcome e (suc fuel) pre (a ∷ b ∷ c ∷ d ∷ body) post bytes fits enough =
    let (n, small, same) =
      header_of a b c d (bytes.0, (bytes.1.0, (bytes.1.1.0, (bytes.1.1.1.0, tt)))) in
    subst (λ (ys : List ℕ). Outcome e (suc fuel) (layout pre ys post) ys)
      (ap (λ (ys : List ℕ). ys ++ body) same)
      (headed e fuel pre post n body small (omega (arith, fits)) λ post' room whole.
        drain-Outcome e fuel [] (drop n body) post' (All-drop n body bytes.1.1.1.1)
          (omega (arith, fits, room, length-drop n body, whole))
          (omega (arith, enough, length-drop n body)))
