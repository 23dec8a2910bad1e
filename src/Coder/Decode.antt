-- ===== src/Coder/Decode.antt =====
-- One call of `decode` on a buffer of bytes.
use codechiev.Common.{
  ℕ, ◌+◌, ◌%◌, ◌^◌, ◌≤◌, ◌<◌, ◌≡◌, refl, sym, ap, ◌∙◌, true, false, none, some, List, [], ◌∷◌, ◌++◌,
  length, pos, leb, arith, le→leb, gt→leb, lt→ltb, length-append, append_assoc, pos-+ℤ,
  if◌then◌else◌,
}
use codechiev.Internet.Bytes.{Endian, be_bytes, length-be_bytes}
use codechiev.Internet.Order.{network32_read}
use mathlib.Core.Path.{ap₂}
use codechiev.Buffer.{read}
use codechiev.Buffer.Memory.{load, load-append}
use codechiev.Buffer.Layout.{layout, readable-layout}
use codechiev.Buffer.Consume.{tail_room, read-layout, move-layout}
use codechiev.Coder.{to_int, take_message, decode_buffer}

-- A message as it is sent: its length in four bytes, highest first, and its bytes.
abbrev pub frame : List ℕ → List ℕ
frame msg = be_bytes 4 (length msg) ++ msg

module _ (e : Endian) (pre post : List ℕ) where
  -- Fewer than four bytes: nothing is taken.
  pub decode-short :
      (xs msg : List ℕ)
      → length xs < 4
      → decode_buffer e 4 (layout pre xs post) msg ≡ some (false, msg, layout pre xs post)
  unfolding decode_buffer
  decode-short xs msg h =
      rw (readable-layout pre xs post, gt→leb (4 + 0) (length xs + 0) (omega arith)) refl

  -- The header is there: `decode` reads the length `n` that it announces.
  decode_header :
      (n : ℕ) (body msg : List ℕ)
      → n < 2 ^ 32
      → length body + 4 < 2 ^ 31
      → decode_buffer e 4 (layout pre (be_bytes 4 n ++ body) post) msg ≡ (
          if leb ((n + 4) % 2 ^ 32) (length body + 4)
          then take_message e 4 (layout pre (be_bytes 4 n ++ body) post) msg n ((n + 4) % 2 ^ 32)
          else some (false, msg, layout pre (be_bytes 4 n ++ body) post))
  unfolding decode_buffer
  decode_header n body msg small fits =
      let len : length (be_bytes 4 n ++ body) ≡ length body + 4 =
        omega (arith, length-append (be_bytes 4 n) body, length-be_bytes 4 n) in
      rw
        (
          readable-layout pre (be_bytes 4 n ++ body) post,
          len,
          le→leb (4 + 0) (length body + 4 + 0) (omega arith),
          load-append pre (body ++ (0 ∷ post)) (pre ++ ((be_bytes 4 n ++ body) ++ (0 ∷ post)))
              (length pre) (be_bytes 4 n) 4 (rw append_assoc refl) refl (sym (length-be_bytes 4 n)),
          network32_read e e n small,
          wrap,
        )
        refl
    where
      wrap : (length body + 4) % 2 ^ 32 ≡ length body + 4
      wrap = omega arith

  -- If fewer bytes have arrived than the header announces (and the announced size with its header
  -- does not wrap), `decode` answers false and changes nothing.
  pub decode-partial :
      (n : ℕ) (body msg : List ℕ)
      → n + 4 < 2 ^ 32
      → length body + 4 < 2 ^ 31
      → length body < n
      → decode_buffer e 4 (layout pre (be_bytes 4 n ++ body) post) msg
        ≡ some (false, msg, layout pre (be_bytes 4 n ++ body) post)
  decode-partial n body msg small fits more =
      decode_header n body msg (omega arith) fits
      ∙ rw (gt→leb ((n + 4) % 2 ^ 32) (length body + 4) (omega arith)) refl

  pub length-frame : (m : List ℕ) → length (frame m) ≡ length m + 4
  length-frame m =
      omega (arith, length-append (be_bytes 4 (length m)) m, length-be_bytes 4 (length m))

  pub split-frame : (m rest : List ℕ) → frame m ++ rest ≡ be_bytes 4 (length m) ++ (m ++ rest)
  split-frame m rest = append_assoc (be_bytes 4 (length m)) m rest

  read-frame :
      (m rest : List ℕ)
      → length m + 4 < 2 ^ 31
      → read (layout pre (be_bytes 4 (length m) ++ (m ++ rest)) post) (to_int (length m + 4))
        ≡ layout (pre ++ frame m) rest post
  read-frame m rest fits = rw (lt→ltb (length m + 4) (2 ^ 31) fits) (
      ap₂ (λ (ys : List ℕ) (k : ℕ). read (layout pre ys post) (pos k)) (sym (split-frame m rest))
        (sym (length-frame m))
      ∙ read-layout pre (frame m) rest post)

  take_message-frame :
      (m rest msg : List ℕ)
      → length m + 4 < 2 ^ 31
      → take_message e 4
          (layout pre (be_bytes 4 (length m) ++ (m ++ rest)) post)
          msg
          (length m)
          (length m + 4)
        ≡ some (true, msg ++ m, layout [] rest (tail_room (pre ++ frame m) rest post))
  unfolding take_message
  take_message-frame m rest msg fits =
      let head : List ℕ = be_bytes 4 (length m) in
      rw
        (
          pos-+ℤ (length pre) 4,
          load-append (pre ++ head) (rest ++ (0 ∷ post))
              (pre ++ ((head ++ (m ++ rest)) ++ (0 ∷ post))) (length pre + 4) m (length m)
              (simp append_assoc)
              (omega (arith, length-append pre head, length-be_bytes 4 (length m))) refl,
          read-frame m rest fits,
          move-layout (pre ++ frame m) rest post,
        )
        refl

  -- If a whole message stands at the front of the bytes to read, and they are fewer than 2 ^ 31,
  -- `decode` appends the message to `msg` and moves what follows it to the front of the buffer.
  pub decode-frame :
      (m rest msg : List ℕ)
      → length m + length rest + 4 < 2 ^ 31
      → decode_buffer e 4 (layout pre (frame m ++ rest) post) msg
        ≡ some (true, msg ++ m, layout [] rest (tail_room (pre ++ frame m) rest post))
  decode-frame m rest msg fits =
      let n : ℕ = length m in
      let whole : (n + 4) % 2 ^ 32 ≡ n + 4 = omega arith in
      ap (λ (ys : List ℕ). decode_buffer e 4 (layout pre ys post) msg) (split-frame m rest)
      ∙ decode_header n (m ++ rest) msg (omega arith) (omega (arith, length-append m rest))
      ∙ rw (whole, le→leb (n + 4) (length (m ++ rest) + 4) (omega (arith, length-append m rest)))
          (take_message-frame m rest msg (omega arith))

  -- If the header announces 2 ^ 32 - 4 bytes or more and the buffer is smaller than 2 ^ 31, the sum
  -- with the header wraps, and `decode` reads outside the buffer.
  pub decode-overflow :
      (n : ℕ) (body msg : List ℕ)
      → 2 ^ 32 ≤ n + 4
      → n < 2 ^ 32
      → length pre + length body + length post + 9 < 2 ^ 31
      → decode_buffer e 4 (layout pre (be_bytes 4 n ++ body) post) msg ≡ none
  unfolding take_message load
  decode-overflow n body msg wraps small fits =
      decode_header n body msg small (omega arith)
      ∙ rw
          (
            le→leb ((n + 4) % 2 ^ 32) (length body + 4) (omega arith),
            pos-+ℤ (length pre) 4,
            gt→leb (length pre + 4 + n) (length (pre ++ ((be_bytes 4 n ++ body) ++ (0 ∷ post)))) (
                omega (
                  arith,
                  length-append pre ((be_bytes 4 n ++ body) ++ (0 ∷ post)),
                  length-append (be_bytes 4 n ++ body) (0 ∷ post),
                  length-append (be_bytes 4 n) body,
                  length-be_bytes 4 n,
                )),
          )
          refl
