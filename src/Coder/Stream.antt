-- ===== src/Coder/Stream.antt =====
-- A stream of messages, cut into pieces anyhow, is put together again.
use mathlib.Core.Path.{subst}
use native.Mathlib.Decide.{dec_lt}
use codechiev.Common.{
  ℕ, zero, suc, ◌+◌, ◌-◌, ◌^◌, ◌≤◌, ◌<◌, ◌≡◌, refl, sym, ap, ◌∙◌, true, false, Option, some, List,
  [], ◌∷◌, ◌++◌, length, All, ◌>>=◌, pos, arith, length-append, append_assoc, prefix-split,
}
use codechiev.Internet.Bytes.{Endian, be_bytes, length-be_bytes}
use codechiev.Buffer.{Buffer, append}
use codechiev.Buffer.Layout.{layout}
use codechiev.Buffer.Consume.{tail_room, length-tail_room}
use codechiev.Coder.{decode_buffer, drain}
use codechiev.Coder.Decode.{frame, length-frame, decode-short, decode-partial, decode-frame}

abbrev pub frames : List (List ℕ) → List ℕ
frames [] = []
frames (m ∷ ms) = frame m ++ frames ms

-- Each piece is appended to the read buffer, and the whole messages are taken out.
unfoldable pub receive : Endian → ℕ → ℕ → Buffer → List (List ℕ) → Option (List (List ℕ) × Buffer)
receive e fuel size b [] = some ([], b)
receive e fuel size b (piece ∷ pieces) = do
  stored ← append size b piece (pos (length piece))
  (first, b') ← drain e fuel stored.1
  (others, b'') ← receive e fuel size b' pieces
  some (first ++ others, b'')

abbrev pub first_size : List (List ℕ) → ℕ
first_size [] = 1
first_size (m ∷ ms) = length m + 4

-- The whole messages of `p` are handed on; less than one message stays.
pub record Drained (e : Endian) (fuel room : ℕ) (b : Buffer) (ms : List (List ℕ)) (future : List ℕ)
    : Type 0 where
  pub done : List (List ℕ)
  pub left : List (List ℕ)
  pub rest : List ℕ
  pub post : List ℕ
  pub result : drain e fuel b ≡ some (done, layout [] rest post)
  pub all : ms ≡ done ++ left
  pub ahead : rest ++ future ≡ frames left
  pub short : length rest < first_size left
  pub space : length rest + length post ≡ room

pub drain-stop :
    (e : Endian) (fuel : ℕ) (b b' : Buffer) (msg : List ℕ)
    → decode_buffer e 4 b [] ≡ some (false, msg, b')
    → drain e (suc fuel) b ≡ some ([], b')
unfolding drain
drain-stop e fuel b b' msg stop = rw (stop, drain) refl

pub drain-go :
    (e : Endian) (fuel : ℕ) (b b' b'' : Buffer) (msg : List ℕ) (msgs : List (List ℕ))
    → decode_buffer e 4 b [] ≡ some (true, msg, b')
    → drain e fuel b' ≡ some (msgs, b'')
    → drain e (suc fuel) b ≡ some (msg ∷ msgs, b'')
unfolding drain
drain-go e fuel b b' b'' msg msgs go later = rw (go, drain, later) refl

-- The header of `m` has arrived, and not all of its bytes.
decode-waits :
    (e : Endian) (m p post future : List ℕ) (ms : List (List ℕ))
    → p ++ future ≡ frames (m ∷ ms)
    → 4 ≤ length p
    → length p < length m + 4
    → length m + 4 < 2 ^ 31
    → decode_buffer e 4 (layout [] p post) [] ≡ some (false, [], layout [] p post)
decode-waits e m p post future ms e' long partial small =
    let head : List ℕ = be_bytes 4 (length m) in
    let (body, cut, _) =
      prefix-split head p future (m ++ frames ms) (e' ∙ append_assoc head m (frames ms))
        (omega (arith, length-be_bytes 4 (length m))) in
    let size : length p ≡ length head + length body = ap length cut ∙ length-append head body in
    let four : length head ≡ 4 = length-be_bytes 4 (length m) in
    subst
      (λ (ys : List ℕ).
        decode_buffer e 4 (layout [] ys post) [] ≡ some (false, [], layout [] ys post))
      (sym cut)
      (decode-partial e [] post (length m) body [] (omega arith) (omega (arith, size, four))
        (omega (arith, size, four)))

stay :
    (e : Endian) (fuel : ℕ) (p post future : List ℕ) (ms : List (List ℕ))
    → decode_buffer e 4 (layout [] p post) [] ≡ some (false, [], layout [] p post)
    → p ++ future ≡ frames ms
    → length p < first_size ms
    → Drained e (suc fuel) (length p + length post) (layout [] p post) ms future
stay e fuel p post future ms stop e' short = record {
  done = [];
  left = ms;
  rest = p;
  post = post;
  result = drain-stop e fuel (layout [] p post) (layout [] p post) [] stop;
  all = refl;
  ahead = e';
  short = short;
  space = refl;
}

-- One message is taken, and the rest is drained.
take_one :
    (e : Endian) (fuel : ℕ) (m rest post future : List ℕ) (ms : List (List ℕ))
    → length m + length rest + 4 < 2 ^ 31
    → let post' = tail_room ([] ++ frame m) rest post in
      Drained e fuel (length rest + length post') (layout [] rest post') ms future
      → Drained e
          (suc fuel)
          (length (frame m ++ rest) + length post)
          (layout [] (frame m ++ rest) post)
          (m ∷ ms)
          future
take_one e fuel m rest post future ms fits d = record {
  done = m ∷ d.done;
  left = d.left;
  rest = d.rest;
  post = d.post;
  result =
      drain-go e fuel (layout [] (frame m ++ rest) post)
        (layout [] rest (tail_room (frame m) rest post)) (layout [] d.rest d.post) m d.done
        (decode-frame e [] post m rest [] fits) d.result;
  all = ap (◌∷◌ m) d.all;
  ahead = d.ahead;
  short = d.short;
  space =
      omega (arith, d.space, length-tail_room (frame m) rest post, length-append (frame m) rest);
}

pub drain-Drained :
    (e : Endian) (fuel : ℕ) (ms : List (List ℕ)) (p post future : List ℕ)
    → length p < fuel
    → length p + length post < 2 ^ 31 - 4
    → All (λ m. length m + 4 < 2 ^ 31) ms
    → p ++ future ≡ frames ms
    → Drained e fuel (length p + length post) (layout [] p post) ms future
drain-Drained e zero ms p post future fuel_enough fits small e' = absurd (omega arith)
drain-Drained e (suc fuel) [] p post future fuel_enough fits small e' =
    let none_left : length p ≡ 0 = omega (arith, length-append p future, ap length e') in
    stay e fuel p post future [] (decode-short e [] post p [] (omega arith)) e' (omega arith)
drain-Drained e (suc fuel) (m ∷ ms) p post future fuel_enough fits small e' =
    elim (dec_lt (length p) 4) [
      | yes short ↦
          stay e fuel p post future (m ∷ ms) (decode-short e [] post p [] short) e' (omega arith)
      | no long ↦ elim (dec_lt (length p) (length m + 4)) [
        | yes partial ↦
            stay e fuel p post future (m ∷ ms)
              (decode-waits e m p post future ms e' (omega arith) partial small.0) e' partial
        | no whole ↦
            let size : length (frame m) ≡ length m + 4 = length-frame e [] post m in
            let (rest, cut, later) =
              prefix-split (frame m) p future (frames ms) e' (omega (arith, size)) in
            let room = length-tail_room (frame m) rest post in
            let total : length p ≡ length m + 4 + length rest =
              omega (arith, ap length cut, length-append (frame m) rest, size) in
            subst
              (λ (ys : List ℕ).
                Drained e (suc fuel) (length ys + length post) (layout [] ys post) (m ∷ ms) future)
              (sym cut)
              (take_one e fuel m rest post future ms (omega (arith, total)) (
                drain-Drained e fuel ms rest (tail_room (frame m) rest post) future
                  (omega (arith, total)) (omega (arith, total, room, size)) small.1 later))
      ]
    ]
