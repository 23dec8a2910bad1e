-- ===== src/Http/Parts.antt =====
-- What a front part of a stream of HTTP messages holds.
use native.Mathlib.Decide.{dec_lt}
use codechiev.Common.{
  ℕ, ◌+◌, ◌≤◌, ◌<◌, ◌≡◌, refl, sym, ap, ◌∙◌, none, List, [], ◌∷◌, ◌++◌, length, All, arith,
  length-append, append_assoc, prefix-split,
}
use codechiev.Http.{empty_line, strstr}
use codechiev.Http.Search.{IsMessage, strstr-front}
use codechiev.Http.Messages.{ended}

-- What the front part `xs` of a stream of messages holds: some messages, and a part of the rest of the stream
-- without an empty line.
pub record Parted (longest : ℕ) (ms : List (List ℕ)) (xs future tail : List ℕ) : Type 0 where
  pub done : List (List ℕ)
  pub left : List (List ℕ)
  pub rest : List ℕ
  pub all : ms ≡ done ++ left
  pub front : xs ≡ ended done ++ rest
  pub ahead : rest ++ future ≡ ended left ++ tail
  pub unended : strstr empty_line rest ≡ none
  pub short : length rest < longest
  pub done_messages : All IsMessage done
  pub left_messages : All IsMessage left
  pub left_fit : All (λ m. length m + 4 ≤ longest) left

short-unended :
    (m xs future more : List ℕ)
    → IsMessage m
    → xs ++ future ≡ m ++ (empty_line ++ more)
    → length xs < length m + 4
    → strstr empty_line xs ≡ none
short-unended m xs future more message same short =
    let (ys, whole, _) =
      prefix-split xs (m ++ (13 ∷ 10 ∷ 13 ∷ [])) (10 ∷ more) future
        (append_assoc m (13 ∷ 10 ∷ 13 ∷ []) (10 ∷ more) ∙ sym same)
        (omega (arith, short, length-append m (13 ∷ 10 ∷ 13 ∷ []))) in
    strstr-front xs ys (rw (sym whole) message)

-- `longest` is more than the bytes of each message with its empty line, less one, and of the tail.
pub stream-Parted :
    (longest : ℕ) (ms : List (List ℕ)) (xs future tail : List ℕ)
    → All IsMessage ms
    → All (λ m. length m + 4 ≤ longest) ms
    → strstr empty_line tail ≡ none
    → length tail < longest
    → xs ++ future ≡ ended ms ++ tail
    → Parted longest ms xs future tail
stream-Parted longest [] xs future tail messages fit last below same = record {
  done = [];
  left = [];
  rest = xs;
  all = refl;
  front = refl;
  ahead = same;
  unended = strstr-front xs future (rw same last);
  short = omega (arith, length-append xs future, ap length same);
  done_messages = tt;
  left_messages = tt;
  left_fit = tt;
}
stream-Parted longest (m ∷ ms) xs future tail messages fit last below same =
    let behind : List ℕ = ended ms ++ tail in
    let shape : xs ++ future ≡ m ++ (empty_line ++ behind) =
      same ∙ append_assoc m (empty_line ++ ended ms) tail in
    elim (dec_lt (length xs) (length m + 4)) [
      | yes few ↦ record {
        done = [];
        left = m ∷ ms;
        rest = xs;
        all = refl;
        front = refl;
        ahead = same;
        unended = short-unended m xs future behind messages.0 shape few;
        short = omega (arith, few, fit.0);
        done_messages = tt;
        left_messages = messages;
        left_fit = fit;
      }
      | no many ↦
          let (xs', cut, later) =
            prefix-split (m ++ empty_line) xs future behind
              (shape ∙ sym (append_assoc m empty_line behind))
              (omega (arith, many, length-append m empty_line)) in
          let p = stream-Parted longest ms xs' future tail messages.1 fit.1 last below later in
          record {
            done = m ∷ p.done;
            left = p.left;
            rest = p.rest;
            all = ap (◌∷◌ m) p.all;
            front =
                cut
                ∙ ap (λ (ys : List ℕ). (m ++ empty_line) ++ ys) p.front
                ∙ append_assoc m empty_line (ended p.done ++ p.rest)
                ∙ sym (append_assoc m (empty_line ++ ended p.done) p.rest);
            ahead = p.ahead;
            unended = p.unended;
            short = p.short;
            done_messages = (messages.0, p.done_messages);
            left_messages = p.left_messages;
            left_fit = p.left_fit;
          }
    ]
