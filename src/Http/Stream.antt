-- ===== src/Http/Stream.antt =====
-- HTTP messages that arrive in pieces: TcpEndpoint::onRead of codechiev/net/TcpServer.cpp appends each to the
-- channel's read buffer and calls HttpServer::onMessage.
use mathlib.Core.Path.{subst}
use codechiev.Common.{
  ℕ, ◌+◌, ◌≤◌, ◌<◌, ◌≡◌, refl, sym, ap, ◌∙◌, Option, none, some, List, [], ◌∷◌, ◌++◌, length, drop,
  All, ◌>>=◌, pos, arith, length-append, length-drop, append_assoc, append-nil, length-eq_zero,
  if-false, false, ℤ, ◌==◌,
}
use codechiev.Common.Assoc.{lookup, lookup-insert_self}
use codechiev.Buffer
use codechiev.Buffer.{Buffer, append}
use codechiev.Buffer.Append.{append_whole}
use codechiev.Buffer.Layout.{layout, Fills}
use codechiev.Channel.{Channel, buffer_size}
use codechiev.Coder.Reassembly.{joined}
use codechiev.Endpoint.{Endpoint, put}
use codechiev.Http.{empty_line, starts_with, strstr, on_message}
use codechiev.Http.Search.{IsMessage, strstr-message}
use codechiev.Http.Parts.{stream-Parted}
use codechiev.Http.Messages.{IsText, IsText-left, IsText-right, ended, on_message_lem}

-- Each piece is appended to the channel's read buffer, and onMessage takes the messages.
pub receive : ℕ → ℕ → List (List ℕ) → Endpoint → Option (List (List ℕ) × Endpoint)
receive fuel fd [] s = some ([], s)
receive fuel fd (piece ∷ pieces) s = do
  c ← lookup fd s.channels
  stored ← Buffer.append buffer_size c.readbuf piece (pos (length piece))
  (first, s₁) ← on_message fuel fd (put fd (record c { readbuf = stored.1 }) s)
  (others, s₂) ← receive fuel fd pieces s₁
  some (first ++ others, s₂)

receive-next :
    (fuel fd : ℕ) (piece : List ℕ) (pieces : List (List ℕ)) (s s₁ s₂ : Endpoint) (c : Channel)
    (n : ℤ) (b : Buffer) (first others : List (List ℕ))
    → lookup fd s.channels ≡ some c
    → append buffer_size c.readbuf piece (pos (length piece)) ≡ some (n, b)
    → on_message fuel fd (put fd (record c { readbuf = b }) s) ≡ some (first, s₁)
    → receive fuel fd pieces s₁ ≡ some (others, s₂)
    → receive fuel fd (piece ∷ pieces) s ≡ some (first ++ others, s₂)
unfolding receive
receive-next fuel fd piece pieces s s₁ s₂ c n b first others alive stored handled later =
    rw (alive, stored, handled, later) refl

length-ended : (ms : List (List ℕ)) → length ms ≤ length (ended ms)
length-ended [] = omega arith
length-ended (m ∷ ms) = omega (
  arith,
  length-ended ms,
  length-append m (empty_line ++ ended ms),
  length-append empty_line (ended ms),
)

-- A text without an empty line holds no message.
nothing_ended :
    (ms : List (List ℕ)) (xs tail : List ℕ)
    → All IsMessage ms
    → strstr empty_line xs ≡ none
    → xs ≡ ended ms ++ tail
    → (ms ≡ []) × (xs ≡ tail)
nothing_ended [] xs tail messages unended same = (refl, same)
nothing_ended (m ∷ ms) xs tail messages unended same =
    let found : strstr empty_line xs ≡ some (length m) =
      ap (strstr empty_line) (same ∙ append_assoc m (empty_line ++ ended ms) tail)
      ∙ strstr-message m (ended ms ++ tail) messages.0 in
    let never = sym unended ∙ found in cc

-- All messages have been handed on, the read buffer holds the tail, and the channel has not been shut.
abbrev pub Received : ℕ → ℕ → List (List ℕ) → List (List ℕ) → List ℕ → Endpoint → Channel → Type 0
Received fuel fd pieces ms tail s c =
    (s' : Endpoint) × (post : List ℕ) × (receive fuel fd pieces s ≡ some (ms, s'))
    × (lookup fd s'.channels ≡ some (record c { readbuf = layout [] tail post }))
    × (s'.calls ≡ s.calls)

nonzero : (n : ℕ) → 0 < n → (n == 0) ≡ false
nonzero n h = ground arith

module _ (longest limit fuel fd : ℕ) (tail : List ℕ) (last : strstr empty_line tail ≡ none)
    (below : length tail < longest) (room : longest + limit < buffer_size)
    (enough : buffer_size ≤ fuel) where
  -- onMessage on what is stored in the read buffer.
  takes_piece :
      (s : Endpoint) (c : Channel) (xs post : List ℕ) (done : List (List ℕ)) (rest : List ℕ)
      → Fills buffer_size [] xs post
      → IsText (ended done ++ rest)
      → xs ≡ ended done ++ rest
      → All IsMessage done
      → strstr empty_line rest ≡ none
      → length rest < longest
      → let s₀ = put fd (record c { readbuf = layout [] xs post }) s in
        (post' : List ℕ) × Fills buffer_size [] rest post'
        × (on_message fuel fd s₀
            ≡ some (done, put fd (record c { readbuf = layout [] rest post' }) s₀))
  unfolding put
  takes_piece s c xs post done rest full text front messages unended short =
      let c₁ : Channel = record c { readbuf = layout [] xs post } in
      let s₀ : Endpoint = put fd c₁ s in
      let parts : length xs ≡ length (ended done) + length rest =
        ap length front ∙ length-append (ended done) rest in
      let (pre', post', full', shorter, handled) =
        on_message_lem fuel fd s₀ c₁ [] done rest post (lookup-insert_self fd c₁ s.channels)
          (ap (λ (ys : List ℕ). layout [] ys post) front)
          (omega (arith, full, parts, length-append (ended done) rest)) text messages unended
          (omega (arith, enough, full, length-ended done, parts)) in
      let empty : pre' ≡ [] = length-eq_zero pre' (omega (arith, shorter)) in
      let full₂ : Fills buffer_size [] rest post' = omega (arith, full', ap length empty) in
      (
        post',
        full₂,
        handled
            ∙ if-false _ _ (nonzero (length post') (omega (arith, full₂, short, room)))
            ∙ ap
                (λ (before : List ℕ).
                  some (done, put fd (record c { readbuf = layout before rest post' }) s₀))
                empty,
      )

  receive_from :
      (pieces ms : List (List ℕ)) (s : Endpoint) (c : Channel) (xs post : List ℕ)
      → lookup fd s.channels ≡ some c
      → c.readbuf ≡ layout [] xs post
      → Fills buffer_size [] xs post
      → length xs < longest
      → strstr empty_line xs ≡ none
      → All IsMessage ms
      → All (λ m. length m + 4 ≤ longest) ms
      → All (λ p. length p ≤ limit) pieces
      → IsText (xs ++ joined pieces)
      → xs ++ joined pieces ≡ ended ms ++ tail
      → Received fuel fd pieces ms tail s c
  unfolding receive put
  receive_from [] ms s c xs post alive shape full few unended messages fit cut text same =
      let (no_more, is_tail) =
        nothing_ended ms xs tail messages unended (sym (append-nil xs) ∙ same) in
      (
        s,
        post,
        ap (λ (l : List (List ℕ)). some (l, s)) (sym no_more),
        alive
            ∙ ap (λ (b : Buffer). some (record c { readbuf = b }))
                (shape ∙ ap (λ (ys : List ℕ). layout [] ys post) is_tail),
        refl,
      )
  receive_from (piece ∷ pieces) ms s c xs post alive shape full few unended messages fit cut text
        same =
      let xs₁ : List ℕ = xs ++ piece in
      let post₁ : List ℕ = drop (length piece) post in
      let split : xs ++ (piece ++ joined pieces) ≡ xs₁ ++ joined pieces =
        sym (append_assoc xs piece (joined pieces)) in
      let p =
        stream-Parted longest ms xs₁ (joined pieces) tail messages fit last below
          (sym split ∙ same) in
      let s₀ : Endpoint = put fd (record c { readbuf = layout [] xs₁ post₁ }) s in
      let full₁ : Fills buffer_size [] xs₁ post₁ =
        omega (
          arith,
          full,
          length-append xs piece,
          length-drop (length piece) post,
          few,
          room,
          cut.0,
        ) in
      let text₁ : IsText (ended p.done ++ p.rest) =
        subst IsText p.front (IsText-left xs₁ (joined pieces) (subst IsText split text)) in
      let text₂ : IsText (p.rest ++ joined pieces) =
        IsText-right (ended p.done) (p.rest ++ joined pieces) (
          subst IsText
            (ap (λ (ys : List ℕ). ys ++ joined pieces) p.front
              ∙ append_assoc (ended p.done) p.rest (joined pieces))
            (subst IsText split text)) in
      let (post', full', handled) =
        takes_piece s c xs₁ post₁ p.done p.rest full₁ text₁ p.front p.done_messages p.unended
          p.short in
      let c₂ : Channel = record c { readbuf = layout [] p.rest post' } in
      let s₁ : Endpoint = put fd c₂ s₀ in
      let stored =
        ap (λ (ys : List ℕ). append buffer_size (layout [] xs post) ys (pos (length piece)))
          (sym (append-nil piece))
        ∙ append_whole buffer_size [] xs post full piece [] (length piece) refl
            (omega (arith, full, few, room, cut.0)) in
      let (s', post'', later, left_alive, same_calls) =
        receive_from pieces p.left s₁ c₂ p.rest post' (lookup-insert_self fd c₂ s₀.channels) refl
          full' p.short p.unended p.left_messages p.left_fit cut.1 text₂ p.ahead in
      (
        s',
        post'',
        receive-next fuel fd piece pieces s s₁ s' c (pos (length piece)) (layout [] xs₁ post₁)
              p.done p.left alive
              (ap (λ (b : Buffer). append buffer_size b piece (pos (length piece))) shape ∙ stored)
              handled later
            ∙ ap (λ (l : List (List ℕ)). some (l, s')) (sym p.all),
        left_alive,
        same_calls,
      )

  -- A stream of HTTP messages without 0 bytes, each in front of an empty line, and then a tail
  -- without one, is handed out whatever the pieces in which it arrives, if no message has an empty
  -- line in it or one that begins in it and ends in the one behind it: if the read buffer is empty,
  -- each message with its empty line has at most `longest` bytes and the tail has fewer, each piece
  -- has at most `limit` bytes, and both together are fewer than the buffer has, then appending each
  -- piece and calling `onMessage` gives the messages in order, leaves the tail in the read buffer
  -- and does not shut the channel. As many rounds as the buffer has bytes are enough for each call.
  pub receive-ended :
      (pieces ms : List (List ℕ)) (s : Endpoint) (c : Channel) (post : List ℕ)
      → lookup fd s.channels ≡ some c
      → c.readbuf ≡ layout [] [] post
      → Fills buffer_size [] [] post
      → All IsMessage ms
      → All (λ m. length m + 4 ≤ longest) ms
      → All (λ p. length p ≤ limit) pieces
      → IsText (ended ms ++ tail)
      → joined pieces ≡ ended ms ++ tail
      → Received fuel fd pieces ms tail s c
  unfolding strstr starts_with
  receive-ended pieces ms s c post alive shape full messages fit cut text same =
      receive_from pieces ms s c [] post alive shape full (omega (arith, below)) refl messages fit
        cut (subst IsText (sym same) text) same
