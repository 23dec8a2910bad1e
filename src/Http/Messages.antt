-- ===== src/Http/Messages.antt =====
-- Which messages HttpServer::onMessage takes out of the read buffer.
use codechiev.Common.{
  ℕ, zero, suc, ◌+◌, ◌≤◌, ◌<◌, ◌≡◌, refl, sym, ap, ◌∙◌, none, some, List, [], ◌∷◌, ◌++◌, length,
  take, All, pos, arith, append_assoc, length-append, take-length_append, ◌==◌, if◌then◌else◌,
  ◌>>=◌,
}
use mathlib.Core.Path.{ap₂, subst}
use codechiev.Common.Assoc.{lookup}
use codechiev.Buffer.{Buffer, read}
use codechiev.Buffer.Memory.{c_str-nonzero}
use codechiev.Buffer.Layout.{layout, Fills, str-layout, writable-layout}
use codechiev.Buffer.Consume.{tail_room, length-tail_room, read-layout, move-layout}
use codechiev.Channel.{Channel, buffer_size}
use codechiev.Endpoint.{Endpoint, put, shut}
use codechiev.Http.{empty_line, strstr, take_messages, on_message}
use codechiev.Http.Search.{IsMessage, strstr-message}

abbrev pub IsText : List ℕ → Type 0
IsText xs = All (λ b. 0 < b) xs

-- Messages, each in front of an empty line.
abbrev pub ended : List (List ℕ) → List ℕ
ended [] = []
ended (m ∷ ms) = m ++ (empty_line ++ ended ms)

pub IsText-left : (xs ys : List ℕ) → IsText (xs ++ ys) → IsText xs
IsText-left [] ys h = tt
IsText-left (x ∷ xs) ys h = (h.0, IsText-left xs ys h.1)

pub IsText-right : (xs ys : List ℕ) → IsText (xs ++ ys) → IsText ys
IsText-right [] ys h = h
IsText-right (x ∷ xs) ys h = IsText-right xs ys h.1

take_messages-stop :
    (fuel : ℕ) (pre xs post : List ℕ)
    → IsText xs
    → strstr empty_line xs ≡ none
    → take_messages (suc fuel) (layout pre xs post) ≡ some ([], layout pre xs post)
unfolding take_messages
take_messages-stop fuel pre xs post text none_left =
    rw (str-layout pre xs post, c_str-nonzero xs post text, none_left, take_messages) refl

-- One round: the message, and what is behind its empty line.
take_messages-next :
    (fuel : ℕ) (pre m rest post : List ℕ) (msgs : List (List ℕ)) (b : Buffer)
    → IsText (m ++ (empty_line ++ rest))
    → IsMessage m
    → take_messages fuel (layout [] rest (tail_room (pre ++ (m ++ empty_line)) rest post))
      ≡ some (msgs, b)
    → take_messages (suc fuel) (layout pre (m ++ (empty_line ++ rest)) post) ≡ some (m ∷ msgs, b)
unfolding take_messages
take_messages-next fuel pre m rest post msgs b text message later =
    let xs : List ℕ = m ++ (empty_line ++ rest) in
    let size : length (m ++ empty_line) ≡ length m + 4 = length-append m empty_line in
    let taken : read (layout pre xs post) (pos (length m + 4))
        ≡ layout (pre ++ (m ++ empty_line)) rest post =
      ap₂ (λ (ys : List ℕ) (k : ℕ). read (layout pre ys post) (pos k))
        (sym (append_assoc m empty_line rest)) (sym size)
      ∙ read-layout pre (m ++ empty_line) rest post in
    let first : take (length m) (xs ++ (0 ∷ post)) ≡ m =
      ap (take (length m)) (append_assoc m (empty_line ++ rest) (0 ∷ post))
      ∙ take-length_append m ((empty_line ++ rest) ++ (0 ∷ post)) (length m) refl in
    rw
      (
        str-layout pre xs post,
        c_str-nonzero xs post text,
        strstr-message m rest message,
        taken,
        move-layout (pre ++ (m ++ empty_line)) rest post,
        later,
        take_messages,
      )
      (ap (λ (x : List ℕ). some (x ∷ msgs, b)) first)

-- The loop hands out `ms`, and leaves `rest` in a buffer of the same size, with at most `front` bytes
-- in front of it.
abbrev pub Leaves : ℕ → ℕ → ℕ → Buffer → List (List ℕ) → List ℕ → Type 0
Leaves size front fuel b ms rest =
    (pre : List ℕ) × (post : List ℕ) × (take_messages fuel b ≡ some (ms, layout pre rest post))
    × Fills size pre rest post
    × (length pre ≤ front)

-- If a buffer holds messages without 0 bytes, each in front of an empty line and none with an empty
-- line within, and then a rest without an empty line, the loop of `onMessage` takes the messages
-- out in order and leaves the rest in a buffer of the same size; one round for each message and one
-- more are enough.
pub take_messages-Leaves :
    (size fuel : ℕ) (pre : List ℕ) (ms : List (List ℕ)) (rest post : List ℕ)
    → Fills size pre (ended ms ++ rest) post
    → IsText (ended ms ++ rest)
    → All IsMessage ms
    → strstr empty_line rest ≡ none
    → length ms < fuel
    → Leaves size (length pre) fuel (layout pre (ended ms ++ rest) post) ms rest
take_messages-Leaves size zero pre ms rest post full text messages last enough =
    absurd (omega arith)
take_messages-Leaves size (suc fuel) pre [] rest post full text messages last enough =
    (pre, post, take_messages-stop fuel pre rest post text last, full, omega arith)
take_messages-Leaves size (suc fuel) pre (m ∷ ms) rest post full text messages last enough =
    let shape : ended (m ∷ ms) ++ rest ≡ m ++ (empty_line ++ (ended ms ++ rest)) =
      append_assoc m (empty_line ++ ended ms) rest in
    let text' : IsText (m ++ (empty_line ++ (ended ms ++ rest))) = subst IsText shape text in
    let behind : List ℕ = ended ms ++ rest in
    let room : List ℕ = tail_room (pre ++ (m ++ empty_line)) behind post in
    let (pre', post', done, full', shorter) =
      take_messages-Leaves size fuel [] ms rest room
        (omega (
          arith,
          full,
          ap length shape,
          length-append m (empty_line ++ behind),
          length-append pre (m ++ empty_line),
          length-append m empty_line,
          length-tail_room (pre ++ (m ++ empty_line)) behind post,
        ))
        (IsText-right (m ++ empty_line) behind
          (subst IsText (sym (append_assoc m empty_line behind)) text'))
        messages.1 last (omega (arith, enough)) in
    (
      pre',
      post',
      ap (λ (ys : List ℕ). take_messages (suc fuel) (layout pre ys post)) shape
          ∙ take_messages-next fuel pre m behind post ms _ text' messages.0 done,
      full',
      omega (arith, shorter),
    )

-- If the read buffer holds messages without 0 bytes, each in front of an empty line and none with
-- an empty line within, and then a rest without an empty line, `onMessage` takes the messages out
-- in order, with one round for each and one more, and leaves the rest; the channel is shut if no
-- room is left behind the rest, and only then.
pub on_message_lem :
    (fuel fd : ℕ) (s : Endpoint) (c : Channel) (pre : List ℕ) (ms : List (List ℕ))
    (rest post : List ℕ)
    → lookup fd s.channels ≡ some c
    → c.readbuf ≡ layout pre (ended ms ++ rest) post
    → Fills buffer_size pre (ended ms ++ rest) post
    → IsText (ended ms ++ rest)
    → All IsMessage ms
    → strstr empty_line rest ≡ none
    → length ms < fuel
    → (pre' : List ℕ) × (post' : List ℕ) × Fills buffer_size pre' rest post'
      × (length pre' ≤ length pre)
      × (on_message fuel fd s ≡ (
          let s₁ = put fd (record c { readbuf = layout pre' rest post' }) s in
          if length post' == 0 then (do s₂ ← shut fd s₁; some (ms, s₂)) else some (ms, s₁)))
unfolding on_message
on_message_lem fuel fd s c pre ms rest post alive shape full text messages last enough =
    let (pre', post', done, full', shorter) =
      take_messages-Leaves buffer_size fuel pre ms rest post full text messages last enough in
    (
      pre',
      post',
      full',
      shorter,
      rw (alive, shape, done, writable-layout pre' rest post' buffer_size full') refl,
    )
