-- ===== src/Http.antt =====
-- codechiev/net/http/HttpServer.cpp: the messages that end with an empty line.
-- `strstr` is the C library's: it looks at the text in front of the first 0. The fuel bounds the rounds
-- of the loop of onMessage; a round without fuel is a fault of the model.
pub mod Search
pub mod Messages
pub mod Parts
pub mod Stream
use codechiev.Common.{
  ℕ, zero, suc, ◌+◌, Bool, true, false, ◌&&◌, Option, none, some, List, [], ◌∷◌, ◌++◌, take, ℤ, pos,
  ◌==◌, if◌then◌else◌, ◌>>=◌,
}
use codechiev.Common.Assoc.{lookup}
use codechiev.Buffer
use codechiev.Buffer.{Buffer}
use codechiev.Buffer.Memory.{c_str}
use codechiev.Channel
use codechiev.Channel.{buffer_size}
use codechiev.Endpoint.{Endpoint, put, shut, is_zero}

-- "\r\n\r\n"
abbrev pub empty_line : List ℕ
empty_line = 13 ∷ 10 ∷ 13 ∷ 10 ∷ []

unfoldable pub starts_with : List ℕ → List ℕ → Bool
starts_with [] text = true
starts_with (p ∷ ps) [] = false
starts_with (p ∷ ps) (t ∷ ts) = (p == t) && starts_with ps ts

-- strstr: where the pattern starts
unfoldable pub strstr : List ℕ → List ℕ → Option ℕ
strstr pattern [] = if starts_with pattern [] then some 0 else none
strstr pattern (t ∷ ts) =
    let rest = strstr pattern ts in
    if starts_with pattern (t ∷ ts)
    then some 0
    else elim rest [ none ↦ none | some n ↦ some (suc n) ]

-- The loop of onMessage: the messages that are taken out of the read buffer.
unfoldable pub take_messages : ℕ → Buffer → Option (List (List ℕ) × Buffer)
take_messages zero b = none
take_messages (suc fuel) b = elim (Buffer.str b) [
  | none ↦ none
  | some cells ↦ elim (strstr empty_line (c_str cells)) [
    | none ↦ some ([], b)
    | some len ↦ elim (Buffer.move (Buffer.read b (pos (len + 4)))) [
      | none ↦ none
      | some moved ↦ elim (take_messages fuel moved) [
        | none ↦ none
        | some (msgs, b') ↦ some (take len cells ∷ msgs, b')
      ]
    ]
  ]
]

-- HttpServer::onMessage: the messages, and the endpoint. A full buffer shuts the channel.
unfoldable pub on_message : ℕ → ℕ → Endpoint → Option (List (List ℕ) × Endpoint)
on_message fuel fd s = do
  c ← lookup fd s.channels
  (msgs, b) ← take_messages fuel c.readbuf
  writable ← Buffer.writable buffer_size b
  let s₁ = put fd (record c { readbuf = b }) s
  if is_zero writable then (do s₂ ← shut fd s₁; some (msgs, s₂)) else some (msgs, s₁)
