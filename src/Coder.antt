-- ===== src/Coder.antt =====
-- codechiev/net/TcpLengthCoder.h: messages behind their length, in network order.
-- `header` is HEADER; both uses of the template in the repository have 4.
pub mod Decode
pub mod Stream
pub mod Reassembly
pub mod Outcome
pub mod Total
use codechiev.Common.{
  ℕ, ◌+◌, ◌-◌, ◌%◌, ◌^◌, Bool, true, false, Option, some, List, ◌++◌, ◌>>=◌, ℤ, pos, negsuc, ◌+ℤ◌,
  pos_part, neg_part, leb, ltb, leb_ℤ, if◌then◌else◌, zero, suc, none, [], ◌∷◌,
}
use codechiev.Internet.Bytes.{Endian, in_memory, from_memory}
use codechiev.Internet.{host_to_network32, network_to_host32}
use codechiev.Buffer
use codechiev.Buffer.{Buffer}
use codechiev.Buffer.Memory.{load}
use codechiev.Channel.{Channel}

-- The conversions between int and uint32_t.
abbrev pub to_u32 : ℤ → ℕ
to_u32 (pos n) = n % 2 ^ 32
to_u32 (negsuc n) = 2 ^ 32 - 1 - n % 2 ^ 32

abbrev pub to_int : ℕ → ℤ
to_int w = if ltb w (2 ^ 31) then pos w else negsuc (2 ^ 32 - 1 - w)

module _ (e : Endian) (header : ℕ) where
  -- The branch in which the whole message has arrived.
  unfoldable pub take_message : Buffer → List ℕ → ℕ → ℕ → Option (Bool × List ℕ × Buffer)
  take_message b msg length whole = do
    body ← load b.cells (b.reader +ℤ pos header) (pos length)
    moved ← Buffer.move (Buffer.read b (to_int whole))
    some (true, msg ++ body, moved)

  -- `decode` on the read buffer of the channel.
  unfoldable pub decode_buffer : Buffer → List ℕ → Option (Bool × List ℕ × Buffer)
  decode_buffer b msg = do
    readable ← Buffer.readable b
    if leb_ℤ (pos header) readable
        then (do
          bytes ← load b.cells b.reader (pos 4)
          let length = network_to_host32 e (from_memory e bytes)
          let whole = (length + header) % 2 ^ 32
          if leb whole (to_u32 readable)
              then take_message b msg length whole
              else some (false, msg, b))
        else some (false, msg, b)

  unfoldable pub decode : Channel → List ℕ → Option (Bool × List ℕ × Channel)
  decode channel msg = do
    (found, msg', b) ← decode_buffer channel.readbuf msg
    some (found, msg', record channel { readbuf = b })

-- AppendInt32; `size` is the size of the write buffer.
unfoldable pub append_int32 : Endian → ℕ → Buffer → ℕ → Option Buffer
append_int32 e size b length = do
  done ← Buffer.append size b (in_memory e 4 (host_to_network32 e (length % 2 ^ 32))) (pos 4)
  some done.1

-- The loop of ProtoServer::onData and ProtoClient::onData: the messages that are handed on, in
-- order. The fuel bounds the rounds.
unfoldable pub drain : Endian → ℕ → Buffer → Option (List (List ℕ) × Buffer)
drain e zero b = none
drain e (suc fuel) b = elim (decode_buffer e 4 b []) [
  | none ↦ none
  | some (found, msg, b') ↦ elim found [
    | false ↦ some ([], b')
    | true ↦ elim (drain e fuel b') [ none ↦ none | some (msgs, b'') ↦ some (msg ∷ msgs, b'') ]
  ]
]
