-- ===== src/Rpc.antt =====
-- codechiev/net/protobuf/Rpc.cpp: a message goes to the peer behind its length.
-- A channel is given as what `channel_.lock()` answers. What protobuf serialises a message to is an
-- argument.
pub mod Frames
pub mod Delivery
pub mod Dispatch
pub mod Server
pub mod RoundTrip
use codechiev.Common.{ℕ, Option, none, some, List, length, ◌>>=◌}
use codechiev.Common.Assoc.{lookup}
use codechiev.Internet.Bytes.{Endian}
use codechiev.Channel
use codechiev.Channel.{buffer_size}
use codechiev.Coder.{append_int32}
use codechiev.Endpoint
use codechiev.Endpoint.{Endpoint, put}

-- AppendInt32 on a channel's write buffer
unfoldable pub append_length : Endian → ℕ → ℕ → Endpoint → Option Endpoint
append_length e fd size s = do
  c ← lookup fd s.channels
  b ← append_int32 e buffer_size c.writebuf size
  some (put fd (record c { writebuf = b }) s)

-- PbRpcChannel::CallMethod, with the serialised GenericReq
unfoldable pub call_method : Endian → Option ℕ → List ℕ → Endpoint → Option Endpoint
call_method e none serialized s = some s
call_method e (some fd) serialized s = do
  s₁ ← append_length e fd (length serialized) s
  Endpoint.write fd serialized s₁

-- PbRpcChannel::Callback, with the serialised response
unfoldable pub callback : Endian → Option ℕ → List ℕ → Endpoint → Option Endpoint
callback e none serialized s = some s
callback e (some fd) serialized s = do
  s₁ ← append_length e fd (length serialized) s
  Endpoint.write fd serialized s₁
