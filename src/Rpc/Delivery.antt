-- ===== src/Rpc/Delivery.antt =====
-- A call from one host to another: codechiev/net/protobuf/Rpc.cpp, TcpEndpoint::onWrite of
-- codechiev/net/TcpServer.cpp, and the peer's read buffer and coder.
use Prim.Native.Nat.{bit_or}
use codechiev.Common.{
  ℕ, ◌+◌, ◌^◌, ◌≤◌, ◌<◌, ◌≡◌, ◌≢◌, refl, sym, ◌∙◌, false, some, List, [], ◌∷◌, ◌++◌, length, drop,
  map, All, append-nil, pos,
}
use codechiev.Common.Assoc.{lookup-insert_self}
use codechiev.Internet.Bytes.{Endian}
use codechiev.Buffer.{Buffer, new, readable}
use codechiev.Buffer.Layout.{layout}
use codechiev.Channel.{Channel}
use codechiev.Coder.Decode.{frame}
use codechiev.Coder.Stream.{receive}
use codechiev.Coder.Reassembly.{joined, receive-frames}
use codechiev.Endpoint.{Endpoint, eagain, epollin, epollout, on_write, put, call}
use codechiev.Endpoint.Writing.{took, sent_bytes, Takes, total, on_write-sends}
use codechiev.Rpc.{call_method}
use codechiev.Rpc.Frames.{queued, CanSend, call_method-sends}

-- The call has put the frame into the write buffer, the next `onWrite` has sent it, and the peer has
-- the message.
pub record Delivered (e e' : Endian) (fd errno : ℕ) (ns : List ℕ) (m : List ℕ) (s : Endpoint)
    (size : ℕ) (pieces : List (List ℕ)) : Type 0 where
  pub called : Endpoint
  pub written : Endpoint
  pub left : Buffer
  pub calls : call_method e (some fd) m s ≡ some called
  pub writes :
      on_write fd (map (took errno) ns ++ (took 0 0 ∷ [])) called ≡ some (some false, written)
  pub bytes : sent_bytes fd written.calls ≡ sent_bytes fd s.calls ++ frame m
  pub receives : receive e' size size (new size) pieces ≡ some (m ∷ [], left)
  pub all_read : readable left ≡ some (pos 0)

module _ (e e' : Endian) (fd errno : ℕ) (ns m : List ℕ) (s : Endpoint) (c : Channel)
    (pre post : List ℕ) where
  -- A call reaches the peer: when `CallMethod` puts a serialised request without 0 bytes into an
  -- empty write buffer with room for its frame, and the next `onWrite` has all of it taken, in
  -- whatever portions and without EAGAIN, then the frame of the request has gone to the system, and
  -- the peer that gets it in whatever pieces, of at most `limit` bytes, into a new buffer with room
  -- for the frame and `limit` more bytes, decodes exactly the request and has nothing left to read.
  pub call_method-Delivered :
      (size limit : ℕ) (pieces : List (List ℕ))
      → CanSend fd s c pre [] post (length m)
      → All (λ b. 0 < b) m
      → errno ≢ eagain
      → Takes ns (frame m)
      → total ns ≡ length (frame m)
      → size + 4 < 2 ^ 31
      → limit < size
      → length m + 4 + limit ≤ size
      → All (λ p. length p ≤ limit) pieces
      → joined pieces ≡ frame m
      → Delivered e e' fd errno ns m s size pieces
  unfolding put call
  call_method-Delivered size limit pieces can nonzero other takes everything top below small cut
        same =
      let post' : List ℕ = drop (length m) (drop 4 post) in
      let s₁ : Endpoint = queued fd s c pre (frame m) post' in
      let c₁ : Channel = record c {
        event = bit_or epollin epollout;
        writebuf = layout pre (frame m) post';
      } in
      let (s₂, written, kept) =
        on_write-sends fd errno ns s₁ c₁ pre (frame m) post' []
          (other, lookup-insert_self fd c₁ s.channels, refl, takes) everything in
      let (b, received, empty) =
        receive-frames e' size limit (m ∷ []) pieces top below (small, tt) cut
          (same ∙ sym (append-nil (frame m))) in
      record {
        called = s₁;
        written = s₂;
        left = b;
        calls = call_method-sends e fd s c pre [] post m can nonzero;
        writes = written;
        bytes = kept.0;
        receives = received;
        all_read = empty;
      }
