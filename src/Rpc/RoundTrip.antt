-- ===== src/Rpc/RoundTrip.antt =====
-- A remote call with its response: codechiev/net/protobuf/Rpc.cpp on both hosts, ProtoServer::onMessage of
-- protoServer.cpp on the server's, and on each the endpoint's onWrite and the other's read buffer and coder.
use codechiev.Common.{
  ℕ, ◌+◌, ◌^◌, ◌≤◌, ◌<◌, ◌≡◌, ◌≢◌, ◌∙◌, false, some, List, [], length, All, ◌==◌,
}
use codechiev.Internet.Bytes.{Endian}
use codechiev.Channel.{Channel}
use codechiev.Coder.Decode.{frame}
use codechiev.Coder.Reassembly.{joined}
use codechiev.Endpoint.{Endpoint, eagain}
use codechiev.Endpoint.Writing.{Takes, total}
use codechiev.Rpc.Frames.{CanSend}
use codechiev.Rpc.Delivery.{Delivered, call_method-Delivered}
use codechiev.Rpc.Dispatch.{Service, Responds, on_message, on_message-sends}

-- A host that sends on the channel `fd`, and how the message goes: what `errno` is, how much each
-- `write` takes, and in which pieces the bytes arrive at a buffer of `size` bytes.
pub record Way : Type 0 where
  pub fd : ℕ
  pub errno : ℕ
  pub takes : List ℕ
  pub endpoint : Endpoint
  pub channel : Channel
  pub pre : List ℕ
  pub post : List ℕ
  pub size : ℕ
  pub limit : ℕ
  pub pieces : List (List ℕ)

-- The write buffer is empty and has room for the message's frame, `write` takes all of it without
-- EAGAIN, and the pieces are the frame's and at most `limit` bytes long, which is room that the peer's
-- buffer has beside the frame.
pub record Carries (w : Way) (m : List ℕ) : Type 0 where
  pub can : CanSend w.fd w.endpoint w.channel w.pre [] w.post (length m)
  pub nonzero : All (λ b. 0 < b) m
  pub other : w.errno ≢ eagain
  pub portions : Takes w.takes (frame m)
  pub everything : total w.takes ≡ length (frame m)
  pub top : w.size + 4 < 2 ^ 31
  pub below : w.limit < w.size
  pub fits : length m + 4 + w.limit ≤ w.size
  pub cut : All (λ p. length p ≤ w.limit) w.pieces
  pub same : joined w.pieces ≡ frame m

-- The message goes from a host to its peer.
abbrev pub Goes : Endian → Endian → Way → List ℕ → Type 0
Goes e e' w m = Delivered e e' w.fd w.errno w.takes m w.endpoint w.size w.pieces

Carries-Goes : (e e' : Endian) (w : Way) (m : List ℕ) → Carries w m → Goes e e' w m
Carries-Goes e e' w m h =
    call_method-Delivered e e' w.fd w.errno w.takes m w.endpoint w.channel w.pre w.post w.size
      w.limit w.pieces h.can h.nonzero h.other h.portions h.everything h.top h.below h.fits h.cut
      h.same

-- A remote call comes back with the service's response, when the client's `CallMethod` and the
-- server's `onMessage` for the decoded request each find a channel that can send (the write buffer
-- empty with room for the frame, the message without 0 bytes; the server's channel is not the
-- listening one), each next `onWrite` has all of the frame taken, in whatever portions and without
-- EAGAIN, and each frame arrives in pieces of at most `limit` bytes, where the read buffer's size
-- is more than `limit`, less than 2 ^ 31 - 4, and not less than the frame and `limit` together.
-- Then the server decodes exactly the request, `onMessage` of it puts the frame of the response
-- that the service gives into the write buffer, and the client decodes exactly the response; no
-- bytes are left to read on either side, whatever the byte orders of the two hosts are.
pub call-returns :
    (e e' : Endian) (service : Service) (listener : ℕ) (there back : Way)
    (request response : List ℕ)
    → Responds e' service listener request response
    → (back.fd == listener) ≡ false
    → Carries there request
    → Carries back response
    → Goes e e' there request
      × ((answer : Goes e' e back response) × (on_message e' service listener request back.fd
              back.endpoint
            ≡ some answer.called))
call-returns e e' service listener there back request response responds other first second =
    let answer = Carries-Goes e' e back response second in
    (
      Carries-Goes e e' there request first,
      (
        answer,
        on_message-sends e' service listener request response back.fd back.endpoint back.channel
              responds second.can.0 other
            ∙ answer.calls,
      ),
    )
