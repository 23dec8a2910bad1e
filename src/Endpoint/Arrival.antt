-- ===== src/Endpoint/Arrival.antt =====
-- codechiev/net/TcpServer.cpp: what TcpEndpoint::onRead does with the first bytes of a new channel.
use codechiev.Common.{
  ℕ, ◌<◌, ◌≡◌, ◌≢◌, refl, ap, ◌∙◌, false, Option, some, List, [], ◌∷◌, ◌++◌, length, drop, map, All,
  replicate, length-replicate, arith, ◌>>=◌,
}
use codechiev.Common.Assoc.{insert, lookup-insert_self, insert-insert}
use codechiev.Buffer
use codechiev.Buffer.{Buffer}
use codechiev.Buffer.Layout.{layout, new-layout}
use codechiev.Channel.{Channel, buffer_size}
use codechiev.Coder.Reassembly.{joined}
use codechiev.Endpoint.Calls.{Call}
use codechiev.Endpoint.{Endpoint, Callbacks, Answer, call, put, eagain, epollin, on_read}
use codechiev.Endpoint.Reading.{IsPiece, got, failed, after_reading, on_read-data}

-- An endpoint with a channel that was put last, and its trace.
abbrev pub holding : ℕ → Channel → List Call → Endpoint → Endpoint
holding fd c calls s = record { channels = insert fd c s.channels; calls = calls }

-- A channel's buffer in which `bytes` have been put since it was new.
abbrev pub filled : List ℕ → Buffer
filled bytes = layout [] bytes (drop (length bytes) (replicate 8191 0))

pub new-filled : Buffer.new buffer_size ≡ filled []
new-filled = new-layout 8191

-- What `read` answers: the pieces, and then that there is nothing for now.
abbrev pub arriving : ℕ → List (List ℕ) → List Answer → List Answer
arriving errno pieces more = map (got errno) pieces ++ (failed eagain ∷ more)

-- Pieces that arrive without EAGAIN, of some bytes in all and not more than a read buffer holds.
abbrev pub Arrive : ℕ → List (List ℕ) → Type 0
Arrive errno pieces =
    (errno ≢ eagain)
    × All IsPiece pieces
    × (0 < length (joined pieces))
    × (length (joined pieces) < buffer_size)

-- A channel that waits for input, with all the bytes.
abbrev pub with_first : Channel → List (List ℕ) → Channel
with_first c pieces = record c { event = epollin; readbuf = filled (joined pieces) }

pub on_read-first :
    (cb : Callbacks) (close : ℕ → Endpoint → Option Endpoint) (fd errno : ℕ)
    (pieces : List (List ℕ)) (more : List Answer) (f : ℕ → Endpoint → Option Endpoint) (c : Channel)
    (calls : List Call) (s : Endpoint)
    → Arrive errno pieces
    → cb.on_data ≡ some f
    → c.readbuf ≡ filled []
    → on_read cb close fd (arriving errno pieces more) (holding fd c calls s) ≡ (do
      s' ← f fd (holding fd (with_first c pieces) (Call.ctl_mod c.fd epollin ∷ calls) s)
      some (some false, s'))
unfolding call put
on_read-first cb close fd errno pieces more f c calls s (other, h, some_byte, fits) set empty =
    let room : List ℕ = replicate 8191 0 in
    let left : List ℕ = drop (length (joined pieces)) room in
    let t : Endpoint = holding fd c calls s in
    let stored : after_reading fd t c [] (joined pieces) left
        ≡ holding fd (with_first c pieces) (Call.ctl_mod c.fd epollin ∷ calls) s =
      ap
        (λ (m : List (ℕ × Channel)). record {
          channels = m;
          calls = Call.ctl_mod c.fd epollin ∷ calls;
        })
        (insert-insert fd (with_first c pieces) c s.channels) in
    on_read-data cb close fd errno pieces t c [] [] room f more
      (
        other,
        lookup-insert_self fd c s.channels,
        empty,
        omega (arith, length-replicate 8191 (let z : ℕ = 0 in z)),
        h,
        omega (arith, fits, length-replicate 8191 (let z : ℕ = 0 in z)),
      )
      set some_byte
    ∙ rw stored refl
