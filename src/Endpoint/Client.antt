-- ===== src/Endpoint/Client.antt =====
-- codechiev/net/TcpClient.cpp: TcpClient. A channel that `connect` gives is kept by its caller, so it is
-- one of the living objects. A connection that is refused at once ends the program, which is `none`.
pub mod Connecting
pub mod Start
pub mod Receiving
use Prim.Native.Nat.{bit_or}
use codechiev.Common.{
  ℕ, Bool, true, false, Option, none, some, List, [], ◌∷◌, ◌>>=◌, ℤ, pos, negsuc, if◌then◌else◌,
}
use codechiev.Common.Assoc.{lookup}
use codechiev.Channel
use codechiev.Endpoint.Calls.{Call}
use codechiev.Endpoint.{
  Endpoint, Callbacks, call, call_if, put, has, update_channel, add_channel, on_close_base, on_read,
  on_write, epollin, epollout, epollhup, epollrdhup,
}
use codechiev.Endpoint.Server.{Ready, Handled, unless_true, and_next}

-- What `::connect` answers on a socket that does not block.
pub data Answered : Type 0 where
  connected in_progress refused : Answered

-- TcpClient::connect; `connfd` is what `::socket` answers.
unfoldable pub connect : ℤ → Answered → Endpoint → Option (Option ℕ × Endpoint)
connect (negsuc n) answered s = some (none, s)
connect (pos connfd) answered s =
    let s₁ = call (Call.set_reuse_addr connfd) (put connfd (Channel.new connfd) s) in
    elim answered [
      | refused ↦ none
      | connected ↦ (do s₂ ← add_channel connfd epollout s₁; some (some connfd, s₂))
      | in_progress ↦ (do s₂ ← add_channel connfd epollout s₁; some (some connfd, s₂))
    ]

module _ (cb : Callbacks) where
  unfoldable pub on_connect : ℕ → Endpoint → Option Endpoint
  on_connect fd s = do
    c ← lookup fd s.channels
    s₁ ←
        update_channel fd epollin
          (put fd (Channel.set_connected true c) (call (Call.set_keep_alive c.fd) s))
    call_if cb.on_connect fd s₁

  unfoldable pub hang_up : ℕ → Endpoint → Handled cb
  hang_up fd s = do
    c ← lookup fd s.channels
    if has c.event (bit_or epollhup epollrdhup)
        then (do s' ← on_close_base cb fd s; some (some true, s'))
        else some (some true, s)

  -- `EPOLLOUT` on a channel that is connected, or not yet.
  unfoldable pub writable : Ready → Endpoint → Handled cb
  writable r s = do
    c ← lookup r.fd s.channels
    if has c.event epollout
        then (if c.connected
            then unless_true cb (on_write r.fd r.writes s) (hang_up r.fd)
            else (do s' ← on_connect r.fd s; hang_up r.fd s'))
        else hang_up r.fd s

  unfoldable pub ready_channel : Ready → Endpoint → Handled cb
  ready_channel r s = do
    c ← lookup r.fd s.channels
    if has c.event epollin
        then unless_true cb (on_read cb (on_close_base cb) r.fd r.reads s) (writable r)
        else writable r s

  unfoldable pub poll_event : List Ready → Endpoint → Handled cb
  poll_event [] s = some (some true, s)
  poll_event (r ∷ rs) s = and_next cb (ready_channel r s) (poll_event rs)
