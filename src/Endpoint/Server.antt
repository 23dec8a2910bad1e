-- ===== src/Endpoint/Server.antt =====
-- codechiev/net/TcpServer.cpp: TcpServer. The listening channel is one of the living objects, and the
-- map `channels_` holds the others.
pub mod Events
pub mod Tracking
pub mod Closing
pub mod Handlers
pub mod Output
pub mod Rounds
pub mod Loop
pub mod Start
pub mod Receiving
pub mod Connection
use Prim.Native.Nat.{bit_or}
use codechiev.Common.{
  ℕ, Bool, true, false, Option, none, some, List, [], ◌∷◌, ◌>>=◌, ◌>>◌, guard, ℤ, pos, negsuc, ◌==◌,
  if◌then◌else◌,
}
use codechiev.Common.Assoc.{lookup, insert, erase}
use codechiev.Channel
use codechiev.Endpoint.Calls.{Call}
use codechiev.Endpoint.{
  Endpoint, Callbacks, Answer, call, call_if, put, has, epoll_add, add_channel, on_close_base,
  on_read, on_write, epollin, epollout, epollhup, epollrdhup,
}

-- One entry of the vector that `poll` fills, with what the system answers while it is handled.
pub record Ready : Type 0 where
  pub fd : ℕ
  pub accepted : ℤ
  pub reads : List Answer
  pub writes : List Answer

module _ (cb : Callbacks) where
  unfoldable pub on_close : ℕ → Endpoint → Option Endpoint
  on_close fd s = do
    s₁ ← on_close_base cb fd s
    c ← lookup fd s₁.channels
    some (record s₁ { channels = erase c.fd s₁.channels })

  -- `accepted` is what `accept` answers: -1 or a descriptor.
  unfoldable pub on_connect : ℤ → Endpoint → Option Endpoint
  on_connect (negsuc n) s = some s
  on_connect (pos connfd) s = do
    s₁ ← epoll_add connfd (put connfd (Channel.set_event epollin (Channel.new connfd)) s)
    call_if cb.on_connect connfd s₁

  -- What a handler has done; `none` is one that has not come back.
  abbrev pub Handled : Type 0
  Handled = Option (Option Bool × Endpoint)

  -- `handler(channel)` as the last part of a condition: if it returns true, `continue`.
  abbrev pub unless_true : Handled → (Endpoint → Handled) → Handled
  unless_true none next = none
  unless_true (some (none, s)) next = some (none, s)
  unless_true (some (some true, s)) next = some (some true, s)
  unless_true (some (some false, s)) next = next s

  -- The next entry of the vector.
  abbrev pub and_next : Handled → (Endpoint → Handled) → Handled
  and_next none next = none
  and_next (some (none, s)) next = some (none, s)
  and_next (some (some _, s)) next = next s

  unfoldable pub hang_up : ℕ → Endpoint → Handled
  hang_up fd s = do
    c ← lookup fd s.channels
    if has c.event (bit_or epollhup epollrdhup)
        then (do s' ← on_close fd s; some (some true, s'))
        else some (some true, s)

  unfoldable pub writable : Ready → Endpoint → Handled
  writable r s = do
    c ← lookup r.fd s.channels
    if has c.event epollout
        then unless_true (on_write r.fd r.writes s) (hang_up r.fd)
        else hang_up r.fd s

  -- The branch of a channel that is not the listening one.
  unfoldable pub ready_channel : Ready → Endpoint → Handled
  ready_channel r s = do
    c ← lookup r.fd s.channels
    if has c.event epollin
        then unless_true (on_read cb on_close r.fd r.reads s) (writable r)
        else writable r s

  unfoldable pub on_ready : ℕ → Ready → Endpoint → Handled
  on_ready listener r s =
      if r.fd == listener
      then (do s' ← on_connect r.accepted s; some (some true, s'))
      else ready_channel r s

  unfoldable pub poll_event : ℕ → List Ready → Endpoint → Handled
  poll_event listener [] s = some (some true, s)
  poll_event listener (r ∷ rs) s = and_next (on_ready listener r s) (poll_event listener rs)

-- TcpServer::listen up to its loop: whether the three system calls have succeeded.
unfoldable pub listen : ℕ → Bool → Bool → Bool → Endpoint → Option Endpoint
listen fd reused bound listening s = do
  guard reused
  guard bound
  guard listening
  add_channel fd epollin s

unfoldable pub get_channel : ℕ → ℕ → Endpoint → Option Channel.Channel
get_channel listener fd s = if fd == listener then none else lookup fd s.channels
