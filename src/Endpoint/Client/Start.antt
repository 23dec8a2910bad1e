-- ===== src/Endpoint/Client/Start.antt =====
-- codechiev/net/TcpClient.cpp: a TcpClient that connects, and its loop.
use codechiev.Common.{ℕ, ◌≡◌, sym, ap, Option, some, List, ◌∷◌, ◌>>=◌, pos, some-injective}
use codechiev.Common.Assoc.{insert, lookup-insert_self, insert-insert}
use codechiev.Channel
use codechiev.Channel.{Channel, buffer_size}
use codechiev.Endpoint.Calls.{Call}
use codechiev.Endpoint.{Endpoint, Callbacks, call, put, epollout, add_channel, epoll_add}
use codechiev.Endpoint.Loop.{Round, loop}
use codechiev.Endpoint.Arrival.{holding}
use codechiev.Endpoint.Server.{Handled}
use codechiev.Endpoint.Client.{Answered, connect, poll_event}

-- TcpClient::start
unfoldable pub start : (cb : Callbacks) → ℕ → ℕ → List Round → Endpoint → Handled cb
start cb tid caller rs s = loop cb (poll_event cb) tid caller rs s

abbrev pub connect_calls : ℕ → List Call → List Call
connect_calls fd calls =
    Call.ctl_add fd epollout ∷ Call.set_non_block fd ∷ Call.set_reuse_addr fd ∷ calls

abbrev pub opened : ℕ → Channel
opened fd = record (Channel.new fd) { event = epollout }

add_channel-opened :
    (fd : ℕ) (s : Endpoint)
    → add_channel fd epollout (call (Call.set_reuse_addr fd) (put fd (Channel.new fd) s))
      ≡ some (holding fd (opened fd) (connect_calls fd s.calls) s)
unfolding add_channel epoll_add put call Channel.set_event Channel.new
add_channel-opened fd s =
    rw
      (
        lookup-insert_self fd (Channel.new fd) s.channels,
        lookup-insert_self fd (opened fd) (insert fd (Channel.new fd) s.channels),
      )
      (ap
        (λ (m : List (ℕ × Channel)).
          some (record { channels = m; calls = connect_calls fd s.calls }))
        (insert-insert fd (opened fd) (Channel.new fd) s.channels))

opened_last :
    (fd : ℕ) (s s₁ : Endpoint)
    → (let r : Option (Option ℕ × Endpoint) = (do
      s₂ ← add_channel fd epollout (call (Call.set_reuse_addr fd) (put fd (Channel.new fd) s))
      some (some fd, s₂)) in
        r)
      ≡ some (some fd, s₁)
    → s₁ ≡ holding fd (opened fd) (connect_calls fd s.calls) s
opened_last fd s s₁ e =
    sym (ap (λ (p : Option ℕ × Endpoint). p.1) (some-injective (rw (add_channel-opened fd s) at e)))

pub connect-opened :
    (fd : ℕ) (answered : Answered) (s s₁ : Endpoint)
    → connect (pos fd) answered s ≡ some (some fd, s₁)
    → s₁ ≡ holding fd (opened fd) (connect_calls fd s.calls) s
unfolding connect
connect-opened fd Answered.refused s s₁ e = cc
connect-opened fd Answered.connected s s₁ e = opened_last fd s s₁ e
connect-opened fd Answered.in_progress s s₁ e = opened_last fd s s₁ e
