-- ===== src/Endpoint/Server/Receiving.antt =====
-- codechiev/net/TcpServer.cpp: what a server does in the rounds of one connection.
use codechiev.Common.{
  ℕ, ◌≡◌, refl, ap, true, false, none, some, List, [], ◌∷◌, ℤ, pos, ◌==◌, ==-self,
}
use codechiev.Common.Assoc.{lookup, insert, erase, lookup-insert_self, insert-insert}
use codechiev.Buffer
use codechiev.Channel
use codechiev.Channel.{Channel, buffer_size}
use codechiev.Endpoint.Calls.{Call}
use codechiev.Endpoint.{
  Endpoint, Callbacks, Answer, call, put, has, epollin, epoll_add, epoll_del, del_channel,
  on_close_base, on_read,
}
use codechiev.Endpoint.Reading.{got}
use codechiev.Endpoint.Arrival.{holding, filled, new-filled, with_first}
use codechiev.Endpoint.Loop.{entry}
use codechiev.Endpoint.Loop.One.{one_event}
use codechiev.Endpoint.Server.{
  on_close, on_connect, on_ready, ready_channel, writable, hang_up, poll_event,
}
use codechiev.Endpoint.Server.Start.{listens, nothing}

-- A connection that was accepted, with nothing read.
abbrev pub accepted_channel : ℕ → Channel
accepted_channel fd = record {
  fd = fd;
  event = epollin;
  connected = false;
  readbuf = filled [];
  writebuf = Buffer.new buffer_size;
}

abbrev pub accepted_calls : ℕ → List Call → List Call
accepted_calls fd calls = Call.ctl_add fd epollin ∷ Call.set_non_block fd ∷ calls

-- The server when it has accepted `fd`, while `event` is that of its listening channel.
abbrev pub listening : ℕ → ℕ → Endpoint
listening listener event =
    holding listener (record (Channel.new listener) { event = event }) (listens listener).calls
      nothing

-- The endpoint when the data callback of the connection runs for the first time.
abbrev pub received : ℕ → ℕ → ℕ → List (List ℕ) → Endpoint
received listener event fd pieces =
    holding fd (with_first (accepted_channel fd) pieces)
      (Call.ctl_mod fd epollin ∷ accepted_calls fd (listens listener).calls)
      (listening listener event)

-- The endpoint when the peer of the channel put last has closed.
abbrev pub left_by : ℕ → Channel → List Call → Endpoint → Endpoint
left_by fd c calls s = record {
  channels = erase c.fd (insert fd (Channel.close c) s.channels);
  calls = Call.close c.fd ∷ Call.ctl_del c.fd ∷ calls;
}

module _ (cb : Callbacks) (listener : ℕ) where
  pub accepts :
      (fd event : ℕ) (answers : List Answer)
      → cb.on_connect ≡ none
      → poll_event cb listener
          (entry (one_event listener event (pos fd) answers) listener ∷ [])
          (listening listener event)
        ≡ some (
          some true,
          holding fd
              (accepted_channel fd)
              (accepted_calls fd (listens listener).calls)
              (listening listener event),
        )
  unfolding poll_event on_ready on_connect epoll_add put call Channel.new Channel.set_event
  accepts fd event answers unset =
      let s = listening listener event in
      let c : Channel = record (Channel.new fd) { event = epollin } in
      rw (==-self listener, lookup-insert_self fd c s.channels, unset)
        (ap
          (λ (b : Buffer.Buffer).
            some (some true, holding fd (record c { readbuf = b }) (accepted_calls fd s.calls) s))
          new-filled)

  -- A channel whose `onRead` comes back with false, and that then waits for input alone.
  pub reads :
      (fd event : ℕ) (accepted : ℤ) (answers : List Answer) (s s' : Endpoint) (c c' : Channel)
      → (fd == listener) ≡ false
      → lookup fd s.channels ≡ some c
      → has c.event epollin ≡ true
      → on_read cb (on_close cb) fd answers s ≡ some (some false, s')
      → lookup fd s'.channels ≡ some c'
      → c'.event ≡ epollin
      → poll_event cb listener (entry (one_event fd event accepted answers) fd ∷ []) s
        ≡ some (some true, s')
  unfolding ready_channel writable hang_up has poll_event on_ready
  reads fd event accepted answers s s' c c' other alive input read alive' waits =
      rw (other, alive, input, read, alive', waits) refl

  on_close-left_by :
      (fd : ℕ) (c : Channel) (calls : List Call) (s : Endpoint)
      → cb.on_close ≡ none
      → on_close cb fd (holding fd c calls s) ≡ some (left_by fd c calls s)
  unfolding on_close on_close_base del_channel epoll_del put call Channel.close
  on_close-left_by fd c calls s unset =
      let c₂ : Channel = record c { connected = false } in
      rw (lookup-insert_self fd c s.channels) (
        rw (lookup-insert_self fd c s.channels) (
          rw (unset) (
            rw (lookup-insert_self fd c₂ (insert fd c s.channels)) (
              ap
                (λ (m : List (ℕ × Channel)). some (record {
                  channels = erase c.fd m;
                  calls = Call.close c.fd ∷ Call.ctl_del c.fd ∷ calls;
                }))
                (insert-insert fd c₂ c s.channels)))))

  -- `read` answers 0.
  pub closes :
      (fd event : ℕ) (accepted : ℤ) (more : List Answer) (c : Channel) (calls : List Call)
      (s : Endpoint)
      → cb.on_close ≡ none
      → (fd == listener) ≡ false
      → has c.event epollin ≡ true
      → poll_event cb listener
          (entry (one_event fd event accepted (got 0 [] ∷ more)) fd ∷ [])
          (holding fd c calls s)
        ≡ some (some true, left_by fd c calls s)
  unfolding poll_event on_ready ready_channel on_read
  closes fd event accepted more c calls s unset other input =
      rw (other, lookup-insert_self fd c s.channels, input, on_close-left_by fd c calls s unset)
        refl
