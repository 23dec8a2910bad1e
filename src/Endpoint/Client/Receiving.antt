-- ===== src/Endpoint/Client/Receiving.antt =====
-- codechiev/net/TcpClient.cpp: how the first bytes of a client's connection reach its callback.
use codechiev.Common.{
  ℕ, ◌≡◌, refl, ap, ◌∙◌, true, false, Option, none, some, List, [], ◌∷◌, ℤ, pos, ◌==◌,
}
use codechiev.Common.Assoc.{lookup, insert, lookup-insert_self, insert-insert}
use codechiev.Buffer
use codechiev.Channel
use codechiev.Channel.{Channel, buffer_size}
use codechiev.Endpoint.Calls.{Call}
use codechiev.Endpoint.{Endpoint, Callbacks, Answer, has, epollin, epollout, on_read, on_close_base}
use codechiev.Endpoint.Loop.{Round, entry, init_events, rounds, loop}
use codechiev.Endpoint.Client.{Answered, connect, ready_channel, writable, hang_up, poll_event}
use codechiev.Endpoint.Client.Connecting.{ready_channel-connects}
use codechiev.Endpoint.Arrival.{
  holding, filled, new-filled, arriving, Arrive, with_first, on_read-first,
}
use codechiev.Endpoint.Loop.One.{one_event, rounds-one}
use codechiev.Endpoint.Client.Start.{start, connect_calls, opened, connect-opened}

-- A new channel that is connected.
abbrev pub joined_channel : ℕ → Channel
joined_channel fd = record {
  fd = fd;
  event = epollin;
  connected = true;
  readbuf = filled [];
  writebuf = Buffer.new buffer_size;
}

abbrev joined_calls : ℕ → List Call → List Call
joined_calls fd calls = Call.ctl_mod fd epollin ∷ Call.set_keep_alive fd ∷ connect_calls fd calls

-- The endpoint when the data callback of the new channel runs for the first time.
abbrev pub received : ℕ → List (List ℕ) → Endpoint → Endpoint
received fd pieces s =
    holding fd (with_first (joined_channel fd) pieces)
      (Call.ctl_mod fd epollin ∷ joined_calls fd s.calls) s

module _ (cb : Callbacks) (fd event : ℕ) where
  connects :
      (accepted : ℤ) (answers : List Answer) (s : Endpoint)
      → cb.on_connect ≡ none
      → has event epollin ≡ false
      → has event epollout ≡ true
      → poll_event cb
          (entry (one_event fd event accepted answers) fd ∷ [])
          (holding fd (record (opened fd) { event = event }) (connect_calls fd s.calls) s)
        ≡ some (some true, holding fd (joined_channel fd) (joined_calls fd s.calls) s)
  unfolding Channel.new poll_event
  connects accepted answers s unset no_input output =
      let c : Channel = record (opened fd) { event = event } in
      rw
        (ready_channel-connects cb (entry (one_event fd event accepted answers) fd)
          (holding fd c (connect_calls fd s.calls) s) c unset (lookup-insert_self fd c s.channels)
          no_input output refl)
        (ap
          (λ (m : List (ℕ × Channel)).
            some (some true, record { channels = m; calls = joined_calls fd s.calls }))
          (insert-insert fd (record c { connected = true; event = epollin }) c s.channels
            ∙ ap
                (λ (b : Buffer.Buffer).
                  insert fd (record c { connected = true; event = epollin; readbuf = b })
                    s.channels)
                new-filled))

  -- A channel whose `onRead` comes back with false, and that then waits for input alone.
  reads :
      (accepted : ℤ) (answers : List Answer) (s s' : Endpoint) (c c' : Channel)
      → lookup fd s.channels ≡ some c
      → has c.event epollin ≡ true
      → on_read cb (on_close_base cb) fd answers s ≡ some (some false, s')
      → lookup fd s'.channels ≡ some c'
      → c'.event ≡ epollin
      → poll_event cb (entry (one_event fd event accepted answers) fd ∷ []) s ≡ some (some true, s')
  unfolding ready_channel writable hang_up has poll_event
  reads accepted answers s s' c c' alive input read alive' waits =
      rw (alive, input, read, alive', waits) refl

module _ (cb : Callbacks) (fd event errno : ℕ) (pieces : List (List ℕ)) (more : List Answer)
    (f : ℕ → Endpoint → Option Endpoint) where
  -- A client from its connect on, with a data callback, no connect callback and a loop that does
  -- not run in the thread that made it, in rounds in which no other channel has an event: whether
  -- `::connect` answers at once or later, once `epoll_wait` says that the channel can write,
  -- whatever it says beside this but that it can be read, and then that there is input, the pieces
  -- that `read` gives without EAGAIN, not more than the read buffer holds, until it answers -1 with
  -- EAGAIN, run the callback once, on the connected channel with all the bytes in order; and if the
  -- callback leaves the channel waiting for input alone, the loop goes on from what the callback
  -- has left.
  pub start-receives :
      (answered : Answered) (tid caller joins : ℕ) (accepted : ℤ) (rs : List Round)
      (s s₁ s' : Endpoint) (c' : Channel)
      → connect (pos fd) answered s ≡ some (some fd, s₁)
      → cb.on_connect ≡ none
      → cb.on_data ≡ some f
      → (tid == caller) ≡ false
      → has joins epollin ≡ false
      → has joins epollout ≡ true
      → has event epollin ≡ true
      → Arrive errno pieces
      → f fd (received fd pieces s) ≡ some s'
      → lookup fd s'.channels ≡ some c'
      → c'.event ≡ epollin
      → start cb tid caller
          (one_event fd joins accepted []
            ∷ one_event fd event accepted (arriving errno pieces more)
            ∷ rs)
          s₁
        ≡ rounds cb (poll_event cb) rs init_events s'
  unfolding start loop
  start-receives answered tid caller joins accepted rs s s₁ s' c' made unset set apart no_input
        output input arrive told alive' waits =
      let c : Channel = record (joined_channel fd) { event = event } in
      let calls = joined_calls fd s.calls in
      let after : List Answer = arriving errno pieces more in
      rw (apart, connect-opened fd answered s s₁ made)
        (rounds-one cb (poll_event cb) fd joins accepted [] (opened fd) (connect_calls fd s.calls) s
            (holding fd (joined_channel fd) calls s) true (one_event fd event accepted after ∷ rs)
            (connects cb fd joins accepted [] s unset no_input output)
          ∙ rounds-one cb (poll_event cb) fd event accepted after (joined_channel fd) calls s s'
              true rs
              (reads cb fd event accepted after (holding fd c calls s) s' c c'
                (lookup-insert_self fd c s.channels) input
                (on_read-first cb (on_close_base cb) fd errno pieces more f c calls s arrive set
                    refl
                  ∙ rw told refl)
                alive' waits))
