-- ===== src/Endpoint/Server/Connection.antt =====
-- codechiev/net/TcpServer.cpp: a server and its first connection.
use codechiev.Common.{
  ℕ, ◌≡◌, refl, sym, ap, ◌∙◌, true, false, Option, none, some, List, [], ◌∷◌, ℤ, pos, ◌==◌,
  some-injective,
}
use codechiev.Common.Assoc.{lookup, lookup-insert_self, lookup-erase_self, insert-lookup}
use codechiev.Channel
use codechiev.Channel.{Channel, buffer_size}
use codechiev.Endpoint.Calls.{Call}
use codechiev.Endpoint.{Endpoint, Callbacks, Answer, call, put, has, epollin}
use codechiev.Endpoint.Reading.{got}
use codechiev.Endpoint.Arrival.{holding, arriving, Arrive, on_read-first}
use codechiev.Endpoint.Loop.{Round, init_events, rounds, loop}
use codechiev.Endpoint.Loop.One.{one_event, rounds-one}
use codechiev.Endpoint.Server.{on_close, listen, poll_event}
use codechiev.Endpoint.Server.Start
use codechiev.Endpoint.Server.Start.{Starting, serve, listens, nothing, add_channel-listens}
use codechiev.Endpoint.Server.Receiving.{
  accepted_channel, accepted_calls, listening, received, accepts, reads, left_by, closes,
}

abbrev pub all_succeed : Starting
all_succeed = record { reused = true; bound = true; listening = true }

starts :
    (cb : Callbacks) (listener tid caller : ℕ) (rs : List Round) (s : Endpoint)
    → Start.new (pos listener) ≡ some s
    → (tid == caller) ≡ false
    → serve cb listener all_succeed tid caller rs s
      ≡ rounds cb (poll_event cb listener) rs init_events (listening listener epollin)
unfolding serve listen loop Start.new call put Channel.set_event Channel.new
starts cb listener tid caller rs s made apart =
    rw (sym (some-injective made)) (rw (add_channel-listens listener) (rw (apart) refl))

-- The rounds of a connection: it is accepted, its pieces arrive, and its peer closes.
module _ (listener fd event ends errno : ℕ) (pieces : List (List ℕ))
    (more after : List Answer) where
  abbrev pub connection : ℕ → ℤ → List Round → List Round
  connection opens accepted rs =
      one_event listener opens (pos fd) []
      ∷ one_event fd event accepted (arriving errno pieces more)
      ∷ one_event fd ends accepted (got 0 [] ∷ after)
      ∷ rs

module _ (cb : Callbacks) (listener fd event ends errno : ℕ) (pieces : List (List ℕ))
    (more after : List Answer) (f : ℕ → Endpoint → Option Endpoint) where
  -- A server from its constructor to the end of its first connection, when the system calls of its
  -- start succeed, its loop does not run in the thread that made it, and a data callback and no
  -- other is set, in rounds in which no other channel has an event: if `accept` gives another
  -- descriptor than the listening one, and then, in a round that says that there is input, pieces
  -- arrive on it without EAGAIN, not more than the read buffer holds, until `read` answers -1 with
  -- EAGAIN, the callback runs once, on the connection with all the bytes in order; and if the
  -- callback leaves the channel with its descriptor and waiting for input alone, and `read` answers
  -- 0 in a further round with input, the channel is taken out of the poll and closed, nothing is
  -- left of it in the map, and the loop goes on.
  pub serve-receives :
      (tid caller opens : ℕ) (accepted : ℤ) (rs : List Round) (s s' : Endpoint) (c' : Channel)
      → Start.new (pos listener) ≡ some s
      → cb.on_connect ≡ none
      → cb.on_data ≡ some f
      → cb.on_close ≡ none
      → (tid == caller) ≡ false
      → (fd == listener) ≡ false
      → has event epollin ≡ true
      → has ends epollin ≡ true
      → Arrive errno pieces
      → f fd (received listener opens fd pieces) ≡ some s'
      → lookup fd s'.channels ≡ some c'
      → c'.fd ≡ fd
      → c'.event ≡ epollin
      → (t : Endpoint) × (serve cb listener all_succeed tid caller
            (connection listener fd event ends errno pieces more after opens accepted rs)
            s
          ≡ rounds cb (poll_event cb listener) rs init_events t)
        × (lookup fd t.channels ≡ none)
        × (t.calls ≡ Call.close fd ∷ Call.ctl_del fd ∷ s'.calls)
  serve-receives tid caller opens accepted rs s s' c' made unset_connect set unset_close apart other
        input ended arrive told alive' own waits =
      let handle = poll_event cb listener in
      let calls : List Call = accepted_calls fd (listens listener).calls in
      let c : Channel = record (accepted_channel fd) { event = event } in
      let c₂ : Channel = record c' { event = ends } in
      let s₁ = listening listener opens in
      let answers : List Answer = arriving errno pieces more in
      let last : Round = one_event fd ends accepted (got 0 [] ∷ after) in
      (
        left_by fd c₂ s'.calls s',
        starts cb listener tid caller
              (connection listener fd event ends errno pieces more after opens accepted rs) s made
              apart
            ∙ rounds-one cb handle listener opens (pos fd) [] _ _ nothing
                (holding fd (accepted_channel fd) calls s₁) true
                (one_event fd event accepted answers ∷ last ∷ rs)
                (accepts cb listener fd opens [] unset_connect)
            ∙ rounds-one cb handle fd event accepted answers (accepted_channel fd) calls s₁ s' true
                (last ∷ rs)
                (reads cb listener fd event accepted answers (holding fd c calls s₁) s' c c' other
                  (lookup-insert_self fd c s₁.channels) input
                  (on_read-first cb (on_close cb) fd errno pieces more f c calls s₁ arrive set refl
                    ∙ rw told refl)
                  alive' waits)
            ∙ ap
                (λ (m : List (ℕ × Channel)).
                  rounds cb handle (last ∷ rs) init_events (record s' { channels = m }))
                (sym (insert-lookup fd c' s'.channels alive'))
            ∙ rounds-one cb handle fd ends accepted (got 0 [] ∷ after) c' s'.calls s'
                (left_by fd c₂ s'.calls s') true rs
                (closes cb listener fd ends accepted after c₂ s'.calls s' unset_close other ended),
        rw (own) (lookup-erase_self fd _),
        rw (own) refl,
      )
