-- ===== src/Endpoint/Server/Events.antt =====
-- What a server does with an event of a channel.
use codechiev.Common.{
  ℕ, ◌≡◌, refl, ap, ◌∙◌, true, false, none, some, List, [], ◌∷◌, ◌++◌, map, drop, length, arith,
}
use codechiev.Common.Assoc.{lookup, insert, erase, lookup-insert_self}
use codechiev.Buffer.Layout.{layout}
use codechiev.Channel
use codechiev.Channel.{Channel}
use codechiev.Coder.Reassembly.{joined}
use codechiev.Endpoint.Calls.{Call}
use codechiev.Endpoint.{
  Endpoint, Callbacks, Answer, eagain, epollin, call, put, has, epoll_del, del_channel,
  on_close_base, on_read,
}
use codechiev.Endpoint.Reading.{Arrives, after_reading, got, failed, on_read-quiet, on_read-end}
use codechiev.Endpoint.Server.{Ready, on_close, hang_up, writable, ready_channel}

-- The endpoint without a channel.
abbrev pub closed : ℕ → Endpoint → Endpoint
closed fd s = record {
  channels = erase fd s.channels;
  calls = Call.close fd ∷ Call.ctl_del fd ∷ s.calls;
}

erase-insert : (k : ℕ) (v : Channel) (m : List (ℕ × Channel)) → erase k (insert k v m) ≡ erase k m
unfolding erase insert
erase-insert k v [] = ground arith
erase-insert k v ((i, w) ∷ m) = ground (arith, erase-insert k v m)

-- With no close callback set, closing a living channel of its own descriptor takes it out of the
-- poll, closes the descriptor, and takes it out of the map.
pub on_close_lem :
    (cb : Callbacks) (fd : ℕ) (s : Endpoint) (c : Channel)
    → cb.on_close ≡ none
    → lookup fd s.channels ≡ some c
    → c.fd ≡ fd
    → on_close cb fd s ≡ some (closed fd s)
unfolding on_close on_close_base del_channel epoll_del call put Channel.close
on_close_lem cb fd s c unset alive own =
    let c' = record c { connected = false } in
    rw (alive, alive, unset, lookup-insert_self fd c' s.channels, own)
      (ap
        (λ (m : List (ℕ × Channel)).
          some (record { channels = m; calls = Call.close fd ∷ Call.ctl_del fd ∷ s.calls }))
        (erase-insert fd _ s.channels))

module _ (cb : Callbacks) (r : Ready) (s s' : Endpoint) (c : Channel)
    (alive : lookup r.fd s.channels ≡ some c) (input : has c.event epollin ≡ true) where
  ready_channel-true :
      on_read cb (on_close cb) r.fd r.reads s ≡ some (some true, s')
      → ready_channel cb r s ≡ some (some true, s')
  unfolding ready_channel
  ready_channel-true e = rw (alive, input, e) refl

  ready_channel-false :
      on_read cb (on_close cb) r.fd r.reads s ≡ some (some false, s')
      → ready_channel cb r s ≡ writable cb r s'
  unfolding ready_channel
  ready_channel-false e = rw (alive, input, e) refl

module _ (cb : Callbacks) (errno : ℕ) (pieces : List (List ℕ)) (s : Endpoint) (c : Channel)
    (pre xs post : List ℕ) (r : Ready) where
  module _ (ready : Arrives cb (on_close cb) r.fd errno pieces s c pre xs post)
      (input : has c.event epollin ≡ true) where
    -- With no close callback set: when a readable channel's peer has closed, after pieces that fit
    -- in the read buffer, the channel is taken out of the poll and of the map, its descriptor is
    -- closed, and nothing more is done with it, whatever else the event says.
    pub ready_channel-end :
        (more : List Answer)
        → cb.on_close ≡ none
        → c.fd ≡ r.fd
        → r.reads ≡ map (got errno) pieces ++ (got 0 [] ∷ more)
        → ready_channel cb r s ≡ some (some true, closed r.fd s)
    unfolding put
    ready_channel-end more unset own script =
        let c₁ = record c {
          readbuf = layout pre (xs ++ joined pieces) (drop (length (joined pieces)) post);
        } in
        let s₁ = put r.fd c₁ s in
        let s₂ = closed r.fd s₁ in
        ready_channel-true cb r s s₂ c ready.1 input (
          rw
            (
              script,
              on_read-end cb (on_close cb) r.fd errno pieces s c pre xs post more ready,
              on_close_lem cb r.fd s₁ c₁ unset (lookup-insert_self r.fd c₁ s.channels) own,
            )
            refl)
        ∙ ap
            (λ (m : List (ℕ × Channel)). some (
              some true,
              record { channels = m; calls = Call.close r.fd ∷ Call.ctl_del r.fd ∷ s.calls },
            ))
            (erase-insert r.fd c₁ s.channels)

    -- With no data callback set: when a channel is readable, whether it is writable too or not, and
    -- pieces that fit in the read buffer arrive without EAGAIN until `read` answers -1 with EAGAIN,
    -- the pieces are stored, the channel is set to wait for input alone, and nothing is written.
    pub ready_channel-drops_write :
        (more : List Answer)
        → cb.on_data ≡ none
        → r.reads ≡ map (got errno) pieces ++ (failed eagain ∷ more)
        → ready_channel cb r s
          ≡ some (
            some true,
            after_reading r.fd s c pre (xs ++ joined pieces) (drop (length (joined pieces)) post),
          )
    unfolding writable hang_up has put call
    ready_channel-drops_write more unset script =
        let s' =
          after_reading r.fd s c pre (xs ++ joined pieces) (drop (length (joined pieces)) post) in
        let c' = record c {
          event = epollin;
          readbuf = layout pre (xs ++ joined pieces) (drop (length (joined pieces)) post);
        } in
        ready_channel-false cb r s s' c ready.1 input (
          rw script
            (on_read-quiet cb (on_close cb) r.fd errno pieces s c pre xs post more ready unset))
        ∙ rw (lookup-insert_self r.fd c' s.channels) refl
