-- ===== src/Endpoint/Writing/Ends.antt =====
-- codechiev/net/TcpServer.cpp: the two ends of TcpEndpoint::onWrite, when all is sent and when
-- `write` would block.
use codechiev.Endpoint.Writing.Rounds.{took, to_send, read_back, start_write-to_send}
use Prim.Native.Nat.{bit_or}
use codechiev.Common.{
  ℕ, suc, ◌+◌, ◌≡◌, sym, ap, ◌∙◌, false, some, List, [], ◌∷◌, ◌++◌, length, arith, gt→leb,
}
use codechiev.Common.Assoc.{lookup, insert, lookup-insert_self, insert-insert, insert-lookup}
use codechiev.Buffer
use codechiev.Buffer.{Buffer, read}
use codechiev.Buffer.Layout.{layout, readable-layout}
use codechiev.Channel
use codechiev.Channel.{Channel, buffer_size, buffer_each_time_size}
use codechiev.Endpoint.Calls.{Call}
use codechiev.Endpoint.{
  Endpoint, Answer, eagain, epollin, epollout, call, put, epoll_set, record_sent, writing_later,
  writing_done, on_write,
}
use codechiev.Endpoint.Reading.{failed, update_channel_lem}

pub to_send-same :
    (fd : ℕ) (s : Endpoint) (c : Channel) (pre xs post : List ℕ)
    → lookup fd s.channels ≡ some c
    → c.writebuf ≡ layout pre xs post
    → to_send fd s c pre xs post ≡ s
unfolding put
to_send-same fd s c pre xs post alive shape =
    let same : record c { writebuf = layout pre xs post } ≡ c =
      λ i. record c { writebuf = sym shape i } in
    ap (λ (m : List (ℕ × Channel)). record s { channels = m })
      (ap (λ (x : Channel). insert fd x s.channels) same ∙ insert-lookup fd c s.channels alive)

-- `write` answers 0 when all is sent.
pub on_write-done :
    (fd errno : ℕ) (more : List Answer) (s : Endpoint) (c : Channel) (pre xs post : List ℕ)
    → on_write fd (took errno 0 ∷ more) (to_send fd s c pre xs post)
      ≡ some (
        some false,
        call
            (Call.ctl_mod c.fd epollin)
            (put fd (record c { event = epollin; writebuf = Buffer.new buffer_size }) s),
      )
unfolding on_write writing_done put call Buffer.readall Buffer.new Channel.set_event
on_write-done fd errno more s c pre xs post =
    let c₁ = record c { writebuf = layout pre xs post } in
    let c₂ = record c { writebuf = Buffer.new buffer_size } in
    rw
      (
        start_write-to_send fd errno s c pre xs post,
        lookup-insert_self fd c₁ s.channels,
        update_channel_lem fd epollin c₂ (put fd c₂ (put fd c₁ s))
            (lookup-insert_self fd c₂ (insert fd c₁ s.channels)),
        on_write,
      )
      (ap
        (λ (m : List (ℕ × Channel)).
          some (some false, record { channels = m; calls = Call.ctl_mod c.fd epollin ∷ s.calls }))
        (insert-insert fd (record c { event = epollin; writebuf = Buffer.new buffer_size }) c₂
            (insert fd c₁ s.channels)
          ∙ insert-insert fd (record c { event = epollin; writebuf = Buffer.new buffer_size }) c₁
              s.channels))

-- `write` answers -1 with EAGAIN.
pub on_write-blocked :
    (fd : ℕ) (more : List Answer) (s : Endpoint) (c : Channel) (pre xs post : List ℕ) (x : ℕ)
    → on_write fd (failed eagain ∷ more) (to_send fd s c (pre ++ (x ∷ [])) xs post)
      ≡ some (
        some false,
        call (Call.ctl_mod c.fd (bit_or epollin epollout)) (
            call (Call.ctl_mod c.fd (bit_or epollin epollout)) (
              put fd
                (record c { event = bit_or epollin epollout; writebuf = layout pre (x ∷ xs) post })
                s)),
      )
unfolding on_write writing_later put call record_sent epoll_set Channel.set_event
on_write-blocked fd more s c pre xs post x =
    let c₁ = record c { writebuf = layout (pre ++ (x ∷ [])) xs post } in
    let c₂ = record c { writebuf = layout pre (x ∷ xs) post } in
    rw
      (
        start_write-to_send fd eagain s c (pre ++ (x ∷ [])) xs post,
        read_back pre xs post x,
        lookup-insert_self fd c₂ (insert fd c₁ s.channels),
        readable-layout pre (x ∷ xs) post,
        gt→leb (suc (length xs) + 0) (0 + 0) (omega arith),
        update_channel_lem fd (bit_or epollin epollout) c₂ (put fd c₂ (put fd c₁ s))
            (lookup-insert_self fd c₂ (insert fd c₁ s.channels)),
        lookup-insert_self fd (record c₂ { event = bit_or epollin epollout })
            (insert fd c₂ (insert fd c₁ s.channels)),
        on_write,
      )
      (ap
        (λ (m : List (ℕ × Channel)). some (
          some false,
          record {
            channels = m;
            calls =
                Call.ctl_mod c.fd (bit_or epollin epollout)
                ∷ (Call.ctl_mod c.fd (bit_or epollin epollout) ∷ s.calls);
          },
        ))
        (insert-insert fd (record c₂ { event = bit_or epollin epollout }) c₂
            (insert fd c₁ s.channels)
          ∙ insert-insert fd (record c₂ { event = bit_or epollin epollout }) c₁ s.channels))
