-- ===== src/Endpoint/Client/Connecting.antt =====
-- How a client's channel becomes connected.
use codechiev.Common.{ℕ, ◌≡◌, refl, ap, true, false, none, some, List, ◌∷◌}
use codechiev.Common.Assoc.{lookup, insert, lookup-insert_self, insert-insert}
use codechiev.Channel
use codechiev.Channel.{Channel}
use codechiev.Endpoint.Calls.{Call}
use codechiev.Endpoint.{Endpoint, Callbacks, call, call_if, put, has, epollin, epollout}
use codechiev.Endpoint.Reading.{update_channel_lem}
use codechiev.Endpoint.Server.{Ready}
use codechiev.Endpoint.Client.{on_connect, hang_up, writable, ready_channel}

-- The endpoint with a channel that is connected and waits for input.
abbrev pub joined_to : ℕ → Endpoint → Channel → Endpoint
joined_to fd s c = record {
  channels = insert fd (record c { connected = true; event = epollin }) s.channels;
  calls = Call.ctl_mod c.fd epollin ∷ Call.set_keep_alive c.fd ∷ s.calls;
}

on_connect_lem :
    (cb : Callbacks) (fd : ℕ) (s : Endpoint) (c : Channel)
    → lookup fd s.channels ≡ some c
    → on_connect cb fd s ≡ call_if cb.on_connect fd (joined_to fd s c)
unfolding on_connect put call Channel.set_connected Channel.set_event
on_connect_lem cb fd s c alive =
    let c₁ = record c { connected = true } in
    let s₁ : Endpoint = record {
      channels = insert fd c₁ s.channels;
      calls = Call.set_keep_alive c.fd ∷ s.calls;
    } in
    rw (alive, update_channel_lem fd epollin c₁ s₁ (lookup-insert_self fd c₁ s.channels))
      (ap
        (λ (m : List (ℕ × Channel)). call_if cb.on_connect fd (record {
          channels = m;
          calls = Call.ctl_mod c.fd epollin ∷ Call.set_keep_alive c.fd ∷ s.calls;
        }))
        (insert-insert fd (record c₁ { event = epollin }) c₁ s.channels))

-- With no connect callback set: an event of a client's channel that is not connected and that says
-- EPOLLOUT and not EPOLLIN, whatever else it says (EPOLLHUP too), makes the channel connected and
-- waiting for input alone; it is not closed.
pub ready_channel-connects :
    (cb : Callbacks) (r : Ready) (s : Endpoint) (c : Channel)
    → cb.on_connect ≡ none
    → lookup r.fd s.channels ≡ some c
    → has c.event epollin ≡ false
    → has c.event epollout ≡ true
    → c.connected ≡ false
    → ready_channel cb r s ≡ some (some true, joined_to r.fd s c)
unfolding ready_channel writable hang_up has
ready_channel-connects cb r s c unset alive no_input output fresh =
    let c' = record c { connected = true; event = epollin } in
    rw
      (
        alive,
        no_input,
        output,
        fresh,
        on_connect_lem cb r.fd s c alive,
        unset,
        lookup-insert_self r.fd c' s.channels,
      )
      refl
