-- ===== src/Endpoint/Loop/One.antt =====
-- Rounds of the loop in which one channel has an event.
use codechiev.Common.{ℕ, ◌≡◌, refl, ap, Bool, some, List, [], ◌∷◌, ℤ, pos}
use codechiev.Common.Assoc.{lookup-insert_self, insert-insert}
use codechiev.Channel
use codechiev.Channel.{Channel}
use codechiev.Endpoint.Calls.{Call}
use codechiev.Endpoint.{Endpoint, Callbacks, Answer, put}
use codechiev.Endpoint.Poll.{poll, push_events}
use codechiev.Endpoint.Arrival.{holding}
use codechiev.Endpoint.Server.{Ready, Handled}
use codechiev.Endpoint.Loop.{Round, entry, init_events, rounds}

-- `accepted` and `answers` are what `accept` and `read` answer.
abbrev pub one_event : ℕ → ℕ → ℤ → List Answer → Round
one_event fd event accepted answers = record {
  nfds = pos 1;
  events = (fd, event) ∷ [];
  accepted = λ _. accepted;
  reads = λ _. answers;
  writes = λ _. [];
}

module _ (cb : Callbacks) (handle : List Ready → Endpoint → Handled cb) (fd event : ℕ)
    (accepted : ℤ) (answers : List Answer) where
  poll-one :
      (c : Channel) (calls : List Call) (s : Endpoint)
      → poll init_events (pos 1) ((fd, event) ∷ []) (holding fd c calls s)
        ≡ some (fd ∷ [], init_events, holding fd (record c { event = event }) calls s)
  unfolding poll push_events put Channel.set_event
  poll-one c calls s = rw (lookup-insert_self fd c s.channels) (
      ap
        (λ (m : List (ℕ × Channel)).
          some (fd ∷ [], init_events, record { channels = m; calls = calls }))
        (insert-insert fd (record c { event = event }) c s.channels))

  -- A round that is handled to its end.
  pub rounds-one :
      (c : Channel) (calls : List Call) (s t : Endpoint) (b : Bool) (rs : List Round)
      → handle
          (entry (one_event fd event accepted answers) fd ∷ [])
          (holding fd (record c { event = event }) calls s)
        ≡ some (some b, t)
      → rounds cb handle
          (one_event fd event accepted answers ∷ rs)
          init_events
          (holding fd c calls s)
        ≡ rounds cb handle rs init_events t
  unfolding rounds
  rounds-one c calls s t b rs handled = rw (poll-one c calls s, handled) refl
