-- ===== src/Endpoint/Server/Rounds.antt =====
-- The rounds of a server's loop keep the poll and the map of channels together.
use codechiev.Common.{
  ℕ, ◌≡◌, refl, sym, ap, ◌∙◌, inl, inr, Bool, true, false, Option, none, some, List, [], ◌∷◌, ◌==◌,
  ==_iff, Bool-cases, >>=-eq-some, if-eq-some, some-injective, pos, negsuc, ℤ,
}
use Prim.Native.Nat.{bit_or}
use codechiev.Common.Assoc.{lookup, lookup-insert_self, lookup-insert_other}
use codechiev.Channel
use codechiev.Channel.{Channel, buffer_size}
use codechiev.Endpoint.Calls.{Call}
use codechiev.Endpoint.{
  Endpoint, Callbacks, put, call, has, epoll_add, on_read, on_write, epollin, epollout, epollhup,
  epollrdhup,
}
use codechiev.Endpoint.Server.{
  Ready, on_close, on_connect, hang_up, writable, ready_channel, poll_event, on_ready, and_next,
  unless_true, Handled,
}
use codechiev.Endpoint.Server.Tracking.{watches, IsTrackedAt, IsTracked}
use codechiev.Endpoint.Server.Closing.{CallbacksKeep, call_if-IsTracked, on_close-IsTracked, flip}
use codechiev.Endpoint.Server.Handlers.{on_read-IsTracked, ended-IsTracked}
use codechiev.Endpoint.Server.Output.{on_write-IsTracked}

-- A new channel is put in the poll and in the map.
pub accepting :
    (x : ℕ) (c : Channel) (s : Endpoint)
    → lookup x s.channels ≡ none
    → c.fd ≡ x
    → IsTracked s
    → IsTracked (call (Call.ctl_add x c.event) (call (Call.set_non_block x) (put x c s)))
unfolding call put watches
accepting x c s fresh own h = (each, (unwatched, (tt, h.1)))
  where
    unwatched : watches x s.calls ≡ false
    unwatched = elim (h.0 x) [
      | inl dead ↦ dead.1
      | inr alive ↦ let never = sym fresh ∙ alive.0.1 in cc
    ]

    each :
        (g : ℕ)
        → IsTrackedAt g (call (Call.ctl_add x c.event) (call (Call.set_non_block x) (put x c s)))
    each g = elim (Bool-cases (x == g)) [
      | inl here ↦
          let xg = (==_iff x g).0 here in
          inr ((c, rw (sym xg) (lookup-insert_self x c s.channels), own ∙ xg), rw (here) refl)
      | inr other ↦
          let found = lookup-insert_other x g c s.channels (flip x g other) in
          elim (h.0 g) [
            | inl dead ↦ inl (found ∙ dead.0, rw (other) dead.1)
            | inr alive ↦ inr ((alive.0.0, found ∙ alive.0.1, alive.0.2), rw (other) alive.1)
          ]
    ]

module _ (cb : Callbacks) where
  -- `accept` gives a descriptor that is not open, and no listening one.
  abbrev pub IsFresh : ℤ → Endpoint → Type 0
  IsFresh (negsuc n) s = Unit {0}
  IsFresh (pos connfd) s = lookup connfd s.channels ≡ none

  -- Each descriptor that `accept` gives is not open at that time.
  abbrev pub AllFresh : ℕ → List Ready → Endpoint → Type 0
  AllFresh listener [] s = Unit {0}
  AllFresh listener (r ∷ rs) s =
      IsFresh r.accepted s
      × ((o : Option Bool) (s' : Endpoint)
          → on_ready cb listener r s ≡ some (o, s')
          → AllFresh listener rs s')

  pub and_next-IsTracked :
      (m : Handled cb) (next : Endpoint → Handled cb) (o : Option Bool) (s' : Endpoint)
      → and_next cb m next ≡ some (o, s')
      → ((b : Option Bool) (t : Endpoint) → m ≡ some (b, t) → IsTracked t)
      → ((b : Option Bool) (t : Endpoint)
          → m ≡ some (b, t)
          → next t ≡ some (o, s')
          → IsTracked t
          → IsTracked s')
      → IsTracked s'
  and_next-IsTracked none next o s' e first later = cc
  and_next-IsTracked (some (none, t)) next o s' e first later =
      rw (sym (ap (λ (p : Option Bool × Endpoint). p.1) (some-injective e))) (first none t refl)
  and_next-IsTracked (some (some b, t)) next o s' e first later =
      later (some b) t refl e (first (some b) t refl)

module _ (cb : Callbacks) (keeps : CallbacksKeep cb) where
  on_connect-IsTracked :
      (accepted : ℤ) (s s' : Endpoint)
      → IsFresh cb accepted s
      → on_connect cb accepted s ≡ some s'
      → IsTracked s
      → IsTracked s'
  unfolding on_connect epoll_add put Channel.set_event Channel.new
  on_connect-IsTracked (negsuc n) s s' fresh e h = rw (sym (some-injective e)) h
  on_connect-IsTracked (pos connfd) s s' fresh e h =
      let c : Channel = Channel.set_event epollin (Channel.new connfd) in
      let there = lookup-insert_self connfd c s.channels in
      let told = rw (there) at e in
      call_if-IsTracked cb.on_connect connfd
        (call (Call.ctl_add connfd epollin) (call (Call.set_non_block connfd) (put connfd c s))) s'
        keeps.0 told (accepting connfd c s fresh refl h)

  hang_up-IsTracked :
      (x : ℕ) (s s' : Endpoint) (o : Option Bool)
      → hang_up cb x s ≡ some (o, s')
      → IsTracked s
      → IsTracked s'
  unfolding hang_up
  hang_up-IsTracked x s s' o e h =
      let (c, found, rest) = >>=-eq-some (lookup x s.channels) _ e in
      if-eq-some (has c.event (bit_or epollhup epollrdhup)) _ _ rest
        (λ closed.
          ended-IsTracked cb keeps (on_close cb x s) true o s' closed
            (λ t made. on_close-IsTracked cb keeps x s t made h))
        (λ same. rw (sym (ap (λ (p : Option Bool × Endpoint). p.1) (some-injective same))) h)

  unless_true-IsTracked :
      (m : Handled cb) (next : Endpoint → Handled cb) (o : Option Bool) (s' : Endpoint)
      → unless_true cb m next ≡ some (o, s')
      → ((b : Option Bool) (t : Endpoint) → m ≡ some (b, t) → IsTracked t)
      → ((t : Endpoint) → next t ≡ some (o, s') → IsTracked t → IsTracked s')
      → IsTracked s'
  unless_true-IsTracked none next o s' e first second = cc
  unless_true-IsTracked (some (none, s)) next o s' e first second =
      rw (sym (ap (λ (p : Option Bool × Endpoint). p.1) (some-injective e))) (first none s refl)
  unless_true-IsTracked (some (some true, s)) next o s' e first second =
      rw (sym (ap (λ (p : Option Bool × Endpoint). p.1) (some-injective e)))
        (first (some true) s refl)
  unless_true-IsTracked (some (some false, s)) next o s' e first second =
      second s e (first (some false) s refl)

  writable-IsTracked :
      (r : Ready) (s s' : Endpoint) (o : Option Bool)
      → writable cb r s ≡ some (o, s')
      → IsTracked s
      → IsTracked s'
  unfolding writable
  writable-IsTracked r s s' o e h =
      let (c, found, rest) = >>=-eq-some (lookup r.fd s.channels) _ e in
      if-eq-some (has c.event epollout) _ _ rest
        (λ wrote.
          unless_true-IsTracked (on_write r.fd r.writes s) (hang_up cb r.fd) o s' wrote
            (λ b t made. on_write-IsTracked cb keeps r.fd r.writes s t b made h)
            (λ t hung k. hang_up-IsTracked r.fd t s' o hung k))
        (λ hung. hang_up-IsTracked r.fd s s' o hung h)

  ready_channel-IsTracked :
      (r : Ready) (s s' : Endpoint) (o : Option Bool)
      → ready_channel cb r s ≡ some (o, s')
      → IsTracked s
      → IsTracked s'
  unfolding ready_channel
  ready_channel-IsTracked r s s' o e h =
      let (c, found, rest) = >>=-eq-some (lookup r.fd s.channels) _ e in
      if-eq-some (has c.event epollin) _ _ rest
        (λ got.
          unless_true-IsTracked (on_read cb (on_close cb) r.fd r.reads s) (writable cb r) o s' got
            (λ b t made. on_read-IsTracked cb keeps r.fd r.reads s t b made h)
            (λ t wrote k. writable-IsTracked r t s' o wrote k))
        (λ wrote. writable-IsTracked r s s' o wrote h)

  on_ready-IsTracked :
      (listener : ℕ) (r : Ready) (s s' : Endpoint) (o : Option Bool)
      → IsFresh cb r.accepted s
      → on_ready cb listener r s ≡ some (o, s')
      → IsTracked s
      → IsTracked s'
  unfolding on_ready
  on_ready-IsTracked listener r s s' o fresh e h =
      if-eq-some (r.fd == listener) _ _ e
        (λ connected.
          ended-IsTracked cb keeps (on_connect cb r.accepted s) true o s' connected
            (λ t made. on_connect-IsTracked r.accepted s t fresh made h))
        (λ ready. ready_channel-IsTracked r s s' o ready h)

  -- A server's `pollEvent` keeps the poll and the map of channels together: if a descriptor was watched
  -- exactly if it had a living channel, which has that descriptor, and if each change, removal and write
  -- of the trace was made on a watched descriptor and each addition on one that was not, then
  -- this holds afterwards, whatever the system answers, if `accept` gives descriptors that are not open
  -- and the callbacks preserve it.
  pub poll_event-IsTracked :
      (listener : ℕ) (rs : List Ready) (s s' : Endpoint) (o : Option Bool)
      → AllFresh cb listener rs s
      → poll_event cb listener rs s ≡ some (o, s')
      → IsTracked s
      → IsTracked s'
  unfolding poll_event
  poll_event-IsTracked listener [] s s' o fresh e h =
      rw (sym (ap (λ (p : Option Bool × Endpoint). p.1) (some-injective e))) h
  poll_event-IsTracked listener (r ∷ rs) s s' o fresh e h =
      and_next-IsTracked cb (on_ready cb listener r s) (poll_event cb listener rs) o s' e
        (λ b t made. on_ready-IsTracked listener r s t b fresh.0 made h)
        (λ b t made again k. poll_event-IsTracked listener rs t s' o (fresh.1 b t made) again k)
