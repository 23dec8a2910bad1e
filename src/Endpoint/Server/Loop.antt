-- ===== src/Endpoint/Server/Loop.antt =====
-- The loop of a server keeps the poll and the map of channels together.
use codechiev.Common.{
  take, ℕ, ◌≡◌, refl, sym, ap, Bool, not, Option, some, List, [], ◌∷◌, map, guard, >>=-eq-some,
  if-eq-some, some-injective, ℤ, pos, negsuc, ◌==◌,
}
use codechiev.Common.Assoc.{lookup}
use codechiev.Channel
use codechiev.Channel.{Channel}
use codechiev.Endpoint.{Endpoint, Callbacks, put}
use codechiev.Endpoint.Poll.{push_events, poll}
use codechiev.Endpoint.Loop.{Round, entry, init_events, rounds, loop}
use codechiev.Endpoint.Server.{poll_event}
use codechiev.Endpoint.Server.Tracking.{IsTracked, put-IsTracked}
use codechiev.Endpoint.Server.Closing.{CallbacksKeep}
use codechiev.Endpoint.Server.Rounds.{AllFresh, and_next-IsTracked, poll_event-IsTracked}

module _ (cb : Callbacks) (listener : ℕ) where
  -- In each round, the descriptors that `accept` gives are not open.
  abbrev pub RoundsFresh : List Round → ℕ → Endpoint → Type 0
  RoundsFresh [] size s = Unit {0}
  RoundsFresh (r ∷ rs) size s =
      (vec : List ℕ) (size' : ℕ) (s' : Endpoint)
      → poll size r.nfds r.events s ≡ some (vec, size', s')
      → AllFresh cb listener (map (entry r) vec) s'
        × ((o : Option Bool) (s'' : Endpoint)
            → poll_event cb listener (map (entry r) vec) s' ≡ some (o, s'')
            → RoundsFresh rs size' s'')

push_events-IsTracked :
    (events : List (ℕ × ℕ)) (s s' : Endpoint) (vec : List ℕ)
    → push_events events s ≡ some (vec, s')
    → IsTracked s
    → IsTracked s'
unfolding push_events Channel.set_event
push_events-IsTracked [] s s' vec e h =
    rw (sym (ap (λ (p : List ℕ × Endpoint). p.1) (some-injective e))) h
push_events-IsTracked ((fd, event) ∷ events) s s' vec e h =
    let (c, found, rest) = >>=-eq-some (lookup fd s.channels) _ e in
    let c' : Channel = record c { event = event } in
    let (more, pushed, last) = >>=-eq-some (push_events events (put fd c' s)) _ rest in
    rw (sym (ap (λ (p : List ℕ × Endpoint). p.1) (some-injective last))) (
      push_events-IsTracked events (put fd c' s) more.1 more.0 pushed
        (put-IsTracked fd c c' s found refl h))

poll-IsTracked :
    (size : ℕ) (nfds : ℤ) (events : List (ℕ × ℕ)) (s s' : Endpoint) (vec : List ℕ) (size' : ℕ)
    → poll size nfds events s ≡ some (vec, size', s')
    → IsTracked s
    → IsTracked s'
unfolding poll
poll-IsTracked size (negsuc n) events s s' vec size' e h =
    rw (sym (ap (λ (p : List ℕ × ℕ × Endpoint). p.2) (some-injective e))) h
poll-IsTracked size (pos nfds) events s s' vec size' e h =
    if-eq-some (nfds == 0) _ _ e
      (λ same. rw (sym (ap (λ (p : List ℕ × ℕ × Endpoint). p.2) (some-injective same))) h)
      (λ some_events.
        let (pushed, found, last) = >>=-eq-some (push_events (take nfds events) s) _ some_events in
        rw (sym (ap (λ (p : List ℕ × ℕ × Endpoint). p.2) (some-injective last)))
          (push_events-IsTracked (take nfds events) s pushed.1 pushed.0 found h))

module _ (cb : Callbacks) (keeps : CallbacksKeep cb) (listener : ℕ) where
  rounds-IsTracked :
      (rs : List Round) (size : ℕ) (s s' : Endpoint) (o : Option Bool)
      → RoundsFresh cb listener rs size s
      → rounds cb (poll_event cb listener) rs size s ≡ some (o, s')
      → IsTracked s
      → IsTracked s'
  unfolding rounds
  rounds-IsTracked [] size s s' o fresh e h =
      rw (sym (ap (λ (p : Option Bool × Endpoint). p.1) (some-injective e))) h
  rounds-IsTracked (r ∷ rs) size s s' o fresh e h =
      let (polled, found, rest) = >>=-eq-some (poll size r.nfds r.events s) _ e in
      let vec : List ℕ = polled.0 in
      let size' : ℕ = polled.1 in
      let t : Endpoint = polled.2 in
      let new = fresh vec size' t found in
      let kept = poll-IsTracked size r.nfds r.events s t vec size' found h in
      and_next-IsTracked cb (poll_event cb listener (map (entry r) vec) t)
        (rounds cb (poll_event cb listener) rs size') o s' rest
        (λ b u made.
          poll_event-IsTracked cb keeps listener (map (entry r) vec) t u b new.0 made kept)
        (λ b u made again k. rounds-IsTracked rs size' u s' o (new.1 b u made) again k)

  -- However many rounds the loop of a TcpServer makes, and whatever the system answers in them: if
  -- a descriptor was watched exactly if it had a living channel, which has that descriptor, and if
  -- each change, removal and write of the trace was made on a watched descriptor and each addition
  -- on one that was not, then this holds afterwards, if `accept` gives descriptors that are not
  -- open and the callbacks preserve it.
  pub loop-IsTracked :
      (tid caller : ℕ) (rs : List Round) (s s' : Endpoint) (o : Option Bool)
      → RoundsFresh cb listener rs init_events s
      → loop cb (poll_event cb listener) tid caller rs s ≡ some (o, s')
      → IsTracked s
      → IsTracked s'
  unfolding loop
  loop-IsTracked tid caller rs s s' o fresh e h =
      let (_, allowed, rest) = >>=-eq-some (guard (not (tid == caller))) _ e in
      rounds-IsTracked rs init_events s s' o fresh rest h
