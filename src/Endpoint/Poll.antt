-- ===== src/Endpoint/Poll.antt =====
-- codechiev/net/EPoll.cpp: EPoll::poll. `nfds` is what `epoll_wait` answers, and `events` is the array behind
-- it: a descriptor for each event, since the pointer that it stores is that of a channel.
use codechiev.Common.{
  take, take-all, ℕ, ◌*◌, ◌≤◌, ◌<◌, ◌≡◌, refl, sym, ◌∙◌, false, Option, some, List, [], ◌∷◌, length,
  All, ◌>>=◌, ℤ, pos, negsuc, ◌==◌, if◌then◌else◌, arith,
}
use codechiev.Common.Assoc.{lookup, lookup-insert_self, lookup-insert_other}
use codechiev.Channel
use codechiev.Channel.{Channel}
use codechiev.Endpoint.{Endpoint, put}

-- The loop over the events: each is stored in its channel, which is pushed to the vector.
unfoldable pub push_events : List (ℕ × ℕ) → Endpoint → Option (List ℕ × Endpoint)
push_events [] s = some ([], s)
push_events ((fd, event) ∷ events) s = do
  c ← lookup fd s.channels
  (vec, s') ← push_events events (put fd (Channel.set_event event c) s)
  some (fd ∷ vec, s')

-- The vector, the size of the array of events, and the endpoint. The size is compared with `nfds` as
-- an unsigned number, so it never equals -1.
unfoldable pub poll : ℕ → ℤ → List (ℕ × ℕ) → Endpoint → Option (List ℕ × ℕ × Endpoint)
poll size (negsuc n) events s = some ([], size, s)
poll size (pos nfds) events s = if nfds == 0 then some ([], size, s) else (do
  (vec, s') ← push_events (take nfds events) s
  some (vec, (if size == nfds then nfds * 2 else size), s'))

abbrev pub descriptors : List (ℕ × ℕ) → List ℕ
descriptors [] = []
descriptors ((fd, _) ∷ events) = fd ∷ descriptors events

-- No descriptor of the list is `fd`, or stands in it twice.
abbrev pub NotIn : ℕ → List ℕ → Type 0
NotIn fd fds = All (λ g. (g == fd) ≡ false) fds

abbrev pub AllDistinct : List ℕ → Type 0
AllDistinct [] = Unit {0}
AllDistinct (fd ∷ fds) = NotIn fd fds × AllDistinct fds

abbrev pub AllAlive : Endpoint → List ℕ → Type 0
AllAlive s fds = All (λ fd. (c : Channel) × (lookup fd s.channels ≡ some c)) fds

-- Each channel has the event that was answered for it, and is as it was otherwise.
abbrev pub AllStored : Endpoint → Endpoint → List (ℕ × ℕ) → Type 0
AllStored s s' [] = Unit {0}
AllStored s s' ((fd, event) ∷ events) =
    ((c : Channel) × (lookup fd s.channels ≡ some c)
      × (lookup fd s'.channels ≡ some (record c { event = event })))
    × AllStored s s' events

put-AllAlive :
    (fd : ℕ) (c : Channel) (s : Endpoint) (fds : List ℕ)
    → NotIn fd fds
    → AllAlive s fds
    → AllAlive (put fd c s) fds
unfolding put
put-AllAlive fd c s [] others alive = tt
put-AllAlive fd c s (g ∷ fds) others alive = (
  (alive.0.0, lookup-insert_other fd g c s.channels others.0 ∙ alive.0.1),
  put-AllAlive fd c s fds others.1 alive.1,
)

put-AllStored :
    (fd : ℕ) (c : Channel) (s s' : Endpoint) (events : List (ℕ × ℕ))
    → NotIn fd (descriptors events)
    → AllStored (put fd c s) s' events
    → AllStored s s' events
unfolding put
put-AllStored fd c s s' [] others stored = tt
put-AllStored fd c s s' ((g, event) ∷ events) others stored = (
  (stored.0.0, sym (lookup-insert_other fd g c s.channels others.0) ∙ stored.0.1, stored.0.2),
  put-AllStored fd c s s' events others.1 stored.1,
)

flip-NotIn : (g fd : ℕ) → (g == fd) ≡ false → (fd == g) ≡ false
flip-NotIn g fd h = ground (arith, h)

-- What the loop leaves behind.
pub record Pushed (s : Endpoint) (events : List (ℕ × ℕ)) : Type 0 where
  pub after : Endpoint
  pub pushed : push_events events s ≡ some (descriptors events, after)
  pub stored : AllStored s after events
  pub others :
      (g : ℕ) → NotIn g (descriptors events) → lookup g after.channels ≡ lookup g s.channels
  pub same_calls : after.calls ≡ s.calls

push_events-Pushed :
    (events : List (ℕ × ℕ)) (s : Endpoint)
    → AllAlive s (descriptors events)
    → AllDistinct (descriptors events)
    → Pushed s events
unfolding push_events put Channel.set_event
push_events-Pushed [] s alive distinct = record {
  after = s;
  pushed = refl;
  stored = tt;
  others = λ g h. refl;
  same_calls = refl;
}
push_events-Pushed ((fd, event) ∷ events) s alive distinct =
    let (c, found) = alive.0 in
    let c₁ : Channel = record c { event = event } in
    let p =
      push_events-Pushed events (put fd c₁ s)
        (put-AllAlive fd c₁ s (descriptors events) distinct.0 alive.1) distinct.1 in
    record {
      after = p.after;
      pushed = rw (found, p.pushed) refl;
      stored = (
        (c, found, p.others fd distinct.0 ∙ lookup-insert_self fd c₁ s.channels),
        put-AllStored fd c₁ s p.after events distinct.0 p.stored,
      );
      others = λ g h. p.others g h.1 ∙ lookup-insert_other fd g c₁ s.channels (flip-NotIn fd g h.0);
      same_calls = p.same_calls;
    }

-- If `epoll_wait` answers with some events, no more than the array has room for, of living channels
-- and of each one at most, `poll` gives their descriptors in order; each channel has the event that
-- was answered for it and is as it was otherwise, and the array then has room for more events than
-- were answered.
pub poll_lem :
    (size : ℕ) (events : List (ℕ × ℕ)) (s : Endpoint)
    → 0 < length events
    → length events ≤ size
    → AllAlive s (descriptors events)
    → AllDistinct (descriptors events)
    → (size' : ℕ) × (s' : Endpoint) × (poll size (pos (length events)) events s
        ≡ some (descriptors events, size', s'))
      × (length events < size')
      × AllStored s s' events
unfolding poll
poll_lem size events s some_event fits alive distinct =
    let p = push_events-Pushed events s alive distinct in
    (_, p.after, rw (nonzero (length events) some_event, all_taken, p.pushed) refl, grows, p.stored)
  where
    all_taken : take (length events) events ≡ events
    all_taken = take-all (length events) events (omega arith)

    nonzero : (n : ℕ) → 0 < n → (n == 0) ≡ false
    nonzero n h = ground arith

    grows : length events < (if size == length events then length events * 2 else size)
    grows = ground arith
