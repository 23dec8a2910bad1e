-- ===== src/Endpoint/Server/Tracking.antt =====
-- Which descriptors the poll watches, read off the trace of calls, and the channels that are alive.
use codechiev.Common.{
  ℕ, ◌≡◌, refl, sym, ap, ◌∙◌, ◌⊎◌, inl, inr, Bool, true, false, none, some, List, [], ◌∷◌, ◌==◌,
  ==_iff, if◌then◌else◌, Bool-cases, >>=-eq-some, some-injective,
}
use codechiev.Common.Assoc.{lookup, insert, lookup-insert_self, lookup-insert_other}
use codechiev.Channel
use codechiev.Channel.{Channel}
use codechiev.Endpoint.Calls.{Call}
use codechiev.Endpoint.{Endpoint, put, call, epoll_set, update_channel}

unfoldable pub watches : ℕ → List Call → Bool
watches fd [] = false
watches fd (Call.ctl_add g events ∷ cs) = if g == fd then true else watches fd cs
watches fd (Call.ctl_del g ∷ cs) = if g == fd then false else watches fd cs
watches fd (Call.close g ∷ cs) = if g == fd then false else watches fd cs
watches fd (Call.ctl_mod g events ∷ cs) = watches fd cs
watches fd (Call.shutdown g ∷ cs) = watches fd cs
watches fd (Call.set_non_block g ∷ cs) = watches fd cs
watches fd (Call.set_reuse_addr g ∷ cs) = watches fd cs
watches fd (Call.set_keep_alive g ∷ cs) = watches fd cs
watches fd (Call.sent g bytes ∷ cs) = watches fd cs

-- A call is made on a descriptor that is watched, and one that is watched is not added.
abbrev pub IsValidCall : Call → List Call → Type 0
IsValidCall (Call.ctl_add g events) cs = watches g cs ≡ false
IsValidCall (Call.ctl_mod g events) cs = watches g cs ≡ true
IsValidCall (Call.ctl_del g) cs = watches g cs ≡ true
IsValidCall (Call.sent g bytes) cs = watches g cs ≡ true
IsValidCall (Call.close g) cs = Unit {0}
IsValidCall (Call.shutdown g) cs = Unit {0}
IsValidCall (Call.set_non_block g) cs = Unit {0}
IsValidCall (Call.set_reuse_addr g) cs = Unit {0}
IsValidCall (Call.set_keep_alive g) cs = Unit {0}

abbrev pub AllValid : List Call → Type 0
AllValid [] = Unit {0}
AllValid (c ∷ cs) = IsValidCall c cs × AllValid cs

-- A living channel of a watched descriptor.
abbrev pub IsAlive : ℕ → Endpoint → Type 0
IsAlive fd s =
    ((c : Channel) × (lookup fd s.channels ≡ some c) × (c.fd ≡ fd)) × (watches fd s.calls ≡ true)

abbrev pub IsTrackedAt : ℕ → Endpoint → Type 0
IsTrackedAt fd s = ((lookup fd s.channels ≡ none) × (watches fd s.calls ≡ false)) ⊎ IsAlive fd s

-- A descriptor is watched exactly if it has a living channel, which has that descriptor, and each call
-- has been made on a watched descriptor.
abbrev pub IsTracked : Endpoint → Type 0
IsTracked s = ((fd : ℕ) → IsTrackedAt fd s) × AllValid s.calls

pub alive_of :
    (fd : ℕ) (s : Endpoint) (c : Channel)
    → IsTracked s
    → lookup fd s.channels ≡ some c
    → (c.fd ≡ fd) × (watches fd s.calls ≡ true)
alive_of fd s c h found = elim (h.0 fd) [
  | inl dead ↦ let never = sym dead.0 ∙ found in cc
  | inr alive ↦
      let same = some-injective (sym alive.0.1 ∙ found) in
      (sym (ap (λ (x : Channel). x.fd) same) ∙ alive.0.2, alive.1)
]

-- A living channel is changed and keeps its descriptor.
pub put-IsTracked :
    (fd : ℕ) (c c' : Channel) (s : Endpoint)
    → lookup fd s.channels ≡ some c
    → c'.fd ≡ c.fd
    → IsTracked s
    → IsTracked (put fd c' s)
unfolding put
put-IsTracked fd c c' s found same h = (each, h.1)
  where
    each : (g : ℕ) → IsTrackedAt g (record { channels = insert fd c' s.channels; calls = s.calls })
    each g = elim (Bool-cases (g == fd)) [
      | inl here ↦
          let gf = (==_iff g fd).0 here in
          let alive = alive_of fd s c h found in
          inr (
            (c', rw (gf) (lookup-insert_self fd c' s.channels), same ∙ alive.0 ∙ sym gf),
            rw (gf) (alive.1),
          )
      | inr other ↦ elim (h.0 g) [
        | inl dead ↦ inl (lookup-insert_other fd g c' s.channels other ∙ dead.0, dead.1)
        | inr alive ↦ inr (
          (alive.0.0, lookup-insert_other fd g c' s.channels other ∙ alive.0.1, alive.0.2),
          alive.1,
        )
      ]
    ]

-- A call that does not change what is watched.
pub call-IsTracked :
    (k : Call) (s : Endpoint)
    → ((fd : ℕ) → watches fd (k ∷ s.calls) ≡ watches fd s.calls)
    → IsValidCall k s.calls
    → IsTracked s
    → IsTracked (call k s)
unfolding call
call-IsTracked k s same valid h = (each, (valid, h.1))
  where
    each : (g : ℕ) → IsTrackedAt g (record { channels = s.channels; calls = k ∷ s.calls })
    each g = elim (h.0 g) [
      | inl dead ↦ inl (dead.0, same g ∙ dead.1)
      | inr alive ↦ inr (alive.0, same g ∙ alive.1)
    ]

pub epoll_set-IsTracked :
    (fd : ℕ) (s s' : Endpoint) → epoll_set fd s ≡ some s' → IsTracked s → IsTracked s'
unfolding epoll_set watches
epoll_set-IsTracked fd s s' e h =
    let (c, found, made) = >>=-eq-some (lookup fd s.channels) _ e in
    let (own, watched) = alive_of fd s c h found in
    rw (sym (some-injective made))
      (call-IsTracked (Call.ctl_mod c.fd c.event) s (λ g. refl) (rw (own) watched) h)

pub update_channel-IsTracked :
    (fd events : ℕ) (s s' : Endpoint)
    → update_channel fd events s ≡ some s'
    → IsTracked s
    → IsTracked s'
unfolding update_channel Channel.set_event
update_channel-IsTracked fd events s s' e h =
    let (c, found, made) = >>=-eq-some (lookup fd s.channels) _ e in
    epoll_set-IsTracked fd (put fd (record c { event = events }) s) s' made
      (put-IsTracked fd c (record c { event = events }) s found refl h)
