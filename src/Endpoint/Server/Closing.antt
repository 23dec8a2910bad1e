-- ===== src/Endpoint/Server/Closing.antt =====
-- Closing a channel keeps the poll and the map of channels together, and what is asked of callbacks.
use codechiev.Common.{
  ℕ, ◌≡◌, refl, sym, ap, ◌∙◌, inl, inr, false, Option, none, some, List, [], ◌∷◌, ◌==◌, ==-self,
  ==_iff, Bool-cases, >>=-eq-some, some-injective, arith,
}
use codechiev.Common.Assoc.{
  lookup, erase, lookup-insert_self, lookup-insert_other, lookup-erase_self,
}
use codechiev.Channel
use codechiev.Channel.{Channel, buffer_size}
use codechiev.Endpoint.Calls.{Call}
use codechiev.Endpoint.{
  Endpoint, Callbacks, put, call, call_if, epoll_del, del_channel, on_close_base,
}
use codechiev.Endpoint.Server.{on_close}
use codechiev.Endpoint.Server.Tracking.{watches, AllValid, IsTrackedAt, IsTracked, alive_of}

-- While the close callback runs, the channel is alive and no longer watched.
abbrev pub IsClosing : ℕ → Endpoint → Type 0
IsClosing x s =
    ((fd : ℕ) → (x == fd) ≡ false → IsTrackedAt fd s)
    × ((c : Channel) × (lookup x s.channels ≡ some c) × (c.fd ≡ x))
    × (watches x s.calls ≡ false)
    × AllValid s.calls

abbrev pub Callback : Type 0
Callback = Option (ℕ → Endpoint → Option Endpoint)

abbrev pub KeepsTracked : Callback → Type 0
KeepsTracked none = Unit {0}
KeepsTracked (some f) = (fd : ℕ) (s s' : Endpoint) → f fd s ≡ some s' → IsTracked s → IsTracked s'

abbrev pub KeepsClosing : Callback → Type 0
KeepsClosing none = Unit {0}
KeepsClosing (some f) =
    (fd : ℕ) (s s' : Endpoint) → f fd s ≡ some s' → IsClosing fd s → IsClosing fd s'

-- What a server's callbacks are asked for.
abbrev pub CallbacksKeep : Callbacks → Type 0
CallbacksKeep cb = KeepsTracked cb.on_connect × KeepsTracked cb.on_data × KeepsClosing cb.on_close

pub call_if-IsTracked :
    (f : Callback) (fd : ℕ) (s s' : Endpoint)
    → KeepsTracked f
    → call_if f fd s ≡ some s'
    → IsTracked s
    → IsTracked s'
call_if-IsTracked none fd s s' keeps e h = rw (sym (some-injective e)) h
call_if-IsTracked (some f) fd s s' keeps e h = keeps fd s s' e h

call_if-IsClosing :
    (f : Callback) (fd : ℕ) (s s' : Endpoint)
    → KeepsClosing f
    → call_if f fd s ≡ some s'
    → IsClosing fd s
    → IsClosing fd s'
call_if-IsClosing none fd s s' keeps e h = rw (sym (some-injective e)) h
call_if-IsClosing (some f) fd s s' keeps e h = keeps fd s s' e h

lookup-erase_other :
    (k other : ℕ) (m : List (ℕ × Channel))
    → (k == other) ≡ false
    → lookup other (erase k m) ≡ lookup other m
unfolding lookup erase
lookup-erase_other k other [] h = refl
lookup-erase_other k other ((i, w) ∷ m) h = ground (arith, h, lookup-erase_other k other m h)

pub flip : (x g : ℕ) → (x == g) ≡ false → (g == x) ≡ false
flip x g h = ground (arith, h)

-- The poll gives up a channel, and its descriptor is closed.
closing :
    (x : ℕ) (s : Endpoint) (c : Channel)
    → lookup x s.channels ≡ some c
    → IsTracked s
    → IsClosing x (call (Call.close x) (put x (Channel.close c) (call (Call.ctl_del x) s)))
unfolding call put Channel.close watches
closing x s c found h = (
  others,
  (
    record c { connected = false },
    lookup-insert_self x (record c { connected = false }) s.channels,
    (alive_of x s c h found).0,
  ),
  rw (==-self x) refl,
  (tt, ((alive_of x s c h found).1, h.1)),
)
  where
    others :
        (g : ℕ)
        → (x == g) ≡ false
        → IsTrackedAt g (call (Call.close x) (put x (Channel.close c) (call (Call.ctl_del x) s)))
    others g other = elim (h.0 g) [
      | inl dead ↦ inl (
        lookup-insert_other x g (record c { connected = false }) s.channels (flip x g other)
            ∙ dead.0,
        rw (other) dead.1,
      )
      | inr alive ↦ inr (
        (
          alive.0.0,
          lookup-insert_other x g (record c { connected = false }) s.channels (flip x g other)
              ∙ alive.0.1,
          alive.0.2,
        ),
        rw (other) alive.1,
      )
    ]

finishing :
    (x : ℕ) (s : Endpoint) → IsClosing x s → IsTracked (record s { channels = erase x s.channels })
finishing x s h = (each, h.3)
  where
    each : (g : ℕ) → IsTrackedAt g (record { channels = erase x s.channels; calls = s.calls })
    each g = elim (Bool-cases (x == g)) [
      | inl here ↦
          let xg = (==_iff x g).0 here in
          inl (rw (sym xg) (lookup-erase_self x s.channels), rw (sym xg) (h.2))
      | inr other ↦ elim (h.0 g other) [
        | inl dead ↦ inl (lookup-erase_other x g s.channels other ∙ dead.0, dead.1)
        | inr alive ↦
            inr
              ((alive.0.0, lookup-erase_other x g s.channels other ∙ alive.0.1, alive.0.2), alive.1)
      ]
    ]

module _ (cb : Callbacks) (keeps : CallbacksKeep cb) where
  on_close_base-IsClosing :
      (x : ℕ) (s s' : Endpoint) → on_close_base cb x s ≡ some s' → IsTracked s → IsClosing x s'
  unfolding on_close_base del_channel epoll_del call
  on_close_base-IsClosing x s s' e h =
      let (s₁, deleted, rest) = >>=-eq-some (del_channel x s) _ e in
      let (c, found, made) = >>=-eq-some (lookup x s.channels) _ deleted in
      let (own, watched) = alive_of x s c h found in
      let is_s₁ : call (Call.ctl_del x) s ≡ s₁ =
        ap (λ n. call (Call.ctl_del n) s) (sym own) ∙ some-injective made in
      let rest₁ = rw (sym is_s₁, found, own) at rest in
      call_if-IsClosing cb.on_close x
        (call (Call.close x) (put x (Channel.close c) (call (Call.ctl_del x) s))) s' keeps.2 rest₁
        (closing x s c found h)

  pub on_close-IsTracked :
      (x : ℕ) (s s' : Endpoint) → on_close cb x s ≡ some s' → IsTracked s → IsTracked s'
  unfolding on_close
  on_close-IsTracked x s s' e h =
      let (s₁, closed, rest) = >>=-eq-some (on_close_base cb x s) _ e in
      let (c, found, made) = >>=-eq-some (lookup x s₁.channels) _ rest in
      let k = on_close_base-IsClosing x s s₁ closed h in
      let own : c.fd ≡ x =
        ap (λ (d : Channel). d.fd) (some-injective (sym found ∙ k.1.1)) ∙ k.1.2 in
      let made₁ = rw (own) at made in rw (sym (some-injective made₁)) (finishing x s₁ k)
