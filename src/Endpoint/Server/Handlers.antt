-- ===== src/Endpoint/Server/Handlers.antt =====
-- Reading from a channel keeps the poll and the map of channels together.
use codechiev.Common.{
  ℕ, ◌≡◌, refl, sym, ap, inl, inr, Bool, true, false, not, Option, none, some, List, [], ◌∷◌, ◌==◌,
  if◌then◌else◌, Bool-cases, Option-cases, ◌>>=◌, >>=-eq-some, if-eq-some, some-injective, pos,
  leb_ℤ,
}
use codechiev.Common.Assoc.{lookup}
use codechiev.Buffer
use codechiev.Channel.{buffer_size}
use codechiev.Endpoint.{
  Endpoint, Callbacks, Answer, update_channel, on_read, store_read, reading_done, is_zero, eagain,
  epollin, round_buffer,
}
use codechiev.Endpoint.Server.{on_close}
use codechiev.Endpoint.Server.Tracking.{IsTracked, put-IsTracked, update_channel-IsTracked}
use codechiev.Endpoint.Server.Closing.{Callback, KeepsTracked, CallbacksKeep, on_close-IsTracked}

module _ (cb : Callbacks) (keeps : CallbacksKeep cb) where
  reading_done-IsTracked :
      (x : ℕ) (s s' : Endpoint) → reading_done cb x s ≡ some s' → IsTracked s → IsTracked s'
  unfolding reading_done
  reading_done-IsTracked x s s' e h =
      let (s₁, updated, rest) = >>=-eq-some (update_channel x epollin s) _ e in
      told cb.on_data keeps.1 s₁ (update_channel-IsTracked x epollin s s₁ updated h) rest
    where
      told :
          (f : Callback)
          → KeepsTracked f
          → (s₁ : Endpoint) → IsTracked s₁
          → (elim f [
            | none ↦ some s₁
            | some f ↦ (do
              c ← lookup x s₁.channels
              readable ← Buffer.readable c.readbuf
              if not (leb_ℤ readable (pos 0)) then f x s₁ else some s₁)
          ])
            ≡ some s'
          → IsTracked s'
      told none k s₁ t e = rw (sym (some-injective e)) t
      told (some f) k s₁ t e =
          let (c, found, rest) = >>=-eq-some (lookup x s₁.channels) _ e in
          let (readable, measured, last) = >>=-eq-some (Buffer.readable c.readbuf) _ rest in
          if-eq-some (not (leb_ℤ readable (pos 0))) (f x s₁) (some s₁) last
            (λ told. k x s₁ s' told t) (λ same. rw (sym (some-injective same)) t)

  store_read-IsTracked :
      (x : ℕ) (a : Answer) (s s' : Endpoint)
      → store_read x a s ≡ some s'
      → IsTracked s
      → IsTracked s'
  unfolding store_read
  store_read-IsTracked x a s s' e h =
      let (c, found, rest) = >>=-eq-some (lookup x s.channels) _ e in
      let (stored, appended, made) =
        >>=-eq-some (Buffer.append buffer_size c.readbuf (round_buffer a.bytes) a.len) _ rest in
      rw (sym (some-injective made))
        (put-IsTracked x c (record c { readbuf = stored.1 }) s found refl h)

  -- What a handler has done last.
  pub ended-IsTracked :
      (m : Option Endpoint) (b : Bool) (o : Option Bool) (s' : Endpoint)
      → (let r : Option (Option Bool × Endpoint) = (do t ← m; some (some b, t)) in r) ≡ some (o, s')
      → ((t : Endpoint) → m ≡ some t → IsTracked t)
      → IsTracked s'
  ended-IsTracked m b o s' e keep =
      let (t, made, last) = >>=-eq-some m _ e in
      rw (sym (ap (λ (p : Option Bool × Endpoint). p.1) (some-injective last))) (keep t made)

  pub on_read-IsTracked :
      (x : ℕ) (answers : List Answer) (s s' : Endpoint) (o : Option Bool)
      → on_read cb (on_close cb) x answers s ≡ some (o, s')
      → IsTracked s
      → IsTracked s'
  unfolding on_read
  on_read-IsTracked x [] s s' o e h =
      rw (sym (ap (λ (p : Option Bool × Endpoint). p.1) (some-injective e))) h
  on_read-IsTracked x (a ∷ answers) s s' o e h = elim (Bool-cases (is_zero a.len)) [
    | inl z ↦
        ended-IsTracked (on_close cb x s) true o s' (rw (z, on_read) at e)
          (λ t made. on_close-IsTracked cb keeps x s t made h)
    | inr nz ↦ elim (Option-cases (store_read x a s)) [
      | inl fault ↦ let never = rw (nz, fault, on_read) at e in cc
      | inr stored ↦
          let kept = store_read-IsTracked x a s stored.0 stored.1 h in
          elim (Bool-cases (a.errno == eagain)) [
            | inl again ↦
                ended-IsTracked (reading_done cb x stored.0) false o s'
                  (rw (nz, stored.1, again, on_read) at e)
                  (λ t made. reading_done-IsTracked x stored.0 t made kept)
            | inr more ↦
                on_read-IsTracked x answers stored.0 s' o (rw (nz, stored.1, more, on_read) at e)
                  kept
          ]
    ]
  ]
