-- ===== src/Endpoint/Server/Output.antt =====
-- What is written to a channel keeps the poll and the map of channels together.
use codechiev.Common.{
  ℕ, ◌≡◌, refl, sym, ap, ◌∙◌, inl, inr, Bool, true, false, not, Option, some, List, [], ◌∷◌, ◌++◌,
  ◌==◌, if◌then◌else◌, Bool-cases, Option-cases, >>=-eq-some, if-eq-some, some-injective, pos,
  negsuc, ℤ, leb_ℤ, take,
}
use Prim.Native.Nat.{bit_or}
use codechiev.Common.Assoc.{lookup}
use codechiev.Buffer
use codechiev.Channel
use codechiev.Channel.{Channel, buffer_size}
use codechiev.Endpoint.Calls.{Call}
use codechiev.Endpoint.{
  Endpoint, Callbacks, Answer, put, update_channel, on_write, start_write, offer, record_sent,
  writing_later, writing_done, write, is_zero, eagain, epollin, epollout,
}
use codechiev.Endpoint.Server.Tracking.{
  watches, IsTracked, alive_of, put-IsTracked, call-IsTracked, epoll_set-IsTracked,
  update_channel-IsTracked,
}
use codechiev.Endpoint.Server.Closing.{CallbacksKeep}
use codechiev.Endpoint.Server.Handlers.{ended-IsTracked}

record_sent-IsTracked :
    (x : ℕ) (len : ℤ) (offered : List ℕ) (s : Endpoint)
    → watches x s.calls ≡ true
    → IsTracked s
    → IsTracked (record_sent x len offered s)
unfolding record_sent watches
record_sent-IsTracked x (pos n) offered s watched h =
    call-IsTracked (Call.sent x (take n offered)) s (λ g. refl) watched h
record_sent-IsTracked x (negsuc n) offered s watched h = h

writing_later-IsTracked :
    (x : ℕ) (s s' : Endpoint) → writing_later x s ≡ some s' → IsTracked s → IsTracked s'
unfolding writing_later
writing_later-IsTracked x s s' e h =
    let (c, found, rest) = >>=-eq-some (lookup x s.channels) _ e in
    let (readable, measured, rest₁) = >>=-eq-some (Buffer.readable c.writebuf) _ rest in
    let (s₁, updated, last) =
      >>=-eq-some
        (update_channel x
          (if not (leb_ℤ readable (pos 0)) then bit_or epollin epollout else epollin) s)
        _ rest₁ in
    epoll_set-IsTracked x s₁ s' last (update_channel-IsTracked x _ s s₁ updated h)

writing_done-IsTracked :
    (x : ℕ) (s s' : Endpoint) → writing_done x s ≡ some s' → IsTracked s → IsTracked s'
unfolding writing_done
writing_done-IsTracked x s s' e h =
    let (c, found, rest) = >>=-eq-some (lookup x s.channels) _ e in
    let c' : Channel = record c { writebuf = Buffer.readall buffer_size c.writebuf } in
    update_channel-IsTracked x epollin (put x c' s) s' rest (put-IsTracked x c c' s found refl h)

start_write-found :
    (x : ℕ) (s : Endpoint) (c : Channel) (offered : List ℕ)
    → start_write x s ≡ some (c, offered)
    → lookup x s.channels ≡ some c
unfolding start_write
start_write-found x s c offered e =
    let (d, found, rest) = >>=-eq-some (lookup x s.channels) _ e in
    let (bytes, given, made) = >>=-eq-some (offer d.writebuf) _ rest in
    found ∙ ap (λ (p : Channel × List ℕ). some p.0) (some-injective made)

-- What `write` has taken leaves the buffer.
sent_on :
    (x : ℕ) (c c' : Channel) (len : ℤ) (offered : List ℕ) (s : Endpoint)
    → lookup x s.channels ≡ some c
    → c'.fd ≡ c.fd
    → IsTracked s
    → IsTracked (record_sent x len offered (put x c' s))
unfolding put
sent_on x c c' len offered s found same h =
    record_sent-IsTracked x len offered (put x c' s) (alive_of x s c h found).1
      (put-IsTracked x c c' s found same h)

module _ (cb : Callbacks) (keeps : CallbacksKeep cb) where
  pub on_write-IsTracked :
      (x : ℕ) (answers : List Answer) (s s' : Endpoint) (o : Option Bool)
      → on_write x answers s ≡ some (o, s')
      → IsTracked s
      → IsTracked s'
  unfolding on_write
  on_write-IsTracked x [] s s' o e h =
      rw (sym (ap (λ (p : Option Bool × Endpoint). p.1) (some-injective e))) h
  on_write-IsTracked x (a ∷ answers) s s' o e h = elim (Option-cases (start_write x s)) [
    | inl fault ↦ let never = rw (fault, on_write) at e in cc
    | inr started ↦
        let c : Channel = started.0.0 in
        let offered : List ℕ = started.0.1 in
        elim (Bool-cases (is_zero a.len)) [
          | inl z ↦
              ended-IsTracked cb keeps (writing_done x s) false o s'
                (rw (started.1, z, on_write) at e) (λ t made. writing_done-IsTracked x s t made h)
          | inr nz ↦
              let c' : Channel = record c { writebuf = Buffer.read c.writebuf a.len } in
              let s₁ : Endpoint = record_sent x a.len offered (put x c' s) in
              let kept : IsTracked s₁ =
                sent_on x c c' a.len offered s (start_write-found x s c offered started.1) refl h in
              elim (Bool-cases (a.errno == eagain)) [
                | inl again ↦
                    ended-IsTracked cb keeps (writing_later x s₁) false o s'
                      (rw (started.1, nz, again, on_write) at e)
                      (λ t made. writing_later-IsTracked x s₁ t made kept)
                | inr more ↦
                    on_write-IsTracked x answers s₁ s' o (rw (started.1, nz, more, on_write) at e)
                      kept
              ]
        ]
  ]

-- TcpEndpoint::write, which callbacks call.
pub write-IsTracked :
    (x : ℕ) (msg : List ℕ) (s s' : Endpoint) → write x msg s ≡ some s' → IsTracked s → IsTracked s'
unfolding write Channel.write
write-IsTracked x msg s s' e h =
    let (c, found, rest) = >>=-eq-some (lookup x s.channels) _ e in
    let (c', written, rest₁) = >>=-eq-some (Channel.write c msg) _ rest in
    let (stored, appended, made) =
      >>=-eq-some (Buffer.append_str buffer_size c.writebuf (msg ++ (0 ∷ []))) _ written in
    let kept : IsTracked (put x c' s) =
      put-IsTracked x c c' s found (sym (ap (λ (d : Channel). d.fd) (some-injective made))) h in
    let (readable, measured, last) = >>=-eq-some (Buffer.readable c'.writebuf) _ rest₁ in
    if-eq-some (not (leb_ℤ readable (pos 0))) _ _ last
      (λ updated. update_channel-IsTracked x (bit_or epollin epollout) (put x c' s) s' updated kept)
      (λ same. rw (sym (some-injective same)) kept)
