-- ===== src/Endpoint/Reading/Rounds.antt =====
-- codechiev/net/TcpServer.cpp: the rounds of TcpEndpoint::onRead.
use codechiev.Common.{
  ℕ, ◌+◌, ◌-◌, ◌≤◌, ◌<◌, ◌≡◌, ◌≢◌, refl, sym, ap, ◌∙◌, false, Option, none, some, List, [], ◌∷◌,
  ◌++◌, length, drop, map, All, pos, negsuc, arith, length-append, append_assoc, append-nil,
  drop-drop, length-drop, gt→leb, ◌==◌,
}
use mathlib.Core.Path.{ap₂}
use codechiev.Common.Assoc.{lookup, insert, lookup-insert_self, insert-insert, insert-lookup}
use codechiev.Buffer.{append}
use codechiev.Buffer.Layout.{layout, Fills, readable-layout}
use codechiev.Buffer.Append.{append_whole}
use codechiev.Channel
use codechiev.Channel.{Channel, buffer_size, buffer_each_time_size}
use codechiev.Coder.Reassembly.{joined}
use codechiev.Endpoint.Calls.{Call}
use codechiev.Endpoint.{
  Endpoint, Callbacks, Answer, eagain, epollin, call, put, is_zero, epoll_set, update_channel,
  reading_done, store_read, on_read,
}

-- The answers while bytes arrive, and the one when there are none for now.
abbrev pub got : ℕ → List ℕ → Answer
got errno c = record { len = pos (length c); bytes = c; errno = errno }

abbrev pub failed : ℕ → Answer
failed errno = record { len = negsuc 0; bytes = []; errno = errno }

-- A piece that `read` can return: some bytes, and not more than the array holds.
abbrev pub IsPiece : List ℕ → Type 0
IsPiece c = (0 < length c) × (length c ≤ buffer_each_time_size)

pub update_channel_lem :
    (fd events : ℕ) (c : Channel) (s : Endpoint)
    → lookup fd s.channels ≡ some c
    → update_channel fd events s
      ≡ some (call (Call.ctl_mod c.fd events) (put fd (Channel.set_event events c) s))
unfolding update_channel epoll_set put Channel.set_event
update_channel_lem fd events c s e =
    rw (e, lookup-insert_self fd (record c { event = events }) s.channels) refl

module _ (fd : ℕ) (s : Endpoint) (c : Channel) (alive : lookup fd s.channels ≡ some c)
    (pre xs post : List ℕ) (shape : c.readbuf ≡ layout pre xs post) where
  -- An answer of -1 stores nothing.
  store_failed : (errno : ℕ) → store_read fd (failed errno) s ≡ some (put fd c s)
  unfolding store_read append
  store_failed errno = rw alive refl

  store_piece :
      (errno : ℕ) (piece : List ℕ)
      → IsPiece piece
      → Fills buffer_size pre xs post
      → length piece ≤ length post
      → store_read fd (got errno piece) s
        ≡ some
            (put fd (record c { readbuf = layout pre (xs ++ piece) (drop (length piece) post) }) s)
  unfolding store_read
  store_piece errno piece h full fits =
      rw (alive, shape, append_whole buffer_size pre xs post full piece _ (length piece) refl fits)
        refl

-- The channel with more bytes in its read buffer.
abbrev pub with_bytes : ℕ → Endpoint → Channel → List ℕ → List ℕ → List ℕ → Endpoint
with_bytes fd s c pre xs post = put fd (record c { readbuf = layout pre xs post }) s

nonzero : (n : ℕ) → 0 < n → (n == 0) ≡ false
nonzero n h = ground arith

pub other_errno : (errno : ℕ) → errno ≢ eagain → (errno == eagain) ≡ false
other_errno errno h = ground arith

store_next :
    (fd errno : ℕ) (piece : List ℕ) (s : Endpoint) (c : Channel) (pre xs post : List ℕ)
    → IsPiece piece
    → Fills buffer_size pre xs post
    → length piece ≤ length post
    → store_read fd (got errno piece) (with_bytes fd s c pre xs post)
      ≡ some (with_bytes fd s c pre (xs ++ piece) (drop (length piece) post))
unfolding put
store_next fd errno piece s c pre xs post h full fits =
    let c₁ = record c { readbuf = layout pre xs post } in
    store_piece fd (put fd c₁ s) c₁ (lookup-insert_self fd c₁ s.channels) pre xs post refl errno
      piece h full fits
    ∙ ap (λ (m : List (ℕ × Channel)). some (record s { channels = m }))
        (insert-insert fd _ c₁ s.channels)

pub store_none :
    (fd errno : ℕ) (s : Endpoint) (c : Channel) (pre xs post : List ℕ)
    → store_read fd (failed errno) (with_bytes fd s c pre xs post)
      ≡ some (with_bytes fd s c pre xs post)
unfolding put
store_none fd errno s c pre xs post =
    let c₁ = record c { readbuf = layout pre xs post } in
    store_failed fd (put fd c₁ s) c₁ (lookup-insert_self fd c₁ s.channels) pre xs post refl errno
    ∙ ap (λ (m : List (ℕ × Channel)). some (record s { channels = m }))
        (insert-insert fd c₁ c₁ s.channels)

module _ (cb : Callbacks) (close : ℕ → Endpoint → Option Endpoint) (fd errno : ℕ)
    (last : List Answer) (other : errno ≢ eagain) where
  -- One round that goes on.
  pub on_read-next :
      (a : Answer) (s s' : Endpoint) (answers : List Answer)
      → is_zero a.len ≡ false
      → store_read fd a s ≡ some s'
      → (a.errno == eagain) ≡ false
      → on_read cb close fd (a ∷ answers) s ≡ on_read cb close fd answers s'
  unfolding on_read
  on_read-next a s s' answers some_bytes stored more = rw (some_bytes, stored, more, on_read) refl

  -- Reading pieces and then `last` is storing the pieces and reading `last`.
  pub on_read-pieces :
      (pieces : List (List ℕ)) (s : Endpoint) (c : Channel) (pre xs post : List ℕ)
      → Fills buffer_size pre xs post
      → All IsPiece pieces
      → length (joined pieces) ≤ length post
      → on_read cb close fd (map (got errno) pieces ++ last) (with_bytes fd s c pre xs post)
        ≡ on_read cb close fd last
            (with_bytes fd s c pre (xs ++ joined pieces) (drop (length (joined pieces)) post))
  unfolding on_read
  on_read-pieces [] s c pre xs post full h fits =
      ap (λ (ys : List ℕ). on_read cb close fd last (with_bytes fd s c pre ys post))
        (sym (append-nil xs))
  on_read-pieces (p ∷ ps) s c pre xs post full h fits =
      let total : length (p ++ joined ps) ≡ length p + length (joined ps) =
        length-append p (joined ps) in
      let left : length (drop (length p) post) ≡ length post - length p =
        length-drop (length p) post in
      on_read-next (got errno p) (with_bytes fd s c pre xs post)
        (with_bytes fd s c pre (xs ++ p) (drop (length p) post)) (map (got errno) ps ++ last)
        (nonzero (length p) h.0.0)
        (store_next fd errno p s c pre xs post h.0 full (omega (arith, fits, total)))
        (other_errno errno other)
      ∙ (on_read-pieces ps s c pre (xs ++ p) (drop (length p) post)
            (omega (arith, full, length-append xs p, left, total, fits)) h.1
            (omega (arith, left, total, fits))
          ∙ ap₂
              (λ (ys : List ℕ) (zs : List ℕ).
                on_read cb close fd last (with_bytes fd s c pre ys zs))
              (append_assoc xs p (joined ps))
              (drop-drop (length (joined ps)) (length p) post
                ∙ ap (λ (k : ℕ). drop k post) (sym total)))

-- A channel that is stored already.
pub with_bytes-same :
    (fd : ℕ) (s : Endpoint) (c : Channel) (pre xs post : List ℕ)
    → lookup fd s.channels ≡ some c
    → c.readbuf ≡ layout pre xs post
    → with_bytes fd s c pre xs post ≡ s
unfolding put
with_bytes-same fd s c pre xs post alive shape =
    let same : record c { readbuf = layout pre xs post } ≡ c =
      λ i. record c { readbuf = sym shape i } in
    ap (λ (m : List (ℕ × Channel)). record s { channels = m })
      (ap (λ (x : Channel). insert fd x s.channels) same ∙ insert-lookup fd c s.channels alive)

-- The channel behind a round: its bytes are stored, and it waits for input alone.
abbrev pub after_reading : ℕ → Endpoint → Channel → List ℕ → List ℕ → List ℕ → Endpoint
after_reading fd s c pre xs post =
    call (Call.ctl_mod c.fd epollin)
      (put fd (record c { event = epollin; readbuf = layout pre xs post }) s)

pub reading_done-set :
    (cb : Callbacks) (fd : ℕ) (s : Endpoint) (c : Channel) (pre xs post : List ℕ)
    → (f : ℕ → Endpoint → Option Endpoint) → cb.on_data ≡ some f
    → 0 < length xs
    → reading_done cb fd (with_bytes fd s c pre xs post) ≡ f fd (after_reading fd s c pre xs post)
unfolding reading_done call put Channel.set_event
reading_done-set cb fd s c pre xs post f set some_byte =
    let c₁ = record c { readbuf = layout pre xs post } in
    let c₂ = record c₁ { event = epollin } in
    rw
      (
        update_channel_lem fd epollin c₁ (put fd c₁ s) (lookup-insert_self fd c₁ s.channels),
        set,
        lookup-insert_self fd c₂ (insert fd c₁ s.channels),
        readable-layout pre xs post,
        gt→leb (length xs + 0) (0 + 0) (omega arith),
      )
      (ap
        (λ (m : List (ℕ × Channel)).
          f fd (record { channels = m; calls = Call.ctl_mod c.fd epollin ∷ s.calls }))
        (insert-insert fd c₂ c₁ s.channels))

pub reading_done-unset :
    (cb : Callbacks) (fd : ℕ) (s : Endpoint) (c : Channel) (pre xs post : List ℕ)
    → cb.on_data ≡ none
    → reading_done cb fd (with_bytes fd s c pre xs post) ≡ some (after_reading fd s c pre xs post)
unfolding reading_done call put Channel.set_event
reading_done-unset cb fd s c pre xs post unset =
    let c₁ = record c { readbuf = layout pre xs post } in
    let c₂ = record c₁ { event = epollin } in
    rw (update_channel_lem fd epollin c₁ (put fd c₁ s) (lookup-insert_self fd c₁ s.channels), unset)
      (ap
        (λ (m : List (ℕ × Channel)).
          some (record { channels = m; calls = Call.ctl_mod c.fd epollin ∷ s.calls }))
        (insert-insert fd c₂ c₁ s.channels))
