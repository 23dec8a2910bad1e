-- ===== src/Rpc/Frames.antt =====
-- What PbRpcChannel puts into the write buffer.
use Prim.Native.Nat.{bit_or}
use codechiev.Common.{
  ℕ, suc, ◌+◌, ◌-◌, ◌%◌, ◌^◌, ◌≤◌, ◌<◌, ◌≡◌, refl, sym, ap, ◌∙◌, some, List, [], ◌∷◌, ◌++◌, length,
  drop, All, pos, arith, length-append, length-drop, append_assoc, append-nil, gt→leb,
}
use codechiev.Common.Assoc.{lookup, lookup-insert_self, insert-insert}
use codechiev.Internet.Bytes.{Endian, be_bytes, length-be_bytes}
use codechiev.Internet.Order.{network32_bytes}
use codechiev.Buffer.{append, append_str}
use codechiev.Buffer.Memory.{c_str, c_str-nonzero}
use codechiev.Buffer.Layout.{layout, Fills, readable-layout}
use codechiev.Buffer.Append.{append_whole}
use codechiev.Channel
use codechiev.Channel.{Channel, buffer_size}
use codechiev.Coder.{append_int32}
use codechiev.Coder.Decode.{frame}
use codechiev.Endpoint
use codechiev.Endpoint.Calls.{Call}
use codechiev.Endpoint.{Endpoint, call, put, epollin, epollout}
use codechiev.Endpoint.Reading.{update_channel_lem}
use codechiev.Rpc.{append_length, call_method}

module _ (pre xs post : List ℕ) (full : Fills buffer_size pre xs post) where
  append_int32-layout :
      (e : Endian) (size : ℕ)
      → size < 2 ^ 32
      → 4 ≤ length post
      → append_int32 e buffer_size (layout pre xs post) size
        ≡ some (layout pre (xs ++ be_bytes 4 size) (drop 4 post))
  unfolding append_int32
  append_int32-layout e size small room =
      let same : size % 2 ^ 32 ≡ size = omega (arith, small) in
      rw
        (
          same,
          network32_bytes e e size,
          ap (λ (ys : List ℕ). append buffer_size (layout pre xs post) ys (pos 4))
                (sym (append-nil (be_bytes 4 size)))
              ∙ append_whole buffer_size pre xs post full (be_bytes 4 size) [] 4
                  (sym (length-be_bytes 4 size)) (omega (arith, room, length-be_bytes 4 size)),
        )
        refl

  -- The text of a message up to its first 0.
  append_str-layout :
      (msg text : List ℕ)
      → c_str (msg ++ (0 ∷ [])) ≡ text
      → length text ≤ length post
      → append_str buffer_size (layout pre xs post) (msg ++ (0 ∷ []))
        ≡ some (pos (length text), layout pre (xs ++ text) (drop (length text) post))
  unfolding append_str
  append_str-layout msg text is_text room = rw is_text (
      ap (λ (ys : List ℕ). append buffer_size (layout pre xs post) ys (pos (length text)))
        (sym (append-nil text))
      ∙ append_whole buffer_size pre xs post full text [] (length text) refl room)

-- The endpoint once the bytes are in the write buffer: the channel waits for output as well.
abbrev pub queued : ℕ → Endpoint → Channel → List ℕ → List ℕ → List ℕ → Endpoint
queued fd s c pre xs post =
    call (Call.ctl_mod c.fd (bit_or epollin epollout))
      (put fd (record c { event = bit_or epollin epollout; writebuf = layout pre xs post }) s)

module _ (fd : ℕ) (s : Endpoint) (c : Channel) (pre xs post : List ℕ)
    (full : Fills buffer_size pre xs post) where
  pub write-queued :
      (msg text : List ℕ)
      → lookup fd s.channels ≡ some c
      → c.writebuf ≡ layout pre xs post
      → c_str (msg ++ (0 ∷ [])) ≡ text
      → length text ≤ length post
      → 0 < length xs
      → Endpoint.write fd msg s ≡ some (queued fd s c pre (xs ++ text) (drop (length text) post))
  unfolding Endpoint.write Channel.write put call Channel.set_event
  write-queued msg text alive shape is_text room some_byte =
      let c₁ = record c { writebuf = layout pre (xs ++ text) (drop (length text) post) } in
      rw
        (
          alive,
          shape,
          append_str-layout pre xs post full msg text is_text room,
          readable-layout pre (xs ++ text) (drop (length text) post),
          gt→leb (length (xs ++ text) + 0) (0 + 0) (omega (arith, length-append xs text)),
          update_channel_lem fd (bit_or epollin epollout) c₁ (put fd c₁ s)
              (lookup-insert_self fd c₁ s.channels),
        )
        (ap
          (λ (m : List (ℕ × Channel)). some (record {
            channels = m;
            calls = Call.ctl_mod c.fd (bit_or epollin epollout) ∷ s.calls;
          }))
          (insert-insert fd (record c₁ { event = bit_or epollin epollout }) c₁ s.channels))

-- Before a call: the channel is alive, and its write buffer has room for a header and `size` bytes.
abbrev pub CanSend : ℕ → Endpoint → Channel → List ℕ → List ℕ → List ℕ → ℕ → Type 0
CanSend fd s c pre xs post size =
    (lookup fd s.channels ≡ some c)
    × (c.writebuf ≡ layout pre xs post)
    × Fills buffer_size pre xs post
    × (size + 4 ≤ length post)

module _ (e : Endian) (fd : ℕ) (s : Endpoint) (c : Channel) (pre xs post : List ℕ) where
  call_method-text :
      (serialized text : List ℕ)
      → CanSend fd s c pre xs post (length serialized)
      → c_str (serialized ++ (0 ∷ [])) ≡ text
      → length text ≤ length serialized
      → call_method e (some fd) serialized s
        ≡ some (
            queued fd s c pre
              ((xs ++ be_bytes 4 (length serialized)) ++ text)
              (drop (length text) (drop 4 post)))
  unfolding call_method append_length put call
  call_method-text serialized text (alive, shape, full, room) is_text fits =
      let head : List ℕ = be_bytes 4 (length serialized) in
      let four : length head ≡ 4 = length-be_bytes 4 (length serialized) in
      let left : length (drop 4 post) ≡ length post - 4 = length-drop 4 post in
      let xs₁ : List ℕ = xs ++ head in
      let c₁ = record c { writebuf = layout pre xs₁ (drop 4 post) } in
      let more : length xs₁ ≡ length xs + length head = length-append xs head in
      rw
        (
          alive,
          shape,
          append_int32-layout pre xs post full e (length serialized) (omega (arith, full, room))
              (omega (arith, room)),
          write-queued fd (put fd c₁ s) c₁ pre xs₁ (drop 4 post)
              (omega (arith, full, more, four, left, room)) serialized text
              (lookup-insert_self fd c₁ s.channels) refl is_text (omega (arith, left, room, fits))
              (omega (arith, more, four)),
        )
        (ap
          (λ (m : List (ℕ × Channel)). some (record {
            channels = m;
            calls = Call.ctl_mod c.fd (bit_or epollin epollout) ∷ s.calls;
          }))
          (insert-insert fd
            (record c₁ {
              event = bit_or epollin epollout;
              writebuf = layout pre (xs₁ ++ text) (drop (length text) (drop 4 post));
            })
            c₁ s.channels))

  -- `CallMethod` with a serialised request that has no 0 byte, on a channel whose write buffer has
  -- room for it and its header, appends the frame of the request to the write buffer and sets the
  -- channel to wait for input and output.
  pub call_method-sends :
      (serialized : List ℕ)
      → CanSend fd s c pre xs post (length serialized)
      → All (λ b. 0 < b) serialized
      → call_method e (some fd) serialized s
        ≡ some (queued fd s c pre (xs ++ frame serialized) (drop (length serialized) (drop 4 post)))
  call_method-sends serialized can nonzero =
      call_method-text serialized serialized can (c_str-nonzero serialized [] nonzero) (omega arith)
      ∙ ap (λ (ys : List ℕ). some (queued fd s c pre ys (drop (length serialized) (drop 4 post))))
          (append_assoc xs (be_bytes 4 (length serialized)) serialized)

  -- A serialised request with a 0 byte, on a channel with room for it and its header, is cut in
  -- front of its first 0: the write buffer gets the length of the whole request and the bytes in
  -- front of the 0 only.
  pub call_method-cuts :
      (front back : List ℕ)
      → CanSend fd s c pre xs post (length front + suc (length back))
      → All (λ b. 0 < b) front
      → call_method e (some fd) (front ++ (0 ∷ back)) s
        ≡ some (
            queued fd s c pre
              (xs ++ (be_bytes 4 (length front + suc (length back)) ++ front))
              (drop (length front) (drop 4 post)))
  call_method-cuts front back (alive, shape, full, room) nonzero =
      let size : length (front ++ (0 ∷ back)) ≡ length front + suc (length back) =
        length-append front (0 ∷ back) in
      call_method-text (front ++ (0 ∷ back)) front (alive, shape, full, omega (arith, size, room))
        (ap c_str (append_assoc front (0 ∷ back) (0 ∷ []))
          ∙ c_str-nonzero front (back ++ (0 ∷ [])) nonzero)
        (omega (arith, size))
      ∙ ap (λ (ys : List ℕ). some (queued fd s c pre ys (drop (length front) (drop 4 post))))
          (append_assoc xs (be_bytes 4 (length (front ++ (0 ∷ back)))) front
            ∙ ap (λ (n : ℕ). xs ++ (be_bytes 4 n ++ front)) size)
