-- ===== src/Openssl/Base64/Reads.antt =====
-- What Base64Decode returns.
use codechiev.Common.{
  ℕ, zero, suc, ◌+◌, ◌≤◌, ◌<◌, ◌≡◌, refl, ◌∙◌, Option, some, List, [], ◌∷◌, ◌++◌, length, replicate,
  ℤ, pos, pos-+ℤ, arith, length-append, length-replicate, append_assoc, append-nil, drop, le→leb,
}
use codechiev.Buffer.Memory.{load, store, c_str, load-append}
use codechiev.Openssl.{Openssl}
use codechiev.Openssl.Base64.{after_read, decode_loop, base64_decode}

-- A call that has written at most `n` bytes to an array of n bytes: they can be read.
pub written-load :
    (n : ℕ) (bytes : List ℕ)
    → length bytes ≤ n
    → (cells : List ℕ) × (store (replicate n zero) (pos 0) bytes ≡ some cells)
      × (load cells (pos 0) (pos (length bytes)) ≡ some bytes)
unfolding store
written-load n bytes h =
    let rest : List ℕ = drop (0 + length bytes) (replicate n zero) in
    (
      bytes ++ rest,
      rw
          (le→leb (0 + length bytes) (length (replicate n zero))
            (omega (arith, length-replicate n zero, h)))
          refl,
      load-append [] rest (bytes ++ rest) 0 bytes (length bytes) refl refl refl,
    )

module _ {Key Bio : Type 0} (ssl : Openssl Key Bio) where
  -- BIO_read as it is documented, on a chain that has the bytes: pieces of at most 16 of them, and 0
  -- at their end.
  pub data Yields : Bio → List ℕ → Type 0 where
    ends :
        {bio bio' : Bio} {rest : List ℕ}
        → ssl.bio_read bio 16 ≡ ((pos 0, rest), bio')
        → Yields bio []
    reads :
        {bio bio' : Bio} (bytes : List ℕ) {rest : List ℕ}
        → ssl.bio_read bio 16 ≡ ((pos (length bytes), bytes), bio')
        → 0 < length bytes
        → length bytes ≤ 16
        → Yields bio' rest
        → Yields bio (bytes ++ rest)

  after_read-more :
      (bytes : List ℕ) (next : List ℕ → ℤ → Option (ℤ × List ℕ)) (vec : List ℕ) (n : ℕ)
      → 0 < length bytes
      → length bytes ≤ 16
      → after_read (pos (length bytes)) bytes next vec (pos n)
        ≡ next (vec ++ bytes) (pos (n + length bytes))
  unfolding after_read
  after_read-more [] next vec n some_byte few = absurd (omega arith)
  after_read-more (b ∷ bytes) next vec n some_byte few =
      let (cells, stored, loaded) = written-load 16 (b ∷ bytes) few in
      rw (stored, loaded, pos-+ℤ n (suc (length bytes))) refl

  pub decode_loop-Yields :
      (fuel : ℕ) (bio : Bio) (bytes vec : List ℕ) (n : ℕ)
      → Yields bio bytes
      → length bytes < fuel
      → decode_loop ssl fuel bio vec (pos n) ≡ some (pos (n + length bytes), vec ++ bytes)
  unfolding decode_loop after_read
  decode_loop-Yields zero bio bytes vec n y enough = absurd (omega arith)
  decode_loop-Yields (suc fuel) bio _ vec n (ends e) enough =
      let sum : n + 0 ≡ n = omega arith in rw (e, append-nil vec, sum) refl
  decode_loop-Yields (suc fuel) bio _ vec n
        (reads {bio' = bio'} bytes {rest = rest} e some_byte few y) enough =
      let sum : n + length bytes + length rest ≡ n + length (bytes ++ rest) =
        omega (arith, length-append bytes rest) in
      rw (e) (
        after_read-more bytes (decode_loop ssl fuel bio') vec n some_byte few
        ∙ decode_loop-Yields fuel bio' rest (vec ++ bytes) (n + length bytes) y
            (omega (arith, length-append bytes rest))
        ∙ rw (sum, append_assoc vec bytes rest) refl)

  -- If BIO_read behaves as documented on the text, Base64Decode appends the bytes that the text stands
  -- for to the vector and returns their number; fuel for one round more than there are bytes is enough.
  pub base64_decode-Yields :
      (fuel : ℕ) (b64message bytes vec : List ℕ)
      → Yields (ssl.open_base64 (c_str b64message)) bytes
      → length bytes < fuel
      → base64_decode ssl fuel b64message vec ≡ some (pos (length bytes), vec ++ bytes)
  unfolding base64_decode
  base64_decode-Yields fuel b64message bytes vec y enough =
      decode_loop-Yields fuel (ssl.open_base64 (c_str b64message)) bytes vec 0 y enough
      ∙ (let sum : 0 + length bytes ≡ length bytes = omega arith in rw (sum) refl)
