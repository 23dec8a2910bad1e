-- ===== src/Openssl/Base64.antt =====
-- codechiev/utility/openssl/Base64.cpp. The loop that reads runs on fuel.
pub mod Reads
use codechiev.Common.{
  ℕ, zero, suc, ◌^◌, Option, none, some, List, [], ◌∷◌, ◌++◌, length, replicate, ℤ, pos, negsuc,
  ◌+ℤ◌, ltb, guard, ◌>>=◌, ◌>>◌,
}
use codechiev.Buffer.Memory.{load, store, c_str}
use codechiev.Openssl.{Openssl}

-- The body of the loop after a read: `next` is the rest of the loop.
unfoldable pub after_read :
    ℤ → List ℕ → (List ℕ → ℤ → Option (ℤ × List ℕ)) → List ℕ → ℤ → Option (ℤ × List ℕ)
after_read (pos zero) bytes next vec rt_len = some (rt_len, vec)
after_read (pos (suc n)) bytes next vec rt_len = do
  buffer ← store (replicate 16 0) (pos 0) bytes
  copied ← load buffer (pos 0) (pos (suc n))
  next (vec ++ copied) (rt_len +ℤ pos (suc n))
after_read (negsuc n) bytes next vec rt_len = none

module _ {Key Bio : Type 0} (ssl : Openssl Key Bio) where
  unfoldable pub base64_encode : List ℕ → ℕ → Option (List ℕ)
  base64_encode source len = do
    guard (ltb len (2 ^ 31))
    bytes ← load source (pos 0) (pos len)
    some (ssl.base64 bytes)

  unfoldable pub decode_loop : ℕ → Bio → List ℕ → ℤ → Option (ℤ × List ℕ)
  decode_loop zero bio vec rt_len = none
  decode_loop (suc fuel) bio vec rt_len =
      let ((len, bytes), bio') = ssl.bio_read bio 16 in
      after_read len bytes (decode_loop fuel bio') vec rt_len

  -- The text is copied up to its first 0.
  unfoldable pub base64_decode : ℕ → List ℕ → List ℕ → Option (ℤ × List ℕ)
  base64_decode fuel b64message vec =
      decode_loop fuel (ssl.open_base64 (c_str b64message)) vec (pos 0)
