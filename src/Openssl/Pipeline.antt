-- ===== src/Openssl/Pipeline.antt =====
-- A text is encrypted, encoded, decoded and decrypted, as utility/tests/openssl_test.cpp does it.
use codechiev.Common.{
  ℕ, ◌^◌, ◌≤◌, ◌<◌, ◌≡◌, refl, sym, Option, some, List, [], ◌∷◌, ◌++◌, length, ℤ, pos, arith, All,
  ◌>>=◌, lt→ltb, append-nil,
}
use codechiev.Buffer.Memory.{load, c_str, c_str-nonzero, load-append}
use codechiev.Openssl.{Openssl}
use codechiev.Openssl.Rsa.{RsaUtil, public_pem_encrypt, private_pem_decrypt, copy_out}
use codechiev.Openssl.Base64.{base64_encode, base64_decode}
use codechiev.Openssl.Base64.Reads.{written-load, Yields, base64_decode-Yields}

copy_out-all :
    (bytes vec : List ℕ)
    → length bytes ≤ 256
    → copy_out (pos (length bytes), bytes) vec ≡ some (pos (length bytes), vec ++ bytes)
unfolding copy_out
copy_out-all bytes vec few =
    let (cells, stored, loaded) = written-load 256 bytes few in rw (stored, loaded) refl

whole-load : (bytes : List ℕ) → load bytes (pos 0) (pos (length bytes)) ≡ some bytes
whole-load bytes = load-append [] [] bytes 0 bytes (length bytes) (sym (append-nil bytes)) refl refl

module _ {Key Bio : Type 0} (ssl : Openssl Key Bio) where
  -- OpenSSL does what it is documented to do on one text.
  pub record Serves (public private : Key) (text sealed : List ℕ) : Type 0 where
    pub encrypts : ssl.public_encrypt public text ≡ (pos (length sealed), sealed)
    pub decrypts : ssl.private_decrypt private sealed ≡ (pos (length text), text)
    pub is_text : All (λ c. 0 < c) (ssl.base64 sealed)
    pub yields : Yields ssl (ssl.open_base64 (ssl.base64 sealed)) sealed

  unfoldable pub sends : RsaUtil Key → List ℕ → Option (List ℕ)
  sends rsa text = do
    encrypted ← public_pem_encrypt ssl rsa text []
    base64_encode ssl encrypted.1 (length encrypted.1)

  -- The encoded text as a C string.
  unfoldable pub receives : ℕ → RsaUtil Key → List ℕ → Option (ℤ × List ℕ)
  receives fuel rsa encoded = do
    decoded ← base64_decode ssl fuel (encoded ++ (0 ∷ [])) []
    private_pem_decrypt ssl rsa decoded.1 (pos (length decoded.1)) []

  module _ (public private : Key) (rsa : RsaUtil Key) (text sealed : List ℕ)
      (serves : Serves public private text sealed) (small : length text ≤ 256)
      (fits : length sealed ≤ 256) where
    sends_lem : rsa.pub_rsa ≡ some public → sends rsa text ≡ some (ssl.base64 sealed)
    unfolding sends public_pem_encrypt base64_encode
    sends_lem has =
        rw
          (
            lt→ltb (length text) (2 ^ 31) (omega (arith, small)),
            has,
            serves.encrypts,
            copy_out-all sealed [] fits,
            lt→ltb (length sealed) (2 ^ 31) (omega (arith, fits)),
            whole-load sealed,
          )
          refl

    receives_lem :
        (fuel : ℕ)
        → length sealed < fuel
        → rsa.pri_rsa ≡ some private
        → receives fuel rsa (ssl.base64 sealed) ≡ some (pos (length text), text ++ (0 ∷ []))
    unfolding receives private_pem_decrypt
    receives_lem fuel enough has =
        rw
          (
            base64_decode-Yields ssl fuel (ssl.base64 sealed ++ (0 ∷ [])) sealed [] decoded enough,
            whole-load sealed,
            has,
            serves.decrypts,
            copy_out-all text [] small,
          )
          refl
      where
        decoded : Yields ssl (ssl.open_base64 (c_str (ssl.base64 sealed ++ (0 ∷ [])))) sealed
        decoded = rw (c_str-nonzero (ssl.base64 sealed) [] serves.is_text) serves.yields

    -- A text that is encrypted with the public key and encoded by Base64Encode comes back when it
    -- is decoded by Base64Decode and decrypted with the private key, behind it a 0, if OpenSSL does
    -- as documented on it, neither the text nor what it is encrypted to is longer than the arrays
    -- of 256 bytes, and both keys have been read.
    pub receives-sends :
        (fuel : ℕ)
        → length sealed < fuel
        → rsa.pub_rsa ≡ some public
        → rsa.pri_rsa ≡ some private
        → (sends rsa text >>= receives fuel rsa) ≡ some (pos (length text), text ++ (0 ∷ []))
    receives-sends fuel enough has_public has_private =
        rw (sends_lem has_public) (receives_lem fuel enough has_private)
