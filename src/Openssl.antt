-- ===== src/Openssl.antt =====
-- codechiev/utility/openssl: RSA.cpp and Base64.cpp. OpenSSL is an argument of the definitions.
-- An operation returns `none` where a null key is used, where memory outside an array is touched, where
-- the end of a range to copy lies in front of its start, and where an `int` cannot hold a size.
pub mod Rsa
pub mod Base64
pub mod Pipeline
use codechiev.Common.{ℕ, Option, List, ℤ}

-- The calls of OpenSSL, on keys and on chains of a base64 filter and the memory it reads. A call
-- that fills an array returns its result and what it has written at the start of the array.
pub record Openssl (Key Bio : Type 0) : Type 0 where
  -- PEM_read_RSA_PUBKEY and PEM_read_RSAPrivateKey, on the text of the file
  pub read_public_key : List ℕ → Option Key
  pub read_private_key : List ℕ → Option Key
  -- RSA_public_encrypt and RSA_private_decrypt, with RSA_PKCS1_PADDING
  pub public_encrypt : Key → List ℕ → ℤ × List ℕ
  pub private_decrypt : Key → List ℕ → ℤ × List ℕ
  -- BIO_write and BIO_flush on a base64 filter: what stands in the memory behind it
  pub base64 : List ℕ → List ℕ
  pub open_base64 : List ℕ → Bio
  pub bio_read : Bio → ℕ → (ℤ × List ℕ) × Bio
