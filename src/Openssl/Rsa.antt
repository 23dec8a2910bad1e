-- ===== src/Openssl/Rsa.antt =====
-- codechiev/utility/openssl/RSA.cpp. `world` says which files can be opened, and with what text; the
-- trace says which files were opened and closed and which keys were freed. What is logged is left out.
use codechiev.Common.{
  ℕ, ◌^◌, Bool, true, false, Option, none, some, List, [], ◌∷◌, ◌++◌, length, replicate, ℤ, pos,
  ltb, guard, ◌>>=◌, ◌>>◌,
}
use codechiev.Buffer.Memory.{load, store, c_str}
use codechiev.Openssl.{Openssl}

pub data Call (Key : Type 0) : Type 0 where
  opened closed : List ℕ → Call Key
  freed : Key → Call Key

-- The keys of an RsaUtil; `none` is NULL.
pub record RsaUtil (Key : Type 0) : Type 0 where
  pub pub_rsa : Option Key
  pub pri_rsa : Option Key

-- "public.pem" and "private.pem"
abbrev pub public_pem : List ℕ
public_pem = 112 ∷ 117 ∷ 98 ∷ 108 ∷ 105 ∷ 99 ∷ 46 ∷ 112 ∷ 101 ∷ 109 ∷ []

abbrev pub private_pem : List ℕ
private_pem = 112 ∷ 114 ∷ 105 ∷ 118 ∷ 97 ∷ 116 ∷ 101 ∷ 46 ∷ 112 ∷ 101 ∷ 109 ∷ []

-- What the call has written to an array of 256 bytes, and its result, are appended to the vector.
unfoldable pub copy_out : ℤ × List ℕ → List ℕ → Option (ℤ × List ℕ)
copy_out (n, bytes) vec = do
  cells ← store (replicate 256 0) (pos 0) bytes
  copied ← load cells (pos 0) n
  some (n, vec ++ copied)

module _ {Key Bio : Type 0} (ssl : Openssl Key Bio) where
  abbrev pub read_key : Bool → List ℕ → Option Key
  read_key true text = ssl.read_public_key text
  read_key false text = ssl.read_private_key text

  -- What fopen answers is given.
  abbrev pub create_from : Option (List ℕ) → List ℕ → Bool → Option Key × List (Call Key)
  create_from none filename is_pub = (none, [])
  create_from (some text) filename is_pub =
      (read_key is_pub text, opened filename ∷ closed filename ∷ [])

  unfoldable pub create_rsa_with_filename :
      (List ℕ → Option (List ℕ)) → List ℕ → Bool → Option Key × List (Call Key)
  create_rsa_with_filename world filename is_pub = create_from (world filename) filename is_pub

  -- createRSA with a key in memory, a C string, and whether BIO_new_mem_buf succeeds: the key, and how
  -- many BIOs are left behind.
  unfoldable pub create_rsa : Bool → List ℕ → Bool → Option Key × ℕ
  create_rsa false key is_pub = (none, 0)
  create_rsa true key is_pub = (read_key is_pub (c_str key), 1)

  -- RsaUtil()
  unfoldable pub new : (List ℕ → Option (List ℕ)) → RsaUtil Key × List (Call Key)
  new world =
      let (pub_rsa, first) = create_rsa_with_filename world public_pem true in
      let (pri_rsa, second) = create_rsa_with_filename world private_pem false in
      (record { pub_rsa = pub_rsa; pri_rsa = pri_rsa }, first ++ second)

  abbrev pub free_key : Option Key → List (Call Key)
  free_key none = []
  free_key (some key) = freed key ∷ []

  -- ~RsaUtil()
  unfoldable pub destroy : RsaUtil Key → List (Call Key)
  destroy rsa = free_key rsa.pub_rsa ++ free_key rsa.pri_rsa

  unfoldable pub public_pem_encrypt : RsaUtil Key → List ℕ → List ℕ → Option (ℤ × List ℕ)
  public_pem_encrypt rsa bytes encrypted_vec = do
    guard (ltb (length bytes) (2 ^ 31))
    key ← rsa.pub_rsa
    copy_out (ssl.public_encrypt key bytes) encrypted_vec

  -- `source` is what can be read at the pointer.
  unfoldable pub private_pem_decrypt : RsaUtil Key → List ℕ → ℤ → List ℕ → Option (ℤ × List ℕ)
  private_pem_decrypt rsa source data_len decrypted_vec = do
    bytes ← load source (pos 0) data_len
    key ← rsa.pri_rsa
    done ← copy_out (ssl.private_decrypt key bytes) decrypted_vec
    some (done.0, done.1 ++ (0 ∷ []))
