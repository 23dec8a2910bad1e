-- ===== src/Examples/Keys.antt =====
-- A text that is encrypted and decrypted, with an OpenSSL that adds 1 to each byte.
use codechiev.Common.{
  ℕ, ◌+◌, ◌-◌, ◌≡◌, refl, some, List, [], ◌∷◌, map, length, take, drop, min, pos, arith, ◌>>=◌,
}
use codechiev.Openssl.{Openssl}
use codechiev.Openssl.Rsa.{RsaUtil}
use codechiev.Openssl.Base64.Reads.{Yields, ends, reads}
use codechiev.Openssl.Pipeline.{Serves, sends, receives, receives-sends}

-- A key is what is added, and a chain is what it has still to give.
abbrev adding : Openssl ℕ (List ℕ)
adding = record {
  read_public_key = λ text. some 1;
  read_private_key = λ text. some 1;
  public_encrypt = λ key bytes. (pos (length bytes), map (λ (b : ℕ). b + key) bytes);
  private_decrypt = λ key bytes. (pos (length bytes), map (λ (b : ℕ). b - key) bytes);
  base64 = λ bytes. bytes;
  open_base64 = λ text. text;
  bio_read = λ bio n. ((pos (min n (length bio)), take n bio), drop n bio);
}

abbrev foobar : List ℕ
foobar = 102 ∷ 111 ∷ 111 ∷ []

abbrev sealed : List ℕ
sealed = 103 ∷ 112 ∷ 112 ∷ []

abbrev both_keys : RsaUtil ℕ
both_keys = record { pub_rsa = some 1; pri_rsa = some 1 }

sealed-Yields : Yields adding sealed sealed
sealed-Yields = reads sealed refl (omega arith) (omega arith) (ends refl)

serves : Serves adding 1 1 foobar sealed
serves = record {
  encrypts = refl;
  decrypts = refl;
  is_text = (omega arith, (omega arith, (omega arith, tt)));
  yields = sealed-Yields;
}

receives-sends_example :
    (sends adding both_keys foobar >>= receives adding 9 both_keys)
    ≡ some (pos 3, 102 ∷ 111 ∷ 111 ∷ 0 ∷ [])
receives-sends_example =
    receives-sends adding 1 1 both_keys foobar sealed serves (omega arith) (omega arith) 9
      (omega arith) refl refl
