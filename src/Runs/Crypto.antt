-- ===== src/Runs/Crypto.antt =====
-- Instances for the cryptographic helpers, with small functions in the places of AES and SHA1.
use tpm_luks.Common.{
  ℕ, zero, suc, ◌+◌, ◌%◌, ◌<◌, ◌≡◌, refl, arith, length, replicate, take, All, List, [], ◌∷◌, ◌++◌,
  none, true,
}
use tpm_luks.Common.Memory.{done, fault, splice}
use tpm_luks.Bytes.{word_of}
use tpm_luks.Crypt.{tpm_aes_ctr128_encrypt, parse_hash, tpm_mgf1}
use tpm_luks.Crypt.Counter.{IsByte, xor_all, keystream, encrypt-keystream, encrypt_twice}
use tpm_luks.Crypt.Hash.{Pair, letters, bytes_of, IsHexPair, parse_hash-letters, parse_hash_refuses}
use tpm_luks.Crypt.Mask.{mask_blocks, mgf1-mask_blocks, mgf1_long_overflows}
use tpm_luks.Session.{Session, tpm_create_enc_auth, tss_session_get_auth, tss_session_get_enonce}
use tpm_luks.Session.Laws.{create_enc_auth_twice}

abbrev pub toy_sha1 : List ℕ → List ℕ
toy_sha1 bs = replicate 20 (word_of 1 bs % 256)

abbrev pub toy_aes : List ℕ → List ℕ → List ℕ
toy_aes key ctr = replicate 16 ((word_of 0 key + word_of 0 ctr) % 256)

replicate-IsByte : (n x : ℕ) → x < 256 → All IsByte (replicate n x)
replicate-IsByte zero x h = tt
replicate-IsByte (suc n) x h = (h, replicate-IsByte n x h)

pub toy_sha1_size : (bs : List ℕ) → length (toy_sha1 bs) ≡ 20
toy_sha1_size bs = refl

pub toy_sha1_bytes : (bs : List ℕ) → All IsByte (toy_sha1 bs)
toy_sha1_bytes bs = replicate-IsByte 20 (word_of 1 bs % 256) (omega arith)

pub toy_aes_size : (key ctr : List ℕ) → length (toy_aes key ctr) ≡ 16
toy_aes_size key ctr = refl

pub toy_aes_bytes : (key ctr : List ℕ) → All IsByte (toy_aes key ctr)
toy_aes_bytes key ctr = replicate-IsByte 16 ((word_of 0 key + word_of 0 ctr) % 256) (omega arith)

abbrev key : List ℕ
key = 11 ∷ 12 ∷ []

abbrev plain : List ℕ
plain = 1 ∷ 2 ∷ 3 ∷ replicate 17 200

encrypt-keystream_example :
    (ctr' : List ℕ) × (tpm_aes_ctr128_encrypt (toy_aes key) plain 20 (replicate 16 255)
      ≡ done (xor_all plain (keystream (toy_aes key) 20 (replicate 16 255)), ctr'))
encrypt-keystream_example =
    encrypt-keystream (toy_aes key) (toy_aes_size key) plain (replicate 16 255) refl

encrypt_twice_example :
    (out : List ℕ) × (c : List ℕ) × (d : List ℕ) × (tpm_aes_ctr128_encrypt
        (toy_aes key)
        plain
        20
        (replicate 16 255)
      ≡ done (out, c))
    × (tpm_aes_ctr128_encrypt (toy_aes key) out 20 (replicate 16 255) ≡ done (plain, d))
encrypt_twice_example =
    encrypt_twice (toy_aes key) (toy_aes_size key) plain (replicate 16 255) (toy_aes_bytes key) refl
      (omega arith, (omega arith, (omega arith, replicate-IsByte 17 200 (omega arith))))

abbrev digits : List Pair
digits = replicate 20 (record { hi = b'a'; lo = b'5' })

digits_hex : (n : ℕ) → All IsHexPair (replicate n (record { hi = b'a'; lo = b'5' }))
digits_hex zero = tt
digits_hex (suc n) = ((refl, refl), digits_hex n)

parse_hash-letters_example :
    parse_hash (letters digits ++ 0 ∷ []) (replicate 20 0)
    ≡ done (0, splice (replicate 20 0) 0 (bytes_of digits))
parse_hash-letters_example =
    parse_hash-letters digits (0 ∷ []) (replicate 20 0) (digits_hex 20) refl refl

parse_hash_refuses_example :
    (hash' : List ℕ) × (parse_hash (b'1' ∷ b'f' ∷ 0 ∷ []) (replicate 20 9) ≡ done (1, hash'))
parse_hash_refuses_example =
    parse_hash_refuses (b'1' ∷ b'f' ∷ []) [] (replicate 20 9) 0 (refl, (refl, tt)) refl
      (omega arith) refl

mgf1-mask_blocks_example :
    tpm_mgf1 toy_sha1 true 4 (1 ∷ 2 ∷ []) 2 30 (replicate 32 0)
    ≡ done (splice (replicate 32 0) 0 (take 30 (mask_blocks toy_sha1 (1 ∷ 2 ∷ []) 30 0)))
mgf1-mask_blocks_example =
    mgf1-mask_blocks toy_sha1 toy_sha1_size (1 ∷ 2 ∷ []) (omega arith) 30 (replicate 32 0)
      (omega arith) (omega arith)

mgf1_long_overflows_example : tpm_mgf1 toy_sha1 true 8 (1 ∷ 2 ∷ []) 2 30 (replicate 32 0) ≡ fault
mgf1_long_overflows_example =
    mgf1_long_overflows toy_sha1 true (1 ∷ 2 ∷ []) 2 30 (replicate 32 0) (omega arith)

abbrev osap : Session
osap = record {
  sess_type = 2;
  handle = 0x02000000;
  enonce = replicate 20 5;
  enonce_sap = replicate 20 6;
  ononce_sap = replicate 20 7;
  ssecret = replicate 20 8;
  etype = 0x602;
  authdata = replicate 20 9;
}

create_enc_auth_twice_example :
    (out : List ℕ) × (tpm_create_enc_auth toy_aes toy_sha1 osap plain none ≡ done out)
    × (tpm_create_enc_auth toy_aes toy_sha1 osap out none ≡ done plain)
unfolding tss_session_get_auth tss_session_get_enonce
create_enc_auth_twice_example =
    create_enc_auth_twice toy_aes toy_sha1 toy_aes_size toy_aes_bytes toy_sha1_size toy_sha1_bytes
      osap none (replicate 20 8) (replicate 20 5) plain refl refl (omega arith) (omega arith) refl
      (omega arith, (omega arith, (omega arith, replicate-IsByte 17 200 (omega arith))))
