-- ===== src/Session/Laws.antt =====
-- How an authorization value that was encrypted under a session is decrypted.
use tpm_luks.Common.{ℕ, ◌≤◌, ◌≡◌, refl, arith, le→leb, Bool-cases, inl, inr, ◌+◌}
use tpm_luks.Common.{List, [], ◌∷◌, ◌++◌, length, length-take, take, All, Option, some}
use tpm_luks.Common.Bits.{bit_xor_back}
use tpm_luks.Common.Memory.{done, read_at}
use tpm_luks.Crypt.{tpm_xor}
use tpm_luks.Crypt.Counter.{IsByte, encrypt_twice}
use tpm_luks.Session.{
  Session, tss_session_get_auth, enc_nonce, use_xor, aes_enc_auth, xor_enc_auth,
  tpm_create_enc_auth,
}

-- Two runs with the key stream on the left.
tpm_xor_back :
    (ks xs : List ℕ)
    → length ks ≡ length xs
    → All IsByte ks
    → All IsByte xs
    → (out : List ℕ) × (tpm_xor ks xs (length xs) ≡ done out)
      × (tpm_xor ks out (length xs) ≡ done xs)
unfolding tpm_xor
tpm_xor_back [] [] e hk hx = ([], refl, refl)
tpm_xor_back [] (x ∷ xs) e hk hx = absurd (omega arith)
tpm_xor_back (k ∷ ks) [] e hk hx = absurd (omega arith)
tpm_xor_back (k ∷ ks) (x ∷ xs) e hk hx =
    let (out, first, again) = tpm_xor_back ks xs (omega arith) hk.1 hx.1 in
    (Prim.Native.Nat.bit_xor k x ∷ out, rw first, rw (again, bit_xor_back k x hk.0 hx.0))

read_prefix : (n : ℕ) (bs : List ℕ) → n ≤ length bs → read_at bs 0 n ≡ done (take n bs)
unfolding read_at
read_prefix n bs h = rw (le→leb (0 + n) (length bs) (omega arith))

module _ (aes : List ℕ → List ℕ → List ℕ) (sha1 : List ℕ → List ℕ)
    (block : (k c : List ℕ) → length (aes k c) ≡ 16)
    (block_bytes : (k c : List ℕ) → All IsByte (aes k c))
    (digest : (bs : List ℕ) → length (sha1 bs) ≡ 20)
    (digest_bytes : (bs : List ℕ) → All IsByte (sha1 bs)) where
  xor_twice :
      (auth nonce xs : List ℕ)
      → 20 ≤ length auth
      → 20 ≤ length nonce
      → length xs ≡ 20
      → All IsByte xs
      → (out : List ℕ) × (xor_enc_auth aes sha1 auth nonce xs ≡ done out)
        × (xor_enc_auth aes sha1 auth nonce out ≡ done xs)
  unfolding xor_enc_auth
  xor_twice auth nonce xs ha hn e hx =
      let text = take 20 auth ++ take 20 nonce in
      let (out, first, again) =
        tpm_xor_back (sha1 text) xs (omega (arith, digest text)) (digest_bytes text) hx in
      let r1 = read_prefix 20 auth ha in
      let r2 = read_prefix 20 nonce hn in
      (out, rw (r1, r2) (rw e at first), rw (r1, r2) (rw e at again))

  aes_twice :
      (auth nonce xs : List ℕ)
      → 20 ≤ length auth
      → 20 ≤ length nonce
      → length xs ≡ 20
      → All IsByte xs
      → (out : List ℕ) × (aes_enc_auth aes sha1 auth nonce xs ≡ done out)
        × (aes_enc_auth aes sha1 auth nonce out ≡ done xs)
  unfolding aes_enc_auth
  aes_twice auth nonce xs ha hn e hx =
      let key = take 16 auth in
      let ctr = take 16 nonce in
      let (out, c, d, first, again) =
        encrypt_twice (aes key) (block key) xs ctr (block_bytes key)
          (omega (arith, length-take 16 nonce)) hx in
      let r1 = read_prefix 16 auth (omega arith) in
      let r2 = read_prefix 16 nonce (omega arith) in
      (out, rw (r1, r2, rw e at first), rw (r1, r2, rw e at again))

  -- An authorization value of 20 bytes that TPM_CreateEncAuth encrypts is given back by the same
  -- call on the encrypted value, in every kind of session, by XOR and by AES, as long as the
  -- secret and the nonce have 20 bytes.
  pub create_enc_auth_twice :
      (sess : Session) (nonceodd : Option (List ℕ)) (auth nonce xs : List ℕ)
      → tss_session_get_auth sess ≡ some auth
      → enc_nonce sess nonceodd ≡ done nonce
      → 20 ≤ length auth
      → 20 ≤ length nonce
      → length xs ≡ 20
      → All IsByte xs
      → (out : List ℕ) × (tpm_create_enc_auth aes sha1 sess xs nonceodd ≡ done out)
        × (tpm_create_enc_auth aes sha1 sess out nonceodd ≡ done xs)
  unfolding tpm_create_enc_auth
  create_enc_auth_twice sess nonceodd auth nonce xs ea en ha hn e hx =
      elim (Bool-cases (use_xor sess)) [
        | inl x ↦
            let (out, first, again) = xor_twice auth nonce xs ha hn e hx in
            (out, rw (ea, en, x) first, rw (ea, en, x) again)
        | inr x ↦
            let (out, first, again) = aes_twice auth nonce xs ha hn e hx in
            (out, rw (ea, en, x) first, rw (ea, en, x) again)
      ]
