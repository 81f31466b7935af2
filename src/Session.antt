-- ===== src/Session.antt =====
-- The sessions of swtpm-utils/lib/oiaposap.h and oiaposap.c: the session record, its accessors,
-- and the encryption of an authorization value under a session. AES_set_encrypt_key with
-- AES_encrypt, and SHA1, are parameters.
pub mod Laws
pub mod Open
use tpm_luks.Common.{
  ℕ, ◌/◌, ◌^◌, ◌==◌, if◌then◌else◌, ◌&&◌, ◌||◌, not, Bool, List, ◌++◌, take, Option, none, some,
}
use tpm_luks.Common.Memory.{Outcome, done, fault, ◌>>=◌, read_at}
use tpm_luks.Bytes.{err_bad_arg, hash_size, nonce_size}
use tpm_luks.Crypt.{tpm_xor, tpm_aes_ctr128_encrypt, aes_block_size}

abbrev pub session_oiap : ℕ
session_oiap = 1

abbrev pub session_osap : ℕ
session_osap = 2

abbrev pub session_dsap : ℕ
session_dsap = 4

abbrev pub session_tran : ℕ
session_tran = 8

abbrev pub tpm_et_aes128_ctr : ℕ
tpm_et_aes128_ctr = 6

-- The members of the union `type` begin with the handle and the even nonce, and the members
-- `osap` and `dsap` have the same layout, so one record holds them all: `enonce_sap` stands for
-- enonceOSAP and enonceDSAP, `ononce_sap` for ononceOSAP and ononceDSAP.
pub record Session : Type 0 where
  pub sess_type : ℕ
  pub handle : ℕ
  pub enonce : List ℕ
  pub enonce_sap : List ℕ
  pub ononce_sap : List ℕ
  pub ssecret : List ℕ
  pub etype : ℕ
  pub authdata : List ℕ

abbrev pub is_kind : Session → ℕ → Bool
is_kind sess kind = sess.sess_type == kind

abbrev pub is_known : Session → Bool
is_known sess =
    is_kind sess session_oiap
    || is_kind sess session_osap
    || is_kind sess session_dsap
    || is_kind sess session_tran

-- The shared secret authorizes in the sessions that are bound to an entity.
unfoldable pub tss_session_get_auth : Session → Option (List ℕ)
tss_session_get_auth sess =
    if is_kind sess session_oiap || is_kind sess session_tran
    then some sess.authdata
    else (if is_kind sess session_osap || is_kind sess session_dsap
        then some sess.ssecret
        else none)

unfoldable pub tss_session_get_enonce : Session → Option (List ℕ)
tss_session_get_enonce sess = if is_known sess then some sess.enonce else none

unfoldable pub tss_session_set_enonce : Session → List ℕ → Outcome Session
tss_session_set_enonce sess nonce =
    if is_known sess
    then (read_at nonce 0 nonce_size >>= λ n. done (record sess { enonce = n }))
    else done sess

unfoldable pub tss_session_get_handle : Session → ℕ
tss_session_get_handle sess = if is_known sess then sess.handle else err_bad_arg

-- TSS_Session_CreateTransport; its return code is always 0.
unfoldable pub tss_session_create_transport : Session → List ℕ → ℕ → List ℕ → Outcome Session
unfolding tss_session_set_enonce
tss_session_create_transport sess trans_auth trans_handle trans_nonce =
    read_at trans_auth 0 hash_size >>= λ auth.
    tss_session_set_enonce
      (record sess { sess_type = session_tran; authdata = auth; handle = trans_handle }) trans_nonce

-- TPM_DetermineSessionEncryption: whether the value is XORed.
unfoldable pub use_xor : Session → Bool
use_xor sess = not (
    (is_kind sess session_osap || is_kind sess session_dsap)
    && (sess.etype / 2 ^ 8 == tpm_et_aes128_ctr))

-- What a pointer that may be NULL points to.
abbrev pub deref : Option (List ℕ) → Outcome (List ℕ)
deref none = fault
deref (some bs) = done bs

-- The nonce that the encryption starts from: the odd one that the caller passes, or else the
-- even one of the session.
abbrev pub enc_nonce : Session → Option (List ℕ) → Outcome (List ℕ)
enc_nonce sess none = deref (tss_session_get_enonce sess)
enc_nonce sess (some nonceodd) = done nonceodd

module _ (aes : List ℕ → List ℕ → List ℕ) (sha1 : List ℕ → List ℕ) where
  -- The first 16 bytes of the secret are the key.
  unfoldable pub aes_enc_auth : List ℕ → List ℕ → List ℕ → Outcome (List ℕ)
  aes_enc_auth auth nonce bytes = read_at auth 0 aes_block_size >>= λ key.
      read_at nonce 0 aes_block_size >>= λ ctr.
      tpm_aes_ctr128_encrypt (aes key) bytes hash_size ctr >>= λ out. done out.0

  unfoldable pub xor_enc_auth : List ℕ → List ℕ → List ℕ → Outcome (List ℕ)
  xor_enc_auth auth nonce bytes = read_at auth 0 hash_size >>= λ left.
      read_at nonce 0 hash_size >>= λ right. tpm_xor (sha1 (left ++ right)) bytes hash_size

  unfoldable pub tpm_create_enc_auth : Session → List ℕ → Option (List ℕ) → Outcome (List ℕ)
  tpm_create_enc_auth sess bytes nonceodd = deref (tss_session_get_auth sess) >>= λ auth.
      enc_nonce sess nonceodd >>= λ nonce.
      if use_xor sess then xor_enc_auth auth nonce bytes else aes_enc_auth auth nonce bytes
