-- ===== src/Serialize/Keys.antt =====
-- Keys with their parts in place (swtpm-utils/lib/tpmkeys.h, newserialize.h, serialize.c). Of the
-- union in TPM_KEY_PARMS_EMB only the parameters of RSA are kept, which are the ones that the
-- format strings name.
use tpm_luks.Common.{ℕ, Bool, List, [], ◌∷◌, ◌++◌}
use tpm_luks.Common.Memory.{Outcome, done, ◌>>=◌}
use tpm_luks.Buffer.{TpmBuffer}
use tpm_luks.Serialize.{
  Place, place, inside, members_inside, Member, long_at, short_at, octet_at, counted_at, constant,
}
use tpm_luks.Serialize.{write_members, read_members}
use tpm_luks.Common.{◌+◌, ◌*◌, ◌/◌, ◌%◌, not, ◌&&◌, ◌||◌, ltb, if◌then◌else◌, ◌==◌}
use tpm_luks.Common.Memory.{read_at}
use tpm_luks.Bytes.{err_bad_arg}
use tpm_luks.Buffer.{stack_tpm_buffer}
use tpm_luks.Serialize.Blobs.{StructVer, struct_ver_members}

pub record RsaKeyParmsEmb : Type 0 where
  pub key_length : ℕ
  pub num_primes : ℕ
  pub exponent_size : ℕ
  pub exponent : List ℕ

abbrev pub rsa_key_parms_emb_members : List (Member RsaKeyParmsEmb)
rsa_key_parms_emb_members =
    (long_at (place (λ x. x.key_length) (λ v x. record x { key_length = v })))
    ∷ (long_at (place (λ x. x.num_primes) (λ v x. record x { num_primes = v })))
    ∷ (counted_at 3 (place (λ x. x.exponent_size) (λ v x. record x { exponent_size = v }))
        (place (λ x. x.exponent) (λ v x. record x { exponent = v })))
    ∷ []

pub record KeyParmsEmb : Type 0 where
  pub algorithm_id : ℕ
  pub enc_scheme : ℕ
  pub sig_scheme : ℕ
  pub rsa_key_parms : RsaKeyParmsEmb

abbrev pub key_parms_emb_members : List (Member KeyParmsEmb)
key_parms_emb_members =
    (long_at (place (λ x. x.algorithm_id) (λ v x. record x { algorithm_id = v })))
    ∷ (short_at (place (λ x. x.enc_scheme) (λ v x. record x { enc_scheme = v })))
    ∷ (short_at (place (λ x. x.sig_scheme) (λ v x. record x { sig_scheme = v })))
    ∷ (constant 12)
    ∷ members_inside (place (λ x. x.rsa_key_parms) (λ v x. record x { rsa_key_parms = v }))
        rsa_key_parms_emb_members

pub record StorePubkeyEmb : Type 0 where
  pub key_length : ℕ
  pub modulus : List ℕ

abbrev pub store_pubkey_emb_members : List (Member StorePubkeyEmb)
store_pubkey_emb_members =
    (counted_at 512 (place (λ x. x.key_length) (λ v x. record x { key_length = v }))
      (place (λ x. x.modulus) (λ v x. record x { modulus = v })))
    ∷ []

-- A length and the array beside it.
pub record SizedArray : Type 0 where
  pub size : ℕ
  pub buffer : List ℕ

pub record Pubkeydata : Type 0 where
  pub algorithm_parms : KeyParmsEmb
  pub pub_key : StorePubkeyEmb
  pub pcr_info : SizedArray

abbrev pub pubkeydata_members : List (Member Pubkeydata)
pubkeydata_members =
    (members_inside (place (λ x. x.algorithm_parms) (λ v x. record x { algorithm_parms = v }))
      key_parms_emb_members)
    ++ (members_inside (place (λ x. x.pub_key) (λ v x. record x { pub_key = v }))
        store_pubkey_emb_members)

-- `v` is a union: its tag is the first two bytes of its version, in the order of the machine.
pub record Keydata : Type 0 where
  pub ver : StructVer
  pub key_usage : ℕ
  pub key_flags : ℕ
  pub auth_data_usage : ℕ
  pub public : Pubkeydata
  pub enc_data : SizedArray

abbrev pub tag_of : StructVer → ℕ
tag_of v = v.major + 256 * v.minor

abbrev pub key_tag : Place Keydata ℕ
key_tag =
    place (λ x. tag_of x.ver)
      (λ t x. record x { ver = record x.ver { major = t % 256; minor = t / 256 % 256 } })

-- The local variable `filler`, which no caller sees.
abbrev pub filler : Place Keydata ℕ
filler = place (λ x. 0) (λ v x. x)

abbrev pub key12_members : List (Member Keydata)
key12_members =
    (short_at key_tag)
      ∷ (short_at filler)
      ∷ (short_at (place (λ x. x.key_usage) (λ v x. record x { key_usage = v })))
      ∷ (long_at (place (λ x. x.key_flags) (λ v x. record x { key_flags = v })))
      ∷ (octet_at (place (λ x. x.auth_data_usage) (λ v x. record x { auth_data_usage = v })))
      ∷ (members_inside
          (inside (place (λ x. x.public) (λ v x. record x { public = v }))
            (place (λ x. x.algorithm_parms) (λ v x. record x { algorithm_parms = v })))
          key_parms_emb_members)
    ++ ((counted_at 256
            (inside
              (inside (place (λ x. x.public) (λ v x. record x { public = v }))
                (place (λ x. x.pcr_info) (λ v x. record x { pcr_info = v })))
              (place (λ x. x.size) (λ v x. record x { size = v })))
            (inside
              (inside (place (λ x. x.public) (λ v x. record x { public = v }))
                (place (λ x. x.pcr_info) (λ v x. record x { pcr_info = v })))
              (place (λ x. x.buffer) (λ v x. record x { buffer = v }))))
          ∷ (members_inside
              (inside (place (λ x. x.public) (λ v x. record x { public = v }))
                (place (λ x. x.pub_key) (λ v x. record x { pub_key = v })))
              store_pubkey_emb_members)
        ++ ((counted_at 1024
              (inside (place (λ x. x.enc_data) (λ v x. record x { enc_data = v }))
                (place (λ x. x.size) (λ v x. record x { size = v })))
              (inside (place (λ x. x.enc_data) (λ v x. record x { enc_data = v }))
                (place (λ x. x.buffer) (λ v x. record x { buffer = v }))))
            ∷ []))

abbrev pub key_members : List (Member Keydata)
key_members =
    (members_inside (place (λ x. x.ver) (λ v x. record x { ver = v })) struct_ver_members)
    ++ ((short_at (place (λ x. x.key_usage) (λ v x. record x { key_usage = v })))
          ∷ (long_at (place (λ x. x.key_flags) (λ v x. record x { key_flags = v })))
          ∷ (octet_at (place (λ x. x.auth_data_usage) (λ v x. record x { auth_data_usage = v })))
          ∷ (members_inside
              (inside (place (λ x. x.public) (λ v x. record x { public = v }))
                (place (λ x. x.algorithm_parms) (λ v x. record x { algorithm_parms = v })))
              key_parms_emb_members)
        ++ ((counted_at 256
                (inside
                  (inside (place (λ x. x.public) (λ v x. record x { public = v }))
                    (place (λ x. x.pcr_info) (λ v x. record x { pcr_info = v })))
                  (place (λ x. x.size) (λ v x. record x { size = v })))
                (inside
                  (inside (place (λ x. x.public) (λ v x. record x { public = v }))
                    (place (λ x. x.pcr_info) (λ v x. record x { pcr_info = v })))
                  (place (λ x. x.buffer) (λ v x. record x { buffer = v }))))
              ∷ (members_inside
                  (inside (place (λ x. x.public) (λ v x. record x { public = v }))
                    (place (λ x. x.pub_key) (λ v x. record x { pub_key = v })))
                  store_pubkey_emb_members)
            ++ ((counted_at 1024
                  (inside (place (λ x. x.enc_data) (λ v x. record x { enc_data = v }))
                    (place (λ x. x.size) (λ v x. record x { size = v })))
                  (inside (place (λ x. x.enc_data) (λ v x. record x { enc_data = v }))
                    (place (λ x. x.buffer) (λ v x. record x { buffer = v }))))
                ∷ [])))

abbrev pub tag_key12 : ℕ
tag_key12 = 0x28

unfoldable pub tpm_write_key : TpmBuffer → Keydata → Outcome (ℕ × TpmBuffer)
unfolding write_members
tpm_write_key buffer k =
    if tag_of k.ver == tag_key12
    then write_members key12_members buffer k
    else write_members key_members buffer k

-- A key of version 1.2 is tried first. The second parse fills the same structure.
unfoldable pub tpm_read_key : (ℕ → Bool) → TpmBuffer → ℕ → Keydata → Outcome (ℕ × Keydata)
unfolding read_members
tpm_read_key allocates tb offset k = read_members key12_members allocates tb offset k >>= λ r.
    if ltb 0 r.0 && not (tag_of (r.1).ver == tag_key12)
    then read_members key_members allocates tb offset r.1
    else done r

unfoldable pub tss_key_extract : (ℕ → Bool) → TpmBuffer → ℕ → Keydata → Outcome (ℕ × Keydata)
unfolding tpm_read_key
tss_key_extract allocates tb offset k = tpm_read_key allocates tb offset k

unfoldable pub tss_pub_key_extract :
    (ℕ → Bool) → TpmBuffer → ℕ → Pubkeydata → Outcome (ℕ × Pubkeydata)
unfolding read_members
tss_pub_key_extract allocates tb offset k = read_members pubkeydata_members allocates tb offset k

unfoldable pub tpm_write_key_info : TpmBuffer → Keydata → Outcome (ℕ × TpmBuffer)
unfolding write_members
tpm_write_key_info buffer k = write_members key_parms_emb_members buffer (k.public).algorithm_parms

abbrev pub alg_rsa : ℕ
alg_rsa = 1

abbrev pub alg_aes128 : ℕ
alg_aes128 = 6

abbrev pub alg_aes192 : ℕ
alg_aes192 = 8

abbrev pub alg_aes256 : ℕ
alg_aes256 = 9

-- The format string for an AES key is empty.
unfoldable pub tpm_write_key_pub : TpmBuffer → Keydata → Outcome (ℕ × TpmBuffer)
unfolding write_members
tpm_write_key_pub buffer k =
    let alg = ((k.public).algorithm_parms).algorithm_id in
    if alg == alg_rsa
    then write_members pubkeydata_members buffer k.public
    else if alg == alg_aes128 || alg == alg_aes192 || alg == alg_aes256
    then write_members [] buffer k.public
    else done (err_bad_arg, buffer)

-- `sha1` is TSS_sha1. The length that is hashed is whatever TPM_WriteKeyPub returned.
unfoldable pub tpm_hash_pub_key : (List ℕ → List ℕ) → Keydata → Outcome (ℕ × List ℕ)
tpm_hash_pub_key sha1 k = tpm_write_key_pub stack_tpm_buffer k >>= λ r.
    read_at (r.1).buffer 0 r.0 >>= λ bs. done (r.0, sha1 bs)
