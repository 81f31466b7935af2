-- ===== src/Runs/Sealing.antt =====
-- Instances for what TPM_Seal sends and for the sessions of TPM_Unseal, with a TPM that answers
-- every request with a session.
use tpm_luks.Common.{ℕ, ◌+◌, ◌<◌, ◌≡◌, refl, arith, replicate, List, [], ◌∷◌, ◌++◌, none, some}
use tpm_luks.Common.Memory.{read_at, done}
use tpm_luks.Common.Effects.{◌>>>=◌, lift}
use tpm_luks.Buffer.{stack_tpm_buffer}
use tpm_luks.Build.{tss_buildbuff}
use tpm_luks.Build.Refine.{appended}
use tpm_luks.Hmac.{tss_rawhmac}
use tpm_luks.Hmac.Spec.{auth_digest}
use tpm_luks.Crypt.{tpm_xor}
use tpm_luks.Session.{
  Session, session_osap, session_oiap, session_dsap, tpm_create_enc_auth, tss_session_get_auth,
  tss_session_get_enonce, tss_session_get_handle, use_xor, xor_enc_auth,
}
use tpm_luks.Session.Open.{
  System, tss_session_open, session_choice, open_other, tss_osap_open, tss_oiap_open, request,
  exchange, share_secret, et_keyhandle, et_srk,
}
use tpm_luks.Transmit.{tpm_transmit}
use tpm_luks.Command.{no_session, transmit_and_close}
use tpm_luks.Seal.{unseal, key_type, seal, sealed_blob}
use tpm_luks.Seal.Covers.{seal_fields}
use tpm_luks.Seal.Request.{seal-request}
use tpm_luks.Bytes.{be32}
use tpm_luks.Build.Fields.{encode_all}
use tpm_luks.Seal.Closing.{ClosesAll, unseal-ClosesAll}
use tpm_luks.Nv.Requests.{stack-IsBuffer}
use tpm_luks.Runs.Crypto.{toy_sha1, toy_sha1_size, toy_aes}
use tpm_luks.Runs.Auth.{toy_hmac}
use tpm_luks.Runs.Wire.{system, owner, owner_session, area_session}

abbrev steady : System ℕ
steady = record system { random = λ w. (w + 1, done (1, replicate 20 7)) }

abbrev key_session : Session
key_session = record owner_session { etype = et_keyhandle }

key_session_opens :
    tss_session_open steady (session_osap + session_dsap) no_session (some owner) et_keyhandle 5 1
    ≡ (2, done key_session)
unfolding tss_session_open read_at session_choice open_other tss_osap_open request exchange
    tss_buildbuff stack_tpm_buffer tpm_transmit share_secret tss_rawhmac
key_session_opens = refl

data_session_opens :
    tss_session_open steady session_oiap no_session (some owner) 0 0 2 ≡ (2, done area_session)
unfolding tss_session_open read_at session_choice open_other tss_oiap_open request exchange
    tss_buildbuff stack_tpm_buffer tpm_transmit
data_session_opens = refl

unseal-ClosesAll_example :
    ClosesAll steady key_session
      (2, done area_session)
      (unseal steady (replicate 20 3) 5 (some owner) owner (1 ∷ 2 ∷ 3 ∷ []) 3 (replicate 64 0) 0)
unseal-ClosesAll_example =
    unseal-ClosesAll steady (replicate 20 3) owner owner (1 ∷ 2 ∷ 3 ∷ []) (replicate 64 0) 5 3
      (1, replicate 20 7) key_session (2, done area_session) 0 1 2 refl key_session_opens
      data_session_opens

abbrev seal_session : Session
seal_session = record owner_session { etype = et_srk }

seal_session_opens :
    tss_session_open steady
      (session_osap + session_dsap)
      no_session
      (some owner)
      (key_type 0x40000000)
      0x40000000
      0
    ≡ (1, done seal_session)
unfolding tss_session_open read_at session_choice open_other tss_osap_open request exchange
    tss_buildbuff stack_tpm_buffer tpm_transmit share_secret tss_rawhmac
seal_session_opens = refl

-- The secret of the data, encrypted.
abbrev encrypted : List ℕ
encrypted = toy_sha1 (seal_session.ssecret ++ replicate 20 6)

secret_encrypted :
    tpm_create_enc_auth toy_aes toy_sha1 seal_session (replicate 20 0) none ≡ done encrypted
unfolding tpm_create_enc_auth tss_session_get_auth tss_session_get_enonce use_xor xor_enc_auth
    read_at tpm_xor
secret_encrypted = refl

seal_key : tss_session_get_auth seal_session ≡ some seal_session.ssecret
unfolding tss_session_get_auth
seal_key = refl

seal_enonce : tss_session_get_enonce seal_session ≡ some (replicate 20 6)
unfolding tss_session_get_enonce
seal_enonce = refl

stack_room : stack_tpm_buffer.used + 87 + 2 + 3 < stack_tpm_buffer.size
unfolding stack_tpm_buffer
stack_room = omega arith

seal-request_example :
    let covered = be32 0x17 ++ encode_all (seal_fields encrypted (1 ∷ 2 ∷ []) (7 ∷ 8 ∷ 9 ∷ [])) in
    let authdata =
      auth_digest toy_sha1 toy_hmac seal_session.ssecret covered
        (replicate 20 6)
        (replicate 20 7)
        0 in
    let sent = appended stack_tpm_buffer (
      0x00
      ∷ 0xc2
      ∷ (be32 (stack_tpm_buffer.used + 87 + 2 + 3)
          ++ (be32 0x17
              ++ (be32 0x40000000
                  ++ (encode_all (seal_fields encrypted (1 ∷ 2 ∷ []) (7 ∷ 8 ∷ 9 ∷ []))
                      ++ (be32 (tss_session_get_handle seal_session)
                          ++ (replicate 20 7 ++ (0 ∷ authdata)))))))) in
    seal steady stack_tpm_buffer 0x40000000
      (some (1 ∷ 2 ∷ []))
      2
      owner
      (replicate 20 0)
      (7 ∷ 8 ∷ 9 ∷ [])
      3
      (replicate 64 0)
      0
    ≡ (transmit_and_close steady seal_session sent >>>= λ tb.
          lift (sealed_blob steady seal_session (replicate 20 7) (replicate 64 0) tb))
        2
seal-request_example =
    seal-request steady toy_sha1_size (λ key bs. toy_sha1_size (key ++ bs)) stack_tpm_buffer
      0x40000000 1 owner (replicate 20 0) (1 ∷ 2 ∷ []) (7 ∷ 8 ∷ 9 ∷ []) (replicate 64 0) encrypted
      (replicate 20 7) seal_session.ssecret (replicate 20 6) seal_session 0 1 2 stack-IsBuffer
      stack_room refl refl refl refl seal_session_opens secret_encrypted refl seal_key seal_enonce
