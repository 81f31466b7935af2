-- ===== src/Seal/Request.antt =====
-- The request of TPM_Seal (swtpm-utils/lib/seal.c), against what its authorization digest covers.
use tpm_luks.Common.{ℕ, ◌+◌, ◌-◌, ◌/◌, ◌%◌, ◌^◌, ◌<◌, ◌≡◌, arith, ◌==◌, false, codes}
use tpm_luks.Common.{List, ◌∷◌, ◌++◌, length, All, none, some}
use tpm_luks.Common.Memory.{done}
use tpm_luks.Common.Effects.{◌>>>=◌, lift}
use tpm_luks.Bytes.{be32, swap32}
use tpm_luks.Buffer.{TpmBuffer, IsBuffer}
use tpm_luks.Build.{word}
use tpm_luks.Build.Fields.{encode_all, IsField}
use tpm_luks.Build.Refine.{appended, buildbuff-request}
use tpm_luks.Hmac.Spec.{auth_digest}
use tpm_luks.Hmac.Check.{authhmac_of}
use tpm_luks.Session.{
  Session, session_osap, session_dsap, tss_session_get_auth, tss_session_get_enonce,
  tss_session_get_handle, tpm_create_enc_auth,
}
use tpm_luks.Session.Open.{System, tss_session_open}
use tpm_luks.Command.{
  no_session, auth_args, built_request, transmit_and_close, send_authorized_from,
}
use tpm_luks.Seal.{key_type, seal_inputs, seal_args, sealed_blob, seal}
use tpm_luks.Seal.Covers.{seal_fields, seal_inputs-text}
use tpm_luks.Seal.Layout.{
  seal_opening, request_fields, seal_opening-IsField, encode_all-seal_opening,
  request_fields-IsField, encode_all-request_fields, length-request_fields,
}

-- TSS_buildbuff on the format and the arguments of a seal.
seal_built :
    (tb : TpmBuffer) (keyhandle : ℕ) (sess : Session)
    (encauth info bytes nonceodd authdata : List ℕ)
    → IsBuffer tb
    → tb.used + 87 + length info + length bytes < tb.size
    → length encauth ≡ 20
    → length nonceodd ≡ 20
    → length authdata ≡ 20
    → built_request tb (codes "00 C2 T l l % @ @ L % o %") (
        word (swap32 0x17)
        ∷ (seal_args keyhandle encauth (some info) (length info) bytes (length bytes)
            ++ auth_args sess nonceodd authdata))
      ≡ done (
          appended tb (
            0x00
            ∷ 0xc2
            ∷ (be32 (tb.used + 87 + length info + length bytes)
                ++ (be32 0x17
                    ++ (be32 keyhandle
                        ++ (encode_all (seal_fields encauth info bytes)
                            ++ (be32 (tss_session_get_handle sess)
                                ++ (nonceodd ++ (0 ∷ authdata)))))))))
unfolding built_request seal_args seal_opening request_fields
seal_built tb keyhandle sess encauth info bytes nonceodd authdata b room e1 e2 e3 =
    let handle = tss_session_get_handle sess in
    let n = length-request_fields keyhandle handle encauth info bytes nonceodd authdata e1 e2 e3 in
    let i = length info in
    let d = length bytes in
    let ok : All IsField (request_fields keyhandle handle encauth info bytes nonceodd authdata) =
      request_fields-IsField keyhandle handle encauth info bytes nonceodd authdata (omega arith)
        (omega (arith, b.small)) (omega (arith, b.small)) (omega arith) (omega arith) in
    let run =
      buildbuff-request seal_opening
        (request_fields keyhandle handle encauth info bytes nonceodd authdata) tb b
        seal_opening-IsField ok (rw (encode_all-seal_opening, n) (omega arith)) in
    let sum : tb.used + 2 + 4 + (81 + i + d) ≡ tb.used + 87 + i + d = omega arith in
    let bytes_of =
      encode_all-request_fields keyhandle handle encauth info bytes nonceodd authdata in
    let built = rw (encode_all-seal_opening, n, bytes_of, e1, e2, e3, sum) at run in
    let small : ((tb.used + 87 + i + d - tb.used) / 2 ^ 31 % 2 == 1) ≡ false =
      ground (arith, b.small) in
    rw (built, small)

module _ {W : Type 0} (sys : System W) (digest : (bs : List ℕ) → length (sys.sha1 bs) ≡ 20)
    (mac : (key bs : List ℕ) → length (sys.hmac key bs) ≡ 20) where
  -- What TPM_Seal sends is what its authorization digest covers. Once its session is open, the
  -- secret encrypted and the nonce made, for an even nonce, an odd nonce and an encrypted secret
  -- of 20 bytes, a key of 20 bytes and a request that fits the buffer, the command transmits the
  -- tag 0xc2, the length, the ordinal 0x17, the handle of the key, the encrypted secret, the PCR
  -- information and the data, the latter two with their lengths, the handle of the session, the
  -- odd nonce, a flag 0, and the digest, under the session's key, of the ordinal and of the same
  -- three fields and of the same nonces and flag, in the order of the protocol. It then closes the
  -- session and makes its result from the response. Empty PCR information and empty data are
  -- included.
  pub seal-request :
      (tpmdata : TpmBuffer) (keyhandle code : ℕ)
      (keyauth dataauth info bytes blob encauth nonceodd key enonce : List ℕ) (sess : Session)
      (w w1 w2 : W)
      → IsBuffer tpmdata
      → tpmdata.used + 87 + length info + length bytes < tpmdata.size
      → length encauth ≡ 20
      → length nonceodd ≡ 20
      → length enonce ≡ 20
      → length key ≡ 20
      → tss_session_open sys
          (session_osap + session_dsap)
          no_session
          (some keyauth)
          (key_type keyhandle)
          keyhandle
          w
        ≡ (w1, done sess)
      → tpm_create_enc_auth sys.aes sys.sha1 sess dataauth none ≡ done encauth
      → sys.random w1 ≡ (w2, done (code, nonceodd))
      → tss_session_get_auth sess ≡ some key
      → tss_session_get_enonce sess ≡ some enonce
      → let covered = be32 0x17 ++ encode_all (seal_fields encauth info bytes) in
        let authdata = auth_digest sys.sha1 sys.hmac key covered enonce nonceodd 0 in
        let request = appended tpmdata (
          0x00
          ∷ 0xc2
          ∷ (be32 (tpmdata.used + 87 + length info + length bytes)
              ++ (be32 0x17
                  ++ (be32 keyhandle
                      ++ (encode_all (seal_fields encauth info bytes)
                          ++ (be32 (tss_session_get_handle sess)
                              ++ (nonceodd ++ (0 ∷ authdata)))))))) in
        seal sys tpmdata keyhandle
          (some info)
          (length info)
          keyauth
          dataauth
          bytes
          (length bytes)
          blob
          w
        ≡ (transmit_and_close sys sess request >>>= λ tb.
              lift (sealed_blob sys sess nonceodd blob tb))
            w2
  unfolding seal send_authorized_from
  seal-request tpmdata keyhandle code keyauth dataauth info bytes blob encauth nonceodd key enonce
        sess w w1 w2 b room e1 e2 e3 e4 open_key secret odd auth even =
      let covered = be32 0x17 ++ encode_all (seal_fields encauth info bytes) in
      let authdata = auth_digest sys.sha1 sys.hmac key covered enonce nonceodd 0 in
      let hashed =
        authhmac_of sys.sha1 sys.hmac digest key enonce nonceodd covered 0
          (seal_inputs encauth (some info) (length info) bytes (length bytes)) e3 e2
          (seal_inputs-text encauth info bytes e1) in
      let built =
        seal_built tpmdata keyhandle sess encauth info bytes nonceodd authdata b room e1 e2
          (mac key _) in
      rw (open_key, secret, odd, auth, even, rw e4 at hashed, built)
