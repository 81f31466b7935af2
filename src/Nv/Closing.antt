-- ===== src/Nv/Closing.antt =====
-- The sessions of TPM_NV_ReadValueAuth and TPM_NV_WriteValueAuth (swtpm-utils/lib/nv.c).
use tpm_luks.Common.{ℕ, ◌+◌, ◌≡◌, List, some}
use tpm_luks.Common.Memory.{done}
use tpm_luks.Session.{Session, session_oiap, session_osap}
use tpm_luks.Session.Open.{System, tss_session_open, tss_session_close, et_nv}
use tpm_luks.Command.{no_session, fresh_nonce, authorized}
use tpm_luks.Command.Closing.{EndsWith, then_return, then_lift, send_authorized-EndsWith}
use tpm_luks.Nv.{tpm_nv_read_value_auth, tpm_nv_write_value_auth, read_authorized, write_authorized}

module _ {W : Type 0} (sys : System W) (nv_index offset size : ℕ) (bytes areaauth nonceodd : List ℕ)
    (sess : Session) (w w1 w2 : W) (made : fresh_nonce sys w ≡ (w1, done nonceodd))
    (opened : tss_session_open sys
        (session_osap + session_oiap)
        no_session
        (some areaauth)
        et_nv
        nv_index
        w1
      ≡ (w2, done sess)) where
  -- TPM_NV_ReadValueAuth and TPM_NV_WriteValueAuth leave no session open: once the nonce was made
  -- and the session opened, each ends with the close of that session, whether the digest, the
  -- request, the transmission, the load of the length, the check of the response and the copy
  -- succeed or not, unless it does not return at all.
  pub nv_auth-EndsWith :
      (read_size : ℕ)
      → EndsWith
          (tss_session_close sys sess)
          (tpm_nv_read_value_auth sys nv_index offset read_size (some bytes) size (some areaauth) w)
        × EndsWith
            (tss_session_close sys sess)
            (tpm_nv_write_value_auth sys nv_index offset bytes size (some areaauth) w)
  unfolding tpm_nv_read_value_auth tpm_nv_write_value_auth read_authorized write_authorized
      authorized
  nv_auth-EndsWith read_size =
      let close = tss_session_close sys sess in
      rw (made, opened)
        (
          then_lift close _ _
              (then_return close _ _ (send_authorized-EndsWith sys sess nonceodd _ _ _ _ w2)),
          then_lift close _ _
              (then_return close _ _ (send_authorized-EndsWith sys sess nonceodd _ _ _ _ w2)),
        )
